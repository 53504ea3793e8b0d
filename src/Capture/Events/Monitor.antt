-- ===== src/Capture/Events/Monitor.antt =====
-- `monitorDevice` of internal/capture/capture_linux.go, and the bytes of an event as
-- internal/input/uinput.go writes it.
use wayland_without_borders.Prelude.{
  ℕ, zero, suc, ◌+◌, ◌*◌, ◌/◌, ◌%◌, ◌^◌, ◌≤◌, ◌<◌, ◌≡◌, refl, ap, true, List, [], ◌∷◌, ◌++◌, leb,
  if◌then◌else◌, length, take, drop, map, arith,
}
use wayland_without_borders.Prelude.Int.{ℤ, IsI32, to_u32}
use wayland_without_borders.Prelude.Float.{Float64}
use wayland_without_borders.Prelude.Bytes.{All, le_bytes_32, le_bytes_64, u32_at}
use wayland_without_borders.Protocol.Packet.RoundTrip.{i32_word}
use wayland_without_borders.Capture.{Capturer}
use wayland_without_borders.Capture.Events.{InputEvent, parse_event, handle_event}

-- A struct input_event: its time in seconds and microseconds, two words of 64 bits, and the event.
-- The virtual devices write it by `binary.Write`, with the times 0.
unfoldable pub event_bytes : (ℕ × ℕ) × InputEvent → List ℕ
event_bytes ((seconds, micros), e) =
    le_bytes_64 seconds
    ++ (le_bytes_64 micros
        ++ ((e.typ % 256)
            ∷ (e.typ / 256 % 256)
            ∷ (e.code % 256)
            ∷ (e.code / 256 % 256)
            ∷ le_bytes_32 (to_u32 e.value)))

unfoldable pub all_bytes : List ((ℕ × ℕ) × InputEvent) → List ℕ
all_bytes [] = []
all_bytes (e ∷ es) = event_bytes e ++ all_bytes es

-- The loop over what one read gave, with a unit of fuel for each byte: a round takes 24 bytes.
unfoldable pub events_loop : ℕ → List ℕ → List InputEvent
unfolding parse_event
events_loop zero buf = []
events_loop (suc fuel) buf =
    let rest = events_loop fuel (drop 24 buf) in
    if leb 24 (length buf) then parse_event (take 24 buf) ∷ rest else []

unfoldable pub events_read : List ℕ → List InputEvent
unfolding events_loop
events_read buf = events_loop (length buf) buf

-- The ranges that Go's types give.
abbrev pub IsEvent : (ℕ × ℕ) × InputEvent → Type 0
IsEvent (time, e) = (e.typ < 2 ^ 16) × (e.code < 2 ^ 16) × IsI32 e.value

word_16 : (v : ℕ) → v < 2 ^ 16 → v % 256 + 256 * (v / 256 % 256) ≡ v
word_16 v h = omega arith

-- An event is read from its bytes as it was, whatever follows.
parse_event-event_bytes :
    (e : (ℕ × ℕ) × InputEvent) (rest : List ℕ)
    → IsEvent e
    → parse_event (take 24 (event_bytes e ++ rest)) ≡ e.1
unfolding parse_event event_bytes u32_at
parse_event-event_bytes (time, e) rest (t, c, v) =
    fields (word_16 e.typ t) (word_16 e.code c) (i32_word e.value v)
  where
    fields :
        {t t' c c' : ℕ} {v v' : ℤ}
        → t ≡ t'
        → c ≡ c'
        → v ≡ v'
        → ◌≡◌ {A = InputEvent}
            (record { typ = t; code = c; value = v })
            (record { typ = t'; code = c'; value = v' })
    fields p q r = cc

drop-event_bytes :
    (e : (ℕ × ℕ) × InputEvent) (rest : List ℕ) → drop 24 (event_bytes e ++ rest) ≡ rest
unfolding event_bytes
drop-event_bytes e rest = refl

long : (e : (ℕ × ℕ) × InputEvent) (rest : List ℕ) → leb 24 (length (event_bytes e ++ rest)) ≡ true
unfolding event_bytes
long e rest = ground arith

loop-all_bytes :
    (es : List ((ℕ × ℕ) × InputEvent)) (fuel : ℕ)
    → All IsEvent es
    → length es ≤ fuel
    → events_loop fuel (all_bytes es) ≡ map (λ e. e.1) es
unfolding events_loop all_bytes
loop-all_bytes [] zero v h = refl
loop-all_bytes [] (suc fuel) v h = refl
loop-all_bytes (e ∷ es) zero v h = absurd (omega arith)
loop-all_bytes (e ∷ es) (suc fuel) (v, vs) h =
    rw
      (
        long e (all_bytes es),
        parse_event-event_bytes e (all_bytes es) v,
        drop-event_bytes e (all_bytes es),
      )
      (ap (λ rest. e.1 ∷ rest) (loop-all_bytes es fuel vs (omega arith)))

enough : (es : List ((ℕ × ℕ) × InputEvent)) → length es ≤ length (all_bytes es)
unfolding all_bytes event_bytes
enough [] = omega arith
enough (e ∷ es) = omega (arith, enough es)

-- What one read gives holds the events whose bytes it holds, in their order, and no other, whatever
-- times they carry: in the format in which the virtual devices write events, with the time 0, and the
-- kernel with real times.
pub events_read-all_bytes :
    (es : List ((ℕ × ℕ) × InputEvent))
    → All IsEvent es
    → events_read (all_bytes es) ≡ map (λ e. e.1) es
unfolding events_read
events_read-all_bytes es v = loop-all_bytes es (length (all_bytes es)) v (enough es)

-- `monitorDevice`: the events of one read go to the handler in their order.
module _ (fl : Float64) where
  unfoldable pub handle_events :
      List (ℕ × ℕ) → ℕ → List ℕ → List InputEvent → Capturer fl.F → Capturer fl.F
  unfolding handle_event
  handle_events order now attached [] c = c
  handle_events order now attached (e ∷ es) c =
      handle_events order now attached es (handle_event fl order now attached e c)

  unfoldable pub monitor_read : List (ℕ × ℕ) → ℕ → List ℕ → List ℕ → Capturer fl.F → Capturer fl.F
  unfolding handle_events events_read
  monitor_read order now attached buf = handle_events order now attached (events_read buf)
