-- ===== src/Capture/Portal/Start.antt =====
-- How `RunWayland` and `stop` of internal/capture/portal_wayland.go acquire and release what they
-- hold. Whether a call of D-Bus or libei fails is an argument: `none` if it does not.
use wayland_without_borders.Prelude.{
  sym, ℕ, ◌≡◌, refl, Bool, true, false, ◌||◌, Option, none, some, List, [], ◌∷◌, if◌then◌else◌,
  GoError, Result, ok, err, Bool-cases, inl, inr,
}
use wayland_without_borders.Prelude.Int.{ℤ, pos, of_u32, eqb_ℤ}
use wayland_without_borders.Prelude.Text.{Text, bytes_of, text_eq, text_eq_sound}
use wayland_without_borders.Capture.Portal.{Portal, Barrier, barrier_at, barrier_edge}

pub data Stage : Type 0 where
  connect_bus create_session start_session get_zones set_barriers connect_eis new_receiver subscribe
        enable_capture :
      Stage

pub data Holding : Type 0 where
  bus eis_fd signal_loop ei_loop : Holding

pub data HoldEvent : Type 0 where
  opened ended : Holding → HoldEvent

abbrev pub Outcome : Type 0
Outcome = Option Stage × List HoldEvent

-- A stage: where it fails, `closing` is what its branch closes; where not, `rest` goes on. The log
-- has the events in their order.
abbrev pub attempt : Stage → GoError → List HoldEvent → Outcome → Outcome
attempt s none closing rest = rest
attempt s (some e) closing rest = (some s, closing)

abbrev pub logged : HoldEvent → Outcome → Outcome
logged e (r, log) = (r, e ∷ log)

-- The stages of `RunWayland` with their answers: the stage that failed, if one did, and the log.
abbrev pub stages :
    GoError
    → GoError
    → GoError
    → GoError
    → GoError
    → GoError
    → GoError
    → GoError
    → GoError
    → Outcome
stages connected created started zones barred eis received subscribed enabled =
    attempt connect_bus connected [] (
      logged (opened bus) (
        attempt create_session created (ended bus ∷ []) (
          attempt start_session started (ended bus ∷ []) (
            attempt get_zones zones (ended bus ∷ []) (
              attempt set_barriers barred (ended bus ∷ []) (
                attempt connect_eis eis (ended bus ∷ []) (
                  logged (opened eis_fd) (
                    attempt new_receiver received (ended eis_fd ∷ ended bus ∷ []) (
                      attempt subscribe subscribed (ended eis_fd ∷ ended bus ∷ []) (
                        logged (opened signal_loop) (
                          attempt enable_capture enabled (ended eis_fd ∷ ended bus ∷ [])
                            (none, opened ei_loop ∷ []))))))))))))

-- `RunWayland`
unfoldable pub run_wayland_stages : (Stage → GoError) → Outcome
run_wayland_stages answer =
    stages (answer connect_bus) (answer create_session) (answer start_session) (answer get_zones)
      (answer set_barriers) (answer connect_eis) (answer new_receiver) (answer subscribe)
      (answer enable_capture)

abbrev pub same : Holding → Holding → Bool
same bus bus = true
same eis_fd eis_fd = true
same signal_loop signal_loop = true
same ei_loop ei_loop = true
same a b = false

abbrev pub without : Holding → List Holding → List Holding
without h [] = []
without h (x ∷ xs) = if same x h then xs else x ∷ without h xs

-- What is held after a log.
unfoldable pub still_held : List HoldEvent → List Holding → List Holding
still_held [] held = held
still_held (opened h ∷ es) held = still_held es (h ∷ held)
still_held (ended h ∷ es) held = still_held es (without h held)

-- Who calls `stop`: the program's loop at the end of a session, or `feed`, within eiLoop, when libei
-- disconnects.
pub data Caller : Type 0 where
  session_end ei_feed : Caller

abbrev pub calls_itself : List Caller → Bool
calls_itself [] = false
calls_itself (session_end ∷ callers) = calls_itself callers
calls_itself (ei_feed ∷ callers) = true

-- `close(p.stopCh)`: a loop returns at its next select. eiLoop does not get there while it is in a
-- call of `stop` itself: that call runs the body and waits, or it waits in `stopOnce` for the call
-- that does.
unfoldable pub close_stop_ch : List Caller → List Holding → List Holding
close_stop_ch callers [] = []
close_stop_ch callers (signal_loop ∷ held) = close_stop_ch callers held
close_stop_ch callers (ei_loop ∷ held) =
    let rest = close_stop_ch callers held in if calls_itself callers then ei_loop ∷ rest else rest
close_stop_ch callers (eis_fd ∷ held) = eis_fd ∷ close_stop_ch callers held
close_stop_ch callers (bus ∷ held) = bus ∷ close_stop_ch callers held

-- The wait group is done when no loop is left.
unfoldable pub wait_is_over : List Holding → Bool
wait_is_over [] = true
wait_is_over (signal_loop ∷ held) = false
wait_is_over (ei_loop ∷ held) = false
wait_is_over (eis_fd ∷ held) = wait_is_over held
wait_is_over (bus ∷ held) = wait_is_over held

-- `stop` with all its callers, the later ones while it runs: what is held, and whether the calls
-- return. The receiver, which owns the descriptor, and the bus are closed when the wait is over.
unfoldable pub stop : List Caller → List Holding → List Holding × Bool
unfolding close_stop_ch wait_is_over
stop [] held = (held, true)
stop (caller ∷ callers) held =
    let left = close_stop_ch (caller ∷ callers) held in
    if wait_is_over left then (without bus (without eis_fd left), true) else (left, false)

-- A start, and the calls of `stop` behind it, if it succeeded.
abbrev pub held_at_end : List Caller → Outcome → List Holding × Bool
held_at_end callers (none, log) = stop callers (still_held log [])
held_at_end callers (some s, log) = (still_held log [], true)

-- What stays held for good, and whether the calls of `stop` return, by the stage that failed, if one
-- did, and whether libei disconnects.
abbrev pub leak_of : Option Stage → Bool → List Holding × Bool
leak_of none false = ([], true)
leak_of none true = (ei_loop ∷ eis_fd ∷ bus ∷ [], false)
leak_of (some enable_capture) disconnects = (signal_loop ∷ [], true)
leak_of (some s) disconnects = ([], true)

abbrev pub Leaks : List Caller → Outcome → Type 0
Leaks callers o = held_at_end callers o ≡ leak_of o.0 (calls_itself callers)

held_at_end_stages :
    (caller : Caller) (callers : List Caller)
    (connected created started zones barred eis received subscribed enabled : GoError)
    → Leaks
        (caller ∷ callers)
        (stages connected created started zones barred eis received subscribed enabled)
unfolding still_held stop close_stop_ch wait_is_over
held_at_end_stages k ks (some x) b c d e f g h i = refl
held_at_end_stages k ks none (some x) c d e f g h i = refl
held_at_end_stages k ks none none (some x) d e f g h i = refl
held_at_end_stages k ks none none none (some x) e f g h i = refl
held_at_end_stages k ks none none none none (some x) f g h i = refl
held_at_end_stages k ks none none none none none (some x) g h i = refl
held_at_end_stages k ks none none none none none none (some x) h i = refl
held_at_end_stages k ks none none none none none none none (some x) i = refl
held_at_end_stages k ks none none none none none none none none (some x) = refl
held_at_end_stages k ks none none none none none none none none none =
    elim (Bool-cases (calls_itself (k ∷ ks))) [ inl e ↦ rw e refl | inr e ↦ rw e refl ]

-- Whatever the desktop answers, a start that fails leaves nothing held, except that the signal loop
-- goes on for good where the last call, `Enable`, fails. Behind a start that succeeds, and one call
-- of `stop` or more, nothing is held and the calls return, unless eiLoop is among the callers, for
-- libei has disconnected: then eiLoop, the descriptor and the bus are held for good, and no call of
-- `stop` returns, since eiLoop waits for itself.
pub run_wayland_stages_lem :
    (answer : Stage → GoError) (caller : Caller) (callers : List Caller)
    → Leaks (caller ∷ callers) (run_wayland_stages answer)
unfolding run_wayland_stages
run_wayland_stages_lem answer caller callers =
    held_at_end_stages caller callers (answer connect_bus) (answer create_session)
      (answer start_session) (answer get_zones) (answer set_barriers) (answer connect_eis)
      (answer new_receiver) (answer subscribe) (answer enable_capture)

-- `getZones` on the zones that were decoded, as width, height and origin: the first one counts.
pub data ZoneError : Type 0 where
  empty_zones zero_size_zone : ZoneError

unfoldable pub zone_of : List (ℕ × ℕ × ℤ × ℤ) → Result ZoneError (ℤ × ℤ × ℤ × ℤ)
zone_of [] = err empty_zones
zone_of ((w, h, x, y) ∷ zones) =
    if eqb_ℤ (of_u32 w) (pos 0) || eqb_ℤ (of_u32 h) (pos 0)
    then err zero_size_zone
    else ok (of_u32 w, of_u32 h, x, y)

-- The id of the barrier on an edge stands for that edge when it comes back with a crossing.
abbrev pub IsBarrierOf : Text → Option Barrier → Type 0
IsBarrierOf e none = Unit
IsBarrierOf e (some b) = barrier_edge b.id ≡ e

-- For each edge that gets a barrier, the id that comes back with a crossing tells that edge.
pub barrier_at-barrier_edge :
    {F : Type 0} (p : Portal F) (e : Text) → IsBarrierOf e (barrier_at p e)
unfolding barrier_at barrier_edge
barrier_at-barrier_edge p e = elim (Bool-cases (text_eq e (bytes_of "left"))) [
  | inl h ↦ rw (h, barrier_at) (sym (text_eq_sound e (bytes_of "left") h))
  | inr l ↦ elim (Bool-cases (text_eq e (bytes_of "right"))) [
    | inl h ↦ rw (l, h, barrier_at) (sym (text_eq_sound e (bytes_of "right") h))
    | inr r ↦ elim (Bool-cases (text_eq e (bytes_of "top"))) [
      | inl h ↦ rw (l, r, h, barrier_at) (sym (text_eq_sound e (bytes_of "top") h))
      | inr t ↦ elim (Bool-cases (text_eq e (bytes_of "bottom"))) [
        | inl h ↦ rw (l, r, t, h, barrier_at) (sym (text_eq_sound e (bytes_of "bottom") h))
        | inr b ↦ rw (l, r, t, b, barrier_at) tt
      ]
    ]
  ]
]
