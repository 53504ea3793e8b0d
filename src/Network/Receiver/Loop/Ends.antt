-- ===== src/Network/Receiver/Loop/Ends.antt =====
-- The receive loop ends on every finite input (internal/network/receiver.go).
use wayland_without_borders.Prelude.{
  ℕ, zero, suc, ◌*◌, ◌<◌, ◌≡◌, ◌≢◌, refl, ap, Bool, true, false, Option, none, some, List,
  if◌then◌else◌, length, get_or, Result, ok, err, arith, Bool-cases, inl, inr,
}
use wayland_without_borders.Prelude.Float.{Float64}
use wayland_without_borders.Protocol.Types.{is_big_packet, packet_size}
use wayland_without_borders.Protocol.Packet.{Packet}
use wayland_without_borders.Protocol.Stamp.{StampError, stamp_packet, validate_packet, clear_stamp}
use wayland_without_borders.Protocol.Stream.{
  BlockCipher, StreamError, Fate, Source, DecryptReader, read_full,
}
use wayland_without_borders.Network.Devices.{MouseDevice, KeyboardDevice, ClipboardHandler}
use wayland_without_borders.Network.Handler.{World, HandlerState}
use wayland_without_borders.Network.Conn.{
  Conn, ◌>>=◌, RecvError, read_packet, read_extended, invalid_stamp, invalid_packet, send_packet,
  recv_packet, recv_cleared, extended, checked, received, named_packet,
}
use wayland_without_borders.Network.Receiver.{
  Route, answered_with, finished, ignored, handled, route,
}
use wayland_without_borders.Network.Receiver.Loop.{
  LoopEnd, nil, out_of_fuel, failed, is_eof, loop_end, Machine, serve, go_on, served, receive_loop,
}
use wayland_without_borders.Network.Receiver.Loop.Reads.{Took, packet_takes, packet_shrinks}

-- What holds of the value, if there is one.
abbrev pub OnSome {ℓ κ} : {A : Type ℓ} → (A → Type κ) → Option A → Type κ
OnSome P none = Unit
OnSome P (some a) = P a

pub on_bind {ℓ κ μ} :
    {A : Type ℓ} {B : Type κ} (P : B → Type μ) (x : Option A) (f : A → Option B)
    → ((a : A) → OnSome P (f a))
    → OnSome P (x >>= f)
on_bind P none f h = tt
on_bind P (some a) f h = h a

module _ (c : BlockCipher) where
  abbrev Received : Type 0
  Received = Result RecvError Packet × Conn c

  -- A packet that was received took a block at least.
  abbrev Reads : Source → Received → Type 0
  Reads before (ok p, conn) = Took 16 before conn.dec.r
  Reads before (err e, conn) = Unit

  any_result :
      (before : Source) (x : Result RecvError Packet) (conn : Conn c)
      → Took 16 before conn.dec.r
      → Reads before (x, conn)
  any_result before (ok p) conn h = h
  any_result before (err e) conn h = tt

  extended-Reads :
      (before : Source) (buf : List ℕ) (conn : Conn c)
      (r : Result StreamError (List ℕ) × DecryptReader c)
      → Took 16 before r.1.r
      → Reads before (extended c buf conn r)
  extended-Reads before buf conn (ok ext, d) h = any_result before _ (record conn { dec = d }) h
  extended-Reads before buf conn (err e, d) h = tt

  cleared-Reads :
      (before : Source) (conn : Conn c) (buf : List ℕ)
      → Took 16 before conn.dec.r
      → Reads before (recv_cleared c conn buf)
  unfolding recv_cleared
  cleared-Reads before conn buf h = elim (Bool-cases (is_big_packet (get_or buf 0 0))) [
    | inl big ↦ rw big (
        extended-Reads before buf conn (read_full c conn.dec packet_size)
          (omega (arith, packet_shrinks c conn.dec)))
    | inr small ↦ rw small (any_result before _ conn h)
  ]

  checked-Reads :
      (before : Source) (conn : Conn c) (buf : List ℕ) (verdict : Result StampError (Unit {0}))
      → Took 16 before conn.dec.r
      → OnSome (Reads before) (checked c conn buf verdict)
  checked-Reads before conn buf (err e) h = tt
  checked-Reads before conn buf (ok u) h =
      on_bind (Reads before) (clear_stamp buf) _ (λ cleared. cleared-Reads before conn cleared h)

  received-Reads :
      (now : ℕ) (conn : Conn c) (r : Result StreamError (List ℕ) × DecryptReader c)
      → ((bytes : List ℕ) → r.0 ≡ ok bytes → Took 16 conn.dec.r r.1.r)
      → OnSome (Reads conn.dec.r) (received c now conn r)
  received-Reads now conn (err e, d) h = tt
  received-Reads now conn (ok buf, d) h =
      on_bind (Reads conn.dec.r) (validate_packet buf conn.magic) _ (λ verdict.
        checked-Reads conn.dec.r (record conn { dec = d; last_recv = now }) buf verdict
          (h buf refl))

  recv-Reads : (now : ℕ) (conn : Conn c) → OnSome (Reads conn.dec.r) (recv_packet c now conn)
  unfolding recv_packet
  recv-Reads now conn =
      received-Reads now conn (read_full c conn.dec packet_size) (packet_takes c conn.dec)

  send_keeps_input :
      (fate : Fate) (conn : Conn c) (p : Packet)
      → OnSome
          (λ (r : Conn c × Option StreamError). r.0.dec.r ≡ conn.dec.r)
          (send_packet c fate conn p)
  unfolding send_packet
  send_keeps_input fate conn p = on_bind _ (stamp_packet _ conn.magic) _ (λ buf. refl)

module _ (c : BlockCipher) (fl : Float64) (kb : KeyboardDevice) (md : MouseDevice)
    (cb : ClipboardHandler) where
  abbrev State : Type 0
  State = Machine c fl kb md cb

  -- An answer and the handler leave the input alone.
  serve_keeps_input :
      (r : Route) (w : World) (fate : Fate) (m : State) (p : Packet)
      → OnSome (λ (s : State × Bool). s.0.0.dec.r ≡ m.0.dec.r) (serve c fl kb md cb r w fate m p)
  unfolding serve
  serve_keeps_input (answered_with t) w fate (conn, h) p =
      on_sent (send_packet c fate conn (named_packet c conn t p.src))
        (send_keeps_input c fate conn _)
    where
      on_sent :
          (x : Option (Conn c × Option StreamError))
          → OnSome (λ (r : Conn c × Option StreamError). r.0.dec.r ≡ conn.dec.r) x
          → OnSome
              (λ (s : State × Bool). s.0.0.dec.r ≡ conn.dec.r)
              (x >>= λ r. some ((r.0, h), true))
      on_sent none e = tt
      on_sent (some r) e = e
  serve_keeps_input finished w fate m p = refl
  serve_keeps_input ignored w fate m p = refl
  serve_keeps_input handled w fate (conn, h) p = refl

  abbrev pub Ends : LoopEnd × State → Type 0
  Ends r = r.0 ≢ out_of_fuel

  if_eof : (b : Bool) (e : RecvError) → (if b then nil else failed e) ≢ out_of_fuel
  if_eof true e = λ q. cc
  if_eof false e = λ q. cc

  loop_end-Ends : (e : RecvError) → loop_end e ≢ out_of_fuel
  unfolding loop_end
  loop_end-Ends (read_packet e) = if_eof (is_eof e) _
  loop_end-Ends (read_extended e) = if_eof (is_eof e) _
  loop_end-Ends (invalid_stamp e) = λ q. cc
  loop_end-Ends (invalid_packet e) = λ q. cc

  -- Behind a packet whose reading took a block, the rest of the loop has fuel enough.
  go_on-Ends :
      (fuel : ℕ) (before : Source) (next : State → Option (LoopEnd × State))
      → length before.input < 16 * suc fuel
      → ((m : State) → length m.0.dec.r.input < 16 * fuel → OnSome Ends (next m))
      → (at : Source) → Took 16 before at
      → (x : Option (State × Bool)) → OnSome (λ (s : State × Bool). s.0.0.dec.r ≡ at) x
      → OnSome Ends (x >>= go_on c fl kb md cb next)
  go_on-Ends fuel before next enough rest at took none e = tt
  go_on-Ends fuel before next enough rest at took (some (m, true)) e =
      rest m (omega (arith, ap (λ s. length s.input) e))
  go_on-Ends fuel before next enough rest at took (some (m, false)) e = λ q. cc

  served-Ends :
      (fuel : ℕ) (before : Source) (next : State → Option (LoopEnd × State)) (w : World)
      (fate : Fate) (h : HandlerState fl kb md cb)
      → length before.input < 16 * suc fuel
      → ((m : State) → length m.0.dec.r.input < 16 * fuel → OnSome Ends (next m))
      → (x : Option (Received c)) → OnSome (Reads c before) x
      → OnSome Ends (x >>= served c fl kb md cb next w fate h)
  served-Ends fuel before next w fate h enough rest none r = tt
  served-Ends fuel before next w fate h enough rest (some (err e, conn)) r = loop_end-Ends e
  served-Ends fuel before next w fate h enough rest (some (ok p, conn)) r =
      go_on-Ends fuel before next enough rest conn.dec.r r _
        (serve_keeps_input (route p.typ) w fate (conn, h) p)

  -- On an input of fewer than 16 bytes for each round of fuel, the receive loop does not run out of it:
  -- whatever the bytes, the cipher, the handler and the fate of the answers, it returns, unless an
  -- access out of bounds stops it.
  pub receive_loop-Ends :
      (fuel : ℕ) (worlds : ℕ → World) (fate : Fate) (m : State)
      → length m.0.dec.r.input < 16 * fuel
      → OnSome Ends (receive_loop c fl kb md cb fuel worlds fate m)
  unfolding receive_loop
  receive_loop-Ends zero worlds fate m enough = absurd (omega arith)
  receive_loop-Ends (suc fuel) worlds fate (conn, h) enough =
      served-Ends fuel conn.dec.r _ (worlds fuel) fate h enough (receive_loop-Ends fuel worlds fate)
        (recv_packet c (worlds fuel).now conn) (recv-Reads c (worlds fuel).now conn)
