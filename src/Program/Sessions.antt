-- ===== src/Program/Sessions.antt =====
-- What the loop of cmd/mwb/main.go keeps over all its sessions.
use wayland_without_borders.Prelude.{
  Option, sym, ℕ, suc, ◌≡◌, refl, Bool, true, false, none, some, List, [], ◌∷◌, ◌++◌, GoError,
  length, arith, ◌∙◌, ◌≢◌, ap, ◌==◌, inl, inr, ◌⊎◌, not,
}
use wayland_without_borders.Prelude.Float.{Float64}
use wayland_without_borders.Prelude.Bytes.{All, All-append}
use wayland_without_borders.Protocol.Packet.{Packet}
use wayland_without_borders.Protocol.Stream.{BlockCipher}
use wayland_without_borders.Input.Keymap.Registered.{IsPick}
use wayland_without_borders.Input.Uinput.Keyboard.{InSync, is_down, key_down-InSync, key_up-InSync}
use wayland_without_borders.Input.Uinput.Release.{
  TakesAll, release_all-InSync, release_all_ok, release_all-is_down,
}
use wayland_without_borders.Network.Conn.{Conn, ◌>>=◌}
use wayland_without_borders.Network.Devices.{
  MouseDevice, KeyboardDevice, ClipboardHandler, virtual_keyboard,
}
use wayland_without_borders.Network.Handler.{World, HandlerState, handle_packet, release_held_keys}
use wayland_without_borders.Network.Handler.Keys.{release_all_keys}
use wayland_without_borders.Network.Handler.Released.{handle_packets, handle_packets-Keeps}
use wayland_without_borders.Network.Receiver.Loop.{LoopEnd, out_of_fuel, Machine, receive_loop}
use wayland_without_borders.Network.Receiver.Loop.Ends.{OnSome, Ends, receive_loop-Ends}
use wayland_without_borders.Program.{
  Settings, openings, closings, capture_stops, Driver, no_driver, xinput_driver, portal_driver,
  failed_driver, driver, Session, Program, Winner, outbound, inbound, serve_session, session,
  sessions, hooked, attached, unblocked,
}
use wayland_without_borders.Capture.Portal.Start.{
  session_end, ei_feed, run_wayland_stages, run_wayland_stages_lem,
}
use wayland_without_borders.Program.Resources.{
  held_after, held_after-append, session_nested, held_in_session, session_blocked, IsSignalLoop,
  portal_of-blocks, driver-IsTidy, driver_stops, driver_on_portal, session_calm,
}
use wayland_without_borders.Program.Kept.{
  on_both, bind_on, if_false, if_true, on_weaken, receive_loop_keeps,
}

module _ (c : BlockCipher) (fl : Float64) (md : MouseDevice) (cb : ClipboardHandler)
    (answer : ℕ → GoError) (takes : TakesAll answer) (pick : List ℕ → List ℕ)
    (any_order : IsPick pick) where
  abbrev kb : KeyboardDevice
  kb = virtual_keyboard answer pick

  abbrev State : Type 0
  State = Program c fl kb md cb

  abbrev HandlerInSync : HandlerState fl kb md cb → Type 0
  HandlerInSync h = InSync h.keys.keyboard

  -- What holds between two sessions: no key is down and the keyboard knows it, nothing is held,
  -- nothing but signal loops was left running, every receive loop so far has returned, and the
  -- program's loop is not blocked.
  pub record IsBetween (p : Program c fl (virtual_keyboard answer pick) md cb) : Type 0 where
    pub in_sync : InSync p.handler.keys.keyboard
    pub up : (a : ℕ) → is_down a p.handler.keys.keyboard.fd.written ≡ false
    pub free : held_after p.log [] ≡ some []
    pub left : All IsSignalLoop p.log
    pub returned : All (λ (e : LoopEnd). e ≢ out_of_fuel) p.ends
    pub running : p.blocked ≡ false

  -- What holds of a program that is blocked for good: no key is down, and the clipboard manager and
  -- the connection are still held.
  pub record IsBlocked (clipboard : Bool) (p : Program c fl (virtual_keyboard answer pick) md cb)
      : Type 0 where
    pub up : (a : ℕ) → is_down a p.handler.keys.keyboard.fd.written ≡ false
    pub holds : held_after p.log [] ≡ some (held_in_session clipboard)
    pub returned : All (λ (e : LoopEnd). e ≢ out_of_fuel) p.ends
    pub blocked : p.blocked ≡ true

  packet-InSync :
      (w : World) (h : HandlerState fl kb md cb) (p : Packet)
      → HandlerInSync h
      → HandlerInSync (handle_packet fl kb md cb w h p)
  unfolding handle_packets
  packet-InSync w h p k =
      handle_packets-Keeps fl kb md cb InSync (key_down-InSync answer) (key_up-InSync answer)
        (λ d. release_all-InSync answer takes pick d any_order) ((w, p) ∷ []) h k

  hooked-InSync :
      (capture : Driver) (h : HandlerState fl kb md cb)
      → HandlerInSync h
      → HandlerInSync (hooked c fl kb md cb capture h)
  hooked-InSync no_driver h k = k
  hooked-InSync xinput_driver h k = k
  hooked-InSync (portal_driver held) h k = k
  hooked-InSync (failed_driver left) h k = k

  attached-InSync :
      (clipboard : Bool) (manager : cb.State) (h : HandlerState fl kb md cb)
      → HandlerInSync h
      → HandlerInSync (attached c fl kb md cb clipboard manager h)
  attached-InSync true manager h k = k
  attached-InSync false manager h k = k

  -- What one session does to the program, however it ends.
  record IsServed (s : Settings) (i : Session c fl (virtual_keyboard answer pick) md cb)
      (p q : Program c fl (virtual_keyboard answer pick) md cb) : Type 0 where
    in_sync : InSync q.handler.keys.keyboard
    up : (a : ℕ) → is_down a q.handler.keys.keyboard.fd.written ≡ false
    log :
        q.log
        ≡ p.log
          ++ (openings s.clipboard (driver s i.wayland i.answers)
              ++ closings s.clipboard i.disconnects (driver s i.wayland i.answers))
    returned : All (λ (e : LoopEnd). e ≢ out_of_fuel) q.ends
    blocked : q.blocked ≡ not (capture_stops i.disconnects (driver s i.wayland i.answers))

  serve_session-IsServed :
      (s : Settings) (i : Session c fl kb md cb) (conn : Conn c) (p : State)
      → IsBetween p
      → OnSome (IsServed s i p) (serve_session c fl kb md cb s i conn p)
  unfolding serve_session release_held_keys release_all_keys
  serve_session-IsServed s i conn p b =
      let start : Machine c fl kb md cb = (
        conn,
        hooked c fl kb md cb (driver s i.wayland i.answers)
            (attached c fl kb md cb s.clipboard i.manager p.handler),
      ) in
      let fuel : ℕ = suc (length conn.dec.r.input) in
      bind_on (λ r. HandlerInSync r.1.1 × Ends c fl kb md cb r) (IsServed s i p)
        (receive_loop c fl kb md cb fuel i.worlds i.fate start) _
        (on_both (λ r. HandlerInSync r.1.1) (Ends c fl kb md cb) _
          (receive_loop_keeps c fl kb md cb HandlerInSync packet-InSync fuel i.worlds i.fate start (
            hooked-InSync (driver s i.wayland i.answers) _
              (attached-InSync s.clipboard i.manager p.handler b.in_sync)))
          (receive_loop-Ends c fl kb md cb fuel i.worlds i.fate start (omega arith)))
        (λ r (k, ends). record {
          in_sync = release_all-InSync answer takes pick r.1.1.keys.keyboard any_order k;
          up = λ a.
              release_all-is_down answer pick r.1.1.keys.keyboard a any_order k
                (release_all_ok answer takes pick r.1.1.keys.keyboard);
          log = refl;
          returned = (ends, b.returned);
          blocked = refl;
        })

  -- The log of a session behind one that released all.
  held_after_session :
      (s : Settings) (i : Session c fl kb md cb) (p q : State)
      → IsBetween p
      → IsServed s i p q
      → held_after q.log []
        ≡ held_after
            (openings s.clipboard (driver s i.wayland i.answers)
              ++ closings s.clipboard i.disconnects (driver s i.wayland i.answers))
            []
  held_after_session s i p q b k =
      ap (λ l. held_after l []) k.log ∙ held_after-append p.log _ [] ∙ rw (b.free) refl

  between :
      (s : Settings) (i : Session c fl kb md cb) (p q : State)
      → IsBetween p
      → i.disconnects ≡ false
      → IsServed s i p q
      → IsBetween q
  between s i p q b on k =
      let capture : Driver = driver s i.wayland i.answers in
      let stops : capture_stops i.disconnects capture ≡ true =
        rw on (driver_stops s i.wayland i.answers) in
      record {
        in_sync = k.in_sync;
        up = k.up;
        free =
            held_after_session s i p q b k ∙ session_nested s.clipboard i.disconnects capture stops;
        left = rw (k.log) (
            All-append IsSignalLoop p.log _ b.left (
              session_calm s.clipboard i.disconnects capture
                (driver-IsTidy s i.wayland i.answers)));
        returned = k.returned;
        running = k.blocked ∙ rw stops refl;
      }

  -- Whatever the sessions, attempts to connect that failed among them, if libei disconnects in none
  -- of them, and whatever their packets and the desktop's answers: let, before them, no key be down
  -- and the keyboard's map agree with that, nothing be held, nothing but signal loops have been left
  -- running, each receive loop have returned and the program's loop not be blocked, as is so at first.
  -- Then all of that is so behind them, unless an access out of bounds stops the program: each key is
  -- up, the connection, the clipboard manager and the capture driver of each session were released,
  -- the last acquired first, and a start of the Wayland driver that failed left nothing but a signal
  -- loop. The kernel takes every event.
  pub sessions-IsBetween :
      (s : Settings) (is : List (Session c fl (virtual_keyboard answer pick) md cb))
      (p : Program c fl (virtual_keyboard answer pick) md cb)
      → IsBetween p
      → All (λ i. i.disconnects ≡ false) is
      → OnSome IsBetween (sessions c fl (virtual_keyboard answer pick) md cb s is p)
  unfolding sessions session
  sessions-IsBetween s [] p b on = b
  sessions-IsBetween s (i ∷ is) p b (on, others) =
      bind_on IsBetween IsBetween (session c fl kb md cb s i p)
        (unblocked c fl kb md cb (sessions c fl kb md cb s is)) (one i.winner)
        (λ q k.
          if_false (OnSome IsBetween) q.blocked _ _ k.running (sessions-IsBetween s is q k others))
    where
      one :
          (w : Winner c fl kb md cb)
          → OnSome IsBetween (elim w [
            | outbound none ↦ some p
            | outbound (some conn) ↦ serve_session c fl kb md cb s i conn p
            | inbound conn ↦ serve_session c fl kb md cb s i conn p
          ])
      one (outbound none) = b
      one (outbound (some conn)) =
          on_weaken (IsServed s i p) IsBetween _ (serve_session-IsServed s i conn p b)
            (λ q. between s i p q b on)
      one (inbound conn) =
          on_weaken (IsServed s i p) IsBetween _ (serve_session-IsServed s i conn p b)
            (λ q. between s i p q b on)

  blocked :
      (s : Settings) (i : Session c fl kb md cb) (p q : State)
      → IsBetween p
      → s.bidi ≡ true
      → i.wayland ≡ true
      → (length s.edges == 0) ≡ false
      → (run_wayland_stages i.answers).0 ≡ none
      → i.disconnects ≡ true
      → IsServed s i p q
      → IsBlocked s.clipboard q
  blocked s i p q b bidi wayland edges started gone k =
      let (held, on_portal, blocks) =
        portal_of-blocks (run_wayland_stages i.answers) started
          (run_wayland_stages_lem i.answers ei_feed (session_end ∷ [])) in
      let capture : driver s i.wayland i.answers ≡ portal_driver held =
        driver_on_portal s i.wayland i.answers held bidi wayland edges on_portal in
      record {
        up = k.up;
        holds =
            held_after_session s i p q b k
            ∙ rw (capture, gone) (session_blocked s.clipboard true held blocks);
        returned = k.returned;
        blocked = k.blocked ∙ rw (capture, gone, blocks) refl;
      }

  unblocked_stays :
      (f g : State → Option State) (x : Option State)
      → OnSome (λ q. q.blocked ≡ true) x
      → (x >>= unblocked c fl kb md cb f) ≡ (x >>= unblocked c fl kb md cb g)
  unblocked_stays f g none e = refl
  unblocked_stays f g (some q) e =
      if_true (λ x. x ≡ some q) q.blocked (some q) (f q) e refl
      ∙ sym (if_true (λ x. x ≡ some q) q.blocked (some q) (g q) e refl)

  -- A session on which libei disconnects is the last one, if the program captures under Wayland at
  -- some edge, the Wayland driver started and a connection was made. The program was between two
  -- sessions: no key down and the keyboard's map in agreement, nothing held, only signal loops left
  -- running, each receive loop returned, its own loop not blocked. The kernel takes every event. Then
  -- the program ends as if no session were to follow. Unless an access out of bounds stops it, the
  -- receive loop has returned and each key is up, but the program's loop is blocked in the stop of
  -- the capture, and the capture, the clipboard manager, if there is one, and the connection are
  -- still held.
  pub sessions-IsBlocked :
      (s : Settings) (i : Session c fl (virtual_keyboard answer pick) md cb)
      (is : List (Session c fl (virtual_keyboard answer pick) md cb)) (conn : Conn c)
      (p : Program c fl (virtual_keyboard answer pick) md cb)
      → IsBetween p
      → s.bidi ≡ true
      → i.wayland ≡ true
      → (length s.edges == 0) ≡ false
      → (run_wayland_stages i.answers).0 ≡ none
      → i.disconnects ≡ true
      → (i.winner ≡ inbound conn) ⊎ (i.winner ≡ outbound (some conn))
      → (sessions c fl (virtual_keyboard answer pick) md cb s (i ∷ is) p
          ≡ sessions c fl (virtual_keyboard answer pick) md cb s (i ∷ []) p)
        × OnSome
            (IsBlocked s.clipboard)
            (sessions c fl (virtual_keyboard answer pick) md cb s (i ∷ is) p)
  unfolding sessions session
  sessions-IsBlocked s i is conn p b bidi wayland edges started gone met = elim met [
    | inl e ↦ rw e (alone, served_last)
    | inr e ↦ rw e (alone, served_last)
  ]
    where
      ends_blocked : (q : State) → IsServed s i p q → IsBlocked s.clipboard q
      ends_blocked q = blocked s i p q b bidi wayland edges started gone

      alone :
          (serve_session c fl kb md cb s i conn p
            >>= unblocked c fl kb md cb (sessions c fl kb md cb s is))
          ≡ (serve_session c fl kb md cb s i conn p
              >>= unblocked c fl kb md cb (sessions c fl kb md cb s []))
      alone = unblocked_stays (sessions c fl kb md cb s is) (sessions c fl kb md cb s []) _ (
          on_weaken (IsServed s i p) (λ q. q.blocked ≡ true) _ (serve_session-IsServed s i conn p b)
            (λ q k. (ends_blocked q k).blocked))

      served_last : OnSome (IsBlocked s.clipboard) (
          serve_session c fl kb md cb s i conn p
          >>= unblocked c fl kb md cb (sessions c fl kb md cb s is))
      served_last =
          bind_on (IsServed s i p) (IsBlocked s.clipboard) (serve_session c fl kb md cb s i conn p)
            (unblocked c fl kb md cb (sessions c fl kb md cb s is))
            (serve_session-IsServed s i conn p b)
            (λ q k.
              if_true (OnSome (IsBlocked s.clipboard)) q.blocked _ _ (ends_blocked q k).blocked
                (ends_blocked q k))
