-- ===== src/Network/Handler/Released.antt =====
-- No key is left down when the cursor leaves or arrives: the whole handler over the virtual
-- devices (internal/network/handler.go and internal/input/uinput.go).
use wayland_without_borders.Prelude.{
  ℕ, ◌≡◌, true, false, List, [], ◌∷◌, GoError, arith, inl, inr, ◌⊎◌,
}
use wayland_without_borders.Prelude.Float.{Float64}
use wayland_without_borders.Protocol.Types
use wayland_without_borders.Protocol.Packet.{Packet}
use wayland_without_borders.Input.Keymap.Registered.{IsPick}
use wayland_without_borders.Input.Uinput.{VirtualKeyboard}
use wayland_without_borders.Input.Uinput.Keyboard.{InSync, key_down-InSync, key_up-InSync, is_down}
use wayland_without_borders.Input.Uinput.Release.{
  TakesAll, release_all_ok, release_all-InSync, release_all-is_down,
}
use wayland_without_borders.Network.Devices.{
  MouseDevice, KeyboardDevice, ClipboardHandler, virtual_keyboard,
}
use wayland_without_borders.Network.Handler.Keys.{KeyState, release_all_keys}
use wayland_without_borders.Network.Handler.Keys.Held.{handle_keyboard_keeps, flush_keeps}
use wayland_without_borders.Network.Handler.{
  World, HandlerState, on_machine_switched, on_next_machine, on_clipboard, flushed, dispatch,
  handle_packet, release_held_keys, allows,
}

module _ (fl : Float64) (kb : KeyboardDevice) (md : MouseDevice) (cb : ClipboardHandler) where
  unfoldable pub handle_packets :
      HandlerState fl kb md cb → List (World × Packet) → HandlerState fl kb md cb
  handle_packets h [] = h
  handle_packets h ((w, p) ∷ ps) = handle_packets (handle_packet fl kb md cb w h p) ps

-- What every call of the keyboard keeps, any packet keeps.
module _ {ℓ} (fl : Float64) (kb : KeyboardDevice) (md : MouseDevice) (cb : ClipboardHandler)
    (P : kb.State → Type ℓ) (down : (k : kb.State) (code : ℕ) → P k → P (kb.key_down k code).0)
    (up : (k : kb.State) (code : ℕ) → P k → P (kb.key_up k code).0)
    (release : (k : kb.State) → P k → P (kb.release_all k).0) where
  abbrev Keeps : HandlerState fl kb md cb → Type ℓ
  Keeps h = P h.keys.keyboard

  flushed-Keeps :
      (h : HandlerState fl kb md cb) (p : Packet) → Keeps h → Keeps (flushed fl kb md cb h p)
  unfolding flushed
  flushed-Keeps h p k = grind (arith, k, flush_keeps kb P down up h.keys k)

  dispatch-Keeps :
      (w : World) (h : HandlerState fl kb md cb) (p : Packet)
      → Keeps h
      → Keeps (dispatch fl kb md cb w h p)
  unfolding dispatch on_machine_switched on_next_machine on_clipboard release_all_keys
  dispatch-Keeps w h p k = grind (
    arith,
    k,
    release h.keys.keyboard k,
    handle_keyboard_keeps kb P down up h.keys p.keyboard h.keyboard_layout k,
  )

  pub handle_packets-Keeps :
      (ps : List (World × Packet)) (h : HandlerState fl kb md cb)
      → Keeps h
      → Keeps (handle_packets fl kb md cb h ps)
  unfolding handle_packets handle_packet
  handle_packets-Keeps [] h k = k
  handle_packets-Keeps ((w, p) ∷ ps) h k =
      handle_packets-Keeps ps _ (dispatch-Keeps w _ p (flushed-Keeps h p k))

module _ (fl : Float64) (md : MouseDevice) (cb : ClipboardHandler) (answer : ℕ → GoError)
    (takes : TakesAll answer) (pick : List ℕ → List ℕ) (any_order : IsPick pick) where
  abbrev kb : KeyboardDevice
  kb = virtual_keyboard answer pick

  run-InSync :
      (ps : List (World × Packet)) (h : HandlerState fl kb md cb)
      → InSync h.keys.keyboard
      → InSync (handle_packets fl kb md cb h ps).keys.keyboard
  run-InSync =
      handle_packets-Keeps fl kb md cb InSync (key_down-InSync answer) (key_up-InSync answer)
        (λ k. release_all-InSync answer takes pick k any_order)

  released :
      (s : KeyState VirtualKeyboard) (a : ℕ)
      → InSync s.keyboard
      → is_down a (release_all_keys kb s).keyboard.fd.written ≡ false
  unfolding release_all_keys
  released s a h =
      release_all-is_down answer pick s.keyboard a any_order h
        (release_all_ok answer takes pick s.keyboard)

  -- Whether a packet ends the presence of the cursor, or begins it.
  abbrev pub Releases : World → Packet → Type 0
  Releases w p =
      (p.typ ≡ Types.hide_mouse)
      ⊎ ((p.typ ≡ Types.machine_switched) × (allows w.should_activate ≡ true))

  release_packet :
      (w : World) (p : Packet) (h : HandlerState fl kb md cb) (a : ℕ)
      → Releases w p
      → InSync h.keys.keyboard
      → is_down a (handle_packet fl kb md cb w h p).keys.keyboard.fd.written ≡ false
  unfolding handle_packet dispatch on_machine_switched flushed
  release_packet w p h a (inl e) s = rw e (
      released _ a (flush_keeps kb InSync (key_down-InSync answer) (key_up-InSync answer) h.keys s))
  release_packet w p h a (inr (e, y)) s =
      rw (e, y)
        (released _ a
          (flush_keeps kb InSync (key_down-InSync answer) (key_up-InSync answer) h.keys s))

  -- After any packets, a packet by which the cursor leaves this machine or is let in leaves no key
  -- down for the kernel, if the kernel takes the events and the pressed keys were in step with it at
  -- first: no key whose release never came is stuck.
  pub no_stuck_key :
      (ps : List (World × Packet)) (w : World) (p : Packet) (h : HandlerState fl kb md cb) (a : ℕ)
      → InSync h.keys.keyboard
      → Releases w p
      → is_down a
          (handle_packet fl kb md cb w (handle_packets fl kb md cb h ps) p).keys.keyboard.fd.written
        ≡ false
  no_stuck_key ps w p h a s r = release_packet w p _ a r (run-InSync ps h s)

  -- After any packets, the release on the loss of the connection leaves no key down for the kernel,
  -- if the kernel takes the events and the pressed keys were in step with it at first.
  pub no_stuck_key_disconnected :
      (ps : List (World × Packet)) (h : HandlerState fl kb md cb) (a : ℕ)
      → InSync h.keys.keyboard
      → is_down a
          (release_held_keys fl kb md cb (handle_packets fl kb md cb h ps)).keys.keyboard.fd.written
        ≡ false
  unfolding release_held_keys
  no_stuck_key_disconnected ps h a s = released _ a (run-InSync ps h s)
