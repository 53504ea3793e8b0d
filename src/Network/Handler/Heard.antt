-- ===== src/Network/Handler/Heard.antt =====
-- No event is lost in the kernel: the handler of internal/network/handler.go over the devices that
-- internal/input/uinput.go makes.
use wayland_without_borders.Prelude.{
  ℕ, ◌≡◌, refl, ap, ◌∙◌, subst, Bool, true, false, some, List, [], ◌∷◌, GoError, ok, both_branches,
  ◌==◌, not, Option,
}
use wayland_without_borders.Prelude.Int.{pos, eqb_ℤ}
use wayland_without_borders.Prelude.Float.{Float64}
use wayland_without_borders.Prelude.Text.{Text}
use wayland_without_borders.Protocol.Types
use wayland_without_borders.Protocol.Packet.{Packet, KeyboardData}
use wayland_without_borders.Protocol.Types.{is_clipboard_type}
use wayland_without_borders.Input.Codes.{
  key_leftshift, key_leftctrl, key_rightctrl, key_leftalt, key_rightalt,
}
use wayland_without_borders.Input.Keymap.{vk_map, vk_to_key_code}
use wayland_without_borders.Input.Keymap.Layout.{vk_to_key_code_for_layout}
use wayland_without_borders.Input.Keymap.Reverse.{IsOrderOf}
use wayland_without_borders.Input.Keymap.Registered.{
  contains, IsPick, used_key_codes, vk_to_key_code_for_layout-registered,
}
use wayland_without_borders.Input.Uinput.{Fd, VirtualKeyboard}
use wayland_without_borders.Input.Uinput.Setup.{
  Device, fresh_fd, mouse_steps, keyboard_steps, create_virtual_mouse, create_virtual_keyboard,
}
use wayland_without_borders.Input.Uinput.Setup.Supported.{
  Made, mouse_facts, keyboard_facts, mouse_steps-Has, keyboard_steps-Has,
}
use wayland_without_borders.Input.Uinput.Setup.Writes.{IsHeard, Given, opened-Given}
use wayland_without_borders.Input.Uinput.Setup.Heard.{
  KeysAreHeard, move_to-IsHeard, button_down-IsHeard, button_up-IsHeard, wheel-IsHeard,
  h_wheel-IsHeard, key_down-Heard, key_up-Heard, release_all-Heard,
}
use wayland_without_borders.Network.Devices.{ClipboardHandler, virtual_keyboard, virtual_mouse}
use wayland_without_borders.Network.Handler.Keys.{
  KeyState, key_code_for_packet, release_all_keys, has_bit, llkhf_extended,
}
use wayland_without_borders.Network.Handler.Keys.Kept.{IsKept, flush-IsKept, handle_keyboard-IsKept}
use wayland_without_borders.Network.Handler.Cursor.Kept.{handle_mouse_keeps}
use wayland_without_borders.Network.Handler.{
  World, HandlerState, on_machine_switched, on_next_machine, on_clipboard, flushed, dispatch,
  handle_packet, allows, allows_reclaim,
}
use wayland_without_borders.Network.Handler.Released.{handle_packets}

-- The keyboard has registered every key that a packet can ask for.
module _ (order : List (ℕ × ℕ)) (used : List ℕ → List ℕ) (same : IsOrderOf order vk_map)
    (any_order : IsPick used) where
  abbrev codes : List ℕ
  codes = used_key_codes order used

  abbrev IsRegistered : Option ℕ → Type 0
  IsRegistered o = (c : ℕ) → o ≡ some c → contains c codes ≡ true

  fixed-IsRegistered :
      (vk code : ℕ) → vk_to_key_code_for_layout (pos vk) [] ≡ some code → IsRegistered (some code)
  fixed-IsRegistered vk code e c h =
      vk_to_key_code_for_layout-registered order used (pos vk) [] c same any_order (e ∙ h)

  -- The keys of the virtual keys that do not tell left from right.
  modifiers-IsRegistered :
      IsRegistered (some key_leftshift)
      × IsRegistered (some key_rightctrl)
      × IsRegistered (some key_leftctrl)
      × IsRegistered (some key_rightalt)
      × IsRegistered (some key_leftalt)
  unfolding vk_to_key_code_for_layout vk_to_key_code
  modifiers-IsRegistered = (
    fixed-IsRegistered 0xA0 key_leftshift refl,
    fixed-IsRegistered 0xA3 key_rightctrl refl,
    fixed-IsRegistered 0xA2 key_leftctrl refl,
    fixed-IsRegistered 0xA5 key_rightalt refl,
    fixed-IsRegistered 0xA4 key_leftalt refl,
  )

  key_code_for_packet-IsRegistered :
      (kd : KeyboardData) (layout : Text) → IsRegistered (key_code_for_packet kd layout)
  unfolding key_code_for_packet
  key_code_for_packet-IsRegistered kd layout =
      let (shift, right_ctrl, left_ctrl, right_alt, left_alt) = modifiers-IsRegistered in
      let extended : Bool = has_bit llkhf_extended kd.dw_flags in
      both_branches IsRegistered (eqb_ℤ kd.w_vk (pos 0x10)) shift (
        both_branches IsRegistered (eqb_ℤ kd.w_vk (pos 0x11))
          (both_branches IsRegistered extended right_ctrl left_ctrl)
          (both_branches IsRegistered (eqb_ℤ kd.w_vk (pos 0x12))
            (both_branches IsRegistered extended right_alt left_alt)
            (λ c. vk_to_key_code_for_layout-registered order used kd.w_vk layout c same any_order)))

module _ (fl : Float64) (cb : ClipboardHandler) (to_mouse to_keys : ℕ → GoError)
    (pick : List ℕ → List ℕ) where
  abbrev HandlerOnDevices : Type 0
  HandlerOnDevices = HandlerState fl (virtual_keyboard to_keys pick) (virtual_mouse to_mouse) cb

  module _ (order : List (ℕ × ℕ)) (used : List ℕ → List ℕ) (same : IsOrderOf order vk_map)
      (any_order : IsPick used) (any_release : IsPick pick) (mouse keys : Device)
      (mouse_ready : Made to_mouse (mouse_facts to_mouse) mouse)
      (keys_ready : Made to_keys (keyboard_facts to_keys (used_key_codes order used)) keys) where
    abbrev all_codes : List ℕ
    all_codes = used_key_codes order used

    abbrev KeysKept : KeyState VirtualKeyboard → Type 0
    KeysKept =
        IsKept (virtual_keyboard to_keys pick) (KeysAreHeard all_codes keys)
          (λ c. contains c all_codes ≡ true)
          (λ k c g. key_down-Heard to_keys all_codes keys keys_ready k c g)
          (λ k c g. key_up-Heard to_keys all_codes keys keys_ready k c g)

    abbrev AllHeard : HandlerOnDevices → Type 0
    AllHeard h = KeysKept h.keys × IsHeard mouse h.cursor.mouse

    release-KeysKept :
        (s : KeyState VirtualKeyboard)
        → KeysKept s
        → KeysKept (release_all_keys (virtual_keyboard to_keys pick) s)
    unfolding release_all_keys
    release-KeysKept s (h, g) =
        (release_all-Heard to_keys all_codes keys keys_ready pick s.keyboard any_release h, λ e. cc)

    flushed-AllHeard :
        (h : HandlerOnDevices) (p : Packet)
        → AllHeard h
        → AllHeard (flushed fl (virtual_keyboard to_keys pick) (virtual_mouse to_mouse) cb h p)
    unfolding flushed
    flushed-AllHeard h p (k, m) =
        both_branches AllHeard (p.typ == Types.keyboard) (k, m)
          (
            flush-IsKept (virtual_keyboard to_keys pick) (KeysAreHeard all_codes keys)
                (λ c. contains c all_codes ≡ true)
                (λ k c g. key_down-Heard to_keys all_codes keys keys_ready k c g)
                (λ k c g. key_up-Heard to_keys all_codes keys keys_ready k c g) h.keys k,
            m,
          )

    dispatch-AllHeard :
        (w : World) (h : HandlerOnDevices) (p : Packet)
        → AllHeard h
        → AllHeard (dispatch fl (virtual_keyboard to_keys pick) (virtual_mouse to_mouse) cb w h p)
    unfolding dispatch on_machine_switched on_next_machine on_clipboard
    dispatch-AllHeard w h p (k, m) =
        both_branches AllHeard (p.typ == Types.mouse)
          (
            k,
            handle_mouse_keeps fl (virtual_mouse to_mouse) (IsHeard mouse)
                (move_to-IsHeard to_mouse mouse mouse_ready)
                (button_down-IsHeard to_mouse mouse mouse_ready)
                (button_up-IsHeard to_mouse mouse mouse_ready)
                (wheel-IsHeard to_mouse mouse mouse_ready)
                (h_wheel-IsHeard to_mouse mouse mouse_ready) h.inbound_multiplier h.cursor p.mouse
                m,
          )
          (both_branches AllHeard (p.typ == Types.keyboard)
            (
              handle_keyboard-IsKept (virtual_keyboard to_keys pick) (KeysAreHeard all_codes keys)
                  (λ c. contains c all_codes ≡ true)
                  (λ k c g. key_down-Heard to_keys all_codes keys keys_ready k c g)
                  (λ k c g. key_up-Heard to_keys all_codes keys keys_ready k c g) h.keys p.keyboard
                  h.keyboard_layout
                  (key_code_for_packet-IsRegistered order used same any_order p.keyboard
                    h.keyboard_layout)
                  k,
              m,
            )
            (both_branches AllHeard (p.typ == Types.machine_switched)
              (both_branches AllHeard (not (allows w.should_activate)) (k, m)
                (release-KeysKept h.keys k, m))
              (both_branches AllHeard (p.typ == Types.hide_mouse) (release-KeysKept h.keys k, m)
                (both_branches AllHeard (p.typ == Types.next_machine)
                  (both_branches AllHeard
                    (not (allows_reclaim w.should_reclaim p.mouse.x p.mouse.y p.mouse.wheel_delta))
                    (k, m) (k, m))
                  (both_branches AllHeard (is_clipboard_type p.typ) (k, m) (k, m))))))

    handle_packets-AllHeard :
        (ps : List (World × Packet)) (h : HandlerOnDevices)
        → AllHeard h
        → AllHeard
            (handle_packets fl (virtual_keyboard to_keys pick) (virtual_mouse to_mouse) cb h ps)
    unfolding handle_packets handle_packet
    handle_packets-AllHeard [] h k = k
    handle_packets-AllHeard ((w, p) ∷ ps) h k =
        handle_packets-AllHeard ps _ (dispatch-AllHeard w _ p (flushed-AllHeard h p k))

    -- The run of a handler that starts on the two new devices.
    run-AllHeard :
        (ps : List (World × Packet)) (h : HandlerOnDevices)
        → h.keys.keyboard.fd.written ≡ []
        → h.keys.keyboard.pressed ≡ []
        → h.keys.pending_ctrl ≡ false
        → h.cursor.mouse.written ≡ []
        → AllHeard
            (handle_packets fl (virtual_keyboard to_keys pick) (virtual_mouse to_mouse) cb h ps)
    run-AllHeard ps h silent idle free still = handle_packets-AllHeard ps h (
      (
        (
          rw silent tt,
          λ c e. let n : false ≡ true = subst (λ (x : List ℕ). contains c x ≡ true) idle e in cc,
        ),
        λ e. cc,
      ),
      rw still tt,
    )

  -- What the creation of the two devices gives the handler.
  new_mouse :
      (o : GoError) (name : List ℕ) (mouse : Device) (fd : Fd)
      → create_virtual_mouse to_mouse o name ≡ (some mouse, ok fd)
      → Made to_mouse (mouse_facts to_mouse) mouse × (fd.written ≡ [])
  unfolding create_virtual_mouse
  new_mouse o name mouse fd e =
      let (ready, new) =
        subst (Given (λ d m. Made to_mouse (mouse_facts to_mouse) d × (m ≡ fresh_fd to_mouse d))) e
          (opened-Given to_mouse (Made to_mouse (mouse_facts to_mouse)) (fresh_fd to_mouse)
            (mouse_steps to_mouse name) o (mouse_steps-Has to_mouse name _ (refl, tt))) in
      (ready, ap (λ (f : Fd). f.written) new)

  new_keyboard :
      (o : GoError) (codes name : List ℕ) (keys : Device) (k : VirtualKeyboard)
      → create_virtual_keyboard to_keys o codes name ≡ (some keys, ok k)
      → Made to_keys (keyboard_facts to_keys codes) keys × (k.fd.written ≡ []) × (k.pressed ≡ [])
  unfolding create_virtual_keyboard
  new_keyboard o codes name keys k e =
      let (ready, new) =
        subst
          (Given (λ d m.
            Made to_keys (keyboard_facts to_keys codes) d
            × (m ≡ record { fd = fresh_fd to_keys d; pressed = [] })))
          e
          (opened-Given to_keys (Made to_keys (keyboard_facts to_keys codes))
            (λ d. record { fd = fresh_fd to_keys d; pressed = [] })
            (keyboard_steps to_keys codes name) o
            (keyboard_steps-Has to_keys codes name _ (refl, tt))) in
      (
        ready,
        ap (λ (m : VirtualKeyboard). m.fd.written) new,
        ap (λ (m : VirtualKeyboard). m.pressed) new,
      )

  -- On devices that the program has just made, whatever packets come and whatever writes the kernel
  -- refuses, every event that reaches a device is of a type and a code that the device was
  -- registered for, so the kernel drops none: the keyboard has each key that a layout can ask for
  -- and the mouse each button, axis and wheel. The orders of Go's maps are any.
  pub handle_packets-IsHeard :
      (order : List (ℕ × ℕ)) (used : List ℕ → List ℕ)
      → IsOrderOf order vk_map
      → IsPick used
      → IsPick pick
      → (open_mouse open_keys : GoError) (mouse_name keys_name : List ℕ) (mouse keys : Device)
        (h : HandlerOnDevices)
      → create_virtual_mouse to_mouse open_mouse mouse_name ≡ (some mouse, ok h.cursor.mouse)
      → create_virtual_keyboard to_keys open_keys (used_key_codes order used) keys_name
        ≡ (some keys, ok h.keys.keyboard)
      → h.keys.pending_ctrl ≡ false
      → (ps : List (World × Packet))
      → let after : HandlerOnDevices =
          handle_packets fl (virtual_keyboard to_keys pick) (virtual_mouse to_mouse) cb h ps in
        IsHeard mouse after.cursor.mouse × IsHeard keys after.keys.keyboard.fd
  handle_packets-IsHeard order used same p q om oks mn kn mouse keys h made_mouse made_keys free
        ps =
      let (mouse_ready, still) = new_mouse om mn mouse h.cursor.mouse made_mouse in
      let (keys_ready, silent, idle) =
        new_keyboard oks (used_key_codes order used) kn keys h.keys.keyboard made_keys in
      let (k, m) =
        run-AllHeard order used same p q mouse keys mouse_ready keys_ready ps h silent idle free
          still in
      (m, k.0.0)
