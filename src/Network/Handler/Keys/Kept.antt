-- ===== src/Network/Handler/Keys/Kept.antt =====
-- What every press and release of a good key keeps, the keyboard half of
-- internal/network/handler.go keeps.
use wayland_without_borders.Prelude.{
  ℕ, ◌≡◌, Bool, true, false, none, some, GoError, Bool-cases, Option-cases, inl, inr, both_branches,
}
use wayland_without_borders.Prelude.Int.{ℤ}
use wayland_without_borders.Prelude.Text.{Text}
use wayland_without_borders.Protocol.Packet.{KeyboardData}
use wayland_without_borders.Network.Devices.{KeyboardDevice}
use wayland_without_borders.Network.Handler.Keys.{
  KeyState, has_bit, llkhf_up, key_code_for_packet, handle_keyboard, handle_known,
  handle_pending_ctrl, flush_pending_ctrl, tap, press_or_release, unless_used, is_ctrl_vk,
}

module _ {ℓ} (kb : KeyboardDevice) (P : kb.State → Type ℓ) (Good : ℕ → Type 0)
    (down : (k : kb.State) (code : ℕ) → Good code → P k → P (kb.key_down k code).0)
    (up : (k : kb.State) (code : ℕ) → Good code → P k → P (kb.key_up k code).0) where
  -- The keyboard is as it should be, and so is the key of a pending Ctrl.
  abbrev pub IsKept : KeyState kb.State → Type ℓ
  IsKept s = P s.keyboard × (s.pending_ctrl ≡ true → Good s.pending_ctrl_code)

  tap-IsKept :
      (s : KeyState kb.State) (code : ℕ) (r : kb.State × GoError)
      → Good code
      → P r.0
      → IsKept (tap kb s code r)
  tap-IsKept s code (k, none) g h = (up k code g h, λ e. cc)
  tap-IsKept s code (k, some e) g h = (h, λ e. cc)

  pub flush-IsKept : (s : KeyState kb.State) → IsKept s → IsKept (flush_pending_ctrl kb s).0
  unfolding flush_pending_ctrl
  flush-IsKept s (h, g) = elim (Bool-cases s.pending_ctrl) [
    | inl e ↦ rw (e, flush_pending_ctrl) (down s.keyboard s.pending_ctrl_code (g e) h, λ x. cc)
    | inr e ↦ rw (e, flush_pending_ctrl) (h, λ x. cc)
  ]

  pending-IsKept :
      (s : KeyState kb.State) (vk flags : ℤ) (code : ℕ) (is_up : Bool)
      → Good code
      → IsKept s
      → IsKept (handle_pending_ctrl kb s vk flags code is_up).0
  unfolding handle_pending_ctrl
  pending-IsKept s vk flags code is_up good k =
      let Kept : KeyState kb.State × Bool → Type ℓ = λ r. IsKept r.0 in
      both_branches Kept (is_ctrl_vk vk)
        (both_branches Kept is_up
          (both_branches Kept s.pending_ctrl
            (tap-IsKept s code (kb.key_down s.keyboard code) good (down s.keyboard code good k.0))
            (both_branches Kept s.suppress_ctrl_up k k))
          (k.0, λ x. good))
        (both_branches Kept _ (k.0, λ x. cc) k)

  press-IsKept :
      (code : ℕ) (is_up : Bool) (r : KeyState kb.State × GoError)
      → Good code
      → IsKept r.0
      → IsKept (press_or_release kb code is_up r)
  press-IsKept code is_up (s, some e) good h = h
  press-IsKept code true (s, none) good h = (up s.keyboard code good h.0, h.1)
  press-IsKept code false (s, none) good h = (down s.keyboard code good h.0, h.1)

  unless_used-IsKept :
      (code : ℕ) (is_up : Bool) (r : KeyState kb.State × Bool)
      → Good code
      → IsKept r.0
      → IsKept (unless_used kb code is_up r)
  unless_used-IsKept code is_up (s, true) good h = h
  unless_used-IsKept code is_up (s, false) good h =
      press-IsKept code is_up (flush_pending_ctrl kb s) good (flush-IsKept s h)

  pub handle_keyboard-IsKept :
      (s : KeyState kb.State) (kd : KeyboardData) (layout : Text)
      → ((code : ℕ) → key_code_for_packet kd layout ≡ some code → Good code)
      → IsKept s
      → IsKept (handle_keyboard kb s kd layout)
  unfolding handle_keyboard handle_known
  handle_keyboard-IsKept s kd layout good h = elim (Option-cases (key_code_for_packet kd layout)) [
    | inl e ↦ rw (e, handle_keyboard) h
    | inr (code, e) ↦
        rw (e, handle_keyboard)
          (unless_used-IsKept code (has_bit llkhf_up kd.dw_flags) _ (good code e) (
            pending-IsKept s kd.w_vk kd.dw_flags code (has_bit llkhf_up kd.dw_flags) (good code e)
              h))
  ]
