-- ===== src/Network/Handler/Keys/Chords.antt =====
-- What the keyboard is told when Ctrl is pressed alone, before a key, or by AltGr
-- (internal/network/handler.go).
use wayland_without_borders.Prelude.{
  ℕ, ◌≡◌, refl, ◌∙◌, List, [], ◌∷◌, Bool, true, false, none, some, arith,
}
use wayland_without_borders.Prelude.Int.{ℤ}
use wayland_without_borders.Prelude.Text.{Text}
use wayland_without_borders.Protocol.Packet.{KeyboardData}
use wayland_without_borders.Network.Devices.{KeyboardDevice}
use wayland_without_borders.Network.Handler.Keys.{
  KeyState, has_bit, llkhf_up, is_ctrl_vk, is_right_alt_vk, key_code_for_packet, handle_keyboard,
  handle_known, handle_pending_ctrl, flush_pending_ctrl,
}

-- A packet is a press or a release of a Ctrl key, of AltGr, or of another key, with its code.
pub record IsCtrl (layout : Text) (kd : KeyboardData) (code : ℕ) (up : Bool) : Type 0 where
  pub vk : is_ctrl_vk kd.w_vk ≡ true
  pub key : key_code_for_packet kd layout ≡ some code
  pub way : has_bit llkhf_up kd.dw_flags ≡ up

pub record IsAltGr (layout : Text) (kd : KeyboardData) (code : ℕ) (up : Bool) : Type 0 where
  pub vk : is_right_alt_vk kd.w_vk kd.dw_flags ≡ true
  pub key : key_code_for_packet kd layout ≡ some code
  pub way : has_bit llkhf_up kd.dw_flags ≡ up

pub record IsOther (layout : Text) (kd : KeyboardData) (code : ℕ) (up : Bool) : Type 0 where
  pub not_ctrl : is_ctrl_vk kd.w_vk ≡ false
  pub not_alt : is_right_alt_vk kd.w_vk kd.dw_flags ≡ false
  pub key : key_code_for_packet kd layout ≡ some code
  pub way : has_bit llkhf_up kd.dw_flags ≡ up

not_both : (vk flags : ℤ) → is_right_alt_vk vk flags ≡ true → is_ctrl_vk vk ≡ false
unfolding is_right_alt_vk is_ctrl_vk
not_both vk flags h = ground arith

module _ (kb : KeyboardDevice) where
  open kb use {State, key_down, key_up}

  known :
      (s : KeyState State) (layout : Text) (kd : KeyboardData) (code : ℕ)
      → key_code_for_packet kd layout ≡ some code
      → handle_keyboard kb s kd layout ≡ handle_known kb s kd code
  unfolding handle_keyboard
  known s layout kd code e = rw (e, handle_keyboard)

  flush_idle : (s : KeyState State) → s.pending_ctrl ≡ false → flush_pending_ctrl kb s ≡ (s, none)
  unfolding flush_pending_ctrl
  flush_idle s p = ground arith

  flush_pending :
      (s : KeyState State)
      → s.pending_ctrl ≡ true
      → (key_down s.keyboard s.pending_ctrl_code).1 ≡ none
      → flush_pending_ctrl kb s ≡ (
        record s { keyboard = (key_down s.keyboard s.pending_ctrl_code).0; pending_ctrl = false },
        none,
      )
  unfolding flush_pending_ctrl
  flush_pending s p q = ground arith

module _ (kb : KeyboardDevice) (s : KeyState kb.State) (layout : Text) (kd : KeyboardData)
    (code : ℕ) where
  open kb use {State, key_down, key_up}

  -- A press of Ctrl tells the keyboard nothing yet.
  pub ctrl_press :
      IsCtrl layout kd code false
      → handle_keyboard kb s kd layout ≡ record s { pending_ctrl = true; pending_ctrl_code = code }
  unfolding handle_known handle_pending_ctrl
  ctrl_press c = known kb s layout kd code c.key ∙ rw (c.way, c.vk)

  -- A release of Ctrl after AltGr took its press away is dropped.
  pub ctrl_release_suppressed :
      IsCtrl layout kd code true
      → s.pending_ctrl ≡ false
      → s.suppress_ctrl_up ≡ true
      → handle_keyboard kb s kd layout ≡ record s { suppress_ctrl_up = false }
  unfolding handle_known handle_pending_ctrl
  ctrl_release_suppressed c p q = known kb s layout kd code c.key ∙ rw (c.way, c.vk, p, q)

  -- A release of a pending Ctrl presses and releases it, the release only if the press is no error.
  pub ctrl_release_pending :
      IsCtrl layout kd code true
      → s.pending_ctrl ≡ true
      → (key_down s.keyboard code).1 ≡ none
      → handle_keyboard kb s kd layout
        ≡ record s { pending_ctrl = false; keyboard = (key_up (key_down s.keyboard code).0 code).0 }
  unfolding handle_known handle_pending_ctrl
  ctrl_release_pending c p q = known kb s layout kd code c.key ∙ rw (c.way, c.vk, p, q)

  -- AltGr takes the press of a pending Ctrl away and goes down alone.
  pub alt_gr_press_pending :
      IsAltGr layout kd code false
      → s.pending_ctrl ≡ true
      → handle_keyboard kb s kd layout ≡ record s {
        pending_ctrl = false;
        suppress_ctrl_up = true;
        keyboard = (key_down s.keyboard code).0;
      }
  unfolding handle_known handle_pending_ctrl flush_pending_ctrl
  alt_gr_press_pending c p =
      known kb s layout kd code c.key ∙ rw (c.way, not_both _ _ c.vk, c.vk, p)

  pub alt_gr_release :
      IsAltGr layout kd code true
      → s.pending_ctrl ≡ false
      → handle_keyboard kb s kd layout ≡ record s { keyboard = (key_up s.keyboard code).0 }
  unfolding handle_known handle_pending_ctrl
  alt_gr_release c p =
      known kb s layout kd code c.key
      ∙ ground (arith, not_both kd.w_vk kd.dw_flags c.vk, flush_idle kb s p)

  -- Any other key first sends a pending Ctrl, and goes down if that is no error.
  pub other_press_pending :
      IsOther layout kd code false
      → s.pending_ctrl ≡ true
      → (key_down s.keyboard s.pending_ctrl_code).1 ≡ none
      → handle_keyboard kb s kd layout ≡ record s {
        pending_ctrl = false;
        keyboard = (key_down (key_down s.keyboard s.pending_ctrl_code).0 code).0;
      }
  unfolding handle_known handle_pending_ctrl
  other_press_pending c p q =
      known kb s layout kd code c.key ∙ ground (arith, flush_pending kb s p q)

module _ (kb : KeyboardDevice) where
  open kb use {State, key_down, key_up}

  unfoldable pub handle_keys : KeyState State → List KeyboardData → Text → KeyState State
  handle_keys s [] layout = s
  handle_keys s (kd ∷ kds) layout = handle_keys (handle_keyboard kb s kd layout) kds layout

  -- A chord that Windows sends for AltGr, Ctrl around the right Alt, reaches the keyboard as the
  -- right Alt alone, and leaves no Ctrl behind.
  pub alt_gr_chord :
      (s : KeyState State) (layout : Text) (ctrl alt alt_up ctrl_up : KeyboardData) (c a : ℕ)
      → IsCtrl layout ctrl c false
      → IsAltGr layout alt a false
      → IsAltGr layout alt_up a true
      → IsCtrl layout ctrl_up c true
      → handle_keys s (ctrl ∷ alt ∷ alt_up ∷ ctrl_up ∷ []) layout ≡ record {
        keyboard = (key_up (key_down s.keyboard a).0 a).0;
        pending_ctrl = false;
        pending_ctrl_code = c;
        suppress_ctrl_up = false;
      }
  unfolding handle_keys
  alt_gr_chord s layout ctrl alt alt_up ctrl_up c a p q r t =
      let s1 : KeyState State = record s { pending_ctrl = true; pending_ctrl_code = c } in
      let s2 : KeyState State = record s {
        pending_ctrl = false;
        pending_ctrl_code = c;
        suppress_ctrl_up = true;
        keyboard = (key_down s.keyboard a).0;
      } in
      let s3 : KeyState State = record s2 { keyboard = (key_up s2.keyboard a).0 } in
      rw (
        ctrl_press kb s layout ctrl c p,
        alt_gr_press_pending kb s1 layout alt a q refl,
        alt_gr_release kb s2 layout alt_up a r refl,
        ctrl_release_suppressed kb s3 layout ctrl_up c t refl refl,
      )

  -- A Ctrl shortcut reaches the keyboard as typed, the Ctrl first.
  pub ctrl_shortcut :
      (s : KeyState State) (layout : Text) (ctrl key : KeyboardData) (c k : ℕ)
      → IsCtrl layout ctrl c false
      → IsOther layout key k false
      → (key_down s.keyboard c).1 ≡ none
      → (handle_keys s (ctrl ∷ key ∷ []) layout).keyboard ≡ (key_down (key_down s.keyboard c).0 k).0
  unfolding handle_keys
  ctrl_shortcut s layout ctrl key c k p q h =
      let s1 : KeyState State = record s { pending_ctrl = true; pending_ctrl_code = c } in
      rw (ctrl_press kb s layout ctrl c p, other_press_pending kb s1 layout key k q refl h)

  -- A Ctrl that is pressed and released alone reaches the keyboard as a press and a release.
  pub ctrl_tap :
      (s : KeyState State) (layout : Text) (ctrl ctrl_up : KeyboardData) (c : ℕ)
      → IsCtrl layout ctrl c false
      → IsCtrl layout ctrl_up c true
      → (key_down s.keyboard c).1 ≡ none
      → (handle_keys s (ctrl ∷ ctrl_up ∷ []) layout).keyboard
        ≡ (key_up (key_down s.keyboard c).0 c).0
  unfolding handle_keys
  ctrl_tap s layout ctrl ctrl_up c p q h =
      let s1 : KeyState State = record s { pending_ctrl = true; pending_ctrl_code = c } in
      rw (ctrl_press kb s layout ctrl c p, ctrl_release_pending kb s1 layout ctrl_up c q refl h)
