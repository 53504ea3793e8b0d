-- ===== src/Network/Handler/Cursor.antt =====
-- The mouse half of internal/network/handler.go: absolute moves with a gain, buttons and wheels.
-- The handler's mouse is never nil, as cmd/mwb/main.go sets it.
pub mod Kept
pub mod Moves
pub mod Wheel
use wayland_without_borders.Prelude.{
  ℕ, suc, ◌/◌, Bool, true, false, ◌&&◌, ◌||◌, not, Option, none, some, ◌==◌, if◌then◌else◌, GoError,
}
use wayland_without_borders.Prelude.Int.{ℤ, pos, negsuc, ltb_ℤ, eqb_ℤ, wrap32, ◌+ℤ◌, ◌-ℤ◌, sub_ℕ}
use wayland_without_borders.Prelude.Float.{Float64}
use wayland_without_borders.Protocol.Packet.{MouseData}
use wayland_without_borders.Input.Codes.{btn_left, btn_right, btn_middle, btn_side, btn_extra}
use wayland_without_borders.Network.Devices.{MouseDevice}

abbrev pub wm_mousemove : ℕ
wm_mousemove = 0x0200

abbrev pub wm_lbuttondown : ℕ
wm_lbuttondown = 0x0201

abbrev pub wm_lbuttonup : ℕ
wm_lbuttonup = 0x0202

abbrev pub wm_rbuttondown : ℕ
wm_rbuttondown = 0x0204

abbrev pub wm_rbuttonup : ℕ
wm_rbuttonup = 0x0205

abbrev pub wm_mbuttondown : ℕ
wm_mbuttondown = 0x0207

abbrev pub wm_mbuttonup : ℕ
wm_mbuttonup = 0x0208

abbrev pub wm_mousewheel : ℕ
wm_mousewheel = 0x020A

abbrev pub wm_xbuttondown : ℕ
wm_xbuttondown = 0x020B

abbrev pub wm_xbuttonup : ℕ
wm_xbuttonup = 0x020C

abbrev pub wm_mousehwheel : ℕ
wm_mousehwheel = 0x020E

abbrev pub inbound_jump_threshold : ℤ
inbound_jump_threshold = pos 4096

-- The handler's mouse and its inbound cursor tracking.
pub record CursorState (M : Type 0) : Type 0 where
  pub mouse : M
  pub in_x : ℤ
  pub in_y : ℤ
  pub last_in_x : ℤ
  pub last_in_y : ℤ
  pub in_seeded : Bool

unfoldable pub abs32 : ℤ → ℤ
abs32 v = if ltb_ℤ v (pos 0) then wrap32 (pos 0 -ℤ v) else v

unfoldable pub clamp65535 : ℤ → ℤ
clamp65535 v = if ltb_ℤ v (pos 0) then pos 0 else if ltb_ℤ (pos 65535) v then pos 65535 else v

-- Go's int32 division by 120, towards zero.
unfoldable pub div120 : ℤ → ℤ
div120 (pos n) = pos (n / 120)
div120 (negsuc n) = sub_ℕ 0 (suc n / 120)

-- The notches of `WM_MOUSEWHEEL` and `WM_MOUSEHWHEEL`: at least one for a delta that is not 0.
unfoldable pub notches : ℤ → ℤ
unfolding div120
notches wheel_delta =
    let delta = div120 wheel_delta in
    if eqb_ℤ delta (pos 0) && ltb_ℤ (pos 0) wheel_delta
    then pos 1
    else if eqb_ℤ delta (pos 0) && ltb_ℤ wheel_delta (pos 0)
    then negsuc 0
    else delta

-- Which X button `WheelDelta` holds.
unfoldable pub x_button : ℤ → ℕ
x_button wheel_delta = if eqb_ℤ wheel_delta (pos 2) then btn_extra else btn_side

module _ (fl : Float64) (md : MouseDevice) where
  open fl use {F, of_int, mul, le, eq, to_i32}
  open md use {State, move_to, button_down, button_up, wheel, h_wheel}

  -- `if mult <= 0 { mult = 1.0 }`
  unfoldable pub effective_multiplier : F → F
  effective_multiplier mult = if le mult (of_int (pos 0)) then of_int (pos 1) else mult

  -- Whether a reported position is a teleport.
  unfoldable pub is_jump : CursorState State → ℤ → ℤ → Bool
  is_jump s x y =
      not s.in_seeded
      || ltb_ℤ inbound_jump_threshold (abs32 (wrap32 (x -ℤ s.last_in_x)))
      || ltb_ℤ inbound_jump_threshold (abs32 (wrap32 (y -ℤ s.last_in_y)))

  -- `clamp65535(h.inX + int32(float64(mdX-h.lastInX)*mult))`
  unfoldable pub scaled : F → ℤ → ℤ → ℤ → ℤ
  scaled mult at last reported =
      clamp65535 (wrap32 (at +ℤ to_i32 (mul (of_int (wrap32 (reported -ℤ last))) mult)))

  -- `moveInbound`
  unfoldable pub tracked : F → CursorState State → ℤ → ℤ → CursorState State
  tracked multiplier s x y =
      let mult = effective_multiplier multiplier in
      let snap = is_jump s x y || eq mult (of_int (pos 1)) in
      record s {
        in_x = if snap then x else scaled mult s.in_x s.last_in_x x;
        in_y = if snap then y else scaled mult s.in_y s.last_in_y y;
        last_in_x = x;
        last_in_y = y;
        in_seeded = true;
      }

  unfoldable pub move_inbound : F → CursorState State → ℤ → ℤ → CursorState State × GoError
  move_inbound multiplier s x y =
      let t = tracked multiplier s x y in
      let (m, e) = move_to t.mouse t.in_x t.in_y in (record t { mouse = m }, e)

  -- `if err = h.moveInbound(md.X, md.Y); err == nil { err = button }`; the error is logged.
  abbrev pub after_move :
      (State → State × GoError) → CursorState State × GoError → CursorState State
  after_move button (s, none) = record s { mouse = (button s.mouse).0 }
  after_move button (s, some e) = s

  -- `handleMouse`
  unfoldable pub handle_mouse : F → CursorState State → MouseData → CursorState State
  handle_mouse mult s md =
      let is = λ (flag : ℕ). eqb_ℤ md.dw_flags (pos flag) in
      let moved = move_inbound mult s md.x md.y in
      if is wm_mousemove
      then moved.0
      else if is wm_lbuttondown
      then after_move (λ m. button_down m btn_left) moved
      else if is wm_lbuttonup
      then after_move (λ m. button_up m btn_left) moved
      else if is wm_rbuttondown
      then after_move (λ m. button_down m btn_right) moved
      else if is wm_rbuttonup
      then after_move (λ m. button_up m btn_right) moved
      else if is wm_mbuttondown
      then after_move (λ m. button_down m btn_middle) moved
      else if is wm_mbuttonup
      then after_move (λ m. button_up m btn_middle) moved
      else if is wm_xbuttondown
      then after_move (λ m. button_down m (x_button md.wheel_delta)) moved
      else if is wm_xbuttonup
      then after_move (λ m. button_up m (x_button md.wheel_delta)) moved
      else if is wm_mousewheel
      then record s { mouse = (wheel s.mouse (notches md.wheel_delta)).0 }
      else if is wm_mousehwheel
      then record s { mouse = (h_wheel s.mouse (notches md.wheel_delta)).0 }
      else s
