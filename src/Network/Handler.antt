-- ===== src/Network/Handler.antt =====
-- internal/network/handler.go: the dispatch of a packet.
-- The callbacks are what their caller sets them to: `none` is nil. `OnActivated` and `OnReclaimed`
-- are recorded as notices, in the order of the calls, the last one first.
pub mod Keys
pub mod Cursor
pub mod Dispatch
pub mod Released
pub mod Heard
use wayland_without_borders.Prelude.{
  ℕ, Bool, true, false, ◌||◌, not, Option, none, some, List, [], ◌∷◌, ◌==◌, if◌then◌else◌, GoError,
}
use wayland_without_borders.Prelude.Int.{ℤ}
use wayland_without_borders.Prelude.Text.{Text}
use wayland_without_borders.Prelude.Float.{Float64}
use wayland_without_borders.Protocol.Types
use wayland_without_borders.Protocol.Types.{is_clipboard_type}
use wayland_without_borders.Protocol.Packet.{Packet}
use wayland_without_borders.Network.Devices.{MouseDevice, KeyboardDevice, ClipboardHandler}
use Keys.{KeyState, flush_pending_ctrl, handle_keyboard, release_all_keys}
use Cursor.{CursorState, handle_mouse}

pub data Notice : Type 0 where
  activated reclaimed : Notice

pub record Handler (K M C F : Type 0) : Type 0 where
  pub keys : KeyState K
  pub cursor : CursorState M
  pub clipboard : Option C
  pub activated_at : Option ℕ
  pub inbound_multiplier : F
  pub keyboard_layout : Text
  pub has_on_activated : Bool
  pub has_on_reclaimed : Bool
  pub notices : List Notice

-- What the handler asks of the world while it handles one packet: the clock, and the answers of
-- `ShouldActivate` and `ShouldReclaim` where these are set.
pub record World : Type 0 where
  pub now : ℕ
  pub should_activate : Option Bool
  pub should_reclaim : Option (ℤ → ℤ → ℤ → Bool)

-- A callback that is not set rejects nothing.
abbrev pub allows : Option Bool → Bool
allows none = true
allows (some b) = b

abbrev pub allows_reclaim : Option (ℤ → ℤ → ℤ → Bool) → ℤ → ℤ → ℤ → Bool
allows_reclaim none x y target = true
allows_reclaim (some f) x y target = f x y target

module _ (fl : Float64) (kb : KeyboardDevice) (md : MouseDevice) (cb : ClipboardHandler) where
  abbrev pub HandlerState : Type 0
  HandlerState = Handler kb.State md.State cb.State fl.F

  -- The case `MachineSwitched`.
  unfoldable pub on_machine_switched : World → HandlerState → HandlerState
  on_machine_switched w h = if not (allows w.should_activate) then h else record h {
    activated_at = some w.now;
    cursor = record (h.cursor) { in_seeded = false };
    keys = release_all_keys kb h.keys;
    notices = if h.has_on_activated then activated ∷ h.notices else h.notices;
  }

  -- The case `NextMachine`.
  unfoldable pub on_next_machine : World → HandlerState → Packet → HandlerState
  on_next_machine w h p =
      if not (allows_reclaim w.should_reclaim p.mouse.x p.mouse.y p.mouse.wheel_delta)
      then h
      else record h { notices = if h.has_on_reclaimed then reclaimed ∷ h.notices else h.notices }

  unfoldable pub on_clipboard : HandlerState → Packet → HandlerState
  on_clipboard h p = record h {
    clipboard = elim h.clipboard [ none ↦ none | some c ↦ some (cb.handle_packet c p) ];
  }

  -- `if pkt.Type != protocol.Keyboard`: the pending Ctrl is sent first; an error is logged.
  unfoldable pub flushed : HandlerState → Packet → HandlerState
  flushed h p =
      if p.typ == Types.keyboard then h else record h { keys = (flush_pending_ctrl kb h.keys).0 }

  -- The switch of `HandlePacket`. The drag-and-drop types, the control types and the unknown ones
  -- are only logged.
  unfoldable pub dispatch : World → HandlerState → Packet → HandlerState
  dispatch w h p =
      if p.typ == Types.mouse
      then record h { cursor = handle_mouse fl md h.inbound_multiplier h.cursor p.mouse }
      else if p.typ == Types.keyboard
      then record h { keys = handle_keyboard kb h.keys p.keyboard h.keyboard_layout }
      else if p.typ == Types.machine_switched
      then on_machine_switched w h
      else if p.typ == Types.hide_mouse
      then record h { keys = release_all_keys kb h.keys }
      else if p.typ == Types.next_machine
      then on_next_machine w h p
      else if is_clipboard_type p.typ
      then on_clipboard h p
      else h

  -- `HandlePacket`
  unfoldable pub handle_packet : World → HandlerState → Packet → HandlerState
  handle_packet w h p = dispatch w (flushed h p) p

  -- `ReleaseHeldKeys`
  unfoldable pub release_held_keys : HandlerState → HandlerState
  release_held_keys h = record h { keys = release_all_keys kb h.keys }
