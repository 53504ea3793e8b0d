-- ===== src/Network/Handler/Dispatch.antt =====
-- What a packet changes besides its own case (internal/network/handler.go).
use wayland_without_borders.Prelude.{◌≡◌, ◌≢◌, false, arith}
use wayland_without_borders.Prelude.Float.{Float64}
use wayland_without_borders.Protocol.Types
use wayland_without_borders.Protocol.Types.{is_clipboard_type}
use wayland_without_borders.Protocol.Packet.{Packet}
use wayland_without_borders.Network.Devices.{MouseDevice, KeyboardDevice, ClipboardHandler}
use wayland_without_borders.Network.Handler.Keys.{KeyState, flush_pending_ctrl, release_all_keys}
use wayland_without_borders.Network.Handler.{
  World, HandlerState, on_machine_switched, on_next_machine, on_clipboard, flushed, dispatch,
  handle_packet, allows,
}

module _ (fl : Float64) (kb : KeyboardDevice) (md : MouseDevice) (cb : ClipboardHandler) where
  flush_pending : (s : KeyState kb.State) → (flush_pending_ctrl kb s).0.pending_ctrl ≡ false
  unfolding flush_pending_ctrl
  flush_pending s = ground arith

  -- After any packet but a keyboard packet no Ctrl waits.
  pub handle_packet_pending :
      (w : World) (h : HandlerState fl kb md cb) (p : Packet)
      → p.typ ≢ Types.keyboard
      → (handle_packet fl kb md cb w h p).keys.pending_ctrl ≡ false
  unfolding handle_packet dispatch flushed on_machine_switched on_next_machine on_clipboard
      release_all_keys
  handle_packet_pending w h p ne = ground (arith, flush_pending h.keys)

  -- A packet that moves the cursor here and is turned down by `ShouldActivate` sends a Ctrl that
  -- waits, and changes nothing else.
  pub handle_packet_rejected :
      (w : World) (h : HandlerState fl kb md cb) (p : Packet)
      → p.typ ≡ Types.machine_switched
      → allows w.should_activate ≡ false
      → handle_packet fl kb md cb w h p ≡ record h { keys = (flush_pending_ctrl kb h.keys).0 }
  unfolding handle_packet dispatch flushed on_machine_switched
  handle_packet_rejected w h p e no_entry = ground arith
