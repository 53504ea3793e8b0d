-- ===== src/Network/Receiver/Loop.antt =====
-- The receive loop (internal/network/receiver.go) over the connection and the handler.
pub mod Reads
pub mod Ends
use wayland_without_borders.Prelude.{
  ℕ, zero, suc, ◌+◌, Bool, true, false, Option, none, some, if◌then◌else◌, Result, ok, err,
}
use wayland_without_borders.Prelude.Float.{Float64}
use wayland_without_borders.Protocol.Packet.{Packet}
use wayland_without_borders.Protocol.Stream.{BlockCipher, StreamError, Fate, eof, unexpected_eof}
use wayland_without_borders.Network.Devices.{MouseDevice, KeyboardDevice, ClipboardHandler}
use wayland_without_borders.Network.Handler.{World, HandlerState, handle_packet}
use wayland_without_borders.Network.Conn.{
  Conn, ◌>>=◌, RecvError, read_packet, read_extended, send_packet, recv_packet, named_packet,
}
use wayland_without_borders.Network.Receiver.{
  Route, answered_with, finished, ignored, handled, route,
}

-- How the loop returns. `out_of_fuel` is no Go value.
pub data LoopEnd : Type 0 where
  nil out_of_fuel : LoopEnd
  failed : RecvError → LoopEnd

-- `errors.Is(err, io.EOF) || errors.Is(err, io.ErrUnexpectedEOF)`
abbrev pub is_eof : StreamError → Bool
is_eof eof = true
is_eof unexpected_eof = true
is_eof e = false

unfoldable pub loop_end : RecvError → LoopEnd
loop_end (read_packet e) = if is_eof e then nil else failed (read_packet e)
loop_end (read_extended e) = if is_eof e then nil else failed (read_extended e)
loop_end e = failed e

module _ (c : BlockCipher) (fl : Float64) (kb : KeyboardDevice) (md : MouseDevice)
    (cb : ClipboardHandler) where
  abbrev pub Machine : Type 0
  Machine = Conn c × HandlerState fl kb md cb

  -- The switch of the loop, with whether the loop goes on. An error of an answer is logged.
  unfoldable pub serve : Route → World → Fate → Machine → Packet → Option (Machine × Bool)
  serve (answered_with t) w fate (conn, h) p = do
    r ← send_packet c fate conn (named_packet c conn t p.src)
    some ((r.0, h), true)
  serve finished w fate m p = some (m, false)
  serve ignored w fate m p = some (m, true)
  serve handled w fate (conn, h) p = some ((conn, handle_packet fl kb md cb w h p), true)

  abbrev pub go_on :
      (Machine → Option (LoopEnd × Machine)) → Machine × Bool → Option (LoopEnd × Machine)
  go_on next (m, true) = next m
  go_on next (m, false) = some (nil, m)

  abbrev pub served :
      (Machine → Option (LoopEnd × Machine))
      → World
      → Fate
      → HandlerState fl kb md cb
      → Result RecvError Packet × Conn c
      → Option (LoopEnd × Machine)
  served next w fate h (err e, conn) = some (loop_end e, (conn, h))
  served next w fate h (ok p, conn) = serve (route p.typ) w fate (conn, h) p >>= go_on next

  -- `ReceiveLoop`: the n-th round takes place in the n-th world. Each round reads a block at least.
  unfoldable pub receive_loop : ℕ → (ℕ → World) → Fate → Machine → Option (LoopEnd × Machine)
  receive_loop zero worlds fate m = some (out_of_fuel, m)
  receive_loop (suc fuel) worlds fate (conn, h) =
      recv_packet c (worlds fuel).now conn
      >>= served (receive_loop fuel worlds fate) (worlds fuel) fate h
