-- ===== src/Lib.antt =====
-- Wayland Without Borders shares one keyboard and mouse between machines, by the protocol of
-- Mouse Without Borders, over encrypted TCP connections. This library models the Linux program's
-- core: the packets and their encryption, the connection, what a machine does with the packets
-- that it receives, how the cursor and local input go to the other machine, and the clipboard.
--
-- The parts, each a folder of modules named for it, and the code that it models:
--   Protocol.Types, Packet   internal/protocol/types.go and packet.go: packet types, Marshal,
--                            UnmarshalPacket, machine names
--   Protocol.Stamp           internal/protocol/crypto.go: StampPacket, ValidatePacket, ClearStamp
--   Protocol.Stream          internal/protocol/stream.go: EncryptWriter and DecryptReader
--   Input.Codes, Keymap      internal/input/keymap_linux.go, keyboard_layout_linux.go,
--                            reverse_keymap_linux.go, buttons.go: key codes, layouts, lookups
--   Input.Uinput             internal/input/uinput.go: the virtual mouse and keyboard; Setup makes them
--   Input.Darwin             internal/input/coregraphics.go, keymap_darwin.go: the macOS port
--   Network.Devices, Handler internal/network/handler.go: HandlePacket and all its cases
--   Network.Conn             internal/network/client.go: SendPacket, SendPackets, RecvPacket,
--                            setupConn, doHandshake
--   Network.Receiver         internal/network/receiver.go: the liveness checks, ReceiveLoop
--   Config                   internal/config/config.go: the checks and defaults of Load
--   Program                  cmd/mwb/main.go: the settings, and the loop over sessions, which ends
--                            where the stop of the capture never returns
--   Capture                  internal/capture/capture_linux.go: the Capturer, its motion, keys and
--                            buttons, one tick of pollCursorEdge, one read of a device
--   Capture.Xinput, Display  internal/capture/capture_linux.go and screen_linux.go: the devices of
--                            xinput, Stop, the display and its size
--   Capture.Portal           internal/capture/portal_wayland.go: the Wayland driver's signals,
--                            gate, barriers and events
--   Capture.Portal.Start     the same file: what RunWayland acquires stage by stage, and stop, by
--                            who calls it
--   Clipboard                internal/clipboard/clipboard_linux.go: UTF-16, text formats, chunks,
--                            HandlePacket and one poll
--   Clipboard.Transfer       internal/clipboard/filetransfer_linux.go: the channel's handshake, the
--                            header and the body of a file
-- A handler owns a keyboard, a mouse and a clipboard by interfaces (Network.Devices), of which the
-- virtual devices are instances. A connection stamps a marshalled packet, encrypts it, and undoes
-- both on the other end; a received packet goes to the handler. A capturer sends what local input
-- becomes, and answers the handler's ShouldActivate; the methods of the capturer are the steps of
-- both drivers. The clipboard's manager is the handler's clipboard.
-- How the code is written: state is passed from call to call, and an operation takes the
-- state and returns the new one with its error, `none` for a nil error. A run-time panic is
-- `none` of a further Option. An int32 is an integer whose wrap-around is written out (wrap32); a
-- byte or a uint32 is a natural number with its bound as a hypothesis. Go ranges over a map in
-- any order: the order is an argument, known only to hold the map's entries. Time is an argument.
--
-- What is not under the repository is a parameter: AES in CBC mode (Protocol.Stream.BlockCipher,
-- with the documented laws CbcLaws), the answers of the kernel to writes on /dev/uinput and
-- of CoreGraphics to its calls, the fate of writes on a socket, float64 arithmetic (Prelude.Float, with ScalesToGrid where the range
-- of a product matters), Deflate (with DeflateLaws), decimal numbers (with DecimalLaws), the library's functions on
-- strings (Clipboard.Formats.Strings), what D-Bus, libei, xinput and xdotool deliver, and the detected
-- layout.
--
-- Bounds: io.ReadFull on the decrypting reader runs on fuel, one round for each byte asked for,
-- and each round stores a byte at least. The receive loop runs on one unit of fuel for each packet,
-- and each packet takes a block of the input at least: a session has a unit for each byte and one
-- more. The loops over a file run on its size, one
-- round for a byte, and each round takes a byte at least.
--
-- Not modelled: sockets, deadlines, locks, logging, key derivation, the calls
-- of D-Bus, libei and X11, the commands that hold the clipboard, the file system, the
-- user interface, the parsing of flags and signals. Each method of the capturer and of the clipboard's
-- manager is one step: what goroutines may do in its middle is not modelled.
pub mod Prelude
pub mod Protocol
pub mod Input
pub mod Network
pub mod Config
pub mod Program
pub mod Capture
pub mod Clipboard
pub mod Examples
