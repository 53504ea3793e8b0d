-- ===== src/Network/Conn/Setup.antt =====
-- internal/network/client.go: `setupConn`, which both Connect and ListenAndAccept end in. The socket
-- options, the key material and the cipher's streams are set up before; the random bytes are
-- arguments, and `none` stands for an error of the generator.
use wayland_without_borders.Prelude.{ℕ, Option, none, some, List, [], Result, ok, err}
use wayland_without_borders.Prelude.Int.{pos}
use wayland_without_borders.Prelude.Text.{Text}
use wayland_without_borders.Protocol.Types
use wayland_without_borders.Protocol.Types.{id_all}
use wayland_without_borders.Protocol.Stream.{
  BlockCipher, StreamError, Fate, EncryptWriter, DecryptReader, write, read_full,
}
use wayland_without_borders.Network.Conn.{Conn, ◌>>=◌, machine_id_of, send_packet, named_packet}
use wayland_without_borders.Network.Conn.Handshake.{HandshakeError, do_handshake}

pub data SetupError : Type 0 where
  rand_failed : SetupError
  send_iv_block read_iv_block send_heartbeat : StreamError → SetupError
  handshake_failed : HandshakeError → SetupError

module _ (c : BlockCipher) where
  abbrev Made : Type 0
  Made = Option (Result SetupError (Conn c))

  -- The first heartbeat.
  abbrev registered : Conn c × Option StreamError → Made
  registered (conn, some e) = some (err (send_heartbeat e))
  registered (conn, none) = some (ok conn)

  abbrev shaken : Fate → Conn c × Option HandshakeError → Made
  shaken fate (conn, some e) = some (err (handshake_failed e))
  shaken fate (conn, none) =
      send_packet c fate conn (named_packet c conn Types.heartbeat_ex id_all) >>= registered

  -- The connection behind the exchange of the random blocks.
  unfoldable pub new_conn : EncryptWriter c → DecryptReader c → ℕ → Text → List ℕ → ℕ → Conn c
  new_conn enc dec magic name ran start = record {
    enc = enc;
    dec = dec;
    magic = magic;
    machine_id = machine_id_of ran;
    remote_id = 0;
    local_name = name;
    remote_name = [];
    next_id = pos 0;
    last_recv = start;
  }

  abbrev exchanged :
      (ℕ → ℕ)
      → ℕ
      → Fate
      → ℕ
      → Text
      → List ℕ
      → List ℕ
      → EncryptWriter c
      → Result StreamError (List ℕ) × DecryptReader c
      → Made
  exchanged now start fate magic name ran challenge enc (err e, dec) = some (err (read_iv_block e))
  exchanged now start fate magic name ran challenge enc (ok peer_ran, dec) =
      do_handshake c now fate challenge (new_conn enc dec magic name ran start) >>= shaken fate

  abbrev greeted :
      (ℕ → ℕ)
      → ℕ
      → Fate
      → ℕ
      → Text
      → List ℕ
      → List ℕ
      → DecryptReader c
      → EncryptWriter c × Option StreamError
      → Made
  greeted now start fate magic name ran challenge dec (enc, some e) = some (err (send_iv_block e))
  greeted now start fate magic name ran challenge dec (enc, none) =
      exchanged now start fate magic name ran challenge enc (read_full c dec 16)

  -- `setupConn` at the time `start`
  unfoldable pub setup_conn :
      (ℕ → ℕ)
      → ℕ
      → Fate
      → ℕ
      → Text
      → Option (List ℕ)
      → List ℕ
      → EncryptWriter c
      → DecryptReader c
      → Made
  setup_conn now start fate magic name none challenge enc dec = some (err rand_failed)
  setup_conn now start fate magic name (some ran) challenge enc dec =
      greeted now start fate magic name ran challenge dec (write c fate enc ran)
