-- ===== src/Network/Conn/Handshake.antt =====
-- internal/network/client.go: the handshake of a new connection, and the connection's start.
-- Random bytes are arguments. The read deadline enters by the fault of the source.
pub mod Accepted
pub mod Streams
pub mod Valid
pub mod Answers
pub mod Meeting
use wayland_without_borders.Prelude.{
  ℕ, zero, suc, ◌+◌, ◌-◌, ◌*◌, ◌^◌, Bool, true, false, ◌&&◌, Option, none, some, List, ◌==◌,
  if◌then◌else◌, get_or, Result, ok, err, ◌≡◌, ◌↔◌, ◌≤◌, ◌<◌, refl, arith, GoError,
}
use wayland_without_borders.Prelude.Bytes.{IsU32}
use wayland_without_borders.Prelude.Text.{Text}
use wayland_without_borders.Prelude.Int.{pos}
use wayland_without_borders.Protocol.Types
use wayland_without_borders.Protocol.Packet.{Packet, HandshakeData, new_packet}
use wayland_without_borders.Protocol.Packet.Names.{set_machine_name, machine_name}
use wayland_without_borders.Protocol.Stream.{BlockCipher, StreamError, Fate}
use wayland_without_borders.Network.Conn.{Conn, RecvError, ◌>>=◌, send_packet, recv_packet}

-- `^v` of a uint32.
abbrev inverted_32 : ℕ → ℕ
inverted_32 v = 4294967295 - v

abbrev pub inverted : HandshakeData → HandshakeData
inverted d = record {
  machine1 = inverted_32 d.machine1;
  machine2 = inverted_32 d.machine2;
  machine3 = inverted_32 d.machine3;
  machine4 = inverted_32 d.machine4;
}

-- The words of the 16 random bytes.
abbrev word_at : List ℕ → ℕ → ℕ
word_at ran i =
    get_or ran i 0 * 2 ^ 24
    + get_or ran (i + 1) 0 * 2 ^ 16
    + get_or ran (i + 2) 0 * 2 ^ 8
    + get_or ran (i + 3) 0

unfoldable pub challenge_of : List ℕ → HandshakeData
challenge_of ran = record {
  machine1 = word_at ran 0;
  machine2 = word_at ran 4;
  machine3 = word_at ran 8;
  machine4 = word_at ran 12;
}

-- Whether the fields of a HandshakeAck are the expected ones.
unfoldable pub confirms : HandshakeData → HandshakeData → Bool
confirms challenge reply =
    reply.machine1 == (inverted challenge).machine1
    && reply.machine2 == (inverted challenge).machine2
    && reply.machine3 == (inverted challenge).machine3
    && reply.machine4 == (inverted challenge).machine4

pub data HandshakeError : Type 0 where
  send_handshake send_handshake_ack : StreamError → HandshakeError
  recv_failed : RecvError → HandshakeError
  verification_failed no_handshake_ack : HandshakeError

module _ (c : BlockCipher) where
  abbrev Shaken : Type 0
  Shaken = Option (Conn c × Option HandshakeError)

  -- The ten handshake packets.
  abbrev or_fail :
      (StreamError → HandshakeError) → (Conn c → Shaken) → Conn c × Option StreamError → Shaken
  or_fail f next (conn, some e) = some (conn, some (f e))
  or_fail f next (conn, none) = next conn

  unfoldable pub send_times : ℕ → Fate → Conn c → Packet → (Conn c → Shaken) → Shaken
  send_times zero fate conn p next = next conn
  send_times (suc n) fate conn p next =
      send_packet c fate conn p >>= or_fail send_handshake (λ k. send_times n fate k p next)

  unfoldable pub handshake_packet : Conn c → List ℕ → Packet
  handshake_packet conn ran =
      set_machine_name
        (record (new_packet Types.handshake conn.machine_id 0) {
          id = pos 1;
          handshake = challenge_of ran;
        })
        conn.local_name

  unfoldable pub ack_packet : Conn c → Packet → Packet
  ack_packet conn p =
      set_machine_name
        (record (new_packet Types.handshake_ack conn.machine_id p.src) {
          handshake = inverted p.handshake;
        })
        conn.local_name

  -- What a packet does to the wait for the ack.
  unfoldable pub on_shake : Fate → HandshakeData → (Conn c → Shaken) → Conn c → Packet → Shaken
  on_shake fate challenge next conn p =
      if p.typ == Types.handshake
      then send_packet c fate conn (ack_packet conn p) >>= or_fail send_handshake_ack next
      else if p.typ == Types.handshake_ack
      then (if confirms challenge p.handshake
          then some (record conn { remote_name = machine_name p; remote_id = p.src }, none)
          else some (conn, some verification_failed))
      else next conn

  abbrev on_received :
      Fate → HandshakeData → (Conn c → Shaken) → Result RecvError Packet × Conn c → Shaken
  on_received fate challenge next (err e, conn) = some (conn, some (recv_failed e))
  on_received fate challenge next (ok p, conn) = on_shake fate challenge next conn p

  -- The 20 packets at most that it waits for; `now` is the time of the n-th from the end.
  unfoldable pub await_ack : ℕ → (ℕ → ℕ) → Fate → HandshakeData → Conn c → Shaken
  await_ack zero now fate challenge conn = some (conn, some no_handshake_ack)
  await_ack (suc n) now fate challenge conn =
      recv_packet c (now n) conn >>= on_received fate challenge (await_ack n now fate challenge)

  -- `doHandshake`
  unfoldable pub do_handshake : (ℕ → ℕ) → Fate → List ℕ → Conn c → Shaken
  do_handshake now fate ran conn =
      send_times 10 fate conn (handshake_packet conn ran) (await_ack 20 now fate (challenge_of ran))

-- An acknowledgement is accepted exactly if each of its words is the bitwise inverse of the word that
-- was sent, as `ack_packet` computes it.
pub confirms_lem :
    (challenge reply : HandshakeData)
    → (confirms challenge reply ≡ true) ↔ (
        (reply.machine1 ≡ (inverted challenge).machine1)
        × (reply.machine2 ≡ (inverted challenge).machine2)
        × (reply.machine3 ≡ (inverted challenge).machine3)
        × (reply.machine4 ≡ (inverted challenge).machine4))
unfolding confirms
confirms_lem challenge reply = ground arith
