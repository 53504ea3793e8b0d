-- ===== src/Network/Conn/Handshake/Accepted.antt =====
-- The answer of an honest peer ends the handshake (internal/network/client.go).
use wayland_without_borders.Prelude.{ℕ, ◌≡◌, ap, true, Option, none, some, List, take, arith}
use wayland_without_borders.Protocol.Types.{payload_of}
use wayland_without_borders.Protocol.Packet.{Packet, HandshakeData}
use wayland_without_borders.Protocol.Packet.Names.{
  set_machine_name, machine_name, trim_right, machine_name-set_machine_name,
}
use wayland_without_borders.Protocol.Packet.Wire.{on_wire}
use wayland_without_borders.Protocol.Stream.{BlockCipher, Fate}
use wayland_without_borders.Network.Conn.{Conn}
use wayland_without_borders.Network.Conn.Handshake.{
  HandshakeError, inverted, confirms, ack_packet, on_shake,
}

module _ (c : BlockCipher) where
  pub confirms-inverted : (d : HandshakeData) → confirms d (inverted d) ≡ true
  unfolding confirms
  confirms-inverted d = ground arith

  abbrev named : Conn c → ℕ → List ℕ → Option (Conn c × Option HandshakeError)
  named conn id name = some (record conn { remote_name = name; remote_id = id }, none)

  -- The answer to a packet with this side's challenge, as it arrives from any peer, is accepted: the
  -- handshake is over, and this side knows the peer's id and its name, cut to 32 bytes and without
  -- trailing spaces.
  pub on_shake-ack_packet :
      (fate : Fate) (next : Conn c → Option (Conn c × Option HandshakeError)) (conn peer : Conn c)
      (p : Packet)
      → on_shake c fate p.handshake next conn (on_wire (ack_packet c peer p))
        ≡ some (
          record conn {
            remote_name = trim_right (take 32 peer.local_name);
            remote_id = peer.machine_id;
          },
          none,
        )
  unfolding on_shake ack_packet on_wire payload_of set_machine_name machine_name
  on_shake-ack_packet fate next conn peer p =
      rw (confirms-inverted p.handshake)
        (ap (named conn peer.machine_id) (machine_name-set_machine_name p peer.local_name))
