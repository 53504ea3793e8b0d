-- ===== src/Network/Conn/Handshake/Valid.antt =====
-- The handshake's packets are packets that travel unchanged (internal/network/client.go).
use wayland_without_borders.Prelude.{ℕ, zero, suc, ◌+◌, ◌-◌, ◌<◌, List, [], ◌∷◌, get_or, arith}
use wayland_without_borders.Prelude.Bytes.{IsU32, IsByte, All}
use wayland_without_borders.Protocol.Types
use wayland_without_borders.Protocol.Types.{payload_of}
use wayland_without_borders.Protocol.Packet.{new_packet}
use wayland_without_borders.Protocol.Packet.Wire.{IsValid}
use wayland_without_borders.Protocol.Packet.Names.{set_machine_name, length-set_machine_name}
use wayland_without_borders.Protocol.Stream.{BlockCipher}
use wayland_without_borders.Network.Conn.{Conn}
use wayland_without_borders.Network.Conn.Handshake.{
  word_at, challenge_of, handshake_packet, ack_packet,
}

-- What Go's types say of an end.
abbrev pub IsEnd : {c : BlockCipher} → Conn c → List ℕ → Type 0
IsEnd conn ran = IsU32 conn.machine_id × (All IsByte ran)

byte_of : (ran : List ℕ) (i : ℕ) → All IsByte ran → get_or ran i 0 < 256
byte_of [] i h = omega arith
byte_of (b ∷ ran) zero h = h.0
byte_of (b ∷ ran) (suc i) h = byte_of ran i h.1

word-IsU32 : (ran : List ℕ) (i : ℕ) → All IsByte ran → IsU32 (word_at ran i)
word-IsU32 ran i h =
    omega
      (arith, byte_of ran i h, byte_of ran (i + 1) h, byte_of ran (i + 2) h, byte_of ran (i + 3) h)

inverted-IsU32 : (v : ℕ) → IsU32 (4294967295 - v)
inverted-IsU32 v = omega arith

module _ (c : BlockCipher) where
  pub handshake_packet-IsValid :
      (x : Conn c) (ran : List ℕ) → IsEnd x ran → IsValid (handshake_packet c x ran)
  unfolding handshake_packet challenge_of set_machine_name
  handshake_packet-IsValid x ran (id, h) = record {
    typ = omega arith;
    id = ground arith;
    src = id;
    des = omega arith;
    x = ground arith;
    y = ground arith;
    wheel_delta = ground arith;
    mouse_flags = ground arith;
    date_time = ground arith;
    w_vk = ground arith;
    key_flags = ground arith;
    machine1 = word-IsU32 ran 0 h;
    machine2 = word-IsU32 ran 4 h;
    machine3 = word-IsU32 ran 8 h;
    machine4 = word-IsU32 ran 12 h;
    machine_name = length-set_machine_name (new_packet Types.handshake x.machine_id 0) x.local_name;
  }

  pub ack_packet-IsValid :
      (x y : Conn c) (ran : List ℕ)
      → IsU32 x.machine_id
      → IsU32 y.machine_id
      → IsValid (ack_packet c x (handshake_packet c y ran))
  unfolding ack_packet handshake_packet set_machine_name
  ack_packet-IsValid x y ran id peer = record {
    typ = omega arith;
    id = ground arith;
    src = id;
    des = peer;
    x = ground arith;
    y = ground arith;
    wheel_delta = ground arith;
    mouse_flags = ground arith;
    date_time = ground arith;
    w_vk = ground arith;
    key_flags = ground arith;
    machine1 = inverted-IsU32 _;
    machine2 = inverted-IsU32 _;
    machine3 = inverted-IsU32 _;
    machine4 = inverted-IsU32 _;
    machine_name = length-set_machine_name (new_packet Types.handshake x.machine_id 0) x.local_name;
  }
