-- ===== src/Examples/Greeting.antt =====
-- Two connections that shake hands (internal/network/client.go).
use wayland_without_borders.Prelude.{
  ℕ, refl, sym, ◌∙◌, List, ◌++◌, ◌≡◌, none, some, [], replicate, arith, append-nil,
}
use wayland_without_borders.Prelude.Bytes.{All, IsByte}
use wayland_without_borders.Prelude.Text.{bytes_of}
use wayland_without_borders.Protocol.Packet.{Packet}
use wayland_without_borders.Protocol.Stream.{DecryptReader}
use wayland_without_borders.Network.Conn.{Conn}
use wayland_without_borders.Network.Conn.Delivery.{InStep}
use wayland_without_borders.Network.Conn.Handshake.{handshake_packet, ack_packet, do_handshake}
use wayland_without_borders.Network.Conn.Handshake.Streams.{wire, wire_lem}
use wayland_without_borders.Network.Conn.Handshake.Meeting.{talk, HasMet, do_handshake-HasMet}
use wayland_without_borders.Examples.Wire.{counting, counting_laws, idle}

abbrev peer : Conn counting
peer = record (idle []) { machine_id = 21; local_name = bytes_of "desk" }

abbrev ran : List ℕ
ran = replicate 16 3

abbrev peer_ran : List ℕ
peer_ran = replicate 16 200

abbrev hears : Conn counting → List ℕ → Conn counting → List ℕ → Conn counting
hears x xr y yr = record x {
  dec = record {
    r = record (x.dec.r) {
      input =
          wire counting counting_laws y
            (talk counting counting_laws (λ n. none) (λ n. refl) y yr x xr);
    };
    mode = x.dec.mode;
  };
}

abbrev one : Conn counting
one = hears (idle []) ran peer peer_ran

abbrev other : Conn counting
other = hears peer peer_ran (idle []) ran

-- What one end hears is what the other says, though each has read something else.
said :
    (x y z : Conn counting) (d : DecryptReader counting) (ps : List Packet)
    → wire counting counting_laws y ps ≡ wire counting counting_laws (record y { dec = d }) ps ++ []
said x y z d ps = sym (
    append-nil (wire counting counting_laws (record y { dec = d }) ps)
    ∙ wire_lem counting counting_laws y d ps)

do_handshake-HasMet_example :
    ((x' : Conn counting) × (do_handshake counting (λ n. n) (λ n. none) ran one ≡ some (x', none))
      × HasMet counting counting_laws (λ n. none) (λ n. refl) one ran other peer_ran x')
    × ((y' : Conn counting) × (do_handshake counting (λ n. n) (λ n. none) peer_ran other
          ≡ some (y', none))
        × HasMet counting counting_laws (λ n. none) (λ n. refl) other peer_ran one ran y')
unfolding handshake_packet ack_packet
do_handshake-HasMet_example =
    do_handshake-HasMet counting counting_laws (λ n. none) (λ n. refl) (λ n. n) (λ n. n) one other
      ran peer_ran [] [] (omega arith, bytes) (omega arith, peer_bytes) in_step in_step_back
      (said one peer one other.dec _) (said one (idle []) one one.dec _)
  where
    bytes : All IsByte ran
    bytes = ground arith

    peer_bytes : All IsByte peer_ran
    peer_bytes = ground arith

    in_step : InStep counting counting_laws one other
    in_step = record {
      magic = refl;
      word = omega arith;
      mode = refl;
      counter = (omega arith, omega arith);
    }

    in_step_back : InStep counting counting_laws other one
    in_step_back = record {
      magic = refl;
      word = omega arith;
      mode = refl;
      counter = (omega arith, omega arith);
    }
