-- ===== src/Examples/Wire.antt =====
-- A mouse packet and a heartbeat, stamped, encrypted and sent (internal/protocol and
-- internal/network/client.go).
use wayland_without_borders.Prelude.{
  ℕ, zero, suc, ◌+◌, ◌-◌, ◌≡◌, refl, ap, none, some, List, [], ◌∷◌, ◌++◌, map, length,
  length-append, replicate, set, ok, err, arith,
}
use wayland_without_borders.Prelude.Int.{pos, negsuc, ◌≤ℤ◌}
use wayland_without_borders.Prelude.Bytes.{All, IsByte}
use wayland_without_borders.Protocol.Types
use wayland_without_borders.Protocol.Packet.{Packet, new_packet, marshal, unmarshal}
use wayland_without_borders.Protocol.Packet.Wire.{IsValid, on_wire}
use wayland_without_borders.Protocol.Packet.RoundTrip.{unmarshal-marshal}
use wayland_without_borders.Protocol.Stamp.{
  checksum_mismatch, stamp_packet, stamp_loop, validate_packet,
}
use wayland_without_borders.Protocol.Stamp.Corruption.{validate_packet_detects}
use wayland_without_borders.Protocol.Stream.{BlockCipher, CbcLaws, DecryptReader, read}
use wayland_without_borders.Protocol.Stream.Laws.{read_short}
use wayland_without_borders.Network.Conn.{Conn, next_packet_id}
use wayland_without_borders.Network.Conn.Ids.{IsCounter, next_packet_id-IsCounter}
use wayland_without_borders.Network.Conn.Delivery.{InStep, Arrives, plain, sent, behind, delivered}

abbrev click : Packet
click = record (new_packet Types.mouse 7 8) {
  id = pos 5;
  mouse = record { x = pos 32767; y = negsuc 4; wheel_delta = pos 120; dw_flags = pos 0x020A };
}

click-IsValid : IsValid click
click-IsValid = record {
  typ = omega arith;
  id = omega arith;
  src = omega arith;
  des = omega arith;
  x = omega arith;
  y = omega arith;
  wheel_delta = omega arith;
  mouse_flags = omega arith;
  date_time = omega arith;
  w_vk = omega arith;
  key_flags = omega arith;
  machine1 = omega arith;
  machine2 = omega arith;
  machine3 = omega arith;
  machine4 = omega arith;
  machine_name = refl;
}

unmarshal-marshal_example : unmarshal (marshal click) ≡ ok (on_wire click)
unmarshal-marshal_example = unmarshal-marshal click click-IsValid

abbrev buffer : List ℕ
buffer = 20 ∷ replicate 31 1

abbrev stamped_buffer : List ℕ
stamped_buffer = 20 ∷ 29 ∷ 0 ∷ 1 ∷ replicate 28 1

ones : (n : ℕ) → All IsByte (replicate n 1)
ones zero = tt
ones (suc n) = (omega arith, ones n)

buffer_bytes : All IsByte buffer
buffer_bytes = (omega arith, ones 31)

stamp_buffer : stamp_packet buffer 16777216 ≡ some stamped_buffer
unfolding stamp_packet stamp_loop
stamp_buffer = refl

validate_packet_detects_example :
    (b1 : ℕ) × (sum : ℕ) × (validate_packet (set stamped_buffer 9 2) 16777216
      ≡ some (err (checksum_mismatch b1 sum)))
validate_packet_detects_example =
    validate_packet_detects buffer stamped_buffer 16777216 9 2 (omega arith) buffer_bytes
      (omega arith) stamp_buffer (omega arith) (omega arith) (omega arith) (omega arith)

-- A stand-in for the cipher: it adds one to each byte, and counts the blocks.
abbrev pub counting : BlockCipher
counting = record {
  Mode = ℕ;
  encrypt = λ m p. (m + length p, map (λ b. b + 1) p);
  decrypt = λ m p. (m + length p, map (λ b. b - 1) p);
}

map-append : (xs ys : List ℕ) (f : ℕ → ℕ) → map f (xs ++ ys) ≡ map f xs ++ map f ys
map-append [] ys f = refl
map-append (x ∷ xs) ys f = ap (λ t. f x ∷ t) (map-append xs ys f)

length-map : (xs : List ℕ) (f : ℕ → ℕ) → length (map f xs) ≡ length xs
length-map [] f = refl
length-map (x ∷ xs) f = ap suc (length-map xs f)

map-back : (xs : List ℕ) → map (λ b. b - 1) (map (λ b. b + 1) xs) ≡ xs
map-back [] = refl
map-back (x ∷ xs) = rw (map-back xs) (ap (λ b. b ∷ xs) (omega arith))

pub counting_laws : CbcLaws counting
counting_laws = record {
  length-encrypt = λ m p b. length-map p (λ b. b + 1);
  decrypt-encrypt = λ m p b. rw (length-map p (λ b. b + 1), map-back p) refl;
  encrypt-append = λ m p q b c. map-append p q (λ b. b + 1);
  encrypt-append_mode = λ m p q b c. omega (arith, length-append p q);
}

abbrev two_blocks : List ℕ
two_blocks = replicate 32 7

abbrev reader : List ℕ → DecryptReader counting
reader bytes = record { r = record { input = bytes; fault = none }; mode = 0 }

read_short_example : read counting (reader (replicate 40 8)) 5 ≡ (
  ok (replicate 5 7),
  record { r = record { input = replicate 24 8; fault = none }; mode = 16 },
)
read_short_example =
    read_short counting counting_laws (reader (replicate 40 8)) (replicate 16 7) (replicate 24 8) 5
      (omega arith) (omega arith) refl

next_packet_id-IsCounter_example :
    (pos 1 ≤ℤ next_packet_id (pos 0x7FFFFF00)) × IsCounter (next_packet_id (pos 0x7FFFFF00))
next_packet_id-IsCounter_example =
    next_packet_id-IsCounter (pos 0x7FFFFF00) (omega arith, omega arith)

abbrev pub idle : List ℕ → Conn counting
idle bytes = record {
  enc = record { w = record { sent = []; writes = 0 }; mode = 0 };
  dec = reader bytes;
  magic = 16777216;
  machine_id = 7;
  remote_id = 8;
  local_name = [];
  remote_name = [];
  next_id = pos 9;
  last_recv = 0;
}

abbrev arriving : List ℕ
arriving = (counting.encrypt 0 (plain counting counting_laws (idle []) click)).1 ++ (1 ∷ [])

delivered_example :
    Arrives counting counting_laws 3
      (λ n. none)
      (idle [])
      (idle arriving)
      click
      (plain counting counting_laws (idle []) click)
      (1 ∷ [])
    × InStep counting counting_laws
        (sent counting counting_laws
          (idle [])
          (next_packet_id (pos 9))
          (plain counting counting_laws (idle []) click))
        (record (idle arriving) {
          dec =
              behind counting counting_laws
                (reader arriving)
                (plain counting counting_laws (idle []) click)
                (1 ∷ []);
          last_recv = 3;
        })
delivered_example =
    delivered counting counting_laws 3 (λ n. none) (idle []) (idle arriving) click (1 ∷ [])
      click-IsValid
      (record {
        magic = refl;
        word = omega arith;
        mode = refl;
        counter = (omega arith, omega arith);
      })
      refl refl
