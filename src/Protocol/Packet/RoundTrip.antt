-- ===== src/Protocol/Packet/RoundTrip.antt =====
-- What `unmarshal` reads back from `marshal` (internal/protocol/packet.go).
use wayland_without_borders.Prelude.{
  ℕ, ◌+◌, ◌*◌, ◌/◌, ◌%◌, ◌^◌, ◌<◌, ◌≡◌, refl, ◌∙◌, Bool, true, false, Option, none, some, List,
  ◌++◌, length, replicate, ok, arith,
}
use wayland_without_borders.Prelude.Int.{
  ℤ, IsI32, IsI64, to_u32, of_u32, to_u64, of_u64, of_u32-to_u32, of_u64-to_u64, to_u32-lt,
  to_u64-lt,
}
use wayland_without_borders.Prelude.Bytes.{IsU32, length-pad, copy_at_full, take_all}
use wayland_without_borders.Protocol.Types.{
  Payload, mouse_payload, keyboard_payload, handshake_payload, clipboard_payload, no_payload,
  payload_of, is_big_packet, SizeFits, payload_of-SizeFits,
}
use wayland_without_borders.Protocol.Packet.{Packet, new_packet, marshal, unmarshal}
use wayland_without_borders.Protocol.Packet.Wire.{
  IsValid, data_bytes, name_bytes, fields, on_wire, header, mouse_words, keyboard_words,
  handshake_words, marshal_mouse, marshal_keyboard, marshal_handshake, marshal_clipboard,
  marshal_small, marshal_big,
}

-- The words that the receiver puts together again from the sender's bytes.
abbrev join_32 : ℕ → ℕ
join_32 v =
    v % 256 + 256 * (v / 256 % 256) + 65536 * (v / 65536 % 256) + 16777216 * (v / 16777216 % 256)

abbrev join_64 : ℕ → ℕ
join_64 v = join_32 (v % 2 ^ 32) + 2 ^ 32 * join_32 (v / 2 ^ 32)

u32_word : (v : ℕ) → IsU32 v → join_32 v ≡ v
u32_word v h = omega arith

pub i32_word : (z : ℤ) → IsI32 z → of_u32 (join_32 (to_u32 z)) ≡ z
i32_word z h = rw (u32_word (to_u32 z) (to_u32-lt z)) (of_u32-to_u32 z h)

i64_word : (z : ℤ) → IsI64 z → of_u64 (join_64 (to_u64 z)) ≡ z
i64_word z h = rw (u64_word (to_u64 z) (to_u64-lt z)) (of_u64-to_u64 z h)
  where
    u64_word : (v : ℕ) → v < 2 ^ 64 → join_64 v ≡ v
    u64_word v k = omega arith

module _ (p : Packet) (v : IsValid p) where
  unmarshal_mouse :
      payload_of p.typ ≡ mouse_payload
      → is_big_packet p.typ ≡ false
      → unmarshal (header p (mouse_words p.mouse)) ≡ ok (fields mouse_payload p)
  unfolding unmarshal
  unmarshal_mouse e b = rw (
    e,
    b,
    i32_word _ v.id,
    u32_word _ v.src,
    u32_word _ v.des,
    i32_word _ v.x,
    i32_word _ v.y,
    i32_word _ v.wheel_delta,
    i32_word _ v.mouse_flags,
  )

  unmarshal_keyboard :
      payload_of p.typ ≡ keyboard_payload
      → is_big_packet p.typ ≡ false
      → unmarshal (header p (keyboard_words p.keyboard)) ≡ ok (fields keyboard_payload p)
  unfolding unmarshal
  unmarshal_keyboard e b = rw (
    e,
    b,
    i32_word _ v.id,
    u32_word _ v.src,
    u32_word _ v.des,
    i64_word _ v.date_time,
    i32_word _ v.w_vk,
    i32_word _ v.key_flags,
  )

  unmarshal_handshake :
      (name : List ℕ)
      → length name ≡ 32
      → payload_of p.typ ≡ handshake_payload
      → is_big_packet p.typ ≡ true
      → unmarshal (header p (handshake_words p.handshake name))
        ≡ ok (record (fields handshake_payload p) { machine_name = name })
  unfolding unmarshal
  unmarshal_handshake name n e b = rw (
    e,
    b,
    n,
    i32_word _ v.id,
    u32_word _ v.src,
    u32_word _ v.des,
    u32_word _ v.machine1,
    u32_word _ v.machine2,
    u32_word _ v.machine3,
    u32_word _ v.machine4,
    take_all 32 name (omega arith),
    copy_at_full name (replicate 32 0) n,
  )

  unmarshal_clipboard :
      (d : List ℕ)
      → length d ≡ 48
      → payload_of p.typ ≡ clipboard_payload
      → is_big_packet p.typ ≡ true
      → unmarshal (header p d)
        ≡ ok (record (fields clipboard_payload p) { clipboard_data = some d })
  unfolding unmarshal
  unmarshal_clipboard d n e b =
      rw (e, b, n, i32_word _ v.id, u32_word _ v.src, u32_word _ v.des, take_all 48 d (omega arith))

  unmarshal_small :
      payload_of p.typ ≡ no_payload
      → is_big_packet p.typ ≡ false
      → unmarshal (header p (replicate 16 0))
        ≡ ok (record (new_packet p.typ p.src p.des) { id = p.id })
  unfolding unmarshal
  unmarshal_small e b = rw (e, b, i32_word _ v.id, u32_word _ v.src, u32_word _ v.des)

  unmarshal_big :
      (name : List ℕ)
      → length name ≡ 32
      → payload_of p.typ ≡ no_payload
      → is_big_packet p.typ ≡ true
      → unmarshal (header p (replicate 16 0 ++ name))
        ≡ ok (record (new_packet p.typ p.src p.des) { id = p.id; machine_name = name })
  unfolding unmarshal
  unmarshal_big name n e b = rw (
    e,
    b,
    n,
    i32_word _ v.id,
    u32_word _ v.src,
    u32_word _ v.des,
    take_all 32 name (omega arith),
    copy_at_full name (replicate 32 0) n,
  )

pub length-name_bytes :
    (p : Packet) (d : Option (List ℕ))
    → length p.machine_name ≡ 32
    → length (name_bytes p true d) ≡ 32
length-name_bytes p none h = h
length-name_bytes p (some d) h = refl

pub length-data_bytes :
    (p : Packet) (d : Option (List ℕ)) → length p.machine_name ≡ 32 → length (data_bytes p d) ≡ 48
length-data_bytes p none h = omega arith
length-data_bytes p (some d) h = length-pad 48 d

unmarshal-marshal_as :
    (k : Payload) (big : Bool) (p : Packet)
    → IsValid p
    → payload_of p.typ ≡ k
    → is_big_packet p.typ ≡ big
    → SizeFits k big
    → unmarshal (marshal p) ≡ ok (fields k p)
unmarshal-marshal_as mouse_payload big p v e b h =
    rw (marshal_mouse p e (b ∙ h)) (unmarshal_mouse p v e (b ∙ h))
unmarshal-marshal_as keyboard_payload big p v e b h =
    rw (marshal_keyboard p e (b ∙ h)) (unmarshal_keyboard p v e (b ∙ h))
unmarshal-marshal_as handshake_payload big p v e b h =
    rw (marshal_handshake p e (b ∙ h) v.machine_name)
      (unmarshal_handshake p v _ (length-name_bytes p p.clipboard_data v.machine_name) e (b ∙ h))
unmarshal-marshal_as clipboard_payload big p v e b h =
    rw (marshal_clipboard p e (b ∙ h) v.machine_name)
      (unmarshal_clipboard p v _ (length-data_bytes p p.clipboard_data v.machine_name) e (b ∙ h))
unmarshal-marshal_as no_payload false p v e b h =
    rw (marshal_small p e b, b) (unmarshal_small p v e b)
unmarshal-marshal_as no_payload true p v e b h =
    rw (marshal_big p e b v.machine_name, b)
      (unmarshal_big p v _ (length-name_bytes p p.clipboard_data v.machine_name) e b)

-- A packet whose fields are in the ranges of their Go types, and whose machine name has 32 bytes, is
-- received as `on_wire` says. The header and the payload of the packet's type arrive: the mouse, the
-- keyboard or the handshake words, or the clipboard data, cut or padded to 48 bytes. A clipboard
-- packet without data brings 16 zeros and the machine name as its data, and its own name field is
-- zeros. The handshake and the big packets without a payload bring the machine name, or zeros where
-- the sender's packet holds clipboard data. All other fields are lost.
pub unmarshal-marshal : (p : Packet) → IsValid p → unmarshal (marshal p) ≡ ok (on_wire p)
unfolding on_wire
unmarshal-marshal p v =
    unmarshal-marshal_as (payload_of p.typ) (is_big_packet p.typ) p v refl refl
      (payload_of-SizeFits p.typ v.typ)
