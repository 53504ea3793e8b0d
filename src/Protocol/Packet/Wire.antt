-- ===== src/Protocol/Packet/Wire.antt =====
-- The bytes that `marshal` writes, case by case, and what they hold of a packet
-- (internal/protocol/packet.go).
use wayland_without_borders.Prelude.{
  ℕ, ◌≡◌, sym, ◌∙◌, Bool, true, false, Option, none, some, List, [], ◌∷◌, ◌++◌, ltb, if◌then◌else◌,
  length, take, replicate, arith, Bool-cases, Option-cases, inl, inr,
}
use wayland_without_borders.Prelude.Int.{ℤ, IsI32, IsI64, to_u32, to_u64}
use wayland_without_borders.Prelude.Bytes.{
  IsByte, IsU32, le_bytes_32, le_bytes_64, pad, copy_at-zeros, copy_at_full, take_all,
}
use wayland_without_borders.Protocol.Types.{
  Payload, mouse_payload, keyboard_payload, handshake_payload, clipboard_payload, no_payload,
  payload_of, is_big_packet,
}
use wayland_without_borders.Protocol.Packet.{
  Packet, MouseData, KeyboardData, HandshakeData, new_packet, marshal,
}

-- The ranges that Go's types give.
pub record IsValid (p : Packet) : Type 0 where
  pub typ : IsByte p.typ
  pub id : IsI32 p.id
  pub src : IsU32 p.src
  pub des : IsU32 p.des
  pub x : IsI32 p.mouse.x
  pub y : IsI32 p.mouse.y
  pub wheel_delta : IsI32 p.mouse.wheel_delta
  pub mouse_flags : IsI32 p.mouse.dw_flags
  pub date_time : IsI64 p.keyboard.date_time
  pub w_vk : IsI32 p.keyboard.w_vk
  pub key_flags : IsI32 p.keyboard.dw_flags
  pub machine1 : IsU32 p.handshake.machine1
  pub machine2 : IsU32 p.handshake.machine2
  pub machine3 : IsU32 p.handshake.machine3
  pub machine4 : IsU32 p.handshake.machine4
  pub machine_name : length p.machine_name ≡ 32

-- The 48 data bytes of a clipboard packet: the chunk, cut and zero-padded to 48, or without a
-- chunk 16 zeros and the machine name.
abbrev pub data_bytes : Packet → Option (List ℕ) → List ℕ
data_bytes p none = replicate 16 0 ++ p.machine_name
data_bytes p (some d) = pad 48 d

-- The machine name travels in a big packet whose bytes 32 to 63 hold no clipboard data.
abbrev pub name_bytes : Packet → Bool → Option (List ℕ) → List ℕ
name_bytes p false d = replicate 32 0
name_bytes p true none = p.machine_name
name_bytes p true (some d) = replicate 32 0

abbrev pub fields : Payload → Packet → Packet
fields mouse_payload p = record (new_packet p.typ p.src p.des) { id = p.id; mouse = p.mouse }
fields keyboard_payload p = record (new_packet p.typ p.src p.des) {
  id = p.id;
  keyboard = p.keyboard;
}
fields handshake_payload p = record (new_packet p.typ p.src p.des) {
  id = p.id;
  handshake = p.handshake;
  machine_name = name_bytes p true p.clipboard_data;
}
fields clipboard_payload p = record (new_packet p.typ p.src p.des) {
  id = p.id;
  clipboard_data = some (data_bytes p p.clipboard_data);
}
fields no_payload p = record (new_packet p.typ p.src p.des) {
  id = p.id;
  machine_name = name_bytes p (is_big_packet p.typ) p.clipboard_data;
}

-- What the receiver learns of a packet: its header, the payload of its type, and nothing else.
unfoldable pub on_wire : Packet → Packet
on_wire p = fields (payload_of p.typ) p

-- Bytes 0 to 15, and what follows them.
abbrev pub header : Packet → List ℕ → List ℕ
header p rest =
    p.typ
    ∷ 0
    ∷ 0
    ∷ 0
    ∷ (le_bytes_32 (to_u32 p.id) ++ (le_bytes_32 p.src ++ (le_bytes_32 p.des ++ rest)))

abbrev pub four_words : ℕ → ℕ → ℕ → ℕ → List ℕ → List ℕ
four_words a b c d rest =
    le_bytes_32 a ++ (le_bytes_32 b ++ (le_bytes_32 c ++ (le_bytes_32 d ++ rest)))

abbrev pub mouse_words : MouseData → List ℕ
mouse_words m = four_words (to_u32 m.x) (to_u32 m.y) (to_u32 m.wheel_delta) (to_u32 m.dw_flags) []

abbrev pub keyboard_words : KeyboardData → List ℕ
keyboard_words k =
    le_bytes_64 (to_u64 k.date_time)
    ++ (le_bytes_32 (to_u32 k.w_vk) ++ (le_bytes_32 (to_u32 k.dw_flags) ++ []))

abbrev pub handshake_words : HandshakeData → List ℕ → List ℕ
handshake_words h = four_words h.machine1 h.machine2 h.machine3 h.machine4

-- `if n > 48 { n = 48 }` cuts nothing more than the first 48 bytes.
take_cut : (m : ℕ) (d : List ℕ) → take (if ltb m (length d) then m else length d) d ≡ take m d
take_cut m d = elim (Bool-cases (ltb m (length d))) [
  | inl e ↦ rw e
  | inr e ↦ rw e (take_all _ d (omega arith) ∙ sym (take_all m d (ground arith)))
]

-- One lemma for each case of the payload switch: the bytes written, then the bytes read.
module _ (p : Packet) where
  pub marshal_mouse :
      payload_of p.typ ≡ mouse_payload
      → is_big_packet p.typ ≡ false
      → marshal p ≡ header p (mouse_words p.mouse)
  unfolding marshal
  marshal_mouse e b = rw (e, b)

  pub marshal_keyboard :
      payload_of p.typ ≡ keyboard_payload
      → is_big_packet p.typ ≡ false
      → marshal p ≡ header p (keyboard_words p.keyboard)
  unfolding marshal
  marshal_keyboard e b = rw (e, b)

  pub marshal_handshake :
      payload_of p.typ ≡ handshake_payload
      → is_big_packet p.typ ≡ true
      → length p.machine_name ≡ 32
      → marshal p ≡ header p (handshake_words p.handshake (name_bytes p true p.clipboard_data))
  unfolding marshal
  marshal_handshake e b h = elim (Option-cases p.clipboard_data) [
    | inl c ↦ rw (e, b, c, copy_at_full p.machine_name (replicate 32 0) h)
    | inr (d, c) ↦ rw (e, b, c)
  ]

  pub marshal_clipboard :
      payload_of p.typ ≡ clipboard_payload
      → is_big_packet p.typ ≡ true
      → length p.machine_name ≡ 32
      → marshal p ≡ header p (data_bytes p p.clipboard_data)
  unfolding marshal
  marshal_clipboard e b h = elim (Option-cases p.clipboard_data) [
    | inl c ↦ rw (e, b, c, copy_at_full p.machine_name (replicate 32 0) h)
    | inr (d, c) ↦ rw (e, b, c, take_cut 48 d, copy_at-zeros 48 d)
  ]

  pub marshal_small :
      payload_of p.typ ≡ no_payload
      → is_big_packet p.typ ≡ false
      → marshal p ≡ header p (replicate 16 0)
  unfolding marshal
  marshal_small e b = rw (e, b)

  pub marshal_big :
      payload_of p.typ ≡ no_payload
      → is_big_packet p.typ ≡ true
      → length p.machine_name ≡ 32
      → marshal p ≡ header p (replicate 16 0 ++ name_bytes p true p.clipboard_data)
  unfolding marshal
  marshal_big e b h = elim (Option-cases p.clipboard_data) [
    | inl c ↦ rw (e, b, c, copy_at_full p.machine_name (replicate 32 0) h)
    | inr (d, c) ↦ rw (e, b, c)
  ]

pub set_id-IsValid : (p : Packet) (id : ℤ) → IsI32 id → IsValid p → IsValid (record p { id = id })
set_id-IsValid p id h v = record {
  typ = v.typ;
  id = h;
  src = v.src;
  des = v.des;
  x = v.x;
  y = v.y;
  wheel_delta = v.wheel_delta;
  mouse_flags = v.mouse_flags;
  date_time = v.date_time;
  w_vk = v.w_vk;
  key_flags = v.key_flags;
  machine1 = v.machine1;
  machine2 = v.machine2;
  machine3 = v.machine3;
  machine4 = v.machine4;
  machine_name = v.machine_name;
}
