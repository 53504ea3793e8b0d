-- ===== src/Protocol/Packet.antt =====
-- internal/protocol/packet.go: packets, and their wire format without the stamp.
pub mod Names
pub mod Wire
pub mod RoundTrip
pub mod Front
use wayland_without_borders.Prelude.{
  ℕ, ◌+◌, ◌-◌, ◌<◌, ◌≡◌, Bool, true, false, ◌&&◌, not, Option, none, some, List, [], ◌∷◌, ltb, leb,
  if◌then◌else◌, length, take, drop, replicate, get_or, set, Result, ok, err,
}
use wayland_without_borders.Prelude.Int.{ℤ, pos, IsI32, IsI64, to_u32, of_u32, to_u64, of_u64}
use wayland_without_borders.Prelude.Bytes.{
  IsByte, IsU32, All, copy_at, le_bytes_32, le_bytes_64, u32_at, u64_at,
}
use wayland_without_borders.Protocol.Types.{
  PackageType, Payload, mouse_payload, keyboard_payload, handshake_payload, clipboard_payload,
  no_payload, payload_of, is_big_packet, wire_size, packet_size, packet_size_ex,
}

pub record MouseData : Type 0 where
  pub x : ℤ
  pub y : ℤ
  pub wheel_delta : ℤ
  pub dw_flags : ℤ

pub record KeyboardData : Type 0 where
  pub date_time : ℤ
  pub w_vk : ℤ
  pub dw_flags : ℤ

pub record HandshakeData : Type 0 where
  pub machine1 : ℕ
  pub machine2 : ℕ
  pub machine3 : ℕ
  pub machine4 : ℕ

-- `clipboard_data` and `raw` are Go slices, where `none` is nil. `machine_name` has 32 bytes.
pub record Packet : Type 0 where
  pub typ : PackageType
  pub id : ℤ
  pub src : ℕ
  pub des : ℕ
  pub mouse : MouseData
  pub keyboard : KeyboardData
  pub handshake : HandshakeData
  pub clipboard_data : Option (List ℕ)
  pub machine_name : List ℕ
  pub raw : Option (List ℕ)

abbrev pub zero_mouse : MouseData
zero_mouse = record { x = pos 0; y = pos 0; wheel_delta = pos 0; dw_flags = pos 0 }

abbrev pub zero_keyboard : KeyboardData
zero_keyboard = record { date_time = pos 0; w_vk = pos 0; dw_flags = pos 0 }

abbrev pub zero_handshake : HandshakeData
zero_handshake = record { machine1 = 0; machine2 = 0; machine3 = 0; machine4 = 0 }

-- Go's `&Packet{Type: t, Src: s, Des: d}`.
abbrev pub new_packet : PackageType → ℕ → ℕ → Packet
new_packet t s d = record {
  typ = t;
  id = pos 0;
  src = s;
  des = d;
  mouse = zero_mouse;
  keyboard = zero_keyboard;
  handshake = zero_handshake;
  clipboard_data = none;
  machine_name = replicate 32 0;
  raw = none;
}

abbrev is_nil : Option (List ℕ) → Bool
is_nil none = true
is_nil (some d) = false

-- `if n > 48 { n = 48 }; copy(buf[16:16+n], data[:n])`, nothing for nil.
unfoldable pub put_clipboard : Option (List ℕ) → List ℕ → List ℕ
put_clipboard none buf = buf
put_clipboard (some d) buf =
    let n = if ltb 48 (length d) then 48 else length d in copy_at 16 (take n d) buf

-- The payload switch of `Marshal`.
unfoldable pub put_payload : Payload → Packet → List ℕ → List ℕ
unfolding put_clipboard copy_at
put_payload mouse_payload p buf =
    let a = copy_at 16 (le_bytes_32 (to_u32 p.mouse.x)) buf in
    let b = copy_at 20 (le_bytes_32 (to_u32 p.mouse.y)) a in
    let c = copy_at 24 (le_bytes_32 (to_u32 p.mouse.wheel_delta)) b in
    copy_at 28 (le_bytes_32 (to_u32 p.mouse.dw_flags)) c
put_payload keyboard_payload p buf =
    let a = copy_at 16 (le_bytes_64 (to_u64 p.keyboard.date_time)) buf in
    let b = copy_at 24 (le_bytes_32 (to_u32 p.keyboard.w_vk)) a in
    copy_at 28 (le_bytes_32 (to_u32 p.keyboard.dw_flags)) b
put_payload handshake_payload p buf =
    let a = copy_at 16 (le_bytes_32 p.handshake.machine1) buf in
    let b = copy_at 20 (le_bytes_32 p.handshake.machine2) a in
    let c = copy_at 24 (le_bytes_32 p.handshake.machine3) b in
    copy_at 28 (le_bytes_32 p.handshake.machine4) c
put_payload clipboard_payload p buf = put_clipboard p.clipboard_data buf
put_payload no_payload p buf = buf

-- Bytes 0 to 15, but for the stamp in bytes 1 to 3.
unfoldable pub put_header : Packet → List ℕ → List ℕ
unfolding copy_at
put_header p buf =
    let a = set buf 0 p.typ in
    let b = copy_at 4 (le_bytes_32 (to_u32 p.id)) a in
    let c = copy_at 8 (le_bytes_32 p.src) b in copy_at 12 (le_bytes_32 p.des) c

-- `Marshal`
unfoldable pub marshal : Packet → List ℕ
unfolding put_header put_payload copy_at
marshal p =
    let big = is_big_packet p.typ in
    let size = if big then packet_size_ex else packet_size in
    let buf = put_payload (payload_of p.typ) p (put_header p (replicate size 0)) in
    if big && is_nil p.clipboard_data then copy_at 32 p.machine_name buf else buf

pub data PacketError : Type 0 where
  too_short : ℕ → PacketError

-- The payload switch of `UnmarshalPacket`.
unfoldable pub get_payload : Payload → List ℕ → Packet → Packet
unfolding u32_at u64_at
get_payload mouse_payload buf p = record p {
  mouse = record {
    x = of_u32 (u32_at 16 buf);
    y = of_u32 (u32_at 20 buf);
    wheel_delta = of_u32 (u32_at 24 buf);
    dw_flags = of_u32 (u32_at 28 buf);
  };
}
get_payload keyboard_payload buf p = record p {
  keyboard = record {
    date_time = of_u64 (u64_at 16 buf);
    w_vk = of_u32 (u32_at 24 buf);
    dw_flags = of_u32 (u32_at 28 buf);
  };
}
get_payload handshake_payload buf p = record p {
  handshake = record {
    machine1 = u32_at 16 buf;
    machine2 = u32_at 20 buf;
    machine3 = u32_at 24 buf;
    machine4 = u32_at 28 buf;
  };
}
get_payload clipboard_payload buf p =
    let end = if ltb 64 (length buf) then 64 else length buf in
    if ltb 16 end then record p { clipboard_data = some (drop 16 (take end buf)) } else p
get_payload no_payload buf p = p

-- `UnmarshalPacket`, where `copy(p.machineName[:], buf[32:64])` is the last step.
unfoldable pub unmarshal : List ℕ → Result PacketError Packet
unfolding get_payload u32_at copy_at
unmarshal buf =
    if ltb (length buf) packet_size
    then err (too_short (length buf))
    else (let typ = get_or buf 0 0 in
        let head = record (new_packet typ (u32_at 8 buf) (u32_at 12 buf)) {
          id = of_u32 (u32_at 4 buf);
        } in
        let p = get_payload (payload_of typ) buf head in
        ok (
          if is_big_packet typ && leb packet_size_ex (length buf) && is_nil p.clipboard_data
          then record p { machine_name = copy_at 0 (drop 32 (take 64 buf)) p.machine_name }
          else p))
