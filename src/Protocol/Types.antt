-- ===== src/Protocol/Types.antt =====
-- internal/protocol/types.go: the packet types, which of them are big, and which payload they have.
use wayland_without_borders.Prelude.{
  ℕ, ◌<◌, ◌≡◌, refl, Bool, true, false, ◌||◌, arith, ◌==◌, bit_and, if◌then◌else◌, leb,
}
use wayland_without_borders.Prelude.Range.{each_below, each_below_sound}
use wayland_without_borders.Prelude.Tests.{bool_eq, bool_eq_sound}

-- A `PackageType` is a byte.
abbrev pub PackageType : Type 0
PackageType = ℕ

abbrev pub hi : PackageType
hi = 2

abbrev pub hello : PackageType
hello = 3

abbrev pub bye_bye : PackageType
bye_bye = 4

abbrev pub heartbeat : PackageType
heartbeat = 20

abbrev pub awake : PackageType
awake = 21

abbrev pub hide_mouse : PackageType
hide_mouse = 50

abbrev pub heartbeat_ex : PackageType
heartbeat_ex = 51

abbrev pub heartbeat_ex_l2 : PackageType
heartbeat_ex_l2 = 52

abbrev pub heartbeat_ex_l3 : PackageType
heartbeat_ex_l3 = 53

abbrev pub clipboard : PackageType
clipboard = 69

abbrev pub clipboard_drag_drop : PackageType
clipboard_drag_drop = 70

abbrev pub clipboard_drag_drop_end : PackageType
clipboard_drag_drop_end = 71

abbrev pub explorer_drag_drop : PackageType
explorer_drag_drop = 72

abbrev pub clipboard_capture : PackageType
clipboard_capture = 73

abbrev pub capture_screen_command : PackageType
capture_screen_command = 74

abbrev pub clipboard_drag_drop_op : PackageType
clipboard_drag_drop_op = 75

abbrev pub clipboard_data_end : PackageType
clipboard_data_end = 76

abbrev pub machine_switched : PackageType
machine_switched = 77

abbrev pub clipboard_ask : PackageType
clipboard_ask = 78

abbrev pub clipboard_push : PackageType
clipboard_push = 79

abbrev pub next_machine : PackageType
next_machine = 121

abbrev pub keyboard : PackageType
keyboard = 122

abbrev pub mouse : PackageType
mouse = 123

abbrev pub clipboard_text : PackageType
clipboard_text = 124

abbrev pub clipboard_image : PackageType
clipboard_image = 125

abbrev pub handshake : PackageType
handshake = 126

abbrev pub handshake_ack : PackageType
handshake_ack = 127

abbrev pub matrix : PackageType
matrix = 128

abbrev pub invalid : PackageType
invalid = 255

abbrev pub error : PackageType
error = 254

abbrev pub packet_size : ℕ
packet_size = 32

abbrev pub packet_size_ex : ℕ
packet_size_ex = 64

-- The broadcast destination.
abbrev pub id_all : ℕ
id_all = 255

-- `pt & Matrix == Matrix`
unfoldable pub is_matrix : PackageType → Bool
is_matrix pt = bit_and pt matrix == matrix

-- The types that `IsBigPacket` lists.
unfoldable pub is_listed_big : PackageType → Bool
is_listed_big pt =
    pt == hello
    || pt == awake
    || pt == heartbeat
    || pt == heartbeat_ex
    || pt == handshake
    || pt == handshake_ack
    || pt == clipboard_push
    || pt == clipboard
    || pt == clipboard_ask
    || pt == clipboard_image
    || pt == clipboard_text
    || pt == clipboard_data_end

unfoldable pub is_big_packet : PackageType → Bool
unfolding is_listed_big is_matrix
is_big_packet pt = if is_listed_big pt then true else is_matrix pt

-- The size of a packet of this type on the wire.
unfoldable pub wire_size : PackageType → ℕ
unfolding is_big_packet
wire_size pt = if is_big_packet pt then packet_size_ex else packet_size

-- The case that the payload switches of `Marshal` and `UnmarshalPacket` take.
pub data Payload : Type 0 where
  mouse_payload keyboard_payload handshake_payload clipboard_payload no_payload : Payload

unfoldable pub is_mouse_type : PackageType → Bool
is_mouse_type pt = pt == mouse || pt == next_machine || pt == hide_mouse

unfoldable pub is_clipboard_type : PackageType → Bool
is_clipboard_type pt =
    pt == clipboard_text
    || pt == clipboard_image
    || pt == clipboard_data_end
    || pt == clipboard
    || pt == clipboard_ask
    || pt == clipboard_push

unfoldable pub payload_of : PackageType → Payload
unfolding is_mouse_type is_clipboard_type
payload_of pt =
    if is_mouse_type pt
    then mouse_payload
    else if pt == keyboard
    then keyboard_payload
    else if pt == handshake || pt == handshake_ack
    then handshake_payload
    else if is_clipboard_type pt
    then clipboard_payload
    else no_payload

-- The listed test agrees with the plain order: bit 128 of a byte is set exactly from 128 on.
is_big_packet_table :
    each_below (λ pt. bool_eq (is_big_packet pt) (is_listed_big pt || leb 128 pt)) 256 ≡ true
unfolding is_big_packet each_below
is_big_packet_table = refl

pub is_big_packet_lem :
    (pt : PackageType) → pt < 256 → is_big_packet pt ≡ (is_listed_big pt || leb 128 pt)
is_big_packet_lem pt h = bool_eq_sound _ _ (each_below_sound _ 256 pt h is_big_packet_table)

-- What the payload says of the size: input packets are small, handshakes and clipboard data big.
abbrev pub SizeFits : Payload → Bool → Type 0
SizeFits mouse_payload b = b ≡ false
SizeFits keyboard_payload b = b ≡ false
SizeFits handshake_payload b = b ≡ true
SizeFits clipboard_payload b = b ≡ true
SizeFits no_payload b = Unit

pub payload_of-SizeFits :
    (pt : PackageType) → pt < 256 → SizeFits (payload_of pt) (is_big_packet pt)
unfolding payload_of is_listed_big
payload_of-SizeFits pt h = rw (is_big_packet_lem pt h) (ground arith)
