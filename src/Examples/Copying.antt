-- ===== src/Examples/Copying.antt =====
-- A clipboard that takes a short text, with a compression that keeps the bytes behind their number
-- (internal/clipboard/clipboard_linux.go).
use wayland_without_borders.Prelude.{
  ℕ, ◌≤◌, ◌≡◌, refl, sym, ap, ◌∙◌, true, false, Option, none, some, List, [], ◌∷◌, ◌++◌, map,
  length, take, arith,
}
use wayland_without_borders.Prelude.Text.{Text, bytes_of, has_prefix}
use wayland_without_borders.Protocol.Types
use wayland_without_borders.Protocol.Packet.{Packet, new_packet}
use wayland_without_borders.Protocol.Packet.Wire.{on_wire}
use wayland_without_borders.Protocol.Stream.Laws.{take-append}
use wayland_without_borders.Clipboard.Utf16.{
  encode_utf16le, decode_utf16le, put_units, units_of, utf8,
}
use wayland_without_borders.Clipboard.Utf16.RoundTrip.{decode_utf16le-encode_utf16le}
use wayland_without_borders.Clipboard.Formats.{Strings, clip_text_payload}
use wayland_without_borders.Clipboard.Manager.{
  Deflate, DeflateLaws, Manager, no_hash, hash_of_text, max_inline_size, send_text, handle_packets,
  Local, no_action, poll,
}
use wayland_without_borders.Clipboard.Manager.Received.{
  IsText, holds_text, send_text-handle_packets,
}
use wayland_without_borders.Clipboard.Manager.Bound.{IsBounded, handle_packets-IsBounded}
use wayland_without_borders.Clipboard.Manager.Echo.{poll_misses}

abbrev counted : List ℕ → Option (List ℕ)
counted [] = none
counted (n ∷ bytes) = some (take n bytes)

abbrev plain_deflate : Deflate
plain_deflate = record { compress = λ bytes. some (length bytes ∷ bytes); decompress = counted }

abbrev held : Option (List ℕ) → List ℕ
held none = []
held (some c) = c

plain_deflate-DeflateLaws : DeflateLaws plain_deflate
plain_deflate-DeflateLaws = record {
  compress_nonempty = λ bytes c e. omega (arith, ap (λ o. length (held o)) e);
  decompress-compress = λ bytes c rest e.
      ap (λ o. counted (held o ++ rest)) (sym e) ∙ ap some (take-append bytes rest);
}

abbrev as_is : Strings
as_is = record { unescape = λ t. t; trim_space = λ t. t }

abbrev empty_manager : Manager
empty_manager = record {
  machine_id = 1;
  local_name = [];
  key = [];
  host = [];
  last_hash = no_hash;
  local_file = [];
  recv_buf = [];
  receiving = false;
  recv_is_image = false;
  just_set = none;
  effects = [];
}

abbrev greeting : Text
greeting = bytes_of "hi"

greeting-IsText : IsText greeting
unfolding has_prefix
greeting-IsText = record { nonempty = omega arith; runes = ground arith; apart = refl }

abbrev wire_form : List ℕ
wire_form = encode_utf16le (clip_text_payload greeting)

wire_form-small : length (length wire_form ∷ wire_form) ≤ max_inline_size
unfolding encode_utf16le put_units units_of clip_text_payload
wire_form-small = omega arith

send_text-handle_packets_example :
    (ps : List Packet) × (send_text plain_deflate empty_manager greeting ≡ some ps)
    × (handle_packets plain_deflate as_is true 5 empty_manager (map on_wire ps)
        ≡ holds_text 5 empty_manager greeting)
send_text-handle_packets_example =
    send_text-handle_packets plain_deflate as_is true 5 empty_manager empty_manager greeting
      (length wire_form ∷ wire_form) plain_deflate-DeflateLaws greeting-IsText refl wire_form-small
      refl

decode_utf16le-encode_utf16le_example :
    decode_utf16le (encode_utf16le (0x1F600 ∷ 65 ∷ []) ++ (66 ∷ 0 ∷ []))
    ≡ 0x1F600 ∷ 65 ∷ decode_utf16le (66 ∷ 0 ∷ [])
decode_utf16le-encode_utf16le_example =
    decode_utf16le-encode_utf16le (0x1F600 ∷ 65 ∷ []) (66 ∷ 0 ∷ []) (ground arith)

handle_packets-IsBounded_example : IsBounded (
    handle_packets plain_deflate as_is true 5 empty_manager
      (record (new_packet Types.clipboard_text 1 255) { clipboard_data = some (7 ∷ []) } ∷ []))
handle_packets-IsBounded_example =
    handle_packets-IsBounded plain_deflate as_is true 5
      (record (new_packet Types.clipboard_text 1 255) { clipboard_data = some (7 ∷ []) } ∷ [])
      empty_manager (omega arith)

abbrev looks_same : Local
looks_same = record { file = []; image = none; text = greeting; text_again = greeting }

-- Two texts of 101 characters that differ in the last one.
abbrev long_text : ℕ → Text
long_text last =
    bytes_of
      "0123456789012345678901234567890123456789012345678901234567890123456789012345678901234567890123456789"
    ++ (last ∷ [])

poll_misses_example :
    poll
      (record empty_manager { last_hash = hash_of_text (long_text 65) })
      9
      (record looks_same { text = long_text 66 })
    ≡ (record empty_manager { last_hash = hash_of_text (long_text 65) }, no_action)
unfolding utf8
poll_misses_example =
    poll_misses (record empty_manager { last_hash = hash_of_text (long_text 65) }) 9
      (record looks_same { text = long_text 66 }) (long_text 65) refl refl refl refl refl
