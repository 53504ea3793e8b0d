-- ===== src/Clipboard/Manager/Received.antt =====
-- Text that one machine sends is on the other machine's clipboard
-- (internal/clipboard/clipboard_linux.go).
use wayland_without_borders.Prelude.{
  ℕ, ◌+◌, ◌≡◌, ◌<◌, ◌≤◌, refl, ap, sym, ◌∙◌, append-nil, Bool, true, false, some, List, [], ◌∷◌,
  ◌++◌, ltb, ◌==◌, length, length-append, length-replicate, replicate, map, arith,
}
use wayland_without_borders.Prelude.Bytes.{All-append, All}
use wayland_without_borders.Prelude.Text.{Text, bytes_of}
use wayland_without_borders.Protocol.Types
use wayland_without_borders.Protocol.Types.{payload_of}
use wayland_without_borders.Protocol.Packet.{Packet}
use wayland_without_borders.Protocol.Packet.Wire.{on_wire}
use wayland_without_borders.Clipboard.Utf16.{
  encode_utf16le, decode_utf16le, get_units, decode_units,
}
use wayland_without_borders.Clipboard.Utf16.RoundTrip.{IsRune, decode_utf16le-encode_utf16le}
use wayland_without_borders.Clipboard.Formats.{
  Strings, text_type_sep, clip_text_payload, extract_clipboard_text,
}
use wayland_without_borders.Clipboard.Formats.Payload.{
  has_part, extract_clipboard_text-clip_text_payload,
}
use wayland_without_borders.Clipboard.Manager.{
  Deflate, DeflateLaws, Manager, set_text, hash_of_text, max_inline_size, chunk_packet, chunk_loop,
  chunk_packets, send_text, handle_packet, handle_packets, handle_end, take_text,
}
use wayland_without_borders.Clipboard.Manager.Assembly.{padded, Zeros, padded-Zeros, new_stream}

-- A text that the clipboard can carry: not empty, of runes that are code points, neither surrogates
-- nor NUL, and without the separator.
pub record IsText (text : Text) : Type 0 where
  pub nonempty : 0 < length text
  pub runes : All IsRune text
  pub apart : has_part text_type_sep text ≡ false

payload_runes : (text : Text) → All IsRune text → All IsRune (clip_text_payload text)
unfolding clip_text_payload
payload_runes text h =
    All-append IsRune (bytes_of "TXT") (text ++ text_type_sep) (ground arith)
      (All-append IsRune text text_type_sep h (ground arith))

decoded :
    (lib : Strings) (text : Text)
    → IsText text
    → extract_clipboard_text lib (decode_utf16le (encode_utf16le (clip_text_payload text))) ≡ text
unfolding decode_utf16le get_units decode_units
decoded lib text t =
    ap (extract_clipboard_text lib) plain
    ∙ extract_clipboard_text-clip_text_payload lib text t.apart
  where
    nothing_behind : clip_text_payload text ++ decode_utf16le [] ≡ clip_text_payload text
    nothing_behind = append-nil (clip_text_payload text)

    plain : decode_utf16le (encode_utf16le (clip_text_payload text)) ≡ clip_text_payload text
    plain =
        ap decode_utf16le (sym (append-nil (encode_utf16le (clip_text_payload text))))
        ∙ decode_utf16le-encode_utf16le (clip_text_payload text) [] (payload_runes text t.runes)
        ∙ nothing_behind

-- A receiver that got this text at this time.
abbrev pub holds_text : ℕ → Manager → Text → Manager
holds_text now m text = record m {
  recv_buf = [];
  receiving = false;
  recv_is_image = false;
  last_hash = hash_of_text text;
  effects = set_text text ∷ m.effects;
  just_set = some now;
}

take_nonempty :
    (now : ℕ) (m : Manager) (text : Text)
    → 0 < length text
    → take_text now m text ≡ record m {
      last_hash = hash_of_text text;
      effects = set_text text ∷ m.effects;
      just_set = some now;
    }
unfolding take_text
take_nonempty now m [] h = absurd (omega arith)
take_nonempty now m (c ∷ cs) h = refl

end_text :
    (z : Deflate) (lib : Strings) (fine : Bool) (now : ℕ) (m : Manager) (bytes text : List ℕ)
    → 0 < length m.recv_buf
    → m.recv_is_image ≡ false
    → z.decompress m.recv_buf ≡ some bytes
    → extract_clipboard_text lib (decode_utf16le bytes) ≡ text
    → 0 < length text
    → handle_end z lib fine now m ≡ record m {
      recv_buf = [];
      receiving = false;
      recv_is_image = false;
      last_hash = hash_of_text text;
      effects = set_text text ∷ m.effects;
      just_set = some now;
    }
unfolding handle_end
end_text z lib fine now m bytes text some_bytes no_image e plain nonempty =
    rw (filled, no_image, e, plain)
      (take_nonempty now (record m { recv_buf = []; receiving = false; recv_is_image = false }) text
        nonempty)
  where
    filled : (length m.recv_buf == 0) ≡ false
    filled = ground arith

-- `handle_packets` on a sequence is on its parts.
handle_packets-append :
    (z : Deflate) (lib : Strings) (fine : Bool) (now : ℕ) (m : Manager) (ps qs : List Packet)
    → handle_packets z lib fine now m (ps ++ qs)
      ≡ handle_packets z lib fine now (handle_packets z lib fine now m ps) qs
unfolding handle_packets
handle_packets-append z lib fine now m [] qs = refl
handle_packets-append z lib fine now m (p ∷ ps) qs =
    handle_packets-append z lib fine now (handle_packet z lib fine now m p) ps qs

end_packet :
    (z : Deflate) (lib : Strings) (fine : Bool) (now : ℕ) (m sender : Manager)
    → handle_packets z lib fine now m
        (on_wire (chunk_packet sender Types.clipboard_data_end []) ∷ [])
      ≡ handle_end z lib fine now m
unfolding handle_packets handle_packet on_wire chunk_packet payload_of
end_packet z lib fine now m sender = refl

map-append : (ps qs : List Packet) → map on_wire (ps ++ qs) ≡ map on_wire ps ++ map on_wire qs
map-append [] qs = refl
map-append (p ∷ ps) qs = ap (λ r. on_wire p ∷ r) (map-append ps qs)

-- The text that `sendText` sends is, after the packets went over the wire one after the other, on
-- the receiver's clipboard, and its hash is the last one, if the text is one that the clipboard can
-- carry (not empty, every rune a code point that is neither a surrogate nor NUL, and the separator
-- of the payload's parts nowhere in it), the receiver was between two streams, Deflate keeps its
-- documented laws, and the text compresses and is then small enough to be sent. The receiver is
-- between two streams again.
pub send_text-handle_packets :
    (z : Deflate) (lib : Strings) (fine : Bool) (now : ℕ) (sender m : Manager) (text c : List ℕ)
    → DeflateLaws z
    → IsText text
    → z.compress (encode_utf16le (clip_text_payload text)) ≡ some c
    → length c ≤ max_inline_size
    → m.receiving ≡ false
    → (ps : List Packet) × (send_text z sender text ≡ some ps)
      × (handle_packets z lib fine now m (map on_wire ps) ≡ holds_text now m text)
unfolding send_text chunk_packets
send_text-handle_packets z lib fine now sender m text c laws t e small idle =
    (chunk_packets sender c Types.clipboard_text, sends, arrived)
  where
    not_big : ltb max_inline_size (length c) ≡ false
    not_big = ground arith

    sends : send_text z sender text ≡ some (chunk_packets sender c Types.clipboard_text)
    sends = rw (e, send_text, not_big)

    some_bytes : 0 < length c
    some_bytes = laws.compress_nonempty _ c e

    zeros : Zeros c (padded (length c) c)
    zeros = padded-Zeros (length c) c (omega arith)

    size : length (padded (length c) c) ≡ length c + zeros.0
    size =
        ap length zeros.1
        ∙ length-append c (replicate zeros.0 0)
        ∙ ap (λ n. length c + n) (length-replicate zeros.0 0)

    stream : Manager
    stream = record m { recv_buf = padded (length c) c; receiving = true; recv_is_image = false }

    inflates : z.decompress (padded (length c) c) ≡ some (encode_utf16le (clip_text_payload text))
    inflates = ap z.decompress zeros.1 ∙ laws.decompress-compress _ c (replicate zeros.0 0) e

    arrived :
        handle_packets z lib fine now m (map on_wire (chunk_packets sender c Types.clipboard_text))
        ≡ holds_text now m text
    arrived =
        ap (handle_packets z lib fine now m) (
          map-append (chunk_loop (length c) sender Types.clipboard_text c)
            (chunk_packet sender Types.clipboard_data_end [] ∷ []))
        ∙ handle_packets-append z lib fine now m
            (map on_wire (chunk_loop (length c) sender Types.clipboard_text c))
            (on_wire (chunk_packet sender Types.clipboard_data_end []) ∷ [])
        ∙ ap
            (λ k.
              handle_packets z lib fine now k
                (on_wire (chunk_packet sender Types.clipboard_data_end []) ∷ []))
            (new_stream z lib fine now sender (length c) c m idle some_bytes (omega arith)
              (omega (arith, size, zeros.2)))
        ∙ end_packet z lib fine now stream sender
        ∙ end_text z lib fine now stream (encode_utf16le (clip_text_payload text)) text
            (omega (arith, size, some_bytes)) refl inflates (decoded lib text t) t.nonempty
