-- ===== src/Clipboard/Utf16.antt =====
-- encodeUTF16LE and decodeUTF16LE of internal/clipboard/clipboard_linux.go. A Go string of valid
-- UTF-8 is the list of its code points.
pub mod RoundTrip
use wayland_without_borders.Prelude.{
  ℕ, ◌+◌, ◌-◌, ◌*◌, ◌/◌, ◌%◌, ◌<◌, ◌≡◌, ◌≢◌, Bool, true, false, ◌&&◌, List, [], ◌∷◌, ◌++◌, ltb, leb,
  ◌==◌, if◌then◌else◌,
}

-- A code point of a valid string: no surrogate.
abbrev pub is_surrogate : ℕ → Bool
is_surrogate r = leb 0xD800 r && leb r 0xDFFF

-- The UTF-16 units of one code point.
unfoldable pub units_of : ℕ → List ℕ
units_of r =
    if ltb 0xFFFF r
    then (let s = r - 0x10000 in (0xD800 + s / 1024 % 1024) ∷ (0xDC00 + s % 1024) ∷ [])
    else (r % 65536) ∷ []

-- `binary.Write(&buf, binary.LittleEndian, u)`
unfoldable pub put_units : List ℕ → List ℕ
put_units [] = []
put_units (u ∷ us) = (u % 256) ∷ (u / 256 % 256) ∷ put_units us

unfoldable pub encode_utf16le : List ℕ → List ℕ
unfolding units_of put_units
encode_utf16le [] = []
encode_utf16le (r ∷ rs) = put_units (units_of r) ++ encode_utf16le rs

-- The units of the bytes; an odd byte at the end is cut off.
unfoldable pub get_units : List ℕ → List ℕ
get_units [] = []
get_units (b ∷ []) = []
get_units (b ∷ c ∷ bs) = (b + c * 256) ∷ get_units bs

abbrev pub is_high : ℕ → Bool
is_high u = leb 0xD800 u && leb u 0xDBFF

abbrev pub is_low : ℕ → Bool
is_low u = leb 0xDC00 u && leb u 0xDFFF

abbrev pub pair_of : ℕ → ℕ → ℕ
pair_of u lo = (u - 0xD800) * 0x400 + (lo - 0xDC00) + 0x10000

-- `string(runes)`: a surrogate becomes the replacement character.
abbrev pub rune_of : ℕ → ℕ
rune_of u = if is_surrogate u then 0xFFFD else u

-- The loop of `decodeUTF16LE`.
unfoldable pub decode_units : List ℕ → List ℕ
decode_units [] = []
decode_units (u ∷ []) = if u == 0 then [] else rune_of u ∷ []
decode_units (u ∷ lo ∷ us) = elim (u == 0) [
  | true ↦ []
  | false ↦ elim (is_high u && is_low lo) [
    | true ↦ pair_of u lo ∷ decode_units us
    | false ↦ rune_of u ∷ decode_units (lo ∷ us)
  ]
]

unfoldable pub decode_utf16le : List ℕ → List ℕ
unfolding get_units decode_units
decode_utf16le bytes = decode_units (get_units bytes)

-- The UTF-8 bytes of one code point, of which a Go string consists.
unfoldable pub utf8_of : ℕ → List ℕ
utf8_of r =
    if ltb r 0x80
    then r ∷ []
    else if ltb r 0x800
    then (0xC0 + r / 64) ∷ (0x80 + r % 64) ∷ []
    else if ltb r 0x10000
    then (0xE0 + r / 4096) ∷ (0x80 + r / 64 % 64) ∷ (0x80 + r % 64) ∷ []
    else (0xF0 + r / 262144) ∷ (0x80 + r / 4096 % 64) ∷ (0x80 + r / 64 % 64) ∷ (0x80 + r % 64) ∷ []

unfoldable pub utf8 : List ℕ → List ℕ
unfolding utf8_of
utf8 [] = []
utf8 (r ∷ rs) = utf8_of r ++ utf8 rs
