-- ===== src/Clipboard/Utf16/RoundTrip.antt =====
-- Decoding what was encoded (internal/clipboard/clipboard_linux.go).
use wayland_without_borders.Prelude.{
  ℕ, ◌+◌, ◌-◌, ◌/◌, ◌%◌, ◌<◌, ◌≡◌, ◌≢◌, refl, ap, sym, append_assoc, ◌∙◌, true, false, List, [],
  ◌∷◌, ◌++◌, ltb, arith, Bool-cases, inl, inr,
}
use wayland_without_borders.Prelude.Bytes.{All}
use wayland_without_borders.Clipboard.Utf16.{
  is_surrogate, is_high, is_low, pair_of, units_of, put_units, encode_utf16le, get_units,
  decode_units, decode_utf16le,
}

-- A code point of a valid string, other than NUL.
abbrev pub IsRune : ℕ → Type 0
IsRune r = (r ≢ 0) × (r < 0x110000) × (is_surrogate r ≡ false)

abbrev pub IsUnit : ℕ → Type 0
IsUnit u = u < 65536

abbrev all_units : List ℕ → List ℕ
all_units [] = []
all_units (r ∷ rs) = units_of r ++ all_units rs

get_units-put_units :
    (us : List ℕ) (bytes : List ℕ)
    → All IsUnit us
    → get_units (put_units us ++ bytes) ≡ us ++ get_units bytes
unfolding get_units put_units
get_units-put_units [] bytes h = refl
get_units-put_units (u ∷ us) bytes (h, hs) =
    rw (get_units-put_units us bytes hs) (ap (λ v. v ∷ us ++ get_units bytes) (omega arith))

units_of-IsUnit : (r : ℕ) → All IsUnit (units_of r)
unfolding units_of
units_of-IsUnit r = ground arith

-- What stands behind the encoded text is left for `rest`.
pub get_units-encode :
    (rs bytes : List ℕ) → get_units (encode_utf16le rs ++ bytes) ≡ all_units rs ++ get_units bytes
unfolding encode_utf16le
get_units-encode [] bytes = refl
get_units-encode (r ∷ rs) bytes =
    ap get_units (append_assoc (put_units (units_of r)) (encode_utf16le rs) bytes)
    ∙ get_units-put_units (units_of r) (encode_utf16le rs ++ bytes) (units_of-IsUnit r)
    ∙ ap (λ t. units_of r ++ t) (get_units-encode rs bytes)
    ∙ sym (append_assoc (units_of r) (all_units rs) (get_units bytes))

decode_plain :
    (u : ℕ) (us : List ℕ)
    → u ≢ 0
    → is_surrogate u ≡ false
    → decode_units (u ∷ us) ≡ u ∷ decode_units us
unfolding decode_units
decode_plain u [] n s = ground arith
decode_plain u (v ∷ us) n s = ground arith

decode_pair :
    (u lo : ℕ) (us : List ℕ)
    → is_high u ≡ true
    → is_low lo ≡ true
    → decode_units (u ∷ lo ∷ us) ≡ pair_of u lo ∷ decode_units us
unfolding decode_units
decode_pair u lo us h l = ground arith

decode_rune :
    (r : ℕ) (us : List ℕ) → IsRune r → decode_units (units_of r ++ us) ≡ r ∷ decode_units us
unfolding units_of
decode_rune r us (n, small, s) = elim (Bool-cases (ltb 0xFFFF r)) [
  | inl big ↦ rw big (
      decode_pair (0xD800 + (r - 0x10000) / 1024 % 1024) (0xDC00 + (r - 0x10000) % 1024) us
        (ground arith) (ground arith)
      ∙ ap (λ k. k ∷ decode_units us) (ground arith))
  | inr low ↦ rw low (ap (λ k. decode_units (k ∷ us)) (ground arith) ∙ decode_plain r us n s)
]

decode_units-all_units :
    (rs us : List ℕ) → All IsRune rs → decode_units (all_units rs ++ us) ≡ rs ++ decode_units us
decode_units-all_units [] us h = refl
decode_units-all_units (r ∷ rs) us (h, hs) =
    ap decode_units (append_assoc (units_of r) (all_units rs) us)
    ∙ decode_rune r (all_units rs ++ us) h
    ∙ ap (λ t. r ∷ t) (decode_units-all_units rs us hs)

-- Any text without NUL that was encoded is decoded to itself, and what follows it is decoded on its
-- own, surrogate pairs included.
pub decode_utf16le-encode_utf16le :
    (rs bytes : List ℕ)
    → All IsRune rs
    → decode_utf16le (encode_utf16le rs ++ bytes) ≡ rs ++ decode_utf16le bytes
unfolding decode_utf16le
decode_utf16le-encode_utf16le rs bytes h =
    ap decode_units (get_units-encode rs bytes) ∙ decode_units-all_units rs (get_units bytes) h
