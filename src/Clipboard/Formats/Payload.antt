-- ===== src/Clipboard/Formats/Payload.antt =====
-- The plain text of a payload that `clipTextPayload` made
-- (internal/clipboard/clipboard_linux.go).
use wayland_without_borders.Prelude.{
  ℕ, suc, ◌-◌, ◌≡◌, refl, ap, Bool, true, false, ◌||◌, [], ◌∷◌, ◌++◌, ◌==◌, if◌then◌else◌, length,
  arith, Bool-cases, inl, inr,
}
use wayland_without_borders.Prelude.Text.{Text, bytes_of, has_prefix}
use wayland_without_borders.Clipboard.Formats.{
  Strings, text_type_sep, clip_text_payload, join_first, split_loop, split, add_part, add_parts,
  first_text, extract_clipboard_text,
}

-- Whether the separator stands anywhere in the text.
abbrev pub has_part : Text → Text → Bool
has_part sep [] = false
has_part sep (c ∷ cs) = if has_prefix (c ∷ cs) sep then true else has_part sep cs

-- Whether a character is one of the text.
abbrev has_char : ℕ → Text → Bool
has_char b [] = false
has_char b (c ∷ cs) = b == c || has_char b cs

-- What follows with a character that the prefix lacks cannot be a part of the prefix.
has_prefix_lacks :
    (t p s : Text) (b : ℕ)
    → has_char b p ≡ false
    → has_prefix (t ++ b ∷ s) p ≡ true
    → has_prefix t p ≡ true
unfolding has_prefix
has_prefix_lacks t [] s b l h = refl
has_prefix_lacks [] (q ∷ p) s b l h = ground arith
has_prefix_lacks (c ∷ t) (q ∷ p) s b l h = ground (arith, has_prefix_lacks t p s b)

has_prefix_self : (p : Text) → has_prefix p p ≡ true
unfolding has_prefix
has_prefix_self [] = refl
has_prefix_self (q ∷ p) = ground (arith, has_prefix_self p)

-- A separator whose first character does not come again in it.
module _ (b : ℕ) (p : Text) (once : has_char b p ≡ false) where
  abbrev sep : Text
  sep = b ∷ p

  no_overlap :
      (c : ℕ) (t : Text) → has_prefix (c ∷ t) sep ≡ false → has_prefix (c ∷ t ++ sep) sep ≡ false
  unfolding has_prefix
  no_overlap c t h = ground (arith, has_prefix_lacks t p p b once)

  split_skip : (t : Text) → split_loop sep (length t) t ≡ [] ∷ []
  unfolding split_loop
  split_skip [] = refl
  split_skip (c ∷ t) = split_skip t

  split_self : split_loop sep 0 sep ≡ [] ∷ [] ∷ []
  unfolding split_loop
  split_self = rw (has_prefix_self sep, split_loop) (ap (λ r. [] ∷ r) (rw sub_one (split_skip p)))
    where
      sub_one : suc (length p) - 1 ≡ length p
      sub_one = omega arith

  split-append : (t : Text) → has_part sep t ≡ false → split_loop sep 0 (t ++ sep) ≡ t ∷ [] ∷ []
  unfolding split_loop
  split-append [] h = split_self
  split-append (c ∷ t) h = elim (Bool-cases (has_prefix (c ∷ t) sep)) [
    | inl within ↦ cc (h, within)
    | inr apart ↦
        rw (no_overlap c t apart, split_loop) (ap (join_first c) (split-append t (rw apart at h)))
  ]

payload_parts :
    (text : Text)
    → has_part text_type_sep text ≡ false
    → split (clip_text_payload text) text_type_sep ≡ (bytes_of "TXT" ++ text) ∷ [] ∷ []
unfolding split clip_text_payload has_prefix
payload_parts text h =
    split-append b'{' (bytes_of "4CFF57F7-BEDD-43d5-AE8F-27A61E886F2F}") refl
      (bytes_of "TXT" ++ text) h

-- The plain text of the payload for a text that does not hold the separator is that text, the empty
-- one included, whatever the library does on markup.
pub extract_clipboard_text-clip_text_payload :
    (lib : Strings) (text : Text)
    → has_part text_type_sep text ≡ false
    → extract_clipboard_text lib (clip_text_payload text) ≡ text
unfolding extract_clipboard_text add_parts add_part has_prefix
extract_clipboard_text-clip_text_payload lib text h = rw (payload_parts text h) (txt_first text)
  where
    txt_first : (t : Text) → first_text (t ∷ [] ∷ [] ∷ []) [] ≡ t
    txt_first [] = refl
    txt_first (c ∷ cs) = refl
