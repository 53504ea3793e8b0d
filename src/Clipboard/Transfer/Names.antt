-- ===== src/Clipboard/Transfer/Names.antt =====
-- Names and URIs of files (internal/clipboard/filetransfer_linux.go).
use wayland_without_borders.Prelude.{
  ◌≡◌, ◌≢◌, refl, false, ◌⊎◌, inl, inr, [], ◌∷◌, ◌++◌, ◌==◌, if◌then◌else◌, arith, both_branches,
  Bool-cases,
}
use wayland_without_borders.Prelude.Bytes.{All, All-append}
use wayland_without_borders.Prelude.Text.{Text, bytes_of, replace_byte}
use wayland_without_borders.Clipboard.Transfer.{
  trim_slashes, last_element, or_slash, base, win_base,
}

-- The text has no separator of either system.
abbrev pub IsElement : Text → Type 0
IsElement s = All (λ c. (c ≢ b'/') × (c ≢ b'\\')) s

replace_byte-All : (p : Text) → All (λ c. c ≢ b'\\') (replace_byte b'\\' b'/' p)
unfolding replace_byte
replace_byte-All [] = tt
replace_byte-All (c ∷ p) = (ground arith, replace_byte-All p)

trim_slashes-All : (p : Text) → All (λ c. c ≢ b'\\') p → All (λ c. c ≢ b'\\') (trim_slashes p)
unfolding trim_slashes
trim_slashes-All [] h = tt
trim_slashes-All (c ∷ p) (h, hs) = go (trim_slashes p) (trim_slashes-All p hs)
  where
    go :
        (t : Text)
        → All (λ c. c ≢ b'\\') t
        → All
            (λ c. c ≢ b'\\')
            (elim t as (λ t. Text) [ [] ↦ if c == b'/' then [] else c ∷ [] | d ∷ t ↦ c ∷ d ∷ t ])
    go [] ht = both_branches (All (λ c. c ≢ b'\\')) (c == b'/') tt (h, tt)
    go (d ∷ t) ht = (h, ht)

last_element-IsElement :
    (p element : Text)
    → All (λ c. c ≢ b'\\') p
    → IsElement element
    → IsElement (last_element p element)
unfolding last_element
last_element-IsElement [] element h e = e
last_element-IsElement (c ∷ p) element (h, hs) e = elim (Bool-cases (c == b'/')) [
  | inl slash ↦ rw (slash) (last_element-IsElement p [] hs tt)
  | inr other ↦ rw (other) (
      last_element-IsElement p (element ++ (c ∷ [])) hs
        (All-append (λ c. (c ≢ b'/') × (c ≢ b'\\')) element (c ∷ []) e ((not_slash other, h), tt)))
]
  where
    not_slash : (c == b'/') ≡ false → c ≢ b'/'
    not_slash other = ground arith

or_slash-IsElement : (s : Text) → IsElement s → (or_slash s ≡ bytes_of "/") ⊎ IsElement (or_slash s)
or_slash-IsElement [] h = inl refl
or_slash-IsElement (c ∷ s) h = inr h

base-IsElement : (p : Text) → All (λ c. c ≢ b'\\') p → (base p ≡ bytes_of "/") ⊎ IsElement (base p)
unfolding base
base-IsElement [] h = inr (ground arith)
base-IsElement (c ∷ p) h =
    or_slash-IsElement _
      (last_element-IsElement (trim_slashes (c ∷ p)) [] (trim_slashes-All (c ∷ p) h) tt)

-- The name under which a received file is saved has no separator of either system, whatever name the
-- remote machine sends, or it is the root, which joined to a folder is that folder.
pub win_base-IsElement : (p : Text) → (win_base p ≡ bytes_of "/") ⊎ IsElement (win_base p)
unfolding win_base
win_base-IsElement p = base-IsElement _ (replace_byte-All p)
