-- ===== src/Input/Darwin/Known.antt =====
-- The key table of macOS (internal/input/keymap_darwin.go) beside that of Linux.
use wayland_without_borders.Prelude.{
  ℕ, ◌≡◌, refl, Bool, true, false, ◌&&◌, Option, none, some, [], ◌∷◌, ◌==◌, arith, Bool-cases, inl,
  inr, ==_iff, subst,
}
use wayland_without_borders.Prelude.Int.{ℤ, pos, negsuc}
use wayland_without_borders.Input.Keymap
use wayland_without_borders.Input.Keymap.{KeyMap, lookup, init_range, insert}
use wayland_without_borders.Input.Darwin.Keymap.{vk_map, vk_to_key_code}

abbrev is_some : Option ℕ → Bool
is_some none = false
is_some (some c) = true

keys_known : KeyMap → KeyMap → Bool
keys_known other [] = true
keys_known other ((vk, code) ∷ rest) = is_some (lookup vk other) && keys_known other rest

keys_known_sound :
    (other m : KeyMap) (vk code : ℕ)
    → keys_known other m ≡ true
    → lookup vk m ≡ some code
    → is_some (lookup vk other) ≡ true
unfolding keys_known lookup
keys_known_sound other [] vk code h e = cc
keys_known_sound other ((old, c) ∷ rest) vk code h e = elim (Bool-cases (old == vk)) [
  | inl same ↦ subst (λ x. is_some (lookup x other) ≡ true) ((==_iff old vk).0 same) (ground arith)
  | inr other_key ↦ keys_known_sound other rest vk code (ground arith) (ground arith)
]

some_of : (o : Option ℕ) → is_some o ≡ true → (c : ℕ) × (o ≡ some c)
some_of none h = cc
some_of (some c) h = (c, refl)

all_known : keys_known Keymap.vk_map vk_map ≡ true
unfolding keys_known vk_map Keymap.vk_map init_range insert lookup
all_known = refl

-- A virtual key that the macOS port knows, the Linux program knows too.
pub vk_to_key_code_lem :
    (vk : ℤ) (code : ℕ)
    → vk_to_key_code vk ≡ some code
    → (linux : ℕ) × (Keymap.vk_to_key_code vk ≡ some linux)
unfolding vk_to_key_code Keymap.vk_to_key_code
vk_to_key_code_lem (pos vk) code e =
    some_of (lookup vk Keymap.vk_map) (keys_known_sound Keymap.vk_map vk_map vk code all_known e)
vk_to_key_code_lem (negsuc n) code e = cc
