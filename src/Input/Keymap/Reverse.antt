-- ===== src/Input/Keymap/Reverse.antt =====
-- internal/input/reverse_keymap_linux.go: evdev keys back to Windows virtual keys.
-- Go ranges over a map in any order: `order` is the order of that run.
use wayland_without_borders.Prelude.{
  ℕ, ◌≡◌, refl, sym, ◌∙◌, Bool, true, false, ◌&&◌, ◌||◌, not, Option, none, some, List, [], ◌∷◌,
  ◌==◌, if◌then◌else◌, arith, Bool-cases, inl, inr,
}
use wayland_without_borders.Prelude.Int.{ℤ, pos, negsuc}
use wayland_without_borders.Input.Keymap.{KeyMap, lookup, insert, vk_map, vk_to_key_code}

-- `for vk, evdev := range vkMap { reverseVKMap[evdev] = vk }`
unfoldable pub reverse_loop : List (ℕ × ℕ) → KeyMap → KeyMap
reverse_loop [] out = out
reverse_loop ((vk, evdev) ∷ order) out = reverse_loop order (insert evdev vk out)

unfoldable pub reverse_vk_map : List (ℕ × ℕ) → KeyMap
unfolding reverse_loop
reverse_vk_map order = reverse_loop order []

-- `KeyCodeToVK`
unfoldable pub key_code_to_vk : List (ℕ × ℕ) → ℕ → Option ℤ
unfolding reverse_vk_map
key_code_to_vk order code = elim (lookup code (reverse_vk_map order)) [
  | none ↦ none
  | some vk ↦ some (pos vk)
]

abbrev pub has_entry : ℕ → ℕ → List (ℕ × ℕ) → Bool
has_entry k v [] = false
has_entry k v ((j, w) ∷ m) = (j == k && w == v) || has_entry k v m

-- `order` lists the entries of `vkMap`, and only those.
abbrev pub IsOrderOf : List (ℕ × ℕ) → KeyMap → Type 0
IsOrderOf order m = (k v : ℕ) → has_entry k v order ≡ has_entry k v m

pub lookup-insert :
    (new at value : ℕ) (m : KeyMap)
    → lookup at (insert new value m) ≡ (if new == at then some value else lookup at m)
unfolding lookup insert
lookup-insert new at value [] = refl
lookup-insert new at value ((old, w) ∷ m) = ground (arith, lookup-insert new at value m)

-- Whatever else the order holds: an entry of it wins over the map it is added to, if its virtual
-- key is the only one with that code.
abbrev Only : ℕ → ℕ → List (ℕ × ℕ) → Type 0
Only vk code order = (u : ℕ) → has_entry u code order ≡ true → u ≡ vk

lookup-reverse_loop_old :
    (vk code : ℕ) (order : List (ℕ × ℕ)) (out : KeyMap)
    → Only vk code order
    → lookup code out ≡ some vk
    → lookup code (reverse_loop order out) ≡ some vk
unfolding reverse_loop
lookup-reverse_loop_old vk code [] out u e = e
lookup-reverse_loop_old vk code ((v, c) ∷ order) out u e =
    lookup-reverse_loop_old vk code order (insert c v out) (λ w h. u w (ground arith))
      (ground (arith, lookup-insert c code v out, u v))

lookup-reverse_loop :
    (vk code : ℕ) (order : List (ℕ × ℕ)) (out : KeyMap)
    → Only vk code order
    → has_entry vk code order ≡ true
    → lookup code (reverse_loop order out) ≡ some vk
unfolding reverse_loop
lookup-reverse_loop vk code [] out u h = cc
lookup-reverse_loop vk code ((v, c) ∷ order) out u h = elim (Bool-cases (v == vk && c == code)) [
  | inl e ↦
      lookup-reverse_loop_old vk code order (insert c v out) (λ w k. u w (ground arith))
        (ground (arith, lookup-insert c code v out))
  | inr e ↦
      lookup-reverse_loop vk code order (insert c v out) (λ w k. u w (ground arith)) (ground arith)
]

pub has_entry-lookup :
    (vk code : ℕ) (m : KeyMap) → lookup vk m ≡ some code → has_entry vk code m ≡ true
unfolding lookup
has_entry-lookup vk code [] h = cc
has_entry-lookup vk code ((v, c) ∷ m) h = ground (arith, has_entry-lookup vk code m)

-- No two virtual keys of `vkMap` have one code: every pair of entries is compared.
agrees : ℕ → ℕ → KeyMap → Bool
agrees vk code [] = true
agrees vk code ((v, c) ∷ m) = (not (c == code) || v == vk) && agrees vk code m

all_agree : KeyMap → KeyMap → Bool
unfolding agrees
all_agree [] m = true
all_agree ((v, c) ∷ n) m = agrees v c m && all_agree n m

vk_map_agrees : all_agree vk_map vk_map ≡ true
unfolding all_agree vk_map
vk_map_agrees = refl

agrees_sound :
    (vk u code : ℕ) (m : KeyMap) → agrees vk code m ≡ true → has_entry u code m ≡ true → u ≡ vk
unfolding agrees
agrees_sound vk u code [] a h = cc
agrees_sound vk u code ((v, c) ∷ m) a h = ground (arith, agrees_sound vk u code m)

all_agree_sound :
    (vk u code : ℕ) (n m : KeyMap)
    → all_agree n m ≡ true
    → has_entry vk code n ≡ true
    → has_entry u code m ≡ true
    → u ≡ vk
unfolding all_agree
all_agree_sound vk u code [] m a h k = cc
all_agree_sound vk u code ((v, c) ∷ n) m a h k =
    ground (arith, agrees_sound vk u code m, all_agree_sound vk u code n m)

Only-vk_map :
    (vk code : ℕ) (order : List (ℕ × ℕ))
    → IsOrderOf order vk_map
    → has_entry vk code vk_map ≡ true
    → Only vk code order
Only-vk_map vk code order same h u k =
    all_agree_sound vk u code vk_map vk_map vk_map_agrees h (sym (same u code) ∙ k)

lookup-reverse_vk_map :
    (vk code : ℕ) (order : List (ℕ × ℕ))
    → IsOrderOf order vk_map
    → lookup vk vk_map ≡ some code
    → lookup code (reverse_vk_map order) ≡ some vk
unfolding reverse_vk_map
lookup-reverse_vk_map vk code order same e =
    let entry : has_entry vk code vk_map ≡ true = has_entry-lookup vk code vk_map e in
    lookup-reverse_loop vk code order [] (Only-vk_map vk code order same entry)
      (same vk code ∙ entry)

-- A key that is sent out is the virtual key that came in: whatever the order in which the reverse
-- map was built, `KeyCodeToVK` undoes `VKToKeyCode`.
pub key_code_to_vk-vk_to_key_code :
    (order : List (ℕ × ℕ)) (vk : ℤ) (code : ℕ)
    → IsOrderOf order vk_map
    → vk_to_key_code vk ≡ some code
    → key_code_to_vk order code ≡ some vk
unfolding key_code_to_vk vk_to_key_code
key_code_to_vk-vk_to_key_code order (pos vk) code same e =
    rw (lookup-reverse_vk_map vk code order same e, key_code_to_vk)
key_code_to_vk-vk_to_key_code order (negsuc n) code same e = cc
