-- ===== src/Input/Keymap/Registered.antt =====
-- `usedKeyCodes` of internal/input/keymap_linux.go: the codes that the virtual keyboard registers.
use wayland_without_borders.Prelude.{
  ℕ, ◌≡◌, refl, ◌∙◌, Bool, true, false, ◌&&◌, ◌||◌, Option, none, some, List, [], ◌∷◌, ◌++◌, ltb,
  ◌==◌, if◌then◌else◌, arith, Bool-cases, Option-cases, inl, inr,
}
use mathlib.Core.List.{reverse, reverse-append}
use wayland_without_borders.Input.Keymap.Reverse.{IsOrderOf, has_entry, has_entry-lookup}
use wayland_without_borders.Prelude.Int.{ℤ, pos, negsuc}
use wayland_without_borders.Prelude.Text.{Text}
use wayland_without_borders.Input.Keymap.{
  KeyMap, lookup, vk_map, vk_to_key_code, de_profile, fr_profile, be_profile, es_profile,
  it_profile, gb_profile, pt_profile, nordic_profile, ch_profile, nl_profile,
}
use wayland_without_borders.Input.Keymap.Layout.{
  layout_vk_overrides, canonical_keyboard_layout, vk_to_key_code_for_layout, lookup_vk, vk_in,
  normalized_layout_overrides,
}

abbrev pub contains : ℕ → List ℕ → Bool
contains a [] = false
contains a (x ∷ xs) = x == a || contains a xs

-- `seen[code] = struct{}{}` for each entry, in the order of the run.
unfoldable pub seen_loop : List (ℕ × ℕ) → List ℕ → List ℕ
seen_loop [] seen = seen
seen_loop ((vk, code) ∷ order) seen =
    seen_loop order (if contains code seen then seen else code ∷ seen)

-- The inner loop of the sort: `x` moves down while it is less than its neighbour. The sorted part
-- is held from its last element to its first.
unfoldable pub sink : ℕ → List ℕ → List ℕ
sink x [] = x ∷ []
sink x (y ∷ ys) = if ltb x y then y ∷ sink x ys else x ∷ y ∷ ys

unfoldable pub sort_loop : List ℕ → List ℕ → List ℕ
unfolding sink
sort_loop [] sorted = sorted
sort_loop (x ∷ xs) sorted = sort_loop xs (sink x sorted)

-- `usedKeyCodes`, where `order` and `pick` are the orders in which Go ranges over the two maps.
unfoldable pub used_key_codes : List (ℕ × ℕ) → (List ℕ → List ℕ) → List ℕ
unfolding seen_loop sort_loop
used_key_codes order pick = reverse (sort_loop (pick (seen_loop order [])) [])

contains-append :
    (a : ℕ) (xs ys : List ℕ) → contains a (xs ++ ys) ≡ (contains a xs || contains a ys)
contains-append a [] ys = refl
contains-append a (x ∷ xs) ys = ground (arith, contains-append a xs ys)

contains-reverse : (a : ℕ) (xs : List ℕ) → contains a (reverse xs) ≡ contains a xs
contains-reverse a [] = refl
contains-reverse a (x ∷ xs) =
    rw (reverse-append (x ∷ []) xs)
      (ground (arith, contains-append a (reverse xs) (x ∷ []), contains-reverse a xs))

contains-sink : (a x : ℕ) (ys : List ℕ) → contains a (sink x ys) ≡ (x == a || contains a ys)
unfolding sink
contains-sink a x [] = ground arith
contains-sink a x (y ∷ ys) = ground (arith, contains-sink a x ys)

contains-sort_loop :
    (a : ℕ) (xs sorted : List ℕ)
    → contains a (sort_loop xs sorted) ≡ (contains a xs || contains a sorted)
unfolding sort_loop
contains-sort_loop a [] sorted = refl
contains-sort_loop a (x ∷ xs) sorted =
    ground (arith, contains-sort_loop a xs (sink x sorted), contains-sink a x sorted)

-- Some entry has the code.
abbrev has_code : ℕ → List (ℕ × ℕ) → Bool
has_code c [] = false
has_code c ((v, w) ∷ m) = w == c || has_code c m

pub contains_same : (a b : ℕ) (xs : List ℕ) → contains b xs ≡ true → b ≡ a → contains a xs ≡ true
contains_same a b xs h e = rw e at h

contains-seen_loop :
    (c : ℕ) (order : List (ℕ × ℕ)) (seen : List ℕ)
    → contains c (seen_loop order seen) ≡ (has_code c order || contains c seen)
unfolding seen_loop
contains-seen_loop c [] seen = refl
contains-seen_loop c ((v, w) ∷ order) seen = ground (
  arith,
  contains-seen_loop c order (if contains w seen then seen else w ∷ seen),
  contains_same c w seen,
)

has_code-has_entry : (v c : ℕ) (m : List (ℕ × ℕ)) → has_entry v c m ≡ true → has_code c m ≡ true
has_code-has_entry v c [] h = cc
has_code-has_entry v c ((w, d) ∷ m) h = ground (arith, has_code-has_entry v c m)

entry_of_code :
    (c : ℕ) (m : List (ℕ × ℕ)) → has_code c m ≡ true → (v : ℕ) × (has_entry v c m ≡ true)
entry_of_code c [] h = cc
entry_of_code c ((w, d) ∷ m) h = elim (Bool-cases (d == c)) [
  | inl e ↦ (w, ground arith)
  | inr e ↦ let (v, k) = entry_of_code c m (ground arith) in (v, ground arith)
]

-- The registered codes are those of the map, whatever the orders.
has_code-order :
    (c : ℕ) (order m : List (ℕ × ℕ))
    → IsOrderOf order m
    → has_code c m ≡ true
    → has_code c order ≡ true
has_code-order c order m same h =
    let (v, k) = entry_of_code c m h in has_code-has_entry v c order (same v c ∙ k)

-- A pick lists what it is given in another order.
abbrev pub IsPick : (List ℕ → List ℕ) → Type 0
IsPick pick = (a : ℕ) (xs : List ℕ) → contains a (pick xs) ≡ contains a xs

contains-used_key_codes :
    (c : ℕ) (order : List (ℕ × ℕ)) (pick : List ℕ → List ℕ)
    → IsPick pick
    → contains c (used_key_codes order pick) ≡ has_code c order
unfolding used_key_codes
contains-used_key_codes c order pick p = ground (
  arith,
  contains-reverse c (sort_loop (pick (seen_loop order [])) []),
  contains-sort_loop c (pick (seen_loop order [])) [],
  p c (seen_loop order []),
  contains-seen_loop c order [],
)

-- Every code of a layout's overrides is a code of `vkMap`: all entries are checked.
covered : KeyMap → Bool
covered [] = true
covered ((v, c) ∷ m) = has_code c vk_map && covered m

covered_sound :
    (vk c : ℕ) (m : KeyMap) → covered m ≡ true → lookup vk m ≡ some c → has_code c vk_map ≡ true
unfolding covered lookup
covered_sound vk c [] h e = cc
covered_sound vk c ((v, d) ∷ m) h e = ground (arith, covered_sound vk c m)

de_covered : covered de_profile ≡ true
unfolding covered de_profile vk_map
de_covered = refl

fr_covered : covered fr_profile ≡ true
unfolding covered fr_profile vk_map
fr_covered = refl

be_covered : covered be_profile ≡ true
unfolding covered be_profile vk_map
be_covered = refl

es_covered : covered es_profile ≡ true
unfolding covered es_profile vk_map
es_covered = refl

it_covered : covered it_profile ≡ true
unfolding covered it_profile vk_map
it_covered = refl

gb_covered : covered gb_profile ≡ true
unfolding covered gb_profile vk_map
gb_covered = refl

pt_covered : covered pt_profile ≡ true
unfolding covered pt_profile vk_map
pt_covered = refl

nordic_covered : covered nordic_profile ≡ true
unfolding covered nordic_profile vk_map
nordic_covered = refl

ch_covered : covered ch_profile ≡ true
unfolding covered ch_profile vk_map
ch_covered = refl

nl_covered : covered nl_profile ≡ true
unfolding covered nl_profile vk_map
nl_covered = refl

covered_all : (name : Text) (m : KeyMap) → layout_vk_overrides name ≡ some m → covered m ≡ true
unfolding layout_vk_overrides
covered_all name m e = ground (
  arith, de_covered, fr_covered, be_covered, es_covered, it_covered, gb_covered, pt_covered,
  nordic_covered, ch_covered, nl_covered,
)

vk_to_key_code-has_code : (vk : ℤ) (c : ℕ) → vk_to_key_code vk ≡ some c → has_code c vk_map ≡ true
unfolding vk_to_key_code
vk_to_key_code-has_code (pos vk) c e =
    has_code-has_entry vk c vk_map (has_entry-lookup vk c vk_map e)
vk_to_key_code-has_code (negsuc n) c e = cc

lookup_vk-has_code :
    (vk : ℤ) (c : ℕ) (m : KeyMap)
    → covered m ≡ true
    → lookup_vk vk m ≡ some c
    → has_code c vk_map ≡ true
unfolding lookup_vk
lookup_vk-has_code (pos vk) c m h e = covered_sound vk c m h e
lookup_vk-has_code (negsuc n) c m h e = cc

vk_in-has_code :
    (overrides : Option KeyMap) (vk : ℤ) (c : ℕ)
    → ((m : KeyMap) → overrides ≡ some m → covered m ≡ true)
    → vk_in overrides vk ≡ some c
    → has_code c vk_map ≡ true
unfolding vk_in
vk_in-has_code none vk c h e = vk_to_key_code-has_code vk c e
vk_in-has_code (some m) vk c h e = elim (Option-cases (lookup_vk vk m)) [
  | inl miss ↦ vk_to_key_code-has_code vk c (ground arith)
  | inr (d, hit) ↦ lookup_vk-has_code vk c m (h m refl) (ground arith)
]

-- The virtual keyboard has registered every key that it can be told to press: whatever the virtual
-- key, the layout and the orders of Go's maps, a code that the layout gives is a registered one.
pub vk_to_key_code_for_layout-registered :
    (order : List (ℕ × ℕ)) (pick : List ℕ → List ℕ) (vk : ℤ) (layout : Text) (c : ℕ)
    → IsOrderOf order vk_map
    → IsPick pick
    → vk_to_key_code_for_layout vk layout ≡ some c
    → contains c (used_key_codes order pick) ≡ true
unfolding vk_to_key_code_for_layout normalized_layout_overrides
vk_to_key_code_for_layout-registered order pick vk layout c same p e =
    contains-used_key_codes c order pick p
    ∙ has_code-order c order vk_map same (
        vk_in-has_code (layout_vk_overrides (canonical_keyboard_layout layout)) vk c
          (covered_all (canonical_keyboard_layout layout)) e)
