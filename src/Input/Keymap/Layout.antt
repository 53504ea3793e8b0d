-- ===== src/Input/Keymap/Layout.antt =====
-- internal/input/keyboard_layout_linux.go: layout names, and `VKToKeyCodeForLayout` of
-- internal/input/keymap_linux.go. Layout names are ASCII.
use wayland_without_borders.Prelude.{
  ℕ, ◌≡◌, refl, Bool, false, ◌||◌, Option, none, some, List, [], ◌∷◌, if◌then◌else◌,
}
use wayland_without_borders.Prelude.Int.{ℤ, pos, negsuc}
use wayland_without_borders.Prelude.Text.{
  Text, bytes_of, text_eq, has_prefix, to_lower, trim_space, replace_byte, cut_before,
}
use wayland_without_borders.Input.Keymap.{
  KeyMap, lookup, vk_to_key_code, de_profile, fr_profile, be_profile, es_profile, it_profile,
  gb_profile, pt_profile, nordic_profile, ch_profile, nl_profile,
}

-- `layout == a || layout == b || …`
unfoldable pub one_of : Text → List Text → Bool
one_of s [] = false
one_of s (t ∷ ts) = text_eq s t || one_of s ts

-- The switch of `CanonicalKeyboardLayout`, on a name that is lower-case, trimmed and cut.
unfoldable pub canonical_name : Text → Text
unfolding one_of has_prefix
canonical_name layout =
    if text_eq layout []
    then []
    else if text_eq layout (bytes_of "auto")
    then bytes_of "auto"
    else if one_of layout (bytes_of "us" ∷ bytes_of "en-us" ∷ bytes_of "usa" ∷ [])
    then bytes_of "us"
    else if one_of layout (bytes_of "de" ∷ bytes_of "deu" ∷ bytes_of "german" ∷ [])
        || has_prefix layout (bytes_of "de-")
    then bytes_of "de"
    else if one_of layout (bytes_of "fr" ∷ bytes_of "fra" ∷ bytes_of "french" ∷ [])
        || has_prefix layout (bytes_of "fr-")
    then bytes_of "fr"
    else if one_of layout (bytes_of "be" ∷ bytes_of "belgian" ∷ [])
    then bytes_of "be"
    else if one_of layout (bytes_of "es" ∷ bytes_of "spa" ∷ bytes_of "spanish" ∷ [])
        || has_prefix layout (bytes_of "es-")
    then bytes_of "es"
    else if one_of layout
        (bytes_of "la" ∷ bytes_of "latam" ∷ bytes_of "latin-american" ∷ bytes_of "es-419" ∷ [])
    then bytes_of "es"
    else if one_of layout (bytes_of "it" ∷ bytes_of "ita" ∷ bytes_of "italian" ∷ [])
        || has_prefix layout (bytes_of "it-")
    then bytes_of "it"
    else if one_of layout
        (bytes_of "gb" ∷ bytes_of "uk" ∷ bytes_of "en-gb" ∷ bytes_of "british" ∷ [])
    then bytes_of "gb"
    else if one_of layout (bytes_of "pt" ∷ bytes_of "por" ∷ bytes_of "portuguese" ∷ [])
        || has_prefix layout (bytes_of "pt-")
    then bytes_of "pt"
    else if one_of layout
        (bytes_of "no" ∷ bytes_of "nb" ∷ bytes_of "nn" ∷ bytes_of "norwegian" ∷ [])
    then bytes_of "nordic"
    else if one_of layout (bytes_of "dk" ∷ bytes_of "da" ∷ bytes_of "danish" ∷ [])
    then bytes_of "nordic"
    else if one_of layout (bytes_of "se" ∷ bytes_of "sv" ∷ bytes_of "swedish" ∷ [])
    then bytes_of "nordic"
    else if one_of layout (bytes_of "fi" ∷ bytes_of "finnish" ∷ [])
    then bytes_of "nordic"
    else if one_of layout (
        bytes_of "ch"
        ∷ bytes_of "de-ch"
        ∷ bytes_of "fr-ch"
        ∷ bytes_of "swiss"
        ∷ bytes_of "swiss-german"
        ∷ bytes_of "swiss-french"
        ∷ [])
    then bytes_of "ch"
    else if one_of layout (bytes_of "nl" ∷ bytes_of "dutch" ∷ [])
    then bytes_of "nl"
    else layout

-- `CanonicalKeyboardLayout`
unfoldable pub canonical_keyboard_layout : Text → Text
unfolding canonical_name trim_space to_lower replace_byte cut_before
canonical_keyboard_layout layout =
    canonical_name (cut_before b',' (replace_byte b'_' b'-' (trim_space (to_lower layout))))

-- `layoutVKOverrides[profile]`
unfoldable pub layout_vk_overrides : Text → Option KeyMap
layout_vk_overrides name =
    if text_eq name (bytes_of "de")
    then some de_profile
    else if text_eq name (bytes_of "fr")
    then some fr_profile
    else if text_eq name (bytes_of "be")
    then some be_profile
    else if text_eq name (bytes_of "es")
    then some es_profile
    else if text_eq name (bytes_of "it")
    then some it_profile
    else if text_eq name (bytes_of "gb")
    then some gb_profile
    else if text_eq name (bytes_of "pt")
    then some pt_profile
    else if text_eq name (bytes_of "nordic")
    then some nordic_profile
    else if text_eq name (bytes_of "ch")
    then some ch_profile
    else if text_eq name (bytes_of "nl")
    then some nl_profile
    else none

unfoldable pub normalized_layout_overrides : Text → Option KeyMap
unfolding layout_vk_overrides canonical_keyboard_layout
normalized_layout_overrides layout = layout_vk_overrides (canonical_keyboard_layout layout)

-- `overrides[vk]`, where the keys of an override map are not negative.
unfoldable pub lookup_vk : ℤ → KeyMap → Option ℕ
unfolding lookup
lookup_vk (pos vk) m = lookup vk m
lookup_vk (negsuc n) m = none

-- `if code, ok := overrides[vk]; ok { return code, true }`, then the common map.
unfoldable pub override_or : Option ℕ → ℤ → Option ℕ
override_or (some code) vk = some code
override_or none vk = vk_to_key_code vk

unfoldable pub vk_in : Option KeyMap → ℤ → Option ℕ
unfolding override_or lookup_vk
vk_in none vk = vk_to_key_code vk
vk_in (some overrides) vk = override_or (lookup_vk vk overrides) vk

-- `VKToKeyCodeForLayout`
unfoldable pub vk_to_key_code_for_layout : ℤ → Text → Option ℕ
unfolding vk_in normalized_layout_overrides
vk_to_key_code_for_layout vk layout = vk_in (normalized_layout_overrides layout) vk

-- `ResolveKeyboardLayout`, where the argument `detected` is what `detectKeyboardLayout` answers.
unfoldable pub resolve_keyboard_layout : Text → Text → Text
unfolding canonical_keyboard_layout
resolve_keyboard_layout detected layout =
    let canonical = canonical_keyboard_layout layout in
    if text_eq canonical [] || text_eq canonical (bytes_of "auto")
    then (if text_eq detected [] then bytes_of "us" else canonical_keyboard_layout detected)
    else canonical

-- A Swiss layout named by its locale is taken for the German or the French one.
swiss_german : canonical_keyboard_layout (bytes_of "de_CH") ≡ bytes_of "de"
unfolding canonical_keyboard_layout
swiss_german = refl
