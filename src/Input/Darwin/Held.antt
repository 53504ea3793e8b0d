-- ===== src/Input/Darwin/Held.antt =====
-- The keys that the virtual keyboard of macOS holds down, against what was posted
-- (internal/input/coregraphics.go).
use wayland_without_borders.Prelude.{
  ℕ, ◌≡◌, refl, ◌∙◌, Bool, true, false, ◌&&◌, not, Option, none, some, List, [], ◌∷◌, ◌==◌,
  if◌then◌else◌, GoError, arith,
}
use wayland_without_borders.Input.Keymap.Registered.{contains, IsPick}
use wayland_without_borders.Input.Uinput.Keyboard.{contains-add_key, contains-remove_key}
use wayland_without_borders.Input.Darwin.{
  Posted, mouse_event, key_event, scroll_event, Tap, VirtualKeyboard, DarwinError, post, after_post,
  key_down, key_up, release_loop, release_all, first_error,
}

no_error :
    (first : Option DarwinError) (fine : Bool)
    → first_error first fine ≡ none
    → (first ≡ none) × (fine ≡ true)
no_error none true h = (refl, refl)
no_error none false h = cc
no_error (some e) fine h = cc

module _ {F : Type 0} where
  unfoldable pub is_down : ℕ → List (Posted F) → Bool
  is_down code [] = false
  is_down code (key_event c down ∷ es) = if c == code then down else is_down code es
  is_down code (mouse_event kind x y b ∷ es) = is_down code es
  is_down code (scroll_event delta ∷ es) = is_down code es

  abbrev pub InStep : VirtualKeyboard F → Type 0
  InStep k = (code : ℕ) → contains code k.pressed ≡ is_down code k.tap.posted

  module _ (answer : ℕ → GoError) where
    key_down-InStep :
        (k : VirtualKeyboard F) (code : ℕ) → InStep k → InStep (key_down answer k code).0
    unfolding key_down post after_post is_down
    key_down-InStep k code s a = ground (arith, s a, contains-add_key a code k.pressed)

    key_up-InStep : (k : VirtualKeyboard F) (code : ℕ) → InStep k → InStep (key_up answer k code).0
    unfolding key_up post after_post is_down
    key_up-InStep k code s a = ground (arith, s a, contains-remove_key a code k.pressed)

    release_loop_error :
        (codes : List ℕ) (t : Tap F) (first : Option DarwinError)
        → (release_loop answer codes t first).1 ≡ none
        → first ≡ none
    unfolding release_loop
    release_loop_error [] t first h = h
    release_loop_error (c ∷ codes) t first h = (no_error first _ (release_loop_error codes _ _ h)).0

    is_down-post :
        (a code : ℕ) (t : Tap F)
        → (post answer (key_event code false) t).1 ≡ true
        → is_down a (post answer (key_event code false) t).0.posted
          ≡ (not (code == a) && is_down a t.posted)
    unfolding post is_down
    is_down-post a code t h = ground arith

    is_down-release_loop :
        (a : ℕ) (codes : List ℕ) (t : Tap F) (first : Option DarwinError)
        → (release_loop answer codes t first).1 ≡ none
        → is_down a (release_loop answer codes t first).0.posted
          ≡ (not (contains a codes) && is_down a t.posted)
    unfolding release_loop
    is_down-release_loop a [] t first h = refl
    is_down-release_loop a (c ∷ codes) t first h =
        let w : Tap F × Bool = post answer (key_event c false) t in
        is_down-release_loop a codes w.0 (first_error first w.1) h
        ∙ ground
            (arith, is_down-post a c t (no_error first w.1 (release_loop_error codes w.0 _ h)).1)

    -- The presses and releases of a run.
    unfoldable pub key_calls : List (ℕ × Bool) → VirtualKeyboard F → VirtualKeyboard F
    key_calls [] k = k
    key_calls ((code, true) ∷ calls) k = key_calls calls (key_down answer k code).0
    key_calls ((code, false) ∷ calls) k = key_calls calls (key_up answer k code).0

    key_calls-InStep :
        (calls : List (ℕ × Bool)) (k : VirtualKeyboard F) → InStep k → InStep (key_calls calls k)
    unfolding key_calls
    key_calls-InStep [] k s = s
    key_calls-InStep ((code, true) ∷ calls) k s =
        key_calls-InStep calls _ (key_down-InStep k code s)
    key_calls-InStep ((code, false) ∷ calls) k s = key_calls-InStep calls _ (key_up-InStep k code s)

    -- On macOS, if the keyboard's map was in step with the events posted so far (it holds the keys
    -- that are down and no other, as on a new keyboard), then after any presses and releases, some of
    -- them refused, a `ReleaseAll` that reports no error leaves no key down, whatever the order in
    -- which it goes through the map. A `ReleaseAll` that was refused an event is not among the calls
    -- before it, since it can leave a key down that the map has lost.
    pub release_all-key_calls :
        (pick : List ℕ → List ℕ) (calls : List (ℕ × Bool)) (k : VirtualKeyboard F) (a : ℕ)
        → IsPick pick
        → InStep k
        → (release_all answer pick (key_calls calls k)).1 ≡ none
        → is_down a (release_all answer pick (key_calls calls k)).0.tap.posted ≡ false
    unfolding release_all
    release_all-key_calls pick calls k a p s h =
        let held : VirtualKeyboard F = key_calls calls k in
        ground (
          arith,
          is_down-release_loop a (pick held.pressed) held.tap none h,
          p a held.pressed,
          key_calls-InStep calls k s a,
        )
