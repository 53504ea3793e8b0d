-- ===== src/Input/Uinput/Release.antt =====
-- `ReleaseAll` of internal/input/uinput.go: every key is lifted, if the kernel takes the events.
use wayland_without_borders.Prelude.{
  ℕ, ◌≡◌, refl, sym, ◌∙◌, true, false, ◌&&◌, not, none, some, List, [], ◌∷◌, ◌==◌, GoError, arith,
}
use wayland_without_borders.Prelude.Int.{ℤ, pos}
use wayland_without_borders.Input.Keymap.Registered.{contains, IsPick}
use wayland_without_borders.Input.Uinput.{
  Fd, VirtualKeyboard, write_event, sync_events, release_loop, sync_released, release_all,
  first_error, ev_key,
}
use wayland_without_borders.Input.Uinput.Keyboard.{is_down, InSync}

module _ (answer : ℕ → GoError) where
  first_error-none :
      (first e : GoError) → first_error answer first e ≡ none → (first ≡ none) × (e ≡ none)
  first_error-none none e h = (refl, h)
  first_error-none (some f) e h = cc

  -- One write of the loop, where the kernel took the event.
  is_down-write_event :
      (a code : ℕ) (fd : Fd)
      → (write_event answer fd ev_key code (pos 0)).1 ≡ none
      → is_down a (write_event answer fd ev_key code (pos 0)).0.written
        ≡ (not (code == a) && is_down a fd.written)
  unfolding write_event is_down
  is_down-write_event a code fd h = ground arith

  is_down-sync_events :
      (a : ℕ) (fd : Fd) → is_down a (sync_events answer fd).0.written ≡ is_down a fd.written
  unfolding sync_events write_event is_down
  is_down-sync_events a fd = ground arith

  release_loop_error :
      (codes : List ℕ) (fd : Fd) (first : GoError)
      → (release_loop answer codes fd first).1 ≡ none
      → first ≡ none
  unfolding release_loop
  release_loop_error [] fd first h = h
  release_loop_error (c ∷ codes) fd first h =
      (first_error-none first (write_event answer fd ev_key c (pos 0)).1
        (release_loop_error codes _ _ h)).0

  is_down-release_loop :
      (a : ℕ) (codes : List ℕ) (fd : Fd) (first : GoError)
      → (release_loop answer codes fd first).1 ≡ none
      → is_down a (release_loop answer codes fd first).0.written
        ≡ (not (contains a codes) && is_down a fd.written)
  unfolding release_loop
  is_down-release_loop a [] fd first h = refl
  is_down-release_loop a (c ∷ codes) fd first h =
      let w : Fd × GoError = write_event answer fd ev_key c (pos 0) in
      let fine : w.1 ≡ none =
        (first_error-none first w.1
          (release_loop_error codes w.0 (first_error answer first w.1) h)).1 in
      is_down-release_loop a codes w.0 (first_error answer first w.1) h
      ∙ ground (arith, is_down-write_event a c fd fine)

  is_down-sync_released :
      (a : ℕ) (codes : List ℕ) (r : Fd × GoError)
      → is_down a (sync_released answer codes r).0.written ≡ is_down a r.0.written
  unfolding sync_released
  is_down-sync_released a [] r = refl
  is_down-sync_released a (c ∷ codes) (fd, first) = is_down-sync_events a fd

  sync_released_error :
      (codes : List ℕ) (r : Fd × GoError) → (sync_released answer codes r).1 ≡ none → r.1 ≡ none
  unfolding sync_released
  sync_released_error [] r h = h
  sync_released_error (c ∷ codes) (fd, first) h = (first_error-none first _ h).0

  -- `ReleaseAll` that reports no error leaves no key down for the kernel, if the map was in step
  -- with it, whatever the order in which it goes through the map.
  pub release_all-is_down :
      (pick : List ℕ → List ℕ) (k : VirtualKeyboard) (a : ℕ)
      → IsPick pick
      → InSync k
      → (release_all answer pick k).1 ≡ none
      → is_down a (release_all answer pick k).0.fd.written ≡ false
  unfolding release_all
  release_all-is_down pick k a p s h = ground (
    arith,
    is_down-sync_released a (pick k.pressed) (release_loop answer (pick k.pressed) k.fd none),
    is_down-release_loop a (pick k.pressed) k.fd none
        (sync_released_error (pick k.pressed) (release_loop answer (pick k.pressed) k.fd none) h),
    p a k.pressed,
    s a,
  )

  -- If one key is held, the map agrees with the kernel on what is down, and the kernel refuses the
  -- first event of `ReleaseAll`, the key's release, then the key stays down for the kernel, the map is
  -- empty, so that no later `ReleaseAll` tries again, and the kernel's error is reported.
  pub release_all_forgets :
      (pick : List ℕ → List ℕ) (k : VirtualKeyboard) (code e : ℕ)
      → pick k.pressed ≡ code ∷ []
      → InSync k
      → contains code k.pressed ≡ true
      → answer k.fd.calls ≡ some e
      → (is_down code (release_all answer pick k).0.fd.written ≡ true)
        × ((release_all answer pick k).0.pressed ≡ [])
        × ((release_all answer pick k).1 ≡ some e)
  unfolding release_all is_down
  release_all_forgets pick k code e one s held refused = ground (arith, s code)

-- The kernel takes every event.
abbrev pub TakesAll : (ℕ → GoError) → Type 0
TakesAll answer = (n : ℕ) → answer n ≡ none

module _ (answer : ℕ → GoError) (takes : TakesAll answer) where
  write_event_ok :
      (fd : Fd) (typ code : ℕ) (value : ℤ) → (write_event answer fd typ code value).1 ≡ none
  unfolding write_event
  write_event_ok fd typ code value = ground (arith, takes fd.calls)

  both_ok : (first e : GoError) → first ≡ none → e ≡ none → first_error answer first e ≡ none
  both_ok none e h k = k
  both_ok (some f) e h k = cc

  release_loop_ok :
      (codes : List ℕ) (fd : Fd) (first : GoError)
      → first ≡ none
      → (release_loop answer codes fd first).1 ≡ none
  unfolding release_loop
  release_loop_ok [] fd first h = h
  release_loop_ok (c ∷ codes) fd first h =
      release_loop_ok codes _ _ (both_ok first _ h (write_event_ok fd ev_key c (pos 0)))

  sync_ok :
      (codes : List ℕ) (r : Fd × GoError) → r.1 ≡ none → (sync_released answer codes r).1 ≡ none
  unfolding sync_released sync_events
  sync_ok [] r h = h
  sync_ok (c ∷ codes) (fd, first) h = both_ok first _ h (write_event_ok fd 0 0 (pos 0))

  pub release_all_ok :
      (pick : List ℕ → List ℕ) (k : VirtualKeyboard) → (release_all answer pick k).1 ≡ none
  unfolding release_all
  release_all_ok pick k =
      sync_ok (pick k.pressed) _ (release_loop_ok (pick k.pressed) k.fd none refl)

  pub release_all-InSync :
      (pick : List ℕ → List ℕ) (k : VirtualKeyboard)
      → IsPick pick
      → InSync k
      → InSync (release_all answer pick k).0
  unfolding release_all
  release_all-InSync pick k p s a =
      sym (release_all-is_down answer pick k a p s (release_all_ok pick k))
