-- ===== src/Input/Uinput/Setup/Heard.antt =====
-- Every method of the devices of internal/input/uinput.go writes what the kernel hears.
use wayland_without_borders.Prelude.{
  ℕ, ◌≡◌, true, none, some, List, [], ◌∷◌, ◌==◌, GoError, arith, sym, ◌∙◌, Bool-cases, inl, inr,
  ==_iff, subst,
}
use wayland_without_borders.Prelude.Int.{ℤ, pos}
use wayland_without_borders.Prelude.Bytes.{All}
use wayland_without_borders.Input.Keymap.Registered.{contains, IsPick}
use wayland_without_borders.Input.Uinput
use wayland_without_borders.Input.Uinput.{
  Fd, VirtualKeyboard, ev_key, ev_abs, ev_rel, abs_x, abs_y, rel_wheel, rel_h_wheel, add_key,
  remove_key, release_loop, sync_released, first_error,
}
use wayland_without_borders.Input.Uinput.Keyboard.{contains-add_key, contains-remove_key}
use wayland_without_borders.Input.Uinput.Setup.{
  Device, mouse_buttons, ui_set_key_bit, ui_set_ev_bit,
}
use wayland_without_borders.Input.Uinput.Setup.Supported.{
  has, code_request, supports, Made, mouse_facts, keyboard_facts, with_request,
}
use wayland_without_borders.Input.Uinput.Setup.Writes.{
  IsHeard, event, write_event-IsHeard, sync_events-IsHeard, synced-IsHeard, then-IsHeard,
  abs-supports, rel-supports, button-supports,
}

module _ (answer : ℕ → GoError) (d : Device) (ready : Made answer (mouse_facts answer) d) where
  pub move_to-IsHeard :
      (fd : Fd) (x y : ℤ) → IsHeard d fd → IsHeard d (Uinput.move_to answer fd x y).0
  unfolding Uinput.move_to
  move_to-IsHeard fd x y h =
      then-IsHeard answer d (Uinput.write_event answer fd ev_abs abs_x x) _
        (write_event-IsHeard answer d fd ev_abs abs_x x (abs-supports answer d ready x).0 h)
        (λ a k. synced-IsHeard answer d a ev_abs abs_y y (abs-supports answer d ready y).1 k)

  pub button_down-IsHeard :
      (fd : Fd) (b : ℕ)
      → contains b mouse_buttons ≡ true
      → IsHeard d fd
      → IsHeard d (Uinput.button_down answer fd b).0
  unfolding Uinput.button_down
  button_down-IsHeard fd b m =
      synced-IsHeard answer d fd ev_key b (pos 1) (button-supports answer d ready b (pos 1) m)

  pub button_up-IsHeard :
      (fd : Fd) (b : ℕ)
      → contains b mouse_buttons ≡ true
      → IsHeard d fd
      → IsHeard d (Uinput.button_up answer fd b).0
  unfolding Uinput.button_up
  button_up-IsHeard fd b m =
      synced-IsHeard answer d fd ev_key b (pos 0) (button-supports answer d ready b (pos 0) m)

  pub wheel-IsHeard : (fd : Fd) (n : ℤ) → IsHeard d fd → IsHeard d (Uinput.wheel answer fd n).0
  unfolding Uinput.wheel
  wheel-IsHeard fd n =
      synced-IsHeard answer d fd ev_rel rel_wheel n (rel-supports answer d ready n).0

  pub h_wheel-IsHeard : (fd : Fd) (n : ℤ) → IsHeard d fd → IsHeard d (Uinput.h_wheel answer fd n).0
  unfolding Uinput.h_wheel
  h_wheel-IsHeard fd n =
      synced-IsHeard answer d fd ev_rel rel_h_wheel n (rel-supports answer d ready n).1

-- What a loop of ioctls registered.
with_request_rest :
    (d : Device) (r : ℕ) (vs : List ℕ) (facts : List (ℕ × ℕ))
    → All (λ (f : ℕ × ℕ). has f.0 f.1 d.taken ≡ true) (with_request r vs facts)
    → All (λ (f : ℕ × ℕ). has f.0 f.1 d.taken ≡ true) facts
with_request_rest d r [] facts h = h
with_request_rest d r (v ∷ vs) facts h = (with_request_rest d r vs ((r, v) ∷ facts) h).1

with_request-has :
    (d : Device) (r c : ℕ) (vs : List ℕ) (facts : List (ℕ × ℕ))
    → All (λ (f : ℕ × ℕ). has f.0 f.1 d.taken ≡ true) (with_request r vs facts)
    → contains c vs ≡ true
    → has r c d.taken ≡ true
with_request-has d r c [] facts h m = cc
with_request-has d r c (v ∷ vs) facts h m = elim (Bool-cases (v == c)) [
  | inl e ↦
      subst (λ x. has r x d.taken ≡ true) ((==_iff v c).0 e)
        (with_request_rest d r vs ((r, v) ∷ facts) h).0
  | inr e ↦ with_request-has d r c vs ((r, v) ∷ facts) h (ground arith)
]

-- The pressed keys are registered ones, and every event written so far was heard.
abbrev pub KeysAreHeard : List ℕ → Device → VirtualKeyboard → Type 0
KeysAreHeard codes d k =
    IsHeard d k.fd × ((c : ℕ) → contains c k.pressed ≡ true → contains c codes ≡ true)

module _ (answer : ℕ → GoError) (codes : List ℕ) (d : Device)
    (ready : Made answer (keyboard_facts answer codes) d) where
  key-supports : (c : ℕ) (x : ℤ) → contains c codes ≡ true → supports d (event ev_key c x) ≡ true
  unfolding supports code_request
  key-supports c x m =
      let registered : has ui_set_key_bit c d.taken ≡ true =
        with_request-has d ui_set_key_bit c codes ((ui_set_ev_bit, ev_key) ∷ []) ready.1.1 m in
      let typ : has ui_set_ev_bit ev_key d.taken ≡ true =
        (with_request_rest d ui_set_key_bit codes ((ui_set_ev_bit, ev_key) ∷ []) ready.1.1).0 in
      ground (arith, registered, typ)

  after_key-Heard :
      (k : VirtualKeyboard) (change : List ℕ → List ℕ) (r : Fd × GoError)
      → KeysAreHeard codes d k
      → IsHeard d r.0
      → ((c : ℕ) → contains c (change k.pressed) ≡ true → contains c codes ≡ true)
      → KeysAreHeard codes d (Uinput.after_key answer k change r).0
  unfolding Uinput.after_key
  after_key-Heard k change (fd, some e) h w m = (w, h.1)
  after_key-Heard k change (fd, none) h w m = (sync_events-IsHeard answer d fd w, m)

  pub key_down-Heard :
      (k : VirtualKeyboard) (c : ℕ)
      → contains c codes ≡ true
      → KeysAreHeard codes d k
      → KeysAreHeard codes d (Uinput.key_down answer k c).0
  unfolding Uinput.key_down
  key_down-Heard k c m h =
      after_key-Heard k (add_key c) _ h
        (write_event-IsHeard answer d k.fd ev_key c (pos 1) (key-supports c (pos 1) m) h.0)
        (λ a n. elim (Bool-cases (c == a)) [
          | inl e ↦ subst (λ x. contains x codes ≡ true) ((==_iff c a).0 e) m
          | inr e ↦ h.1 a (ground (arith, contains-add_key a c k.pressed))
        ])

  pub key_up-Heard :
      (k : VirtualKeyboard) (c : ℕ)
      → contains c codes ≡ true
      → KeysAreHeard codes d k
      → KeysAreHeard codes d (Uinput.key_up answer k c).0
  unfolding Uinput.key_up
  key_up-Heard k c m h =
      after_key-Heard k (remove_key c) _ h
        (write_event-IsHeard answer d k.fd ev_key c (pos 0) (key-supports c (pos 0) m) h.0)
        (λ a n. h.1 a (ground (arith, contains-remove_key a c k.pressed)))

  release_loop-Heard :
      (cs : List ℕ) (fd : Fd) (first : GoError)
      → ((c : ℕ) → contains c cs ≡ true → contains c codes ≡ true)
      → IsHeard d fd
      → IsHeard d (release_loop answer cs fd first).0
  unfolding release_loop
  release_loop-Heard [] fd first m h = h
  release_loop-Heard (c ∷ cs) fd first m h =
      release_loop-Heard cs _ _ (λ a n. m a (ground arith))
        (write_event-IsHeard answer d fd ev_key c (pos 0)
          (key-supports c (pos 0) (m c (ground arith))) h)

  sync_released-Heard :
      (cs : List ℕ) (r : Fd × GoError) → IsHeard d r.0 → IsHeard d (sync_released answer cs r).0
  unfolding sync_released
  sync_released-Heard [] r h = h
  sync_released-Heard (c ∷ cs) (fd, first) h = sync_events-IsHeard answer d fd h

  pub release_all-Heard :
      (pick : List ℕ → List ℕ) (k : VirtualKeyboard)
      → IsPick pick
      → KeysAreHeard codes d k
      → KeysAreHeard codes d (Uinput.release_all answer pick k).0
  unfolding Uinput.release_all
  release_all-Heard pick k p h = (
    sync_released-Heard (pick k.pressed) _ (
        release_loop-Heard (pick k.pressed) k.fd none (λ c n. h.1 c (sym (p c k.pressed) ∙ n)) h.0),
    λ c n. cc,
  )
