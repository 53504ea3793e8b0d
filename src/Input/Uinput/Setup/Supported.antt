-- ===== src/Input/Uinput/Setup/Supported.antt =====
-- What a device made by internal/input/uinput.go can say: the kernel drops an event unless the
-- device was registered for its type and its code.
use wayland_without_borders.Prelude.{
  ℕ, ◌≡◌, Bool, true, false, ◌&&◌, ◌||◌, Option, none, some, List, [], ◌∷◌, ◌==◌, if◌then◌else◌,
  GoError, arith, Option-cases, inl, inr,
}
use wayland_without_borders.Prelude.Bytes.{All}
use wayland_without_borders.Input.Uinput.{
  InputEvent, ev_syn, ev_key, ev_rel, ev_abs, rel_wheel, rel_h_wheel, abs_x, abs_y,
}
use wayland_without_borders.Input.Uinput.Setup.{
  Call, Device, SetupError, ioctl, dev_setup, abs_setup, user_dev, chain, wrap, or_else, set_ev_bit,
  set_key_bit, set_abs_bit, set_rel_bit, device_setup, dev_create, call, ioctl_all, abs_setups,
  setup_mouse_new, setup_mouse_legacy, mouse_steps, mouse_keys, mouse_axes, mouse_wheels,
  mouse_made, setup_keyboard, keyboard_steps, keyboard_keys, keyboard_made, mouse_buttons,
  ui_set_ev_bit, ui_set_key_bit, ui_set_rel_bit, ui_set_abs_bit, ui_dev_create,
}

-- Whether the kernel accepted an ioctl.
unfoldable pub has : ℕ → ℕ → List Call → Bool
has request value [] = false
has request value (ioctl r v ∷ calls) = r == request && v == value || has request value calls
has request value (dev_setup s ∷ calls) = has request value calls
has request value (abs_setup s ∷ calls) = has request value calls
has request value (user_dev s ∷ calls) = has request value calls

-- Which request registers the codes of an event type.
unfoldable pub code_request : ℕ → ℕ
code_request typ =
    if typ == ev_key
    then ui_set_key_bit
    else if typ == ev_rel
    then ui_set_rel_bit
    else ui_set_abs_bit

unfoldable pub supports : Device → InputEvent → Bool
unfolding has code_request
supports d e =
    e.typ == ev_syn || has ui_set_ev_bit e.typ d.taken && has (code_request e.typ) e.code d.taken

-- An open device that the kernel has made, for which it accepted the ioctls `facts`.
abbrev pub Has : List (ℕ × ℕ) → Device → Type 0
Has facts d = (d.closed ≡ false) × All (λ (f : ℕ × ℕ). has f.0 f.1 d.taken ≡ true) facts

abbrev pub with_request : ℕ → List ℕ → List (ℕ × ℕ) → List (ℕ × ℕ)
with_request request [] facts = facts
with_request request (v ∷ vs) facts = with_request request vs ((request, v) ∷ facts)

-- What holds of the device if there was no error.
abbrev pub OnSuccess {ℓ κ} : {E : Type ℓ} → (Device → Type κ) → Device × Option E → Type κ
OnSuccess P (d, none) = P d
OnSuccess P (d, some e) = Unit

chain-OnSuccess {ℓ κ} :
    {E : Type ℓ} (P Q : Device → Type κ) (r : Device × Option E) (next : Device → Device × Option E)
    → OnSuccess P r
    → ((d : Device) → P d → OnSuccess Q (next d))
    → OnSuccess Q (chain r next)
chain-OnSuccess P Q (d, none) next h k = k d h
chain-OnSuccess P Q (d, some e) next h k = tt

wrap-OnSuccess {κ} :
    (P : Device → Type κ) (f : ℕ → SetupError) (r : Device × GoError)
    → OnSuccess P r
    → OnSuccess P (wrap f r)
wrap-OnSuccess P f (d, none) h = h
wrap-OnSuccess P f (d, some e) h = tt

has-All :
    (c : Call) (facts : List (ℕ × ℕ)) (calls : List Call)
    → All (λ (f : ℕ × ℕ). has f.0 f.1 calls ≡ true) facts
    → All (λ (f : ℕ × ℕ). has f.0 f.1 (c ∷ calls) ≡ true) facts
unfolding has
has-All c [] calls h = tt
has-All c (f ∷ facts) calls (h, hs) = (has_more f.0 f.1 c calls h, has-All c facts calls hs)
  where
    has_more : (r v : ℕ) (d : Call) (ds : List Call) → has r v ds ≡ true → has r v (d ∷ ds) ≡ true
    has_more r v (ioctl s w) ds k = ground arith
    has_more r v (dev_setup s) ds k = k
    has_more r v (abs_setup s) ds k = k
    has_more r v (user_dev s) ds k = k

module _ (answer : ℕ → GoError) where
  call-Has :
      (c : Call) (facts : List (ℕ × ℕ)) (d : Device) → Has facts d → Has facts (call answer c d).0
  unfolding call
  call-Has c facts d (o, h) = elim (Option-cases (answer d.asked)) [
    | inl e ↦ rw (e, call) (o, has-All c facts d.taken h)
    | inr (n, e) ↦ rw (e, call) (o, h)
  ]

  ioctl_adds :
      (r v : ℕ) (facts : List (ℕ × ℕ)) (d : Device)
      → Has facts d
      → OnSuccess (Has ((r, v) ∷ facts)) (call answer (ioctl r v) d)
  unfolding call has
  ioctl_adds r v facts d (o, h) = elim (Option-cases (answer d.asked)) [
    | inl e ↦ rw (e, call) (o, (ground arith, has-All (ioctl r v) facts d.taken h))
    | inr (n, e) ↦ rw (e, call) tt
  ]

  ioctl_all_adds :
      (r : ℕ) (vs : List ℕ) (facts : List (ℕ × ℕ)) (d : Device)
      → Has facts d
      → OnSuccess (Has (with_request r vs facts)) (ioctl_all answer r vs d)
  unfolding ioctl_all
  ioctl_all_adds r [] facts d h = h
  ioctl_all_adds r (v ∷ vs) facts d h =
      chain-OnSuccess (Has ((r, v) ∷ facts)) (Has (with_request r vs ((r, v) ∷ facts)))
        (call answer (ioctl r v) d) (ioctl_all answer r vs) (ioctl_adds r v facts d h)
        (ioctl_all_adds r vs ((r, v) ∷ facts))

  -- What holds whether there was an error or not.
  chain_keeps {ℓ κ} :
      {E : Type ℓ} (P : Device → Type κ) (r : Device × Option E) (next : Device → Device × Option E)
      → P r.0
      → ((d : Device) → P d → P (next d).0)
      → P (chain r next).0
  chain_keeps P (d, none) next h k = k d h
  chain_keeps P (d, some e) next h k = h

  or_else_keeps {κ} :
      (P : Device → Type κ) (r : Device × GoError) (second : Device → Device × GoError)
      → P r.0
      → ((d : Device) → P d → P (second d).0)
      → P (or_else r second).0
  or_else_keeps P (d, none) second h k = h
  or_else_keeps P (d, some e) second h k = k d h

  succeeded {ℓ κ} :
      {E : Type ℓ} (P : Device → Type κ) (r : Device × Option E) → P r.0 → OnSuccess P r
  succeeded P (d, none) h = h
  succeeded P (d, some e) h = tt

  abs_setups-Has :
      (axes : List ℕ) (facts : List (ℕ × ℕ)) (d : Device)
      → Has facts d
      → Has facts (abs_setups answer axes d).0
  unfolding abs_setups
  abs_setups-Has [] facts d h = h
  abs_setups-Has (a ∷ axes) facts d h =
      chain_keeps (Has facts) (call answer _ d) (abs_setups answer axes) (call-Has _ facts d h)
        (abs_setups-Has axes facts)

  setup_mouse-Has :
      (name : List ℕ) (facts : List (ℕ × ℕ)) (d : Device)
      → Has facts d
      → Has facts (or_else (setup_mouse_new answer name d) (setup_mouse_legacy answer name)).0
  unfolding setup_mouse_new setup_mouse_legacy
  setup_mouse-Has name facts d h =
      or_else_keeps (Has facts) (setup_mouse_new answer name d) (setup_mouse_legacy answer name)
        (chain_keeps (Has facts) (call answer _ d) (abs_setups answer (abs_x ∷ abs_y ∷ []))
          (call-Has _ facts d h) (abs_setups-Has (abs_x ∷ abs_y ∷ []) facts))
        (call-Has _ facts)

  setup_keyboard-Has :
      (name : List ℕ) (facts : List (ℕ × ℕ)) (d : Device)
      → Has facts d
      → Has facts (setup_keyboard answer name d).0
  unfolding setup_keyboard
  setup_keyboard-Has name facts d h =
      or_else_keeps (Has facts) (call answer _ d) (call answer _) (call-Has _ facts d h)
        (call-Has _ facts)

  abbrev pub buttons_facts : List (ℕ × ℕ)
  buttons_facts =
      with_request ui_set_key_bit mouse_buttons
        (with_request ui_set_ev_bit (ev_key ∷ ev_abs ∷ ev_rel ∷ []) [])

  abbrev pub axes_facts : List (ℕ × ℕ)
  axes_facts = with_request ui_set_abs_bit (abs_x ∷ abs_y ∷ []) buttons_facts

  abbrev pub mouse_facts : List (ℕ × ℕ)
  mouse_facts = with_request ui_set_rel_bit (rel_wheel ∷ rel_h_wheel ∷ []) axes_facts

  abbrev pub Made : List (ℕ × ℕ) → Device → Type 0
  Made facts = Has ((ui_dev_create, 0) ∷ facts)

  -- A loop of ioctls, and then the rest.
  bits_then :
      (label : ℕ → SetupError) (r : ℕ) (vs : List ℕ) (facts out : List (ℕ × ℕ))
      (next : Device → Device × Option SetupError) (d : Device)
      → Has facts d
      → ((a : Device) → Has (with_request r vs facts) a → OnSuccess (Made out) (next a))
      → OnSuccess (Made out) (chain (wrap label (ioctl_all answer r vs d)) next)
  bits_then label r vs facts out next d h k =
      chain-OnSuccess (Has (with_request r vs facts)) (Made out)
        (wrap label (ioctl_all answer r vs d)) next
        (wrap-OnSuccess (Has (with_request r vs facts)) label (ioctl_all answer r vs d)
          (ioctl_all_adds r vs facts d h))
        k

  -- The device's setup and `UI_DEV_CREATE`.
  setup_then :
      (facts : List (ℕ × ℕ)) (r : Device × GoError)
      → Has facts r.0
      → OnSuccess (Made facts) (
          chain
            (wrap device_setup r)
            (λ made. wrap dev_create (call answer (ioctl ui_dev_create 0) made)))
  setup_then facts r h =
      chain-OnSuccess (Has facts) (Made facts) (wrap device_setup r)
        (λ made. wrap dev_create (call answer (ioctl ui_dev_create 0) made))
        (wrap-OnSuccess (Has facts) device_setup r (succeeded (Has facts) r h))
        (λ made k.
          wrap-OnSuccess (Made facts) dev_create (call answer (ioctl ui_dev_create 0) made)
            (ioctl_adds ui_dev_create 0 facts made k))

  pub mouse_steps-Has :
      (name : List ℕ) (d : Device)
      → Has [] d
      → OnSuccess (Made mouse_facts) (mouse_steps answer name d)
  unfolding mouse_steps mouse_keys mouse_axes mouse_wheels mouse_made
  mouse_steps-Has name d h =
      bits_then set_ev_bit ui_set_ev_bit (ev_key ∷ ev_abs ∷ ev_rel ∷ []) [] mouse_facts
        (mouse_keys answer name) d h
        λ a ha.
          bits_then set_key_bit ui_set_key_bit mouse_buttons
            (with_request ui_set_ev_bit (ev_key ∷ ev_abs ∷ ev_rel ∷ []) []) mouse_facts
            (mouse_axes answer name) a ha
            λ b hb.
              bits_then set_abs_bit ui_set_abs_bit (abs_x ∷ abs_y ∷ []) buttons_facts mouse_facts
                (mouse_wheels answer name) b hb
                λ c hc.
                  bits_then set_rel_bit ui_set_rel_bit (rel_wheel ∷ rel_h_wheel ∷ []) axes_facts
                    mouse_facts (mouse_made answer name) c hc
                    λ e he.
                      setup_then mouse_facts
                        (or_else (setup_mouse_new answer name _) (setup_mouse_legacy answer name))
                        (setup_mouse-Has name mouse_facts _ (call-Has _ mouse_facts e he))

  abbrev pub keyboard_facts : List ℕ → List (ℕ × ℕ)
  keyboard_facts codes = with_request ui_set_key_bit codes ((ui_set_ev_bit, ev_key) ∷ [])

  pub keyboard_steps-Has :
      (codes name : List ℕ) (d : Device)
      → Has [] d
      → OnSuccess (Made (keyboard_facts codes)) (keyboard_steps answer codes name d)
  unfolding keyboard_steps keyboard_keys keyboard_made
  keyboard_steps-Has codes name d h =
      bits_then set_ev_bit ui_set_ev_bit (ev_key ∷ []) [] (keyboard_facts codes)
        (keyboard_keys answer codes name) d h
        λ a ha.
          bits_then set_key_bit ui_set_key_bit codes ((ui_set_ev_bit, ev_key) ∷ [])
            (keyboard_facts codes) (keyboard_made answer name) a ha
            λ b hb.
              setup_then (keyboard_facts codes) (setup_keyboard answer name b)
                (setup_keyboard-Has name (keyboard_facts codes) b hb)
