-- ===== src/Capture/Events/Hotkey.antt =====
-- Ctrl+Alt+Right, by which internal/capture/capture_linux.go takes the cursor back.
use wayland_without_borders.Prelude.{
  ℕ, ◌≡◌, refl, sym, ap, subst, ◌∙◌, true, false, ◌||◌, some, List, [], ◌∷◌, ◌==◌, if◌then◌else◌,
}
use wayland_without_borders.Prelude.Int.{pos}
use wayland_without_borders.Prelude.Float.{Float64}
use wayland_without_borders.Prelude.Text.{Text}
use wayland_without_borders.Capture.{enable_xinput, Capturer}
use wayland_without_borders.Capture.Control.{merged, enabled, set_active, enter_remote_edge}
use wayland_without_borders.Capture.Motion.{in_grace, handle_rel}
use wayland_without_borders.Capture.Events.{InputEvent, tracked, handle_key, handle_event}

-- The press of Right.
abbrev pub right_press : InputEvent
right_press = record { typ = 0x01; code = 106; value = pos 1 }

-- Ctrl and Alt are taken to be held.
abbrev pub IsArmed : {F : Type 0} → Capturer F → Type 0
IsArmed c = (c.hotkey_ctrl ≡ true) × (c.hotkey_alt ≡ true)

module _ (fl : Float64) (order : List (ℕ × ℕ)) where
  open fl use {F}

  -- The press of Right, while Ctrl and Alt are held: ownership and the devices come back.
  hotkey_returns :
      (now : ℕ) (ids : List ℕ) (c : Capturer F)
      → c.active ≡ false
      → in_grace now c.switch_sent ≡ false
      → IsArmed c
      → ((handle_event fl order now ids right_press c).active ≡ true)
        × (IsArmed (handle_event fl order now ids right_press c)
            × ((handle_event fl order now ids right_press c).outputs
                ≡ enable_xinput (merged c.disabled_ids ids) ∷ c.outputs))
  unfolding handle_event handle_key tracked set_active enabled
  hotkey_returns now ids c away later (ctrl, alt) =
      rw (away, later, ctrl, alt) (refl, ((refl, refl), refl))

  -- Events in a row, with their times and what xinput lists.
  unfoldable pub events : List (ℕ × (List ℕ × InputEvent)) → Capturer F → Capturer F
  events [] c = c
  events ((now, (ids, e)) ∷ more) c = events more (handle_event fl order now ids e c)

  handle_event-active :
      (now : ℕ) (ids : List ℕ) (e : InputEvent) (c : Capturer F)
      → c.active ≡ true
      → handle_event fl order now ids e c ≡ c
  unfolding handle_event
  handle_event-active now ids e c home =
      ap
        (λ b.
          if b || in_grace now c.switch_sent
          then c
          else if e.typ == 0x02
          then handle_rel fl now ids e.code e.value c
          else if e.typ == 0x01
          then handle_key order now ids e.code e.value c
          else c)
        home

  events-active :
      (es : List (ℕ × (List ℕ × InputEvent))) (c : Capturer F) → c.active ≡ true → events es c ≡ c
  unfolding events
  events-active [] c home = refl
  events-active ((now, (ids, e)) ∷ more) c home =
      ap (events more) (handle_event-active now ids e c home) ∙ events-active more c home

  -- After Ctrl+Alt+Right has brought the cursor back, nothing tells the capturer that the keys were
  -- let go: whatever events come while the cursor is here, once `EnterRemoteEdge` has given it away
  -- again and 100 ms are gone, the press of Right alone brings it back. The same return runs xinput
  -- and nothing else: on Wayland the portal is not told to release its capture.
  pub hotkey_sticks :
      (t0 t1 t2 : ℕ) (ids0 ids2 : List ℕ) (es : List (ℕ × (List ℕ × InputEvent))) (edge : Text)
      (frac : F) (c : Capturer F)
      → c.active ≡ false
      → in_grace t0 c.switch_sent ≡ false
      → IsArmed c
      → in_grace t2 (some t1) ≡ false
      → ((handle_event fl order t2 ids2 right_press (
            enter_remote_edge fl t1 edge frac
              (events es (handle_event fl order t0 ids0 right_press c)))).active
          ≡ true)
        × ((handle_event fl order t0 ids0 right_press c).outputs
            ≡ enable_xinput (merged c.disabled_ids ids0) ∷ c.outputs)
  unfolding enter_remote_edge
  hotkey_sticks t0 t1 t2 ids0 ids2 es edge frac c away later armed later2 =
      let (home, (armed', out)) = hotkey_returns t0 ids0 c away later armed in
      let back = handle_event fl order t0 ids0 right_press c in
      let still = subst (λ d. IsArmed d) (sym (events-active es back home)) armed' in
      (
        (hotkey_returns t2 ids2 (enter_remote_edge fl t1 edge frac (events es back)) refl later2
            still).0,
        out,
      )
