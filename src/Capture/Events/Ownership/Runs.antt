-- ===== src/Capture/Events/Ownership/Runs.antt =====
-- Runs of the methods of internal/capture/capture_linux.go, by either driver, against the abstract
-- machine.
use wayland_without_borders.Prelude.{
  ℕ, ◌≡◌, refl, sym, subst, Bool, true, false, ◌||◌, Option, List, [], ◌∷◌, map, ◌==◌,
  if◌then◌else◌, Bool-cases, inl, inr,
}
use wayland_without_borders.Prelude.Int.{ℤ, pos, ◌≤ℤ◌, IsI32}
use wayland_without_borders.Prelude.Float.{Float64}
use wayland_without_borders.Prelude.Text.{Text}
use wayland_without_borders.Capture.{Capturer}
use wayland_without_borders.Capture.Control.{set_active, enter_remote_edge}
use wayland_without_borders.Capture.Motion.{in_grace, handle_rel, feed_motion, feed_wheel}
use wayland_without_borders.Capture.Events.{InputEvent, handle_key, handle_event, poll_cursor_edge}
use wayland_without_borders.Capture.Events.Ownership.{
  Owner, Cause, polls, moves, presses, enters, activates, Change, stay, cross_barrier, hand_back,
  owner, Follows,
}
use wayland_without_borders.Capture.Events.Ownership.Moving.{
  handle_rel-Follows, feed_motion-Follows,
}
use wayland_without_borders.Capture.Events.Ownership.Pressing.{
  set_active-Follows, handle_key-Follows, feed_wheel-Follows,
}
use wayland_without_borders.Capture.Events.Ownership.Polling.{poll_cursor_edge-Follows}

-- The causes of the calls of a run, and where the abstract machine goes.
pub data Walk : List Cause → Owner → Owner → Type 0 where
  finish : {who : Owner} → Walk [] who who
  go_on :
      {cause : Cause} {causes : List Cause} {a b c : Owner}
      → Change cause a b
      → Walk causes b c
      → Walk (cause ∷ causes) a c

module _ (fl : Float64) (order : List (ℕ × ℕ)) where
  open fl use {F}

  -- The calls of the two drivers. Each has its time and what xinput lists.
  pub data Call : Type 0 where
    poll_call : Option (ℤ × ℤ) → Call
    event_call : InputEvent → Call
    motion_call : F → F → Call
    wheel_call : ℤ → ℤ → Call
    enter_call : Text → F → Call
    activate_call : Call

  abbrev pub cause_of : Call → Cause
  cause_of (poll_call at) = polls
  cause_of (event_call e) = if e.typ == 0x02 then moves else presses
  cause_of (motion_call dx dy) = moves
  cause_of (wheel_call v h) = moves
  cause_of (enter_call edge f) = enters
  cause_of activate_call = activates

  unfoldable pub call : ℕ → List ℕ → Call → Capturer F → Capturer F
  call now ids (poll_call at) c = poll_cursor_edge fl now ids at c
  call now ids (event_call e) c = handle_event fl order now ids e c
  call now ids (motion_call dx dy) c = feed_motion fl now ids dx dy c
  call now ids (wheel_call v h) c = feed_wheel v h c
  call now ids (enter_call edge f) c = enter_remote_edge fl now edge f c
  call now ids activate_call c = set_active now ids true c

  unfoldable pub calls : List (ℕ × (List ℕ × Call)) → Capturer F → Capturer F
  calls [] c = c
  calls ((now, (ids, m)) ∷ more) c = calls more (call now ids m c)

  event-Follows :
      (now : ℕ) (ids : List ℕ) (e : InputEvent) (c : Capturer F)
      → Follows (cause_of (event_call e)) c (handle_event fl order now ids e c)
  unfolding handle_event
  event-Follows now ids e c = elim (Bool-cases c.active) [
    | inl h ↦ rw (h) (stay, refl)
    | inr h ↦ dispatched h (c.active || in_grace now c.switch_sent) (e.typ == 0x02) (e.typ == 0x01)
  ]
    where
      dispatched :
          c.active ≡ false
          → (blocked rel key : Bool)
          → Follows (if rel then moves else presses) c (
              if blocked
              then c
              else if rel
              then handle_rel fl now ids e.code e.value c
              else if key
              then handle_key order now ids e.code e.value c
              else c)
      dispatched h true rel key = (stay, refl)
      dispatched h false true key = handle_rel-Follows fl now ids e.code e.value c h
      dispatched h false false true = handle_key-Follows order now ids e.code e.value c
      dispatched h false false false = (stay, refl)

  call-Follows :
      (now : ℕ) (ids : List ℕ) (m : Call) (c : Capturer F)
      → pos 0 ≤ℤ c.width
      → IsI32 c.width
      → Follows (cause_of m) c (call now ids m c)
  unfolding call enter_remote_edge
  call-Follows now ids (poll_call at) c wide fits =
      poll_cursor_edge-Follows fl now ids at c wide fits
  call-Follows now ids (event_call e) c wide fits = event-Follows now ids e c
  call-Follows now ids (motion_call dx dy) c wide fits = feed_motion-Follows fl now ids dx dy c
  call-Follows now ids (wheel_call v h) c wide fits = feed_wheel-Follows v h c
  call-Follows now ids (enter_call edge f) c wide fits = (cross_barrier, refl)
  call-Follows now ids activate_call c wide fits =
      set_active-Follows activates now ids c (λ armed. hand_back)

  -- Every run of the two drivers' calls, at any times and in any order, refines the abstract machine
  -- of ownership, with one change at most for a call, on a screen whose width is an int32 that is
  -- not negative. There, motion brings the cursor back only if the return was armed before, and a
  -- poll lets it leave only if the crossing was.
  pub calls-Walk :
      (run : List (ℕ × (List ℕ × Call))) (c : Capturer F)
      → pos 0 ≤ℤ c.width
      → IsI32 c.width
      → Walk (map (λ m. cause_of m.1.1) run) (owner c) (owner (calls run c))
  unfolding calls
  calls-Walk [] c wide fits = finish
  calls-Walk ((now, (ids, m)) ∷ more) c wide fits =
      let (change, same_width) = call-Follows now ids m c wide fits in
      go_on change (
        calls-Walk more _ (subst (λ w. pos 0 ≤ℤ w) (sym same_width) wide)
          (subst IsI32 (sym same_width) fits))
