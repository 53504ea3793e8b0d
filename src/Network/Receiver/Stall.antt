-- ===== src/Network/Receiver/Stall.antt =====
-- When a connection counts as stalled (internal/network/receiver.go).
use wayland_without_borders.Prelude.{
  ℕ, ◌+◌, ◌-◌, ◌≤◌, ◌<◌, ◌≡◌, refl, ◌∙◌, false, List, [], ◌∷◌, ltb, arith, ◌⊎◌,
}
use wayland_without_borders.Network.Receiver.{SendStallTracker, stalled, liveness_timeout}

-- The tracker after some looks at the queue, each its length and its time.
unfoldable pub looks : SendStallTracker → List (ℕ × ℕ) → SendStallTracker
looks t [] = t
looks t ((n, now) ∷ more) = looks (stalled t n now).0 more

-- The queue is never empty and never gets shorter.
abbrev pub NeverDrains : ℕ → List (ℕ × ℕ) → Type 0
NeverDrains q [] = Unit
NeverDrains q ((n, now) ∷ more) = (0 < n) × (q ≤ n) × NeverDrains n more

last_queue : ℕ → List (ℕ × ℕ) → ℕ
last_queue q [] = q
last_queue q ((n, now) ∷ more) = last_queue n more

looks_lem :
    (more : List (ℕ × ℕ)) (t : SendStallTracker)
    → NeverDrains t.last_out_q more
    → (looks t more).last_progress ≡ t.last_progress
unfolding looks stalled
looks_lem [] t h = refl
looks_lem ((n, now) ∷ more) t (some_bytes, grown, rest) =
    looks_lem more (stalled t n now).0 rest ∙ ground arith

-- A look at an empty queue, or at one that got shorter, is no stall, and neither is any look within
-- 15 seconds after it.
pub stalled_after_progress :
    (t : SendStallTracker) (n now m later : ℕ)
    → (n ≡ 0) ⊎ (n < t.last_out_q)
    → later ≤ now + liveness_timeout
    → ((stalled t n now).1 ≡ false) × ((stalled (stalled t n now).0 m later).1 ≡ false)
unfolding stalled
stalled_after_progress t n now m later progress soon = ground arith

-- While the queue is never empty and never gets shorter, looks refresh nothing: the next such look is
-- a stall exactly if more than 15 seconds have passed since the last progress before them all.
pub stalled-NeverDrains :
    (more : List (ℕ × ℕ)) (t : SendStallTracker) (n now : ℕ)
    → NeverDrains t.last_out_q more
    → 0 < n
    → (looks t more).last_out_q ≤ n
    → (stalled (looks t more) n now).1 ≡ ltb liveness_timeout (now - t.last_progress)
unfolding stalled
stalled-NeverDrains more t n now h some_bytes grown = ground (arith, looks_lem more t h)
