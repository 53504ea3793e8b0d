-- ===== src/Program/Resources.antt =====
-- What a session of cmd/mwb/main.go holds, by its log: the resources that are acquired and released
-- one inside the other, and what a failed start of the Wayland driver leaves running.
use wayland_without_borders.Prelude.{
  ◌≡◌, refl, Bool, true, false, Option, none, some, List, [], ◌∷◌, ◌++◌, GoError, if◌then◌else◌,
  length, arith, ap, map, ◌==◌, ◌&&◌, Bool-cases, inl, inr,
}
use wayland_without_borders.Prelude.Bytes.{All, All-append}
use wayland_without_borders.Network.Conn.{◌>>=◌}
use wayland_without_borders.Program.{
  Settings, Resource, Event, connection, clipboard_manager, portal_capture, xinput_capture,
  acquired, released, left_running, keys_released, openings, closings, capture_stops, Driver,
  optional, driver_opens, driver_closes, no_driver, xinput_driver, portal_driver, failed_driver,
  portal_of, driver,
}
use wayland_without_borders.Capture.Portal.Start.{
  Stage, connect_bus, create_session, start_session, get_zones, set_barriers, connect_eis,
  new_receiver, subscribe, enable_capture, Holding, signal_loop, Outcome, Leaks, session_end,
  ei_feed, still_held, run_wayland_stages, run_wayland_stages_lem,
}

abbrev same_resource : Resource → Resource → Bool
same_resource connection connection = true
same_resource clipboard_manager clipboard_manager = true
same_resource portal_capture portal_capture = true
same_resource xinput_capture xinput_capture = true
same_resource r s = false

-- What is held after a log: none if something is released that is not the last thing acquired.
unfoldable pub held_after : List Event → List Resource → Option (List Resource)
held_after [] held = some held
held_after (acquired r ∷ es) held = held_after es (r ∷ held)
held_after (released r ∷ es) [] = none
held_after (released r ∷ es) (h ∷ held) =
    let rest = held_after es held in if same_resource r h then rest else none
held_after (keys_released ∷ es) held = held_after es held
held_after (left_running h ∷ es) held = held_after es held

pub held_after-append :
    (xs ys : List Event) (held : List Resource)
    → held_after (xs ++ ys) held ≡ (held_after xs held >>= held_after ys)
unfolding held_after
held_after-append [] ys held = refl
held_after-append (acquired r ∷ xs) ys held = held_after-append xs ys (r ∷ held)
held_after-append (released r ∷ xs) ys [] = refl
held_after-append (released r ∷ xs) ys (h ∷ held) = ground (arith, held_after-append xs ys held)
held_after-append (keys_released ∷ xs) ys held = held_after-append xs ys held
held_after-append (left_running h ∷ xs) ys held = held_after-append xs ys held

held_after-left :
    (left : List Holding) (es : List Event) (held : List Resource)
    → held_after (map left_running left ++ es) held ≡ held_after es held
unfolding held_after
held_after-left [] es held = refl
held_after-left (h ∷ left) es held = held_after-left left es held

-- A session whose stop of the capture returns has released what it acquired.
pub session_nested :
    (clipboard disconnects : Bool) (capture : Driver)
    → capture_stops disconnects capture ≡ true
    → held_after (openings clipboard capture ++ closings clipboard disconnects capture) [] ≡ some []
unfolding held_after openings closings
session_nested true d no_driver h = refl
session_nested false d no_driver h = refl
session_nested true d xinput_driver h = refl
session_nested false d xinput_driver h = refl
session_nested true d (portal_driver held) h = rw (h, closings) refl
session_nested false d (portal_driver held) h = rw (h, closings) refl
session_nested true d (failed_driver left) h = (held_after-left left _ _)
session_nested false d (failed_driver left) h = (held_after-left left _ _)

-- What a session on the Wayland driver holds.
abbrev pub held_in_session : Bool → List Resource
held_in_session clipboard =
    portal_capture ∷ (if clipboard then clipboard_manager ∷ connection ∷ [] else connection ∷ [])

-- A session whose stop of the capture does not return has released nothing.
pub session_blocked :
    (clipboard disconnects : Bool) (held : List Holding)
    → capture_stops disconnects (portal_driver held) ≡ false
    → held_after
        (openings clipboard (portal_driver held)
          ++ closings clipboard disconnects (portal_driver held))
        []
      ≡ some (held_in_session clipboard)
unfolding held_after openings closings
session_blocked true d held h = rw (h, closings) refl
session_blocked false d held h = rw (h, closings) refl

-- A start that failed can leave the signal loop, and nothing else.
abbrev pub IsSignalLoop : Event → Type 0
IsSignalLoop (left_running h) = h ≡ signal_loop
IsSignalLoop (acquired r) = Unit
IsSignalLoop (released r) = Unit
IsSignalLoop keys_released = Unit

abbrev pub IsTidy : Driver → Type 0
IsTidy no_driver = Unit
IsTidy xinput_driver = Unit
IsTidy (portal_driver held) = Unit
IsTidy (failed_driver left) = All IsSignalLoop (map left_running left)

abbrev NothingLeft : List Holding × Bool → Type 0
NothingLeft r = r ≡ ([], true)

none_left :
    (left : List Holding) → NothingLeft (left, true) → All IsSignalLoop (map left_running left)
none_left left h = rw (ap (λ r. r.0) h) tt

portal_of-IsTidy : (o : Outcome) → Leaks (session_end ∷ []) o → IsTidy (portal_of o)
portal_of-IsTidy (none, log) h = tt
portal_of-IsTidy (some enable_capture, log) h = rw (ap (λ r. r.0) h) (refl, tt)
portal_of-IsTidy (some connect_bus, log) h = none_left _ h
portal_of-IsTidy (some create_session, log) h = none_left _ h
portal_of-IsTidy (some start_session, log) h = none_left _ h
portal_of-IsTidy (some get_zones, log) h = none_left _ h
portal_of-IsTidy (some set_barriers, log) h = none_left _ h
portal_of-IsTidy (some connect_eis, log) h = none_left _ h
portal_of-IsTidy (some new_receiver, log) h = none_left _ h
portal_of-IsTidy (some subscribe, log) h = none_left _ h

-- Where libei does not disconnect the stop of the capture returns.
portal_of-stops :
    (o : Outcome) → Leaks (session_end ∷ []) o → capture_stops false (portal_of o) ≡ true
unfolding capture_stops
portal_of-stops (none, log) h = ap (λ r. r.1) h
portal_of-stops (some s, log) h = refl

-- Where it does, behind a start that succeeded, it does not.
pub portal_of-blocks :
    (o : Outcome)
    → o.0 ≡ none
    → Leaks (ei_feed ∷ session_end ∷ []) o
    → (held : List Holding) × (portal_of o ≡ portal_driver held)
      × (capture_stops true (portal_driver held) ≡ false)
unfolding capture_stops
portal_of-blocks (none, log) e h = (still_held log [], refl, ap (λ r. r.1) h)
portal_of-blocks (some s, log) e h = cc

pub driver-IsTidy :
    (s : Settings) (wayland : Bool) (answers : Stage → GoError) → IsTidy (driver s wayland answers)
unfolding driver
driver-IsTidy s wayland answers = elim (Bool-cases (s.bidi && wayland)) [
  | inl e ↦ elim (Bool-cases (length s.edges == 0)) [
    | inl z ↦ rw (e, z) tt
    | inr z ↦
        rw (e, z)
          (portal_of-IsTidy (run_wayland_stages answers)
            (run_wayland_stages_lem answers session_end []))
  ]
  | inr e ↦ elim (Bool-cases s.bidi) [ inl b ↦ rw (e, b) tt | inr b ↦ rw (e, b) tt ]
]

pub driver_stops :
    (s : Settings) (wayland : Bool) (answers : Stage → GoError)
    → capture_stops false (driver s wayland answers) ≡ true
unfolding driver capture_stops
driver_stops s wayland answers = elim (Bool-cases (s.bidi && wayland)) [
  | inl e ↦ elim (Bool-cases (length s.edges == 0)) [
    | inl z ↦ rw (e, z) refl
    | inr z ↦
        rw (e, z)
          (portal_of-stops (run_wayland_stages answers)
            (run_wayland_stages_lem answers session_end []))
  ]
  | inr e ↦ elim (Bool-cases s.bidi) [ inl b ↦ rw (e, b) refl | inr b ↦ rw (e, b) refl ]
]

pub driver_on_portal :
    (s : Settings) (wayland : Bool) (answers : Stage → GoError) (held : List Holding)
    → s.bidi ≡ true
    → wayland ≡ true
    → (length s.edges == 0) ≡ false
    → portal_of (run_wayland_stages answers) ≡ portal_driver held
    → driver s wayland answers ≡ portal_driver held
unfolding driver
driver_on_portal s wayland answers held bidi on edges h = rw (bidi, on, edges) h

closings_calm :
    (clipboard disconnects : Bool) (capture : Driver)
    → All IsSignalLoop (closings clipboard disconnects capture)
unfolding closings capture_stops
closings_calm clipboard d capture = elim (Bool-cases (capture_stops d capture)) [
  | inl e ↦
      rw (e, closings)
        (
          tt,
          All-append IsSignalLoop (driver_closes capture ++ clipboard_closes)
              (released connection ∷ [])
              (All-append IsSignalLoop (driver_closes capture) clipboard_closes
                (closes_calm capture) (clipboard_calm clipboard))
              (tt, tt),
        )
  | inr e ↦ rw (e, closings) (tt, tt)
]
  where
    closes_calm : (k : Driver) → All IsSignalLoop (driver_closes k)
    closes_calm no_driver = tt
    closes_calm xinput_driver = (tt, tt)
    closes_calm (portal_driver held) = (tt, tt)
    closes_calm (failed_driver held) = tt

    clipboard_closes : List Event
    clipboard_closes = optional (if clipboard then some clipboard_manager else none) released

    clipboard_calm :
        (b : Bool)
        → All IsSignalLoop (optional (if b then some clipboard_manager else none) released)
    clipboard_calm true = (tt, tt)
    clipboard_calm false = tt

opens_calm : (capture : Driver) → IsTidy capture → All IsSignalLoop (driver_opens capture)
opens_calm no_driver t = tt
opens_calm xinput_driver t = (tt, tt)
opens_calm (portal_driver held) t = (tt, tt)
opens_calm (failed_driver left) t = t

pub session_calm :
    (clipboard disconnects : Bool) (capture : Driver)
    → IsTidy capture
    → All IsSignalLoop (openings clipboard capture ++ closings clipboard disconnects capture)
unfolding openings
session_calm true d k t =
    (tt, (tt, All-append IsSignalLoop (driver_opens k) _ (opens_calm k t) (closings_calm true d k)))
session_calm false d k t =
    (tt, All-append IsSignalLoop (driver_opens k) _ (opens_calm k t) (closings_calm false d k))
