-- ===== src/Capture/Display.antt =====
-- internal/capture/capture_linux.go and screen_linux.go: which display is used, and how large its
-- screen is. What the environment, the commands and the directories answer are arguments, `none`
-- where they fail; white space is the ASCII one.
use wayland_without_borders.Prelude.{
  ◌<◌, ◌≡◌, refl, Bool, true, ◌&&◌, not, Option, none, some, List, [], ◌∷◌, ◌++◌, ◌==◌,
  if◌then◌else◌, length, drop, arith, Bool-cases, Option-cases, inl, inr, both_branches, ap, sym,
  ◌∙◌,
}
use wayland_without_borders.Prelude.Int.{ℤ, pos, ltb_ℤ}
use wayland_without_borders.Prelude.Text.{
  Text, bytes_of, has_prefix, text_eq, is_space, trim_left, trim_space,
}
use wayland_without_borders.Clipboard.Formats.{split, take_while}
use wayland_without_borders.Config.{or_preset}
use wayland_without_borders.Capture.Xinput.{contains_text}

-- `strings.Fields(line)[0]`, or nothing if there is no field.
unfoldable pub first_field : Text → Text
unfolding trim_left
first_field line = take_while (λ c. not (is_space c)) (trim_left line)

module _ (show_session : Text → Option Text) where
  -- The loop of `detectDisplayFromLoginctl` over the lines.
  unfoldable pub session_loop : List Text → Text
  unfolding first_field trim_space
  session_loop [] = []
  session_loop (line ∷ lines) =
      let rest = session_loop lines in
      if text_eq (first_field line) [] then rest else elim (show_session (first_field line)) [
        | none ↦ rest
        | some display ↦ or_preset (trim_space display) rest
      ]

  unfoldable pub detect_display_from_loginctl : Option Text → Text
  unfolding session_loop split trim_space
  detect_display_from_loginctl none = []
  detect_display_from_loginctl (some out) = session_loop (split (trim_space out) (bytes_of "\n"))

-- The loop of `detectDisplayFromSockets` over the names in /tmp/.X11-unix.
unfoldable pub socket_loop : List Text → Text
socket_loop [] = []
socket_loop (name ∷ names) =
    let rest = socket_loop names in
    if has_prefix name (bytes_of "X") then bytes_of ":" ++ drop 1 name else rest

unfoldable pub detect_display_from_sockets : Option (List Text) → Text
unfolding socket_loop
detect_display_from_sockets none = []
detect_display_from_sockets (some names) = socket_loop names

-- What `detect` finds: a later source counts where the earlier ones give nothing.
unfoldable pub detect : Text → (Text → Option Text) → Option Text → Option (List Text) → Text
unfolding detect_display_from_loginctl detect_display_from_sockets
detect env show_session sessions sockets = or_preset env (
    or_preset (detect_display_from_loginctl show_session sessions)
      (or_preset (detect_display_from_sockets sockets) (bytes_of ":0")))

or_preset_given : (t preset : Text) → 0 < length preset → 0 < length (or_preset t preset)
or_preset_given [] preset h = h
or_preset_given (c ∷ cs) preset h = omega arith

-- The display has a name, whatever answers and fails.
pub detect_lem :
    (env : Text) (show_session : Text → Option Text) (sessions : Option Text)
    (sockets : Option (List Text))
    → 0 < length (detect env show_session sessions sockets)
unfolding detect
detect_lem env show_session sessions sockets = or_preset_given env _ (
    or_preset_given (detect_display_from_loginctl show_session sessions) _
      (or_preset_given (detect_display_from_sockets sockets) (bytes_of ":0") (omega arith)))

-- `detectAndSetXauthority`: the candidates in their order, and the first that exists.
unfoldable pub candidates : List Text → List Text
candidates [] = []
candidates (user ∷ users) =
    (bytes_of "/run/user/" ++ (user ++ bytes_of "/gdm/Xauthority"))
    ∷ (bytes_of "/run/user/" ++ (user ++ bytes_of "/.Xauthority"))
    ∷ candidates users

unfoldable pub first_existing : (Text → Bool) → List Text → Option Text
first_existing exists [] = none
first_existing exists (path ∷ paths) =
    let rest = first_existing exists paths in if exists path then some path else rest

-- `home_path` is what filepath.Join makes of the home directory.
unfoldable pub xauthority : (Text → Bool) → Text → List Text → Option Text → Option Text
unfolding candidates first_existing
xauthority exists env users home_path =
    if not (text_eq env []) then none else elim (first_existing exists (candidates users)) [
      | some path ↦ some path
      | none ↦ elim home_path [ none ↦ none | some path ↦ if exists path then some path else none ]
    ]

first_existing_exists :
    (exists : Text → Bool) (paths : List Text) (path : Text)
    → first_existing exists paths ≡ some path
    → exists path ≡ true
unfolding first_existing
first_existing_exists exists [] path h = cc
first_existing_exists exists (p ∷ paths) path h = elim (Bool-cases (exists p)) [
  | inl e ↦
      let same : some p ≡ some path =
        ap (λ b. if b then some p else first_existing exists paths) (sym e) ∙ h in
      cc (e, same)
  | inr e ↦
      first_existing_exists exists paths path
        (ap (λ b. if b then some p else first_existing exists paths) (sym e) ∙ h)
]

-- A file that is set as XAUTHORITY exists, and none is set where the environment has one.
pub xauthority_lem :
    (exists : Text → Bool) (env : Text) (users : List Text) (home_path : Option Text) (path : Text)
    → xauthority exists env users home_path ≡ some path
    → (exists path ≡ true) × (text_eq env [] ≡ true)
unfolding xauthority
xauthority_lem exists env users home_path path h = elim (Bool-cases (text_eq env [])) [
  | inr set ↦ cc (h, set)
  | inl unset ↦ elim (Option-cases (first_existing exists (candidates users))) [
    | inr (p, e) ↦ (first_existing_exists exists (candidates users) path (cc (h, unset, e)), unset)
    | inl e ↦ elim (Option-cases home_path) [
      | inl n ↦ cc (h, unset, e, n)
      | inr (p, q) ↦ elim (Bool-cases (exists p)) [
        | inl there ↦ (cc (h, unset, e, q, there), unset)
        | inr gone ↦ cc (h, unset, e, q, gone)
      ]
    ]
  ]
]

-- `ScreenInfo`, whose fields are int32.
pub record ScreenInfo : Type 0 where
  pub width : ℤ
  pub height : ℤ

abbrev pub default_screen : ScreenInfo
default_screen = record { width = pos 1920; height = pos 1080 }

-- `strings.SplitN(s, "x", 2)`, if it has two parts.
unfoldable pub split_at_x : Text → Option (Text × Text)
split_at_x [] = none
split_at_x (c ∷ s) =
    let rest = split_at_x s in
    if c == b'x' then some ([], s) else elim rest [ none ↦ none | some (w, h) ↦ some (c ∷ w, h) ]

-- `scan` is fmt.Sscanf with "%d" into an int32 that is 0 before.
module _ (scan : Text → ℤ) where
  abbrev pub positive_size : ℤ → ℤ → Option ScreenInfo
  positive_size w h =
      if ltb_ℤ (pos 0) w && ltb_ℤ (pos 0) h then some (record { width = w; height = h }) else none

  abbrev pub scanned : Option (Text × Text) → Option ScreenInfo
  scanned none = none
  scanned (some (w, h)) = positive_size (scan w) (scan h)

  unfoldable pub screen_of_line : Text → Option ScreenInfo
  unfolding contains_text first_field split_at_x
  screen_of_line line =
      if contains_text line (bytes_of "*") then scanned (split_at_x (first_field line)) else none

  abbrev pub first_screen : Option ScreenInfo → ScreenInfo → ScreenInfo
  first_screen none later = later
  first_screen (some screen) later = screen

  unfoldable pub screen_loop : List Text → ScreenInfo
  unfolding screen_of_line
  screen_loop [] = default_screen
  screen_loop (line ∷ lines) = first_screen (screen_of_line line) (screen_loop lines)

  -- `GetScreenSizeXrandr`
  unfoldable pub get_screen_size_xrandr : Option Text → ScreenInfo
  unfolding screen_loop split
  get_screen_size_xrandr none = default_screen
  get_screen_size_xrandr (some out) = screen_loop (split out (bytes_of "\n"))

  abbrev pub IsScreen : ScreenInfo → Type 0
  IsScreen s = (ltb_ℤ (pos 0) s.width ≡ true) × (ltb_ℤ (pos 0) s.height ≡ true)

  abbrev IsScreenIfAny : Option ScreenInfo → Type 0
  IsScreenIfAny none = Unit
  IsScreenIfAny (some s) = IsScreen s

  positive : (w h : ℤ) → IsScreenIfAny (positive_size w h)
  positive w h = elim (Bool-cases (ltb_ℤ (pos 0) w && ltb_ℤ (pos 0) h)) [
    | inl e ↦ rw e (ground (arith, e))
    | inr e ↦ rw e tt
  ]

  scanned-IsScreen : (parts : Option (Text × Text)) → IsScreenIfAny (scanned parts)
  scanned-IsScreen none = tt
  scanned-IsScreen (some (w, h)) = positive (scan w) (scan h)

  first-IsScreen :
      (o : Option ScreenInfo) (later : ScreenInfo)
      → IsScreenIfAny o
      → IsScreen later
      → IsScreen (first_screen o later)
  first-IsScreen none later h k = k
  first-IsScreen (some s) later h k = h

  screen_loop-IsScreen : (lines : List Text) → IsScreen (screen_loop lines)
  unfolding screen_loop screen_of_line
  screen_loop-IsScreen [] = (refl, refl)
  screen_loop-IsScreen (line ∷ lines) =
      first-IsScreen (screen_of_line line) (screen_loop lines)
        (both_branches IsScreenIfAny (contains_text line (bytes_of "*"))
          (scanned-IsScreen (split_at_x (first_field line))) tt)
        (screen_loop-IsScreen lines)

  -- The screen that a capturer starts with has a positive width and height, whatever xrandr answers.
  pub get_screen_size_xrandr-IsScreen : (out : Option Text) → IsScreen (get_screen_size_xrandr out)
  unfolding get_screen_size_xrandr
  get_screen_size_xrandr-IsScreen none = (refl, refl)
  get_screen_size_xrandr-IsScreen (some out) = screen_loop-IsScreen (split out (bytes_of "\n"))
