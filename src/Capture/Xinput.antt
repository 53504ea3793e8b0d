-- ===== src/Capture/Xinput.antt =====
-- internal/capture/capture_linux.go: the devices that `xinput list` and /dev/input name.
-- `to_lower` is strings.ToLower, and the answer of a command is `none` if it fails.
use wayland_without_borders.Prelude.{
  ℕ, ◌+◌, ◌-◌, ◌*◌, ◌^◌, ◌≡◌, refl, Bool, true, false, ◌&&◌, ◌||◌, Option, none, some, List, [],
  ◌∷◌, ◌++◌, inl, inr, ◌⊎◌, arith, ltb, leb, if◌then◌else◌, drop, length, Bool-cases,
}
use wayland_without_borders.Prelude.Bytes.{All}
use wayland_without_borders.Prelude.Text.{Text, bytes_of, has_prefix}
use wayland_without_borders.Input.Keymap.Registered.{contains}
use wayland_without_borders.Capture.{Capturer, Output, enable_xinput, disable_xinput}
use wayland_without_borders.Capture.Control.{merged, enabled}
use wayland_without_borders.Clipboard.Formats.{split, take_while}

-- `strings.Contains(s, part)`
unfoldable pub contains_text : Text → Text → Bool
contains_text [] part = has_prefix [] part
contains_text (c ∷ s) part = has_prefix (c ∷ s) part || contains_text s part

-- `s[idx+len(part):]`, where `idx` is `strings.Index(s, part)` for a part that is not empty.
unfoldable pub text_behind : Text → Text → Option Text
text_behind [] part = none
text_behind (c ∷ s) part =
    let rest = text_behind s part in
    if has_prefix (c ∷ s) part then some (drop (length part) (c ∷ s)) else rest

abbrev pub is_digit : ℕ → Bool
is_digit c = leb 48 c && leb c 57

abbrev pub decimal : ℕ → Text → ℕ
decimal n [] = n
decimal n (c ∷ s) = decimal (n * 10 + (c - 48)) s

-- `strconv.Atoi` of digits: nothing and what is no int are errors.
unfoldable pub atoi : Text → Option ℕ
atoi [] = none
atoi (c ∷ s) = let n = decimal 0 (c ∷ s) in if ltb n (2 ^ 63) then some n else none

abbrev pub is_floating : Text → Bool
is_floating line = contains_text line (bytes_of "[floating slave]")

-- `findInputDevices`, on the names in /dev/input.
unfoldable pub input_devices : List Text → List Text
input_devices [] = []
input_devices (name ∷ names) =
    let rest = input_devices names in
    if has_prefix name (bytes_of "event") then (bytes_of "/dev/input/" ++ name) ∷ rest else rest

module _ (to_lower : Text → Text) where
  abbrev pub is_known : Text → Bool
  is_known line =
      contains_text (to_lower line) (bytes_of "razer")
      || contains_text (to_lower line) (bytes_of "wooting")

  abbrev pub leading_id : Option Text → Option ℕ
  leading_id none = none
  leading_id (some rest) = atoi (take_while is_digit rest)

  -- The id that a line gives, if any.
  unfoldable pub id_of_line : Text → Option ℕ
  id_of_line line =
      if is_floating line
      then none
      else if is_known line
      then leading_id (text_behind line (bytes_of "id="))
      else none

  abbrev pub add_id : Option ℕ → List ℕ → List ℕ
  add_id none ids = ids
  add_id (some id) ids = id ∷ ids

  unfoldable pub ids_of_lines : List Text → List ℕ
  unfolding id_of_line
  ids_of_lines [] = []
  ids_of_lines (line ∷ lines) = add_id (id_of_line line) (ids_of_lines lines)

  -- `parseXinputIDs`
  unfoldable pub parse_xinput_ids : Text → List ℕ
  unfolding ids_of_lines split
  parse_xinput_ids output = ids_of_lines (split output (bytes_of "\n"))

  -- `getXinputIDs`
  unfoldable pub get_xinput_ids : Option Text → List ℕ
  unfolding parse_xinput_ids
  get_xinput_ids none = []
  get_xinput_ids (some output) = parse_xinput_ids output

  -- A line of an attached device that the program looks for, with its id.
  abbrev pub IsAttached : ℕ → Text → Type 0
  IsAttached id line =
      (is_floating line ≡ false)
      × (is_known line ≡ true)
      × (leading_id (text_behind line (bytes_of "id=")) ≡ some id)

  abbrev pub Listed : List Text → ℕ → Type 0
  Listed [] id = ⊥
  Listed (line ∷ lines) id = IsAttached id line ⊎ Listed lines id

  id_of_line-IsAttached : (line : Text) (id : ℕ) → id_of_line line ≡ some id → IsAttached id line
  unfolding id_of_line
  id_of_line-IsAttached line id h = elim (Bool-cases (is_floating line)) [
    | inl floating ↦ cc (h, floating)
    | inr fixed ↦ elim (Bool-cases (is_known line)) [
      | inl known ↦ (fixed, known, cc (h, fixed, known))
      | inr other ↦ cc (h, fixed, other)
    ]
  ]

  further :
      (line : Text) (lines : List Text) (ids : List ℕ)
      → All (Listed lines) ids
      → All (Listed (line ∷ lines)) ids
  further line lines [] h = tt
  further line lines (id ∷ ids) h = (inr h.0, further line lines ids h.1)

  added :
      (line : Text) (lines : List Text) (found : Option ℕ) (ids : List ℕ)
      → ((id : ℕ) → found ≡ some id → IsAttached id line)
      → All (Listed lines) ids
      → All (Listed (line ∷ lines)) (add_id found ids)
  added line lines none ids a h = further line lines ids h
  added line lines (some id) ids a h = (inl (a id refl), further line lines ids h)

  ids_of_lines-Listed : (lines : List Text) → All (Listed lines) (ids_of_lines lines)
  unfolding ids_of_lines
  ids_of_lines-Listed [] = tt
  ids_of_lines-Listed (line ∷ lines) =
      added line lines (id_of_line line) (ids_of_lines lines) (id_of_line-IsAttached line)
        (ids_of_lines-Listed lines)

  -- Each id that the program would disable or enable stands in a line of the list that names one of
  -- its devices and is not a floating slave, whatever the list.
  pub parse_xinput_ids-Listed :
      (output : Text) → All (Listed (split output (bytes_of "\n"))) (parse_xinput_ids output)
  unfolding parse_xinput_ids
  parse_xinput_ids-Listed output = ids_of_lines-Listed (split output (bytes_of "\n"))

-- What `Stop` does behind the goroutines: only what was disabled here is enabled again.
unfoldable pub stop : {F : Type 0} → List ℕ → Capturer F → Capturer F
unfolding enabled
stop attached c = if ltb 0 (length c.disabled_ids) then enabled attached c else c

merged_keeps :
    (id : ℕ) (current ids : List ℕ)
    → contains id ids ≡ true
    → contains id (merged ids current) ≡ true
merged_keeps id [] ids h = h
merged_keeps id (i ∷ current) ids h =
    merged_keeps id current (if contains i ids then ids else i ∷ ids) (ground (arith, h))

abbrev pub Enables : ℕ → List Output → Type 0
Enables id [] = ⊥
Enables id (enable_xinput ids ∷ outputs) = contains id ids ≡ true
Enables id (disable_xinput ids ∷ outputs) = ⊥
Enables id (o ∷ outputs) = ⊥

-- `Stop` leaves no device disabled that the capturer disabled: the last thing it does is to enable
-- each of them, whatever xinput lists by then.
pub stop_lem :
    {F : Type 0} (attached : List ℕ) (c : Capturer F) (id : ℕ)
    → contains id c.disabled_ids ≡ true
    → ((stop attached c).disabled_ids ≡ []) × Enables id (stop attached c).outputs
unfolding stop enabled
stop_lem attached c id h = elim (Bool-cases (ltb 0 (length c.disabled_ids))) [
  | inl some_ids ↦ rw (some_ids, stop) (refl, merged_keeps id attached c.disabled_ids h)
  | inr no_ids ↦ absurd (none_held c.disabled_ids no_ids h)
]
  where
    none_held : (ids : List ℕ) → ltb 0 (length ids) ≡ false → contains id ids ≡ true → ⊥
    none_held [] e k = cc
    none_held (i ∷ ids) e k = absurd (ground (arith, e))
