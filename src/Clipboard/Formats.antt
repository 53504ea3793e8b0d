-- ===== src/Clipboard/Formats.antt =====
-- The text formats of the clipboard (internal/clipboard/clipboard_linux.go): the payload that is sent,
-- and the plain text of a payload that arrives. Texts are lists of code points; every test is on
-- ASCII, so the loops over bytes do the same on code points.
-- `html.UnescapeString` and `strings.TrimSpace` on Unicode are parameters.
pub mod Payload
pub mod Rtf
use wayland_without_borders.Prelude.{
  ℕ, zero, suc, ◌+◌, ◌-◌, Bool, true, false, ◌&&◌, ◌||◌, not, Option, none, some, List, [], ◌∷◌,
  ◌++◌, ltb, leb, ◌==◌, if◌then◌else◌, length, drop,
}
use wayland_without_borders.Prelude.Int.{ℤ, pos, negsuc, ◌+ℤ◌, ◌-ℤ◌, eqb_ℤ}
use wayland_without_borders.Prelude.Text.{Text, bytes_of, text_eq, has_prefix}

pub record Strings : Type 0 where
  pub unescape : Text → Text
  pub trim_space : Text → Text

abbrev pub text_type_sep : Text
text_type_sep = bytes_of "{4CFF57F7-BEDD-43d5-AE8F-27A61E886F2F}"

unfoldable pub clip_text_payload : Text → Text
clip_text_payload text = bytes_of "TXT" ++ (text ++ text_type_sep)

-- `strings.Split(s, sep)` for a separator that is not empty: `skip` characters of one are left.
abbrev pub join_first : ℕ → List Text → List Text
join_first c [] = (c ∷ []) ∷ []
join_first c (p ∷ ps) = (c ∷ p) ∷ ps

unfoldable pub split_loop : Text → ℕ → Text → List Text
split_loop sep skip [] = [] ∷ []
split_loop sep (suc skip) (c ∷ cs) = split_loop sep skip cs
split_loop sep zero (c ∷ cs) = elim (has_prefix (c ∷ cs) sep) [
  | true ↦ [] ∷ split_loop sep (length sep - 1) cs
  | false ↦ join_first c (split_loop sep zero cs)
]

unfoldable pub split : Text → Text → List Text
unfolding split_loop
split s sep = split_loop sep 0 s

-- The sections that were found, and whether there was a marker.
pub record Sections : Type 0 where
  pub txt : Text
  pub rtf : Text
  pub htm : Text
  pub seen : Bool

unfoldable pub add_part : Sections → Text → Sections
add_part s part =
    if has_prefix part (bytes_of "TXT")
    then record s { txt = drop 3 part; seen = true }
    else if has_prefix part (bytes_of "RTF")
    then record s { rtf = drop 3 part; seen = true }
    else if has_prefix part (bytes_of "HTM")
    then record s { htm = drop 3 part; seen = true }
    else s

unfoldable pub add_parts : Sections → List Text → Sections
unfolding add_part
add_parts s [] = s
add_parts s (p ∷ ps) = add_parts (add_part s p) ps

-- `if i := strings.IndexByte(h, '<'); i >= 0 { h = h[i:] }`
unfoldable pub from_tag : Text → Option Text
from_tag [] = none
from_tag (c ∷ cs) = if c == b'<' then some (c ∷ cs) else from_tag cs

abbrev pub or_whole : Text → Option Text → Text
or_whole h none = h
or_whole h (some t) = t

unfoldable pub strip_tags : Bool → Text → Text
strip_tags in_tag [] = []
strip_tags in_tag (c ∷ cs) =
    let rest = strip_tags (if c == b'<' then true else if c == b'>' then false else in_tag) cs in
    if c == b'<' || c == b'>' || in_tag then rest else c ∷ rest

unfoldable pub html_to_text : Strings → Text → Text
unfolding from_tag strip_tags
html_to_text lib h = lib.unescape (strip_tags false (or_whole h (from_tag h)))

abbrev pub is_letter : ℕ → Bool
is_letter c = leb b'a' c && leb c b'z' || leb b'A' c && leb c b'Z'

abbrev pub is_parameter : ℕ → Bool
is_parameter c = c == b'-' || leb b'0' c && leb c b'9'

unfoldable pub take_while : (ℕ → Bool) → Text → Text
take_while test [] = []
take_while test (c ∷ cs) = if test c then c ∷ take_while test cs else []

-- What one character of an RTF text does: what it writes, the depth and the skipped group behind it,
-- and how many of the characters behind it are read too.
pub record RtfStep : Type 0 where
  pub out : Text
  pub depth : ℤ
  pub skip_group : ℤ
  pub read : ℕ

abbrev pub starts_space : Text → ℕ
starts_space [] = 0
starts_space (c ∷ cs) = if c == b' ' then 1 else 0

-- A backslash, before `cs`. A control symbol takes one character along, where there is one.
unfoldable pub rtf_control : ℤ → ℤ → Text → RtfStep
unfolding take_while
rtf_control depth skip_group cs =
    let word = take_while is_letter cs in
    let parameter = take_while is_parameter (drop (length word) cs) in
    let size = length word + length parameter in
    let is = λ (w : Text). text_eq word w in
    record {
      out =
          if is (bytes_of "par") || is (bytes_of "line")
          then 10 ∷ []
          else if is (bytes_of "tab")
          then 9 ∷ []
          else [];
      depth = depth;
      skip_group =
          if is (bytes_of "fonttbl")
            || is (bytes_of "colortbl")
            || is (bytes_of "stylesheet")
            || is (bytes_of "pict")
            || is (bytes_of "object")
            || is (bytes_of "info")
          then depth
          else skip_group;
      read = if text_eq word [] && ltb 0 (length cs) then 1 else size + starts_space (drop size cs);
    }

unfoldable pub rtf_step : ℤ → ℤ → ℕ → Text → RtfStep
unfolding rtf_control
rtf_step depth skip_group c cs =
    if c == b'{'
    then record { out = []; depth = depth +ℤ pos 1; skip_group = skip_group; read = 0 }
    else if c == b'}'
    then record {
      out = [];
      depth = depth -ℤ pos 1;
      skip_group = if eqb_ℤ skip_group depth then negsuc 0 else skip_group;
      read = 0;
    }
    else if c == 92
    then rtf_control depth skip_group cs
    else record {
      out = if eqb_ℤ skip_group (negsuc 0) && not (c == 13) && not (c == 10) then c ∷ [] else [];
      depth = depth;
      skip_group = skip_group;
      read = 0;
    }

-- The loop of `rtfToText`, with the characters that were read ahead.
unfoldable pub rtf_loop : ℕ → ℤ → ℤ → Text → Text
unfolding rtf_step
rtf_loop ahead depth skip_group [] = []
rtf_loop (suc ahead) depth skip_group (c ∷ cs) = rtf_loop ahead depth skip_group cs
rtf_loop zero depth skip_group (c ∷ cs) =
    let s = rtf_step depth skip_group c cs in s.out ++ rtf_loop s.read s.depth s.skip_group cs

unfoldable pub rtf_to_text : Text → Text
unfolding rtf_loop
rtf_to_text s = rtf_loop 0 (pos 0) (negsuc 0) s

-- `extractClipboardText`: an empty section counts as none.
abbrev pub first_text : List Text → Text → Text
first_text [] default = default
first_text (t ∷ ts) default = if text_eq t [] then first_text ts default else t

abbrev pub section_text : (Text → Text) → Text → Text
section_text read s = if text_eq s [] then [] else read s

unfoldable pub extract_clipboard_text : Strings → Text → Text
unfolding add_parts split html_to_text rtf_to_text
extract_clipboard_text lib raw =
    let s =
      add_parts (record { txt = []; rtf = []; htm = []; seen = false }) (split raw text_type_sep) in
    first_text
      (s.txt
        ∷ section_text (λ h. lib.trim_space (html_to_text lib h)) s.htm
        ∷ section_text (λ r. lib.trim_space (rtf_to_text r)) s.rtf
        ∷ [])
      (if s.seen then [] else raw)
