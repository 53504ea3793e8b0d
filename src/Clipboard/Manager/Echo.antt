-- ===== src/Clipboard/Manager/Echo.antt =====
-- What the poll sends, and what it does not (internal/clipboard/clipboard_linux.go).
use wayland_without_borders.Prelude.{
  ℕ, ◌≡◌, refl, ap, ◌∙◌, Bool, true, false, ◌&&◌, not, Option, none, some, List, [], ◌∷◌,
  if◌then◌else◌, length, take, arith,
}
use wayland_without_borders.Prelude.Text.{Text, text_eq}
use wayland_without_borders.Clipboard.Utf16.{utf8}
use wayland_without_borders.Clipboard.Manager.{
  Manager, text_hash, hash_eq, hash_of_text, Local, Action, no_action, poll, poll_text, poll_image,
  recently_set,
}

text_eq_same : (t : Text) → text_eq t t ≡ true
text_eq_same [] = refl
text_eq_same (c ∷ cs) = ground (arith, text_eq_same cs)

same_hash : (text : Text) → hash_eq (hash_of_text text) (hash_of_text text) ≡ true
unfolding hash_of_text
same_hash text = ground (arith, text_eq_same (take 100 (utf8 text)))

-- Polls in a row, with their times, and what they send.
unfoldable pub polls : Manager → List (ℕ × Local) → Manager × List Action
polls m [] = (m, [])
polls m ((now, l) ∷ more) =
    let (m', a) = poll m now l in let (m'', as') = polls m' more in (m'', a ∷ as')

-- The clipboard holds just this text.
abbrev pub HoldsText : Text → List (ℕ × Local) → Type 0
HoldsText text [] = Unit
HoldsText text ((now, l) ∷ more) =
    (l.file ≡ []) × (l.image ≡ none) × (l.text ≡ text) × HoldsText text more

abbrev pub Silent : List Action → Type 0
Silent [] = Unit
Silent (a ∷ more) = (a ≡ no_action) × Silent more

text_silent :
    (m : Manager) (l : Local)
    → hash_eq (hash_of_text l.text) m.last_hash ≡ true
    → poll_text m l ≡ (m, no_action)
unfolding poll_text
text_silent m l same = ground arith

image_silent :
    (m : Manager) (l : Local) (image : Option (List ℕ))
    → image ≡ none
    → hash_eq (hash_of_text l.text) m.last_hash ≡ true
    → poll_image m l image ≡ (m, no_action)
unfolding poll_image
image_silent m l none e same = text_silent m l same
image_silent m l (some image) e same = cc

file_silent :
    (m : Manager) (file : Text) (busy : Bool) (a b : Manager × Action)
    → file ≡ []
    → a ≡ (m, no_action)
    → (if busy
        then (m, no_action)
        else if not (text_eq m.key []) && not (text_eq file [])
        then b
        else a)
      ≡ (m, no_action)
file_silent m file true a b no_file e = refl
file_silent m [] false a b no_file e = ground arith
file_silent m (c ∷ cs) false a b no_file e = cc

one_silent :
    (m : Manager) (now : ℕ) (l : Local)
    → l.file ≡ []
    → l.image ≡ none
    → hash_eq (hash_of_text l.text) m.last_hash ≡ true
    → poll m now l ≡ (m, no_action)
unfolding poll
one_silent m now l no_file no_image same =
    file_silent m l.file (recently_set m now) (poll_image m l l.image) _ no_file
      (image_silent m l l.image no_image same)

-- A text that differs from the last one only behind its first 100 bytes, with the same number of
-- bytes, is not sent.
pub poll_misses :
    (m : Manager) (now : ℕ) (l : Local) (sent : Text)
    → m.last_hash ≡ hash_of_text sent
    → l.file ≡ []
    → l.image ≡ none
    → length (utf8 l.text) ≡ length (utf8 sent)
    → take 100 (utf8 l.text) ≡ take 100 (utf8 sent)
    → poll m now l ≡ (m, no_action)
unfolding hash_of_text
poll_misses m now l sent last no_file no_image size front = one_silent m now l no_file no_image (
    ap (λ h. hash_eq (text_hash (length (utf8 l.text)) (take 100 (utf8 l.text))) h) (last ∙ same)
    ∙ same_hash l.text)
  where
    same : hash_of_text sent ≡ hash_of_text l.text
    same = cc (size, front)
