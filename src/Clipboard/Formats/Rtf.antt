-- ===== src/Clipboard/Formats/Rtf.antt =====
-- What stripping RTF does (internal/clipboard/clipboard_linux.go).
use wayland_without_borders.Prelude.{ℕ, ◌≡◌, ◌≢◌, refl, ap, [], ◌∷◌, arith}
use wayland_without_borders.Prelude.Int.{pos, negsuc}
use wayland_without_borders.Prelude.Text.{Text}
use wayland_without_borders.Prelude.Bytes.{All}
use wayland_without_borders.Clipboard.Formats.{rtf_step, rtf_loop, rtf_to_text}

-- A character that RTF gives no meaning to.
abbrev pub IsPlain : ℕ → Type 0
IsPlain c = (c ≢ b'{') × (c ≢ b'}') × (c ≢ 92) × (c ≢ 13) × (c ≢ 10)

plain_step :
    (c : ℕ) (cs : Text)
    → IsPlain c
    → rtf_step (pos 0) (negsuc 0) c cs
      ≡ record { out = c ∷ []; depth = pos 0; skip_group = negsuc 0; read = 0 }
unfolding rtf_step
plain_step c cs h = ground arith

-- Text without markup is kept as it is.
pub rtf_plain : (s : Text) → All IsPlain s → rtf_to_text s ≡ s
unfolding rtf_to_text rtf_loop
rtf_plain [] h = refl
rtf_plain (c ∷ cs) (h, hs) = rw (plain_step c cs h) (ap (λ t. c ∷ t) (rtf_plain cs hs))
