-- ===== src/Protocol/Packet/Names.antt =====
-- `SetMachineName` and `MachineName` of internal/protocol/packet.go.
use wayland_without_borders.Prelude.{
  ℕ, zero, suc, ◌≡◌, refl, ◌∙◌, sym, List, [], ◌∷◌, ◌==◌, if◌then◌else◌, length, take, replicate,
}
use wayland_without_borders.Prelude.Bytes.{copy_at, length-copy_at}
use wayland_without_borders.Protocol.Packet.{Packet}

abbrev pub space : ℕ
space = 32

unfoldable pub set_machine_name : Packet → List ℕ → Packet
unfolding copy_at
set_machine_name p name = record p { machine_name = copy_at 0 name (replicate 32 space) }

-- `strings.TrimRight(s, " ")`
unfoldable pub trim_right : List ℕ → List ℕ
trim_right [] = []
trim_right (c ∷ cs) = elim (trim_right cs) [
  | [] ↦ if c == space then [] else c ∷ []
  | d ∷ ds ↦ c ∷ d ∷ ds
]

unfoldable pub machine_name : Packet → List ℕ
machine_name p = trim_right p.machine_name

trim_right-nil : trim_right [] ≡ []
unfolding trim_right
trim_right-nil = refl

trim_right-spaces : (n : ℕ) → trim_right (replicate n space) ≡ []
unfolding trim_right
trim_right-spaces zero = refl
trim_right-spaces (suc n) = rw (trim_right-spaces n, trim_right)

trim_right-copy_at :
    (m : ℕ) (name : List ℕ)
    → trim_right (copy_at 0 name (replicate m space)) ≡ trim_right (take m name)
unfolding copy_at trim_right
trim_right-copy_at zero [] = refl
trim_right-copy_at zero (b ∷ bs) = refl
trim_right-copy_at (suc m) [] = trim_right-spaces (suc m) ∙ sym trim_right-nil
trim_right-copy_at (suc m) (b ∷ bs) = rw (trim_right-copy_at m bs, trim_right)

-- A name is read back without its trailing spaces, and cut to 32 bytes.
pub machine_name-set_machine_name :
    (p : Packet) (name : List ℕ)
    → machine_name (set_machine_name p name) ≡ trim_right (take 32 name)
unfolding machine_name set_machine_name
machine_name-set_machine_name p name = trim_right-copy_at 32 name

pub length-set_machine_name :
    (p : Packet) (name : List ℕ) → length (set_machine_name p name).machine_name ≡ 32
unfolding set_machine_name
length-set_machine_name p name = length-copy_at 0 name (replicate 32 space)
