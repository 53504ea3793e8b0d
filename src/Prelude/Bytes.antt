-- ===== src/Prelude/Bytes.antt =====
-- Byte buffers, little-endian words and Go's `copy`.
use Prim.Native.Nat.{ℕ, zero, suc, ◌+◌, ◌*◌, ◌/◌, ◌%◌, ◌^◌, ◌≤◌, ◌<◌}
use mathlib.Core.Path.{◌≡◌, refl, ap}
use mathlib.Core.List.{List, [], ◌∷◌, ◌++◌}
use native.Mathlib.Omega.{arith}
use wayland_without_borders.Prelude.Lists.{length, get_or, take, replicate}

abbrev pub IsByte : ℕ → Type 0
IsByte b = b < 256

abbrev pub IsU32 : ℕ → Type 0
IsU32 v = v < 2 ^ 32

abbrev pub All {κ ℓ} : {Item : Type ℓ} → (Item → Type κ) → List Item → Type κ
All Good [] = Unit
All Good (item ∷ rest) = Good item × All Good rest

pub All-append {κ ℓ} :
    {Item : Type ℓ} (Good : Item → Type κ) (xs ys : List Item)
    → All Good xs
    → All Good ys
    → All Good (xs ++ ys)
All-append Good [] ys a b = b
All-append Good (x ∷ xs) ys (h, a) b = (h, All-append Good xs ys a b)

-- `copy(buf[off:], bs)`: what does not fit is not copied.
unfoldable pub copy_at : ℕ → List ℕ → List ℕ → List ℕ
copy_at zero [] buf = buf
copy_at zero (b ∷ bs) [] = []
copy_at zero (b ∷ bs) (x ∷ buf) = b ∷ copy_at zero bs buf
copy_at (suc n) bs [] = []
copy_at (suc n) bs (x ∷ buf) = x ∷ copy_at n bs buf

-- `binary.LittleEndian.PutUint32` and `PutUint64`, as the bytes that they store.
abbrev pub le_bytes_32 : ℕ → List ℕ
le_bytes_32 v = (v % 256) ∷ (v / 256 % 256) ∷ (v / 65536 % 256) ∷ (v / 16777216 % 256) ∷ []

abbrev pub le_bytes_64 : ℕ → List ℕ
le_bytes_64 v = le_bytes_32 (v % 2 ^ 32) ++ le_bytes_32 (v / 2 ^ 32)

-- `binary.LittleEndian.Uint32(buf[off:off+4])` and `Uint64`.
unfoldable pub u32_at : ℕ → List ℕ → ℕ
u32_at off buf =
    get_or buf off 0
    + 256 * get_or buf (off + 1) 0
    + 65536 * get_or buf (off + 2) 0
    + 16777216 * get_or buf (off + 3) 0

unfoldable pub u64_at : ℕ → List ℕ → ℕ
unfolding u32_at
u64_at off buf = u32_at off buf + 2 ^ 32 * u32_at (off + 4) buf

pub length-copy_at : (off : ℕ) (bs buf : List ℕ) → length (copy_at off bs buf) ≡ length buf
unfolding copy_at
length-copy_at zero [] buf = refl
length-copy_at zero (b ∷ bs) [] = refl
length-copy_at zero (b ∷ bs) (x ∷ buf) = ap suc (length-copy_at zero bs buf)
length-copy_at (suc n) bs [] = refl
length-copy_at (suc n) bs (x ∷ buf) = ap suc (length-copy_at n bs buf)

-- The first `m` bytes of `d`, then zeros up to `m` bytes.
unfoldable pub pad : ℕ → List ℕ → List ℕ
pad zero d = []
pad (suc m) [] = 0 ∷ pad m []
pad (suc m) (x ∷ d) = x ∷ pad m d

pub length-pad : (m : ℕ) (d : List ℕ) → length (pad m d) ≡ m
unfolding pad
length-pad zero d = refl
length-pad (suc m) [] = ap suc (length-pad m [])
length-pad (suc m) (x ∷ d) = ap suc (length-pad m d)

-- A buffer of zeros after a copy.
pub copy_at-zeros : (m : ℕ) (d : List ℕ) → copy_at 0 (take m d) (replicate m 0) ≡ pad m d
unfolding copy_at pad
copy_at-zeros zero d = refl
copy_at-zeros (suc zero) [] = refl
copy_at-zeros (suc (suc m)) [] = ap (λ t. 0 ∷ t) (copy_at-zeros (suc m) [])
copy_at-zeros (suc m) (x ∷ d) = ap (λ t. x ∷ t) (copy_at-zeros m d)

-- A copy that fills the buffer.
pub copy_at_full : (bs buf : List ℕ) → length bs ≡ length buf → copy_at 0 bs buf ≡ bs
unfolding copy_at
copy_at_full [] [] h = refl
copy_at_full [] (x ∷ buf) h = absurd (omega arith)
copy_at_full (b ∷ bs) [] h = absurd (omega arith)
copy_at_full (b ∷ bs) (x ∷ buf) h = ap (λ t. b ∷ t) (copy_at_full bs buf (omega arith))

pub take_all : (n : ℕ) (xs : List ℕ) → length xs ≤ n → take n xs ≡ xs
take_all zero [] h = refl
take_all zero (x ∷ xs) h = absurd (omega arith)
take_all (suc n) [] h = refl
take_all (suc n) (x ∷ xs) h = ap (λ t. x ∷ t) (take_all n xs (omega arith))
