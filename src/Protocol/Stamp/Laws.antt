-- ===== src/Protocol/Stamp/Laws.antt =====
-- Stamping, validating and clearing a buffer (internal/protocol/crypto.go).
use native.Mathlib.Numerals.{add-one}
use wayland_without_borders.Prelude.{
  ℕ, zero, suc, ◌+◌, ◌*◌, ◌/◌, ◌%◌, ◌^◌, ◌<◌, ◌≤◌, ◌≡◌, refl, ap, ◌∙◌, some, List, [], ◌∷◌, true,
  ◌==◌, if◌then◌else◌, ltb, lt→ltb, length, get_elem?, get_or, Result, ok, err, arith,
}
use wayland_without_borders.Prelude.Bytes.{IsU32}
use wayland_without_borders.Protocol.Stamp.{
  stamp_loop, stamp_packet, checksum_loop, compare_checksum, validate_packet, clear_stamp,
  magic_mismatch, checksum_mismatch, StampError, ◌>>=◌,
}

-- The sum of the bytes from `i` on.
unfoldable pub sum_bytes : ℕ → ℕ → List ℕ → ℕ
sum_bytes zero i xs = 0
sum_bytes (suc r) i xs = get_or xs i 0 + sum_bytes r (suc i) xs

sum_bytes-cons : (r i x : ℕ) (xs : List ℕ) → sum_bytes r (suc i) (x ∷ xs) ≡ sum_bytes r i xs
unfolding sum_bytes
sum_bytes-cons zero i x xs = refl
sum_bytes-cons (suc r) i x xs = ap (λ s. get_or xs i 0 + s) (sum_bytes-cons r (suc i) x xs)

get_elem?_in : (xs : List ℕ) (i : ℕ) → i < length xs → get_elem? xs i ≡ some (get_or xs i 0)
get_elem?_in [] i h = absurd (omega arith)
get_elem?_in (x ∷ xs) zero h = refl
get_elem?_in (x ∷ xs) (suc i) h = get_elem?_in xs i (omega arith)

pub checksum_loop_lem :
    (r i sum : ℕ) (xs : List ℕ)
    → i + r ≤ length xs
    → sum < 256
    → checksum_loop r i sum xs ≡ some ((sum + sum_bytes r i xs) % 256)
unfolding checksum_loop sum_bytes
checksum_loop_lem zero i sum xs h s = ground arith
checksum_loop_lem (suc r) i sum xs h s =
    rw
      (
        get_elem?_in xs i (omega arith),
        add-one,
        checksum_loop_lem r (suc i) ((sum + get_or xs i 0) % 256) xs (omega arith) (omega arith),
      )
      (ground arith)

stamp_loop_lem :
    (r j t s : ℕ) (xs : List ℕ)
    → j + r ≤ length xs
    → s < 256
    → stamp_loop r (suc (suc j)) (t ∷ s ∷ xs) ≡ some (t ∷ ((s + sum_bytes r j xs) % 256) ∷ xs)
unfolding stamp_loop sum_bytes
stamp_loop_lem zero j t s xs h k = ground arith
stamp_loop_lem (suc r) j t s xs h k =
    rw
      (
        get_elem?_in xs j (omega arith),
        lt→ltb 1 (suc (suc (length xs))) (omega arith),
        add-one,
        stamp_loop_lem r (suc j) t ((s + get_or xs j 0) % 256) xs (omega arith) (omega arith),
      )
      (ground arith)

-- The checksum that a stamp stores: bytes 2 and 3 of the magic number, and bytes 4 to 31.
abbrev pub checksum_of : ℕ → List ℕ → ℕ
checksum_of magic rest = sum_bytes 30 0 (magic / 2 ^ 16 % 256 ∷ magic / 2 ^ 24 % 256 ∷ rest) % 256

-- A buffer as `stamp_packet` leaves it.
abbrev pub stamped : ℕ → ℕ → List ℕ → List ℕ
stamped t magic rest =
    t ∷ checksum_of magic rest ∷ (magic / 2 ^ 16 % 256) ∷ (magic / 2 ^ 24 % 256) ∷ rest

-- The index tests on a buffer of four bytes or more.
module _ (n : ℕ) where
  above_three : ltb 3 (suc (suc (suc (suc n)))) ≡ true
  above_three = lt→ltb _ _ (omega arith)

  above_two : ltb 2 (suc (suc (suc (suc n)))) ≡ true
  above_two = lt→ltb _ _ (omega arith)

  above_one : ltb 1 (suc (suc (suc (suc n)))) ≡ true
  above_one = lt→ltb _ _ (omega arith)

pub stamp_packet_lem :
    (t a b c magic : ℕ) (rest : List ℕ)
    → 28 ≤ length rest
    → stamp_packet (t ∷ a ∷ b ∷ c ∷ rest) magic ≡ some (stamped t magic rest)
unfolding stamp_packet
stamp_packet_lem t a b c magic rest h =
    rw (above_three (length rest), above_two (length rest), above_one (length rest))
      (stamp_loop_lem 30 0 t 0 tail (omega arith) (omega arith)
        ∙ ap (λ (k : ℕ). some (t ∷ k ∷ tail)) (omega arith))
  where
    tail : List ℕ
    tail = (magic / 2 ^ 16 % 256) ∷ (magic / 2 ^ 24 % 256) ∷ rest

pub clear_stamp_lem :
    (t a b c : ℕ) (rest : List ℕ) → clear_stamp (t ∷ a ∷ b ∷ c ∷ rest) ≡ some (t ∷ 0 ∷ 0 ∷ 0 ∷ rest)
unfolding clear_stamp
clear_stamp_lem t a b c rest =
    rw (above_one (length rest), above_two (length rest), above_three (length rest))

abbrev compared : ℕ → ℕ → Result StampError (Unit {0})
compared b1 sum = if b1 == sum then ok tt else err (checksum_mismatch b1 sum)

-- The answer of `validate_packet` on a buffer of 32 bytes or more.
abbrev verdict : ℕ → ℕ → ℕ → ℕ → List ℕ → ℕ → Result StampError (Unit {0})
verdict b1 b2 b3 sum rest magic =
    if ((b3 * 2 ^ 24 + b2 * 2 ^ 16) % 2 ^ 32) == (magic / 2 ^ 16 * 2 ^ 16)
    then compared b1 sum
    else err (magic_mismatch ((b3 * 2 ^ 24 + b2 * 2 ^ 16) % 2 ^ 32) (magic / 2 ^ 16 * 2 ^ 16))

compare_checksum_lem :
    (t b1 b2 b3 : ℕ) (rest : List ℕ)
    → 28 ≤ length rest
    → compare_checksum (t ∷ b1 ∷ b2 ∷ b3 ∷ rest)
      ≡ some (compared b1 (sum_bytes 30 0 (b2 ∷ b3 ∷ rest) % 256))
unfolding compare_checksum
compare_checksum_lem t b1 b2 b3 rest h =
    rw (checksum_loop_lem 30 2 0 (t ∷ b1 ∷ b2 ∷ b3 ∷ rest) (omega arith) (omega arith)) (
      ap (λ s. some (compared b1 (s % 256)))
        (omega (
          arith,
          sum_bytes-cons 30 1 t (b1 ∷ b2 ∷ b3 ∷ rest),
          sum_bytes-cons 30 0 b1 (b2 ∷ b3 ∷ rest),
        )))

pub validate_packet_lem :
    (t b1 b2 b3 magic : ℕ) (rest : List ℕ)
    → 28 ≤ length rest
    → validate_packet (t ∷ b1 ∷ b2 ∷ b3 ∷ rest) magic
      ≡ some (verdict b1 b2 b3 (sum_bytes 30 0 (b2 ∷ b3 ∷ rest) % 256) rest magic)
unfolding validate_packet
validate_packet_lem t b1 b2 b3 magic rest h =
    rw (compare_checksum_lem t b1 b2 b3 rest h) (ground arith)

pub validate_stamped :
    (t magic : ℕ) (rest : List ℕ)
    → 28 ≤ length rest
    → IsU32 magic
    → validate_packet (stamped t magic rest) magic ≡ some (ok tt)
validate_stamped t magic rest h m = validate_packet_lem t _ _ _ magic rest h ∙ ground arith

pub four_front :
    (buf : List ℕ)
    → 4 ≤ length buf
    → (t : ℕ) × (a : ℕ) × (b : ℕ) × (c : ℕ) × (rest : List ℕ) × (buf ≡ t ∷ a ∷ b ∷ c ∷ rest)
four_front [] h = absurd (omega arith)
four_front (t ∷ []) h = absurd (omega arith)
four_front (t ∷ a ∷ []) h = absurd (omega arith)
four_front (t ∷ a ∷ b ∷ []) h = absurd (omega arith)
four_front (t ∷ a ∷ b ∷ c ∷ rest) h = (t, a, b, c, rest, refl)

-- `validate_packet` accepts what `stamp_packet` made of any buffer of 32 bytes or more.
pub validate_packet-stamp_packet :
    (buf : List ℕ) (magic : ℕ)
    → 32 ≤ length buf
    → IsU32 magic
    → (stamp_packet buf magic >>= λ b. validate_packet b magic) ≡ some (ok tt)
validate_packet-stamp_packet buf magic h m =
    let (t, a, b, c, rest, e) = four_front buf (omega arith) in
    let n : 28 ≤ length rest = omega (arith, ap length e) in
    rw (e, stamp_packet_lem t a b c magic rest n) (validate_stamped t magic rest n m)
