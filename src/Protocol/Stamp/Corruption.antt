-- ===== src/Protocol/Stamp/Corruption.antt =====
-- A byte changed in transit breaks the checksum (internal/protocol/crypto.go).
use mathlib.Core.Logic.{◌≢◌}
use wayland_without_borders.Prelude.{
  ℕ, zero, suc, ◌+◌, ◌-◌, ◌/◌, ◌%◌, ◌^◌, ◌∙◌, ◌<◌, ◌≤◌, ◌≡◌, refl, sym, ap, ◌==◌, if◌then◌else◌,
  some, List, [], ◌∷◌, length, length-set, get_or, set, err, arith,
}
use wayland_without_borders.Prelude.Bytes.{IsByte, IsU32, All}
use wayland_without_borders.Protocol.Stamp.{validate_packet, checksum_mismatch, stamp_packet}
use wayland_without_borders.Protocol.Stamp.Laws.{
  sum_bytes, stamped, checksum_of, validate_packet_lem, stamp_packet_lem, four_front,
}

get_or-set :
    (xs : List ℕ) (i k v : ℕ)
    → k < length xs
    → get_or (set xs k v) i 0 ≡ (if i == k then v else get_or xs i 0)
get_or-set [] i k v h = absurd (omega arith)
get_or-set (x ∷ xs) zero zero v h = refl
get_or-set (x ∷ xs) zero (suc k) v h = ground arith
get_or-set (x ∷ xs) (suc i) zero v h = ground arith
get_or-set (x ∷ xs) (suc i) (suc k) v h = ground (arith, get_or-set xs i k v (omega arith))

get_or-IsByte : (xs : List ℕ) (i : ℕ) → All IsByte xs → get_or xs i 0 < 256
get_or-IsByte [] i h = omega arith
get_or-IsByte (x ∷ xs) zero h = h.0
get_or-IsByte (x ∷ xs) (suc i) h = get_or-IsByte xs i h.1

sum_bytes-set_before :
    (r i k v : ℕ) (xs : List ℕ)
    → k < i
    → k < length xs
    → sum_bytes r i (set xs k v) ≡ sum_bytes r i xs
unfolding sum_bytes
sum_bytes-set_before zero i k v xs h m = refl
sum_bytes-set_before (suc r) i k v xs h m =
    ground (arith, get_or-set xs i k v m, sum_bytes-set_before r (suc i) k v xs (omega arith) m)

sum_bytes-set :
    (r i k v : ℕ) (xs : List ℕ)
    → i ≤ k
    → k < i + r
    → k < length xs
    → sum_bytes r i (set xs k v) + get_or xs k 0 ≡ sum_bytes r i xs + v
unfolding sum_bytes
sum_bytes-set zero i k v xs h l m = absurd (omega arith)
sum_bytes-set (suc r) i k v xs h l m = ground (
  arith,
  get_or-set xs i k v m,
  sum_bytes-set_before r (suc i) k v xs,
  sum_bytes-set r (suc i) k v xs,
)

-- The checksum test of a stamped buffer whose byte `i` behind the stamp is now `v`.
changed_byte :
    (t magic i v : ℕ) (rest : List ℕ)
    → 28 ≤ length rest
    → IsU32 magic
    → All IsByte rest
    → IsByte v
    → i < 28
    → v ≢ get_or rest i 0
    → (sum : ℕ) × (validate_packet (set (stamped t magic rest) (suc (suc (suc (suc i)))) v) magic
        ≡ some (err (checksum_mismatch (checksum_of magic rest) sum)))
changed_byte t magic i v rest h m bytes bv l ne = (
  sum_bytes 30 0 (b2 ∷ b3 ∷ set rest i v) % 256,
  validate_packet_lem t (checksum_of magic rest) b2 b3 magic (set rest i v)
        (omega (arith, length-set rest i v))
      ∙ ground (arith, differs),
)
  where
    b2 : ℕ
    b2 = magic / 2 ^ 16 % 256

    b3 : ℕ
    b3 = magic / 2 ^ 24 % 256

    differs : checksum_of magic rest ≢ sum_bytes 30 0 (b2 ∷ b3 ∷ set rest i v) % 256
    differs = ground (
      arith,
      get_or-IsByte rest i bytes,
      sum_bytes-set 30 0 (suc (suc i)) v (b2 ∷ b3 ∷ rest) (omega arith) (omega arith) (omega arith),
    )

changed_at :
    (t magic k i v : ℕ) (rest : List ℕ)
    → k ≡ suc (suc (suc (suc i)))
    → 28 ≤ length rest
    → IsU32 magic
    → All IsByte rest
    → IsByte v
    → i < 28
    → v ≢ get_or (stamped t magic rest) k 0
    → (sum : ℕ) × (validate_packet (set (stamped t magic rest) k v) magic
        ≡ some (err (checksum_mismatch (checksum_of magic rest) sum)))
changed_at t magic k i v rest behind h m bytes bv l ne =
    let (sum, r) =
      changed_byte t magic i v rest h m bytes bv l
        (λ q. ne (q ∙ ap (λ j. get_or (stamped t magic rest) j 0) (sym behind))) in
    (sum, rw behind r)

-- A buffer of bytes that was stamped and had one of its bytes 4 to 31 changed to another byte on
-- the way is refused for its checksum.
pub validate_packet_detects :
    (buf s : List ℕ) (magic k v : ℕ)
    → 32 ≤ length buf
    → All IsByte buf
    → IsU32 magic
    → stamp_packet buf magic ≡ some s
    → 4 ≤ k
    → k < 32
    → IsByte v
    → v ≢ get_or s k 0
    → (b1 : ℕ) × (sum : ℕ) × (validate_packet (set s k v) magic
        ≡ some (err (checksum_mismatch b1 sum)))
validate_packet_detects buf s magic k v h bytes m e lo hi bv ne =
    let (t, a, b, c, rest, front) = four_front buf (omega arith) in
    let n : 28 ≤ length rest = omega (arith, ap length front) in
    let same : s ≡ stamped t magic rest = cc (front, stamp_packet_lem t a b c magic rest n) in
    let (sum, r) =
      changed_at t magic k (k - 4) v rest (omega arith) n m (rw front at bytes).1.1.1.1 bv
        (omega arith) (λ q. ne (q ∙ rw same)) in
    (checksum_of magic rest, sum, rw same r)
