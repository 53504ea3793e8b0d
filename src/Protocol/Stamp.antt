-- ===== src/Protocol/Stamp.antt =====
-- internal/protocol/crypto.go: the magic number and the checksum of a marshalled packet.
-- A buffer is a list of bytes; `none` is a run-time panic, an index out of range.
pub mod Laws
pub mod Corruption
use wayland_without_borders.Prelude.{
  ℕ, zero, suc, ◌+◌, ◌*◌, ◌/◌, ◌%◌, ◌^◌, Option, none, some, List, [], ◌∷◌, ltb, ◌==◌,
  if◌then◌else◌, length, get_elem?, set, Result, ok, err,
}
use wayland_without_borders.Protocol.Types.{packet_size}

infixl 5 ◌>>=◌
abbrev pub ◌>>=◌ {ℓ κ} : {A : Type ℓ} {B : Type κ} → Option A → (A → Option B) → Option B
none >>= f = none
some a >>= f = f a

-- `buf[i] = v`
unfoldable pub store : ℕ → ℕ → List ℕ → Option (List ℕ)
store i v buf = if ltb i (length buf) then some (set buf i v) else none

-- `for i := 2; i < PacketSize; i++ { buf[1] = buf[1] + buf[i] }`, with the rounds left.
unfoldable pub stamp_loop : ℕ → ℕ → List ℕ → Option (List ℕ)
unfolding store
stamp_loop zero i buf = some buf
stamp_loop (suc rounds) i buf = do
  sum ← get_elem? buf 1
  b ← get_elem? buf i
  buf' ← store 1 ((sum + b) % 256) buf
  stamp_loop rounds (i + 1) buf'

-- `StampPacket`
unfoldable pub stamp_packet : List ℕ → ℕ → Option (List ℕ)
unfolding store
stamp_packet buf magic = do
  a ← store 3 (magic / 2 ^ 24 % 256) buf
  b ← store 2 (magic / 2 ^ 16 % 256) a
  c ← store 1 0 b
  stamp_loop 30 2 c

pub data StampError : Type 0 where
  magic_mismatch : ℕ → ℕ → StampError
  checksum_mismatch : ℕ → ℕ → StampError

-- `for i := 2; i < PacketSize; i++ { checksum += buf[i] }`
unfoldable pub checksum_loop : ℕ → ℕ → ℕ → List ℕ → Option ℕ
checksum_loop zero i sum buf = some sum
checksum_loop (suc rounds) i sum buf = do
  b ← get_elem? buf i
  checksum_loop rounds (i + 1) ((sum + b) % 256) buf

-- The second half of `ValidatePacket`.
unfoldable pub compare_checksum : List ℕ → Option (Result StampError (Unit {0}))
unfolding checksum_loop
compare_checksum buf = do
  checksum ← checksum_loop 30 2 0 buf
  b1 ← get_elem? buf 1
  some (if b1 == checksum then ok tt else err (checksum_mismatch b1 checksum))

-- `ValidatePacket`. A word is `uint32(buf[3])<<24 + uint32(buf[2])<<16`, and `magic & 0xFFFF0000`
-- keeps the upper half of a uint32; `& 0xFF` keeps the low byte. A wrong magic number is reported
-- before the checksum is computed.
unfoldable pub validate_packet : List ℕ → ℕ → Option (Result StampError (Unit {0}))
unfolding compare_checksum
validate_packet buf magic = do
  b3 ← get_elem? buf 3
  b2 ← get_elem? buf 2
  let wire_magic = (b3 * 2 ^ 24 + b2 * 2 ^ 16) % 2 ^ 32
  let expected_magic = magic / 2 ^ 16 * 2 ^ 16
  if wire_magic == expected_magic
      then compare_checksum buf
      else some (err (magic_mismatch wire_magic expected_magic))

-- `ClearStamp`
unfoldable pub clear_stamp : List ℕ → Option (List ℕ)
unfolding store
clear_stamp buf = do a ← store 1 0 buf; b ← store 2 0 a; store 3 0 b
