-- ===== src/Protocol/Stream/Laws.antt =====
-- Reading back what was written (internal/protocol/stream.go).
use wayland_without_borders.Prelude.{
  ℕ, zero, suc, ◌-◌, ◌*◌, ◌/◌, ◌<◌, ◌≤◌, ◌≡◌, refl, ap, ◌∙◌, false, List, [], ◌∷◌, ◌++◌, ltb,
  lt→ltb, if◌then◌else◌, length, length-append, take, drop, ok, arith,
}
use wayland_without_borders.Prelude.Bytes.{take_all}
use wayland_without_borders.Protocol.Stream.{
  BlockCipher, CbcLaws, IsBlocks, Source, raw_read_full, DecryptReader, read_size, read,
  read_full_loop, read_full,
}

pub take-append : (xs ys : List ℕ) → take (length xs) (xs ++ ys) ≡ xs
take-append [] ys = refl
take-append (x ∷ xs) ys = ap (λ t. x ∷ t) (take-append xs ys)

pub drop-append : (xs ys : List ℕ) → drop (length xs) (xs ++ ys) ≡ ys
drop-append [] ys = refl
drop-append (x ∷ xs) ys = drop-append xs ys

sub-zero : (n : ℕ) → n - 0 ≡ n
sub-zero n = omega arith

pub raw_read_full_lem :
    (s : Source) (n : ℕ) (ct rest : List ℕ)
    → length ct ≡ n
    → s.input ≡ ct ++ rest
    → raw_read_full s n ≡ (ok ct, record s { input = rest })
unfolding raw_read_full
raw_read_full_lem s n ct rest len e = rw (not_short, taken, dropped)
  where
    not_short : ltb (length s.input) n ≡ false
    not_short = ground (arith, ap (length {A = ℕ}) e, length-append ct rest)

    taken : take n s.input ≡ ct
    taken = rw (e, ← len) (take-append ct rest)

    dropped : drop n s.input ≡ rest
    dropped = rw (e, ← len) (drop-append ct rest)

module _ (c : BlockCipher) (laws : CbcLaws c) where
  -- A read of as many bytes as were written at once gives them, and puts the reader in step with
  -- the writer.
  pub read_lem :
      (d : DecryptReader c) (plain rest : List ℕ)
      → IsBlocks plain
      → 16 ≤ length plain
      → d.r.input ≡ (c.encrypt d.mode plain).1 ++ rest
      → read c d (length plain) ≡ (
        ok plain,
        record { r = record (d.r) { input = rest }; mode = (c.encrypt d.mode plain).0 },
      )
  unfolding read read_size
  read_lem d plain rest b big e = rw (
    size,
    raw_read_full_lem d.r (length plain) (c.encrypt d.mode plain).1 rest
        (laws.length-encrypt d.mode plain b) e,
    laws.decrypt-encrypt d.mode plain b,
    take_all (length plain) plain (omega arith),
  )
    where
      size : (if ltb (length plain) 16 then 16 else length plain) / 16 * 16 ≡ length plain
      size = ground arith

  loop_done :
      (fuel n : ℕ) (got : List ℕ) (d : DecryptReader c)
      → length got ≡ n
      → read_full_loop c fuel n got d ≡ (ok got, d)
  unfolding read_full_loop
  loop_done zero n got d h = ground arith
  loop_done (suc fuel) n got d h = ground arith

  loop_first :
      (fuel n : ℕ) (plain : List ℕ) (d d' : DecryptReader c)
      → 0 < n
      → length plain ≡ n
      → read c d n ≡ (ok plain, d')
      → read_full_loop c (suc fuel) n [] d ≡ (ok plain, d')
  unfolding read_full_loop
  loop_first fuel n plain d d' h len e =
      rw (lt→ltb 0 n h, sub-zero n, e) (loop_done fuel n plain d' len)

  -- `io.ReadFull` of as many bytes as were written at once, one block at least, gives them, and puts
  -- the reader in step with the writer, if the cipher keeps its documented laws.
  pub read_full_lem :
      (d : DecryptReader c) (plain rest : List ℕ)
      → IsBlocks plain
      → 16 ≤ length plain
      → d.r.input ≡ (c.encrypt d.mode plain).1 ++ rest
      → read_full c d (length plain) ≡ (
        ok plain,
        record { r = record (d.r) { input = rest }; mode = (c.encrypt d.mode plain).0 },
      )
  unfolding read_full
  read_full_lem d [] rest b big e = absurd (omega arith)
  read_full_lem d (x ∷ xs) rest b big e =
      loop_first (length xs) (suc (length xs)) (x ∷ xs) d _ (omega arith) refl
        (read_lem d (x ∷ xs) rest b big e)

  -- If the cipher keeps its documented laws, a buffer shorter than a block is filled, and the rest of
  -- the block is lost: the reader stands behind the whole block.
  pub read_short :
      (d : DecryptReader c) (plain rest : List ℕ) (len : ℕ)
      → length plain ≡ 16
      → len < 16
      → d.r.input ≡ (c.encrypt d.mode plain).1 ++ rest
      → read c d len ≡ (
        ok (take len plain),
        record { r = record (d.r) { input = rest }; mode = (c.encrypt d.mode plain).0 },
      )
  unfolding read read_size
  read_short d plain rest len one short e = rw (
    size,
    raw_read_full_lem d.r 16 (c.encrypt d.mode plain).1 rest
        (laws.length-encrypt d.mode plain blocks ∙ one) e,
    laws.decrypt-encrypt d.mode plain blocks,
  )
    where
      size : (if ltb len 16 then 16 else len) / 16 * 16 ≡ 16
      size = ground arith

      blocks : IsBlocks plain
      blocks = omega arith
