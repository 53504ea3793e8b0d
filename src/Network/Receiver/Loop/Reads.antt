-- ===== src/Network/Receiver/Loop/Reads.antt =====
-- How much of its input a read takes (internal/protocol/stream.go).
use wayland_without_borders.Prelude.{
  ℕ, zero, suc, ◌+◌, ◌-◌, ◌≤◌, ◌<◌, ◌≡◌, refl, List, [], ◌∷◌, ◌++◌, ltb, lt→ltb, length,
  length-drop, Result, ok, err, arith, Bool-cases, inl, inr,
}
use wayland_without_borders.Protocol.Types.{packet_size}
use wayland_without_borders.Protocol.Stream.{
  BlockCipher, StreamError, eof, unexpected_eof, stuck, io, not_blocks, Source, DecryptReader,
  more_of, decrypted, raw_read_full, read, read_size, read_full, read_full_loop,
}

-- What an operation took of the input: at most what was there, and `n` bytes at least.
abbrev pub Took : ℕ → Source → Source → Type 0
Took n before after = length after.input + n ≤ length before.input

raw_read_takes :
    (s : Source) (n : ℕ) (ct : List ℕ)
    → (raw_read_full s n).0 ≡ ok ct
    → Took n s (raw_read_full s n).1
unfolding raw_read_full
raw_read_takes s n ct h = ground (arith, length-drop n s.input)

raw_read_shrinks : (s : Source) (n : ℕ) → Took 0 s (raw_read_full s n).1
unfolding raw_read_full
raw_read_shrinks s n = ground (arith, length-drop n s.input)

module _ (c : BlockCipher) where
  read_size_one : (n : ℕ) → 16 ≤ read_size c n
  unfolding read_size
  read_size_one n = ground arith

  read_shrinks : (d : DecryptReader c) (n : ℕ) → Took 0 d.r (read c d n).1.r
  unfolding read
  read_shrinks d n = ground (arith, raw_read_shrinks d.r (read_size c n))

  decrypted_takes :
      (before : Source) (mode : c.Mode) (n : ℕ) (r : Result StreamError (List ℕ) × Source)
      (bytes : List ℕ)
      → ((ct : List ℕ) → r.0 ≡ ok ct → Took 16 before r.1)
      → (decrypted c mode n r).0 ≡ ok bytes
      → Took 16 before (decrypted c mode n r).1.r
  decrypted_takes before mode n (ok ct, s) bytes took h = took ct refl
  decrypted_takes before mode n (err x, s) bytes took h = cc

  read_takes :
      (d : DecryptReader c) (n : ℕ) (bytes : List ℕ)
      → (read c d n).0 ≡ ok bytes
      → Took 16 d.r (read c d n).1.r
  unfolding read
  read_takes d n bytes h =
      decrypted_takes d.r d.mode n (raw_read_full d.r (read_size c n)) bytes
        (λ ct e. omega (arith, raw_read_takes d.r (read_size c n) ct e, read_size_one n)) h

  abbrev Reading : Type 0
  Reading = Result StreamError (List ℕ) × DecryptReader c

  more_shrinks :
      (before : Source) (got : List ℕ) (next : List ℕ → DecryptReader c → Reading) (r : Reading)
      → ((g : List ℕ) (d : DecryptReader c) → Took 0 d.r (next g d).1.r)
      → (k : ℕ) → Took k before r.1.r
      → Took k before (more_of c got next r).1.r
  more_shrinks before got next (ok bytes, d) h k took = omega (arith, h (got ++ bytes) d)
  more_shrinks before [] next (err x, d) h k took = took
  more_shrinks before (b ∷ got) next (err (not_blocks n), d) h k took = took
  more_shrinks before (b ∷ got) next (err eof, d) h k took = took
  more_shrinks before (b ∷ got) next (err unexpected_eof, d) h k took = took
  more_shrinks before (b ∷ got) next (err stuck, d) h k took = took
  more_shrinks before (b ∷ got) next (err (io e), d) h k took = took

  loop_shrinks :
      (fuel n : ℕ) (got : List ℕ) (d : DecryptReader c)
      → Took 0 d.r (read_full_loop c fuel n got d).1.r
  unfolding read_full_loop
  loop_shrinks zero n got d = ground arith
  loop_shrinks (suc fuel) n got d = elim (Bool-cases (ltb (length got) n)) [
    | inl more ↦ rw more (
        more_shrinks d.r got (read_full_loop c fuel n) (read c d (n - length got))
          (loop_shrinks fuel n) 0 (read_shrinks d (n - length got)))
    | inr done ↦ rw done (omega arith)
  ]

  first_round :
      (before : Source) (next : List ℕ → DecryptReader c → Reading) (r : Reading) (bytes : List ℕ)
      → ((g : List ℕ) (d : DecryptReader c) → Took 0 d.r (next g d).1.r)
      → ((b : List ℕ) → r.0 ≡ ok b → Took 16 before r.1.r)
      → (more_of c [] next r).0 ≡ ok bytes
      → Took 16 before (more_of c [] next r).1.r
  first_round before next (ok b, d) bytes shrinks took h =
      more_shrinks before [] next (ok b, d) shrinks 16 (took b refl)
  first_round before next (err x, d) bytes shrinks took h = cc

  first_takes :
      (fuel n : ℕ) (d : DecryptReader c) (bytes : List ℕ)
      → 0 < n
      → (read_full_loop c (suc fuel) n [] d).0 ≡ ok bytes
      → Took 16 d.r (read_full_loop c (suc fuel) n [] d).1.r
  unfolding read_full_loop
  first_takes fuel n d bytes some_bytes = rw (lt→ltb 0 n some_bytes) (
      first_round d.r (read_full_loop c fuel n) (read c d (n - 0)) bytes (loop_shrinks fuel n)
        (read_takes d (n - 0)))

  pub packet_takes :
      (d : DecryptReader c) (bytes : List ℕ)
      → (read_full c d packet_size).0 ≡ ok bytes
      → Took 16 d.r (read_full c d packet_size).1.r
  unfolding read_full
  packet_takes d bytes = first_takes 31 32 d bytes (omega arith)

  pub packet_shrinks : (d : DecryptReader c) → Took 0 d.r (read_full c d packet_size).1.r
  unfolding read_full
  packet_shrinks d = loop_shrinks 32 32 [] d
