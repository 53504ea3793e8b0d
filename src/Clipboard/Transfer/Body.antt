-- ===== src/Clipboard/Transfer/Body.antt =====
-- The bytes of a file, sent and received (internal/clipboard/filetransfer_linux.go and
-- internal/protocol/stream.go).
use wayland_without_borders.Prelude.{
  ℕ, zero, suc, ◌+◌, ◌-◌, ◌%◌, ◌≡◌, ◌<◌, ◌≤◌, refl, sym, ap, ◌∙◌, false, List, [], ◌∷◌, ◌++◌,
  append_assoc, ◌==◌, length, take, drop, length-take, length-drop, take-append-drop, ok, arith,
  inl, inr, ◌⊎◌,
}
use wayland_without_borders.Prelude.Bytes.{take_all}
use wayland_without_borders.Protocol.Stream.{
  BlockCipher, CbcLaws, IsBlocks, DecryptReader, read, read_size,
}
use wayland_without_borders.Protocol.Stream.Laws.{raw_read_full_lem}
use wayland_without_borders.Clipboard.Transfer.{at_most, copy_loop}

suc_add : (k j : ℕ) → suc (k + j) ≡ suc k + j
suc_add k j = omega arith

take_nil : (n : ℕ) → take {A = ℕ} n [] ≡ []
take_nil zero = refl
take_nil (suc n) = refl

take_split : (k j : ℕ) (xs : List ℕ) → take k xs ++ take j (drop k xs) ≡ take (k + j) xs
take_split zero j xs = ap (λ m. take m xs) (omega arith)
take_split (suc k) j [] = take_nil j ∙ sym (take_nil (suc k + j))
take_split (suc k) j (x ∷ xs) =
    ap (λ t. x ∷ t) (take_split k j xs) ∙ ap (λ m. take m (x ∷ xs)) (suc_add k j)

module _ (c : BlockCipher) (laws : CbcLaws c) where
  -- The reader behind `plain`, with `rest` to come.
  abbrev pub behind : DecryptReader c → List ℕ → List ℕ → DecryptReader c
  behind d plain rest = record {
    r = record (d.r) { input = rest };
    mode = (c.encrypt d.mode plain).0;
  }

  -- A read that asks for just these blocks stores as much of them as the buffer takes.
  read_part :
      (d : DecryptReader c) (plain rest : List ℕ) (len : ℕ)
      → IsBlocks plain
      → read_size c len ≡ length plain
      → d.r.input ≡ (c.encrypt d.mode plain).1 ++ rest
      → read c d len ≡ (ok (take len plain), behind d plain rest)
  unfolding read
  read_part d plain rest len b size e = rw (
    size,
    raw_read_full_lem d.r (length plain) (c.encrypt d.mode plain).1 rest
        (laws.length-encrypt d.mode plain b) e,
    laws.decrypt-encrypt d.mode plain b,
  )

  copy_done :
      (fuel : ℕ) (d : DecryptReader c) (got : List ℕ) → copy_loop c fuel 0 d got ≡ (ok got, d)
  unfolding copy_loop
  copy_done zero d got = refl
  copy_done (suc fuel) d got = refl

  copy_round :
      (fuel remaining : ℕ) (d d' : DecryptReader c) (got bytes : List ℕ)
      → 0 < remaining
      → read c d (at_most 32768 remaining) ≡ (ok bytes, d')
      → copy_loop c (suc fuel) remaining d got
        ≡ copy_loop c fuel (remaining - length bytes) d' (got ++ bytes)
  unfolding copy_loop
  copy_round fuel remaining d d' got bytes h e = rw (e, more) refl
    where
      more : (remaining == 0) ≡ false
      more = ground arith

  asked_all :
      (remaining len : ℕ)
      → remaining ≤ len
      → read_size c (at_most 32768 remaining) ≡ len
      → at_most 32768 remaining ≡ remaining
  unfolding read_size
  asked_all remaining len fits size = ground arith

  -- Otherwise it takes whole blocks, fewer than all.
  asked_some :
      (remaining len : ℕ)
      → len % 16 ≡ 0
      → 0 < remaining
      → remaining ≤ len
      → len < remaining + 16
      → (read_size c (at_most 32768 remaining) ≡ len)
        ⊎ ((read_size c (at_most 32768 remaining) < remaining)
            × ((read_size c (at_most 32768 remaining) % 16 ≡ 0)
                × ((0 < read_size c (at_most 32768 remaining))
                    × (read_size c (at_most 32768 remaining) ≤ at_most 32768 remaining))))
  unfolding read_size
  asked_some remaining len b some_left fits close = ground arith

  -- One read takes all that is left.
  copy_last :
      (fuel remaining : ℕ) (plain rest got : List ℕ) (d : DecryptReader c)
      → IsBlocks plain
      → 0 < remaining
      → remaining ≤ length plain
      → read_size c (at_most 32768 remaining) ≡ length plain
      → d.r.input ≡ (c.encrypt d.mode plain).1 ++ rest
      → copy_loop c (suc fuel) remaining d got
        ≡ (ok (got ++ take remaining plain), behind d plain rest)
  copy_last fuel remaining plain rest got d b some_left fits size e =
      copy_round fuel remaining d (behind d plain rest) got (take remaining plain) some_left (
        read_part d plain rest (at_most 32768 remaining) b size e
        ∙ ap (λ n. (ok (take n plain), behind d plain rest)) whole)
      ∙ ap (λ n. copy_loop c fuel n (behind d plain rest) (got ++ take remaining plain))
          nothing_left
      ∙ copy_done fuel (behind d plain rest) (got ++ take remaining plain)
    where
      whole : at_most 32768 remaining ≡ remaining
      whole = asked_all remaining (length plain) fits size

      nothing_left : remaining - length (take remaining plain) ≡ 0
      nothing_left = omega (arith, length-take remaining plain, fits)

  -- What the loop of `io.CopyN` gives, wherever the blocks are cut, is the first `remaining` bytes of
  -- what was sent, if the last of them is in the last block.
  pub copy_loop_lem :
      (fuel remaining : ℕ) (plain rest got : List ℕ) (d : DecryptReader c)
      → IsBlocks plain
      → 0 < remaining
      → remaining ≤ length plain
      → length plain < remaining + 16
      → remaining ≤ fuel
      → d.r.input ≡ (c.encrypt d.mode plain).1 ++ rest
      → (copy_loop c fuel remaining d got).0 ≡ ok (got ++ take remaining plain)
  copy_loop_lem zero remaining plain rest got d b some_left fits close enough e =
      absurd (omega arith)
  copy_loop_lem (suc fuel) remaining plain rest got d b some_left fits close enough e =
      elim (asked_some remaining (length plain) b some_left fits close) [
        | inl size ↦
            ap (λ p. p.0) (copy_last fuel remaining plain rest got d b some_left fits size e)
        | inr (less, (blocks, (pos_k, below))) ↦
            ap (λ p. p.0)
              (copy_round fuel remaining d _ got front some_left (
                read_part d front (back_sent ++ rest) asked (front_blocks less blocks)
                  (sym (front_length less)) (split_input less blocks)
                ∙ ap (λ t. (ok t, behind d front (back_sent ++ rest)))
                    (take_all asked front (omega (arith, front_length less, below)))))
            ∙ copy_loop_lem fuel (remaining - length front) back rest (got ++ front)
                (behind d front (back_sent ++ rest))
                (omega (arith, back_length, blocks, less, fits, b))
                (omega (arith, front_length less, less))
                (omega (arith, front_length less, back_length, less, fits))
                (omega (arith, front_length less, back_length, less, fits, close))
                (omega (arith, front_length less, pos_k, enough)) refl
            ∙ ap ok (
                append_assoc got front (take (remaining - length front) back)
                ∙ ap (λ t. got ++ t)
                    (take_split k (remaining - length front) plain
                      ∙ ap (λ n. take n plain) (whole less)))
      ]
    where
      asked : ℕ
      asked = at_most 32768 remaining

      k : ℕ
      k = read_size c asked

      front : List ℕ
      front = take k plain

      back : List ℕ
      back = drop k plain

      back_sent : List ℕ
      back_sent = (c.encrypt (c.encrypt d.mode front).0 back).1

      front_length : k < remaining → length front ≡ k
      front_length less = omega (arith, length-take k plain, fits, less)

      back_length : length back ≡ length plain - k
      back_length = length-drop k plain

      front_blocks : k < remaining → k % 16 ≡ 0 → IsBlocks front
      front_blocks less blocks = omega (arith, front_length less, blocks)

      whole : k < remaining → k + (remaining - length front) ≡ remaining
      whole less = omega (arith, front_length less, less)

      split_input :
          k < remaining → k % 16 ≡ 0 → d.r.input ≡ (c.encrypt d.mode front).1 ++ (back_sent ++ rest)
      split_input less blocks =
          e
          ∙ ap (λ p. (c.encrypt d.mode p).1 ++ rest) (sym (take-append-drop k plain))
          ∙ ap (λ t. t ++ rest)
              (laws.encrypt-append d.mode front back (front_blocks less blocks)
                (omega (arith, back_length, blocks, less, fits, b)))
          ∙ append_assoc (c.encrypt d.mode front).1 back_sent rest
