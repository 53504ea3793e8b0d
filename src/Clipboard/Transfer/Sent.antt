-- ===== src/Clipboard/Transfer/Sent.antt =====
-- What sendFileStream puts on a connection that takes every write
-- (internal/clipboard/filetransfer_linux.go).
use wayland_without_borders.Prelude.{
  ℕ, zero, suc, ◌-◌, ◌%◌, ◌≡◌, ◌<◌, ◌≤◌, refl, sym, ap, ◌∙◌, false, none, List, ◌++◌, append_assoc,
  lt→ltb, ◌==◌, if◌then◌else◌, length, take, drop, replicate, length-append, length-take,
  length-drop, length-replicate, take-append-drop, arith, inl, inr, ◌⊎◌,
}
use wayland_without_borders.Prelude.Bytes.{take_all}
use wayland_without_borders.Protocol.Stream.{
  BlockCipher, CbcLaws, IsBlocks, Fate, EncryptWriter, write, raw_write,
}
use wayland_without_borders.Clipboard.Transfer.{padded_block, at_most, send_loop}

-- Every write goes out.
abbrev pub reliable : Fate
reliable n = none

pub padded_block-IsBlocks : (bytes : List ℕ) → IsBlocks (padded_block bytes)
padded_block-IsBlocks bytes = omega (
  arith,
  length-append bytes (replicate ((16 - length bytes % 16) % 16) 0),
  length-replicate {A = ℕ} ((16 - length bytes % 16) % 16) 0,
)

padded_block-append :
    (front back : List ℕ)
    → IsBlocks front
    → front ++ padded_block back ≡ padded_block (front ++ back)
padded_block-append front back b =
    sym (append_assoc front back (replicate ((16 - length back % 16) % 16) 0))
    ∙ ap (λ n. (front ++ back) ++ replicate n 0) same_pad
  where
    same_pad : (16 - length back % 16) % 16 ≡ (16 - length (front ++ back) % 16) % 16
    same_pad = omega (arith, length-append front back, b)

size_cases : (n : ℕ) → (65536 < n) ⊎ (n ≤ 65536)
size_cases n = ground arith

module _ (c : BlockCipher) (laws : CbcLaws c) where
  -- The writer after these bytes.
  abbrev pub after : EncryptWriter c → List ℕ → EncryptWriter c
  after e p = record {
    w = record { sent = e.w.sent ++ (c.encrypt e.mode p).1; writes = suc e.w.writes };
    mode = (c.encrypt e.mode p).0;
  }

  pub write-reliable :
      (e : EncryptWriter c) (p : List ℕ) → IsBlocks p → write c reliable e p ≡ (after e p, none)
  unfolding write raw_write
  write-reliable e p b = rw (b) refl

  send_done :
      (fuel : ℕ) (file : List ℕ) (e : EncryptWriter c)
      → send_loop c fuel reliable 0 file e ≡ (e, none)
  unfolding send_loop
  send_done zero file e = refl
  send_done (suc fuel) file e = refl

  send_round :
      (fuel remaining left : ℕ) (file out : List ℕ) (e : EncryptWriter c)
      → 0 < remaining
      → 0 < length (take (at_most 65536 remaining) file)
      → remaining - length (take (at_most 65536 remaining) file) ≡ left
      → (if left == 0
          then padded_block (take (at_most 65536 remaining) file)
          else take (at_most 65536 remaining) file)
        ≡ out
      → IsBlocks out
      → send_loop c (suc fuel) reliable remaining file e
        ≡ send_loop c fuel reliable left
            (drop (length (take (at_most 65536 remaining) file)) file)
            (after e out)
  unfolding send_loop
  send_round fuel remaining left file out e some_left got eq_left eq_out b =
      rw (eq_left, eq_out, write-reliable e out b, more, read_some) refl
    where
      more : (remaining == 0) ≡ false
      more = ground arith

      read_some : (length (take (at_most 65536 remaining) file) == 0) ≡ false
      read_some = ground arith

  -- The file goes out in one piece, padded at its end, whatever the chunks.
  pub send_loop_lem :
      (fuel : ℕ) (file : List ℕ) (e : EncryptWriter c)
      → 0 < length file
      → length file ≤ fuel
      → ((send_loop c fuel reliable (length file) file e).1 ≡ none)
        × ((send_loop c fuel reliable (length file) file e).0.w.sent
            ≡ e.w.sent ++ (c.encrypt e.mode (padded_block file)).1)
  send_loop_lem zero file e nonempty enough = absurd (omega arith)
  send_loop_lem (suc fuel) file e nonempty enough = elim (size_cases (length file)) [
    | inl more ↦
        let step =
          send_round fuel (length file) (length file - 65536) file (take 65536 file) e nonempty
            (omega (arith, one more)) (omega (arith, one more)) (ap_out more) (front_blocks more)
          ∙ ap
              (λ n.
                send_loop c fuel reliable (length file - 65536) (drop n file)
                  (after e (take 65536 file)))
              (one more)
          ∙ ap (λ n. send_loop c fuel reliable n back (after e (take 65536 file)))
              (sym (length-drop 65536 file)) in
        let (fine, sent) =
          send_loop_lem fuel back (after e (take 65536 file))
            (omega (arith, length-drop 65536 file, more))
            (omega (arith, length-drop 65536 file, more, enough)) in
        (ap (λ p. p.1) step ∙ fine, ap (λ p. p.0.w.sent) step ∙ sent ∙ joined more)
    | inr last ↦
        let step =
          send_round fuel (length file) 0 file (padded_block file) e nonempty
            (omega (arith, all last, nonempty)) (omega (arith, all last))
            (ap padded_block (whole last)) (padded_block-IsBlocks file)
          ∙ send_done fuel _ (after e (padded_block file)) in
        (ap (λ p. p.1) step, ap (λ p. p.0.w.sent) step)
  ]
    where
      back : List ℕ
      back = drop 65536 file

      not_cut : length file ≤ 65536 → at_most 65536 (length file) ≡ length file
      not_cut last = ground arith

      whole : length file ≤ 65536 → take (at_most 65536 (length file)) file ≡ file
      whole last = ap (λ n. take n file) (not_cut last) ∙ take_all (length file) file (omega arith)

      all : length file ≤ 65536 → length (take (at_most 65536 (length file)) file) ≡ length file
      all last = ap (λ (t : List ℕ). length t) (whole last)

      one : 65536 < length file → length (take (at_most 65536 (length file)) file) ≡ 65536
      one more = rw (lt→ltb 65536 (length file) more) (omega (arith, length-take 65536 file, more))

      left_over : 65536 < length file → ((length file - 65536) == 0) ≡ false
      left_over more = ground arith

      ap_out :
          65536 < length file
          → (if (length file - 65536) == 0
              then padded_block (take (at_most 65536 (length file)) file)
              else take (at_most 65536 (length file)) file)
            ≡ take 65536 file
      ap_out more = rw (lt→ltb 65536 (length file) more, left_over more) refl

      front_blocks : 65536 < length file → IsBlocks (take 65536 file)
      front_blocks more = omega (arith, length-take 65536 file, more)

      joined :
          65536 < length file
          → (e.w.sent ++ (c.encrypt e.mode (take 65536 file)).1)
              ++ (c.encrypt (c.encrypt e.mode (take 65536 file)).0 (padded_block back)).1
            ≡ e.w.sent ++ (c.encrypt e.mode (padded_block file)).1
      joined more =
          append_assoc e.w.sent _ _
          ∙ ap (λ t. e.w.sent ++ t)
              (sym (
                  laws.encrypt-append e.mode (take 65536 file) (padded_block back)
                    (front_blocks more) (padded_block-IsBlocks back))
                ∙ ap (λ p. (c.encrypt e.mode p).1)
                    (padded_block-append (take 65536 file) back (front_blocks more)
                      ∙ ap padded_block (take-append-drop 65536 file)))
