-- ===== src/Clipboard/Transfer/Delivered.antt =====
-- A file that one machine sends and the other pulls
-- (internal/clipboard/filetransfer_linux.go).
use wayland_without_borders.Prelude.{
  ℕ, zero, suc, ◌+◌, ◌-◌, ◌%◌, ◌≡◌, ◌≢◌, ◌<◌, ◌≤◌, refl, sym, ap, ◌∙◌, false, ◌||◌, Option, none,
  some, List, [], ◌∷◌, ◌++◌, append_assoc, append-nil, ◌==◌, length, drop, replicate, length-append,
  length-replicate, Result, ok, err, arith,
}
use wayland_without_borders.Prelude.Int.{pos, leb_ℤ, ltb_ℤ}
use wayland_without_borders.Prelude.Bytes.{
  All, All-append, copy_at, pad, copy_at-zeros, take_all, length-copy_at,
}
use wayland_without_borders.Prelude.Text.{Text, bytes_of, has_prefix, to_lower}
use wayland_without_borders.Protocol.Stream.{
  BlockCipher, CbcLaws, EncryptWriter, DecryptReader, read_full,
}
use wayland_without_borders.Protocol.Stream.Laws.{take-append, drop-append, read_full_lem}
use wayland_without_borders.Clipboard.Utf16.{
  encode_utf16le, decode_utf16le, get_units, decode_units,
}
use wayland_without_borders.Clipboard.Utf16.RoundTrip.{IsRune, decode_utf16le-encode_utf16le}
use wayland_without_borders.Clipboard.Transfer.{
  Decimal, TransferError, clip_header_size, max_file_size, trim_nul, split_star, win_base,
  file_header, split_header, checked_size, parse_header, padded_block, written_then, send_loop,
  send_file_stream, copy_loop, Received, named, body_of, header_of, pull_file,
}
use wayland_without_borders.Clipboard.Transfer.Body.{copy_loop_lem}
use wayland_without_borders.Clipboard.Transfer.Sent.{
  reliable, after, write-reliable, padded_block-IsBlocks, send_loop_lem,
}

-- What fmt and strconv document: a printed number is made of digits and is read back.
pub record DecimalLaws (dec : Decimal) : Type 0 where
  pub print-digits : (n : ℕ) → All (λ c. (48 ≤ c) × (c ≤ 57)) (dec.print n)
  pub parse-print : (n : ℕ) → dec.parse (dec.print n) ≡ some (pos n)

-- A path that a header can carry: it fits, it has no NUL, and its file is not taken for a text or
-- an image.
pub record IsSendable (dec : Decimal) (size : ℕ) (path : Text) : Type 0 where
  pub runes : All IsRune path
  pub fits : length (encode_utf16le (dec.print size ++ (b'*' ∷ path))) ≤ clip_header_size
  pub no_text : has_prefix (to_lower path) (bytes_of "text") ≡ false
  pub no_image : has_prefix (to_lower path) (bytes_of "image") ≡ false

decode-zeros : (n : ℕ) → decode_utf16le (replicate n 0) ≡ []
unfolding decode_utf16le get_units decode_units
decode-zeros zero = refl
decode-zeros (suc zero) = refl
decode-zeros (suc (suc zero)) = refl
decode-zeros (suc (suc (suc zero))) = refl
decode-zeros (suc (suc (suc (suc n)))) = refl

pad-zeros : (m : ℕ) (d : List ℕ) → length d ≤ m → (k : ℕ) × (pad m d ≡ d ++ replicate k 0)
unfolding pad
pad-zeros zero [] h = (0, refl)
pad-zeros zero (x ∷ d) h = absurd (omega arith)
pad-zeros (suc m) [] h = let (k, e) = pad-zeros m [] (omega arith) in (suc k, ap (λ t. 0 ∷ t) e)
pad-zeros (suc m) (x ∷ d) h = let (k, e) = pad-zeros m d (omega arith) in (k, ap (λ t. x ∷ t) e)

trim_nul-All : (s : Text) → All (λ c. c ≢ 0) s → trim_nul s ≡ s
unfolding trim_nul
trim_nul-All [] h = refl
trim_nul-All (c ∷ []) (h, hs) = ground arith
trim_nul-All (c ∷ d ∷ s) (h, hs) = rw (trim_nul-All (d ∷ s) hs) refl

split_star-print :
    (digits path : Text)
    → All (λ c. (48 ≤ c) × (c ≤ 57)) digits
    → split_star (digits ++ (b'*' ∷ path)) ≡ some (digits, path)
unfolding split_star
split_star-print [] path h = refl
split_star-print (c ∷ digits) path (h, hs) = rw (not_star, split_star-print digits path hs) refl
  where
    not_star : (c == b'*') ≡ false
    not_star = ground arith

nonzero : (s : Text) → All IsRune s → All (λ c. c ≢ 0) s
nonzero [] h = tt
nonzero (c ∷ s) (h, hs) = (h.0, nonzero s hs)

digit_runes : (s : Text) → All (λ c. (48 ≤ c) × (c ≤ 57)) s → All IsRune s
digit_runes [] h = tt
digit_runes (c ∷ s) (h, hs) = (digit_rune c h, digit_runes s hs)
  where
    digit_rune : (c : ℕ) → (48 ≤ c) × (c ≤ 57) → IsRune c
    digit_rune c h = ground arith

module _ (dec : Decimal) (laws : DecimalLaws dec) where
  -- The header that is sent is read as the size and the name of the file.
  parse_header-file_header :
      (size : ℕ) (path : Text)
      → 0 < size
      → size ≤ max_file_size
      → IsSendable dec size path
      → parse_header dec (file_header dec size path) ≡ ok (some (size, win_base path))
  unfolding parse_header file_header
  parse_header-file_header size path nonempty small sendable =
      ap (λ t. split_header dec (split_star (trim_nul t))) decoded
      ∙ ap (λ t. split_header dec (split_star t)) (trim_nul-All line (nonzero line line_runes))
      ∙ ap (split_header dec) (split_star-print (dec.print size) path (laws.print-digits size))
      ∙ ap (λ o. checked_size o path) (laws.parse-print size)
      ∙ accepted
    where
      line : Text
      line = dec.print size ++ (b'*' ∷ path)

      line_runes : All IsRune line
      line_runes =
          All-append IsRune (dec.print size) (b'*' ∷ path)
            (digit_runes (dec.print size) (laws.print-digits size)) (ground arith, sendable.runes)

      zeros : (k : ℕ) × (pad 1024 (encode_utf16le line) ≡ encode_utf16le line ++ replicate k 0)
      zeros = pad-zeros 1024 (encode_utf16le line) sendable.fits

      decoded : decode_utf16le (copy_at 0 (encode_utf16le line) (replicate 1024 0)) ≡ line
      decoded =
          ap decode_utf16le (
            ap (λ b. copy_at 0 b (replicate 1024 0))
              (sym (take_all 1024 (encode_utf16le line) sendable.fits))
            ∙ copy_at-zeros 1024 (encode_utf16le line)
            ∙ zeros.1)
          ∙ decode_utf16le-encode_utf16le line (replicate zeros.0 0) line_runes
          ∙ ap (λ t. line ++ t) (decode-zeros zeros.0)
          ∙ append-nil line

      in_range : (leb_ℤ (pos size) (pos 0) || ltb_ℤ (pos max_file_size) (pos size)) ≡ false
      in_range = ground (arith, nonempty, small)

      accepted : checked_size (some (pos size)) path ≡ ok (some (size, win_base path))
      accepted = rw (sendable.no_text, sendable.no_image, in_range) refl

module _ (c : BlockCipher) (laws : CbcLaws c) (dec : Decimal) (numbers : DecimalLaws dec) where
  header_blocks : (size : ℕ) (path : Text) → length (file_header dec size path) ≡ 1024
  unfolding file_header
  header_blocks size path =
      length-copy_at 0 (encode_utf16le (dec.print size ++ (b'*' ∷ path))) (replicate 1024 0)
      ∙ length-replicate {A = ℕ} 1024 0

  -- What is on the wire: the header, and the file padded to whole blocks.
  abbrev pub wire : EncryptWriter c → Text → List ℕ → List ℕ
  wire e path file =
      (c.encrypt e.mode (file_header dec (length file) path)).1
      ++ (c.encrypt (c.encrypt e.mode (file_header dec (length file) path)).0 (padded_block file)).1

  send_file_stream_lem :
      (path : Text) (file : List ℕ) (e : EncryptWriter c)
      → 0 < length path
      → 0 < length file
      → ((send_file_stream c dec reliable path (some (length file, file)) e).1 ≡ none)
        × ((send_file_stream c dec reliable path (some (length file, file)) e).0.w.sent
            ≡ e.w.sent ++ wire e path file)
  unfolding send_file_stream
  send_file_stream_lem [] file e named nonempty = absurd (omega arith)
  send_file_stream_lem (x ∷ path) file e named nonempty =
      let header =
        write-reliable c laws e (file_header dec (length file) (x ∷ path))
          (omega (arith, header_blocks (length file) (x ∷ path))) in
      let (fine, sent) =
        send_loop_lem c laws (length file) file
          (after c laws e (file_header dec (length file) (x ∷ path))) nonempty (omega arith) in
      let step =
        ap (written_then c (send_loop c (length file) reliable (length file) file)) header in
      (ap (λ p. p.1) step ∙ fine, ap (λ p. p.0.w.sent) step ∙ sent ∙ append_assoc e.w.sent _ _)

  abbrev with_name :
      Text → Result TransferError (List ℕ) → Result TransferError (Option (Text × List ℕ))
  with_name name (ok bytes) = ok (some (name, bytes))
  with_name name (err x) = err x

  named_result : (name : Text) (p : Received c) → (named c name p).0 ≡ with_name name p.0
  named_result name (ok bytes, d) = refl
  named_result name (err x, d) = refl

  -- The reader's side, for a reader in step with the writer.
  pulled :
      (path : Text) (file rest : List ℕ) (e : EncryptWriter c) (d : DecryptReader c)
      → 0 < length file
      → length file ≤ max_file_size
      → IsSendable dec (length file) path
      → d.r.input
        ≡ (c.encrypt d.mode (file_header dec (length file) path)).1
          ++ ((c.encrypt
                (c.encrypt d.mode (file_header dec (length file) path)).0
                (padded_block file)).1
              ++ rest)
      → (pull_file c dec d).0 ≡ ok (some (win_base path, file))
  unfolding pull_file
  pulled path file rest e d nonempty small sendable input =
      ap (λ n. (header_of c dec (read_full c d n)).0) (sym (header_blocks (length file) path))
      ∙ ap (λ p. (header_of c dec p).0)
          (read_full_lem c laws d header (body ++ rest)
            (omega (arith, header_blocks (length file) path))
            (omega (arith, header_blocks (length file) path)) input)
      ∙ ap (λ r. (body_of c r d1).0)
          (parse_header-file_header dec numbers (length file) path nonempty small sendable)
      ∙ named_result (win_base path) (copy_loop c (length file) (length file) d1 [])
      ∙ ap (with_name (win_base path)) (
          copy_loop_lem c laws (length file) (length file) (padded_block file) rest [] d1
            (padded_block-IsBlocks file) nonempty (omega (arith, padded_length))
            (omega (arith, padded_length)) (omega arith) refl
          ∙ ap ok (take-append file (replicate ((16 - length file % 16) % 16) 0)))
    where
      header : List ℕ
      header = file_header dec (length file) path

      body : List ℕ
      body = (c.encrypt (c.encrypt d.mode header).0 (padded_block file)).1

      d1 : DecryptReader c
      d1 = record { r = record (d.r) { input = body ++ rest }; mode = (c.encrypt d.mode header).0 }

      padded_length : length (padded_block file) ≡ length file + (16 - length file % 16) % 16
      padded_length =
          length-append file (replicate ((16 - length file % 16) % 16) 0)
          ∙ ap (λ n. length file + n) (length-replicate {A = ℕ} ((16 - length file % 16) % 16) 0)

  -- A file of 1 byte to 100 MiB that `sendFileStream` sends over a connection that takes every write
  -- is sent without an error, and a peer whose reader is in step with the writer gets from what was
  -- sent, whatever follows, the base name of the path and the bytes of the file, if the cipher and
  -- decimal numbers keep their documented laws and the header can carry the path.
  pub pull_file-send_file_stream :
      (path : Text) (file rest : List ℕ) (e : EncryptWriter c) (d : DecryptReader c)
      → 0 < length path
      → 0 < length file
      → length file ≤ max_file_size
      → IsSendable dec (length file) path
      → d.mode ≡ e.mode
      → e.w.sent ++ (d.r.input)
        ≡ (send_file_stream c dec reliable path (some (length file, file)) e).0.w.sent ++ rest
      → ((send_file_stream c dec reliable path (some (length file, file)) e).1 ≡ none)
        × ((pull_file c dec d).0 ≡ ok (some (win_base path, file)))
  pull_file-send_file_stream path file rest e d named nonempty small sendable in_step got =
      let (fine, sent) = send_file_stream_lem path file e named nonempty in
      (
        fine,
        pulled path file rest e d nonempty small sendable (
            sym (drop-append e.w.sent d.r.input)
            ∙ ap (drop (length e.w.sent))
                (got ∙ ap (λ t. t ++ rest) sent ∙ append_assoc e.w.sent (wire e path file) rest)
            ∙ drop-append e.w.sent (wire e path file ++ rest)
            ∙ append_assoc _ _ rest
            ∙ ap
                (λ m.
                  (c.encrypt m (file_header dec (length file) path)).1
                  ++ ((c.encrypt (c.encrypt m (file_header dec (length file) path)).0
                        (padded_block file)).1
                      ++ rest))
                (sym in_step)),
      )
