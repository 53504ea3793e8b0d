-- ===== src/Protocol/Stream.antt =====
-- internal/protocol/stream.go: AES-CBC over a connection. The cipher, from crypto/aes and
-- crypto/cipher, is a parameter: an encrypter and a decrypter with a chaining state.
pub mod Laws
use wayland_without_borders.Prelude.{
  ℕ, zero, suc, ◌+◌, ◌-◌, ◌*◌, ◌/◌, ◌%◌, ◌≡◌, Bool, Option, none, some, List, [], ◌∷◌, ◌++◌, ltb,
  ◌==◌, if◌then◌else◌, length, take, drop, Result, ok, err,
}

pub record BlockCipher : Type 1 where
  pub Mode : Type 0
  pub encrypt : Mode → List ℕ → Mode × List ℕ
  pub decrypt : Mode → List ℕ → Mode × List ℕ

abbrev pub aes_block_size : ℕ
aes_block_size = 16

abbrev pub IsBlocks : List ℕ → Type 0
IsBlocks p = length p % 16 ≡ 0

-- What cipher.BlockMode documents of `CryptBlocks`: it keeps the length, a decrypter in the
-- encrypter's state gives the plaintext back and ends in its state, and consecutive calls do what
-- one call on the concatenation does.
pub record CbcLaws (c : BlockCipher) : Type 0 where
  pub length-encrypt : (m : c.Mode) (p : List ℕ) → IsBlocks p → length (c.encrypt m p).1 ≡ length p
  pub decrypt-encrypt :
      (m : c.Mode) (p : List ℕ)
      → IsBlocks p
      → c.decrypt m (c.encrypt m p).1 ≡ ((c.encrypt m p).0, p)
  pub encrypt-append :
      (m : c.Mode) (p q : List ℕ)
      → IsBlocks p
      → IsBlocks q
      → (c.encrypt m (p ++ q)).1 ≡ (c.encrypt m p).1 ++ (c.encrypt (c.encrypt m p).0 q).1
  pub encrypt-append_mode :
      (m : c.Mode) (p q : List ℕ)
      → IsBlocks p
      → IsBlocks q
      → (c.encrypt m (p ++ q)).0 ≡ (c.encrypt (c.encrypt m p).0 q).0

-- `stuck` is no Go value: the loop of `read_full` ran out of fuel.
pub data StreamError : Type 0 where
  not_blocks : ℕ → StreamError
  eof unexpected_eof stuck : StreamError
  io : ℕ → StreamError

-- The outgoing half of a connection: the bytes that were sent, and how often it was written to.
pub record Sink : Type 0 where
  pub sent : List ℕ
  pub writes : ℕ

-- The incoming half: the bytes that are still to come, and the error behind them, if it is not the
-- end of the stream.
pub record Source : Type 0 where
  pub input : List ℕ
  pub fault : Option ℕ

-- The fate of the n-th write: all bytes go out, or the first `k` and then an error.
abbrev pub Fate : Type 0
Fate = ℕ → Option (ℕ × ℕ)

unfoldable pub raw_write : Fate → Sink → List ℕ → Sink × Option StreamError
raw_write fate s bytes = elim (fate s.writes) [
  | none ↦ (record { sent = s.sent ++ bytes; writes = suc s.writes }, none)
  | some (k, e) ↦ (record { sent = s.sent ++ take k bytes; writes = suc s.writes }, some (io e))
]

-- `io.ReadFull(r, buf)` on a connection, for a buffer of `n` bytes: all of them or an error.
unfoldable pub raw_read_full : Source → ℕ → Result StreamError (List ℕ) × Source
raw_read_full s n =
    if ltb (length s.input) n
    then (
      err (elim s.fault [
        | some e ↦ io e
        | none ↦ elim s.input [ [] ↦ eof | b ∷ bs ↦ unexpected_eof ]
      ]),
      record s { input = [] },
    )
    else (ok (take n s.input), record s { input = drop n s.input })

module _ (c : BlockCipher) where
  open c use {Mode, encrypt, decrypt}

  pub record EncryptWriter : Type 0 where
    pub w : Sink
    pub mode : Mode

  pub record DecryptReader : Type 0 where
    pub r : Source
    pub mode : Mode

  -- `EncryptWriter.Write`
  unfoldable pub write : Fate → EncryptWriter → List ℕ → EncryptWriter × Option StreamError
  write fate e p =
      if (length p % aes_block_size) == 0
      then (let (mode', ct) = encrypt e.mode p in
          let (w', x) = raw_write fate e.w ct in (record { w = w'; mode = mode' }, x))
      else (e, some (not_blocks (length p)))

  -- What `DecryptReader.Read` asks the connection for: whole blocks, one at least.
  unfoldable pub read_size : ℕ → ℕ
  read_size len =
      let n = if ltb len aes_block_size then aes_block_size else len in
      n / aes_block_size * aes_block_size

  abbrev pub decrypted :
      Mode → ℕ → Result StreamError (List ℕ) × Source → Result StreamError (List ℕ) × DecryptReader
  decrypted mode len (err x, s) = (err x, record { r = s; mode = mode })
  decrypted mode len (ok ct, s) =
      let (mode', plain) = decrypt mode ct in (ok (take len plain), record { r = s; mode = mode' })

  -- `DecryptReader.Read` into a buffer of `len` bytes: the bytes that it stores there.
  unfoldable pub read : DecryptReader → ℕ → Result StreamError (List ℕ) × DecryptReader
  read d len = decrypted d.mode len (raw_read_full d.r (read_size len))

  -- One round of `io.ReadFull(d, buf)`, with the bytes so far and the rest of the loop.
  abbrev pub more_of :
      List ℕ
      → (List ℕ → DecryptReader → Result StreamError (List ℕ) × DecryptReader)
      → Result StreamError (List ℕ) × DecryptReader
      → Result StreamError (List ℕ) × DecryptReader
  more_of got next (ok bytes, d) = next (got ++ bytes) d
  more_of [] next (err x, d) = (err x, d)
  more_of (b ∷ got) next (err eof, d) = (err unexpected_eof, d)
  more_of (b ∷ got) next (err x, d) = (err x, d)

  -- `io.ReadFull(d, buf)` for a buffer of `n` bytes. Each round stores a byte at least, so `n`
  -- rounds are enough.
  unfoldable pub read_full_loop :
      ℕ → ℕ → List ℕ → DecryptReader → Result StreamError (List ℕ) × DecryptReader
  read_full_loop zero n got d = if ltb (length got) n then (err stuck, d) else (ok got, d)
  read_full_loop (suc fuel) n got d =
      let rest = more_of got (read_full_loop fuel n) (read d (n - length got)) in
      if ltb (length got) n then rest else (ok got, d)

  unfoldable pub read_full : DecryptReader → ℕ → Result StreamError (List ℕ) × DecryptReader
  read_full d n = read_full_loop n n [] d
