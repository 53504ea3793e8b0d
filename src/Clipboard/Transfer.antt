-- ===== src/Clipboard/Transfer.antt =====
-- internal/clipboard/filetransfer_linux.go: a file goes over a connection of its own, behind a
-- handshake and a header. A file is its bytes and the size that `Stat` told.
pub mod Names
pub mod Body
pub mod Sent
pub mod Delivered
use wayland_without_borders.Prelude.{
  ℕ, zero, suc, ◌+◌, ◌-◌, ◌*◌, ◌%◌, Bool, true, false, ◌&&◌, ◌||◌, not, Option, none, some, List,
  [], ◌∷◌, ◌++◌, ltb, ◌==◌, if◌then◌else◌, length, take, drop, replicate, get_or, Result, ok, err,
}
use wayland_without_borders.Prelude.Int.{ℤ, pos, leb_ℤ, ltb_ℤ, pos_part}
use wayland_without_borders.Prelude.Bytes.{copy_at, le_bytes_32}
use wayland_without_borders.Prelude.Text.{Text, bytes_of, has_prefix, to_lower, replace_byte}
use wayland_without_borders.Protocol.Types
use wayland_without_borders.Protocol.Types.{id_all}
use wayland_without_borders.Protocol.Stream.{
  BlockCipher, StreamError, eof, Fate, EncryptWriter, DecryptReader, write, read, read_full,
}
use wayland_without_borders.Clipboard.Utf16.{encode_utf16le, decode_utf16le}

abbrev pub clip_header_size : ℕ
clip_header_size = 1024

abbrev pub max_file_size : ℕ
max_file_size = 104857600

-- What strconv and fmt document of decimal numbers.
pub record Decimal : Type 0 where
  pub print : ℕ → Text
  pub parse : Text → Option ℤ

pub data TransferError : Type 0 where
  stream : StreamError → TransferError
  bad_peer : ℕ → TransferError
  bad_header bad_size no_file read_file : TransferError
  out_of_range : ℤ → TransferError

-- The 64-byte header of `clipHandshake`.
unfoldable pub data_header : Bool → ℕ → List ℕ → List ℕ
data_header push machine_id name =
    let front =
      (if push then Types.clipboard_push else Types.clipboard) ∷ replicate 7 0
      ++ (le_bytes_32 machine_id ++ (le_bytes_32 id_all ++ (le_bytes_32 1 ++ replicate 12 0))) in
    copy_at 32 name (front ++ replicate 32 32)

-- `strings.TrimRight(s, "\x00")`
unfoldable pub trim_nul : Text → Text
trim_nul [] = []
trim_nul (c ∷ s) = elim (trim_nul s) [ [] ↦ if c == 0 then [] else c ∷ [] | d ∷ t ↦ c ∷ d ∷ t ]

-- `strings.SplitN(s, "*", 2)`, where `none` is a text without `*`.
abbrev pub behind : ℕ → Option (Text × Text) → Option (Text × Text)
behind c none = none
behind c (some (a, b)) = some (c ∷ a, b)

unfoldable pub split_star : Text → Option (Text × Text)
split_star [] = none
split_star (c ∷ s) = if c == b'*' then some ([], s) else behind c (split_star s)

-- `strings.TrimRight(p, "/")` and what is behind the last `/`, as `filepath.Base` does.
unfoldable pub trim_slashes : Text → Text
trim_slashes [] = []
trim_slashes (c ∷ s) = elim (trim_slashes s) [
  | [] ↦ if c == b'/' then [] else c ∷ []
  | d ∷ t ↦ c ∷ d ∷ t
]

unfoldable pub last_element : Text → Text → Text
last_element [] element = element
last_element (c ∷ s) element = last_element s (if c == b'/' then [] else element ++ (c ∷ []))

abbrev pub or_slash : Text → Text
or_slash [] = bytes_of "/"
or_slash (c ∷ s) = c ∷ s

-- `filepath.Base`
unfoldable pub base : Text → Text
base [] = bytes_of "."
base (c ∷ s) = or_slash (last_element (trim_slashes (c ∷ s)) [])

-- `winBase`
unfoldable pub win_base : Text → Text
unfolding base
win_base p = base (replace_byte b'\\' b'/' p)

-- `pathToURI`
unfoldable pub path_to_uri : Text → Text
path_to_uri [] = []
path_to_uri (c ∷ s) = if c == 32 then bytes_of "%20" ++ path_to_uri s else c ∷ path_to_uri s

-- `strings.ReplaceAll(p, "%20", " ")`: `skip` characters of an occurrence are left.
unfoldable pub decode_spaces : ℕ → Text → Text
decode_spaces skip [] = []
decode_spaces (suc skip) (c ∷ s) = decode_spaces skip s
decode_spaces zero (c ∷ s) =
    let spaced = 32 ∷ decode_spaces 2 s in
    let kept = c ∷ decode_spaces 0 s in if has_prefix (c ∷ s) (bytes_of "%20") then spaced else kept

-- `uriToPath`
unfoldable pub uri_to_path : Text → Text
uri_to_path uri = decode_spaces 0 (if has_prefix uri (bytes_of "file://") then drop 7 uri else uri)

-- The 1024-byte header of `sendFileStream`.
unfoldable pub file_header : Decimal → ℕ → Text → List ℕ
file_header dec size path =
    copy_at 0 (encode_utf16le (dec.print size ++ (b'*' ∷ path))) (replicate clip_header_size 0)

-- What `pullFile` makes of the header: no file (the data comes in band), or its size and name.
abbrev pub checked_size : Option ℤ → Text → Result TransferError (Option (ℕ × Text))
checked_size none name = err bad_size
checked_size (some size) name =
    let name0 = to_lower name in
    if has_prefix name0 (bytes_of "text") || has_prefix name0 (bytes_of "image")
    then ok none
    else if leb_ℤ size (pos 0) || ltb_ℤ (pos max_file_size) size
    then err (out_of_range size)
    else ok (some (pos_part size, win_base name))

abbrev pub split_header : Decimal → Option (Text × Text) → Result TransferError (Option (ℕ × Text))
split_header dec none = err bad_header
split_header dec (some (size, name)) = checked_size (dec.parse size) name

unfoldable pub parse_header : Decimal → List ℕ → Result TransferError (Option (ℕ × Text))
parse_header dec hdr = split_header dec (split_star (trim_nul (decode_utf16le hdr)))

-- The final block, padded with zeros up to a multiple of 16 bytes.
abbrev pub padded_block : List ℕ → List ℕ
padded_block bytes = bytes ++ replicate ((16 - length bytes % 16) % 16) 0

-- How many bytes are read at a time.
abbrev pub at_most : ℕ → ℕ → ℕ
at_most limit n = if ltb limit n then limit else n

module _ (c : BlockCipher) where
  -- A write, and the rest of the loop.
  abbrev pub written_then :
      (EncryptWriter c → EncryptWriter c × Option TransferError)
      → EncryptWriter c × Option StreamError
      → EncryptWriter c × Option TransferError
  written_then next (e, none) = next e
  written_then next (e, some x) = (e, some (stream x))

  -- The loop of `sendFileStream`, on what is left of the file. Each round takes a byte at least.
  unfoldable pub send_loop :
      ℕ → Fate → ℕ → List ℕ → EncryptWriter c → EncryptWriter c × Option TransferError
  send_loop zero fate remaining file e = (e, none)
  send_loop (suc fuel) fate remaining file e =
      let got = take (at_most 65536 remaining) file in
      let left = remaining - length got in
      let out = if left == 0 then padded_block got else got in
      let rest =
        written_then (send_loop fuel fate left (drop (length got) file)) (write c fate e out) in
      if remaining == 0 then (e, none) else if length got == 0 then (e, some read_file) else rest

  -- `sendFileStream`, for a path and its file, if there is one.
  unfoldable pub send_file_stream :
      Decimal
      → Fate
      → Text
      → Option (ℕ × List ℕ)
      → EncryptWriter c
      → EncryptWriter c × Option TransferError
  send_file_stream dec fate [] file e = (e, some no_file)
  send_file_stream dec fate (x ∷ path) none e = (e, some no_file)
  send_file_stream dec fate (x ∷ path) (some (size, file)) e =
      written_then (send_loop size fate size file)
        (write c fate e (file_header dec size (x ∷ path)))

  abbrev pub Received : Type 0
  Received = Result TransferError (List ℕ) × DecryptReader c

  -- A round of `io.CopyN(f, dec, size)`, whose buffer has 32 KiB.
  abbrev pub copied :
      (List ℕ → DecryptReader c → Received)
      → Result StreamError (List ℕ) × DecryptReader c
      → Received
  copied next (ok bytes, d) = next bytes d
  copied next (err x, d) = (err (stream x), d)

  unfoldable pub copy_loop : ℕ → ℕ → DecryptReader c → List ℕ → Received
  copy_loop zero remaining d got = (ok got, d)
  copy_loop (suc fuel) remaining d got =
      let rest =
        copied (λ bytes d'. copy_loop fuel (remaining - length bytes) d' (got ++ bytes))
          (read c d (at_most 32768 remaining)) in
      if remaining == 0 then (ok got, d) else rest

  -- The rest of `pullFile` behind the handshake: `none` for data that comes in band, or the name
  -- under `saveDir` and the bytes.
  abbrev pub named :
      Text → Received → Result TransferError (Option (Text × List ℕ)) × DecryptReader c
  named name (ok bytes, d) = (ok (some (name, bytes)), d)
  named name (err x, d) = (err x, d)

  abbrev pub body_of :
      Result TransferError (Option (ℕ × Text))
      → DecryptReader c
      → Result TransferError (Option (Text × List ℕ)) × DecryptReader c
  body_of (err x) d = (err x, d)
  body_of (ok none) d = (ok none, d)
  body_of (ok (some (size, name))) d = named name (copy_loop size size d [])

  abbrev pub header_of :
      Decimal
      → Result StreamError (List ℕ) × DecryptReader c
      → Result TransferError (Option (Text × List ℕ)) × DecryptReader c
  header_of dec (err x, d) = (err (stream x), d)
  header_of dec (ok hdr, d) = body_of (parse_header dec hdr) d

  unfoldable pub pull_file :
      Decimal → DecryptReader c → Result TransferError (Option (Text × List ℕ)) × DecryptReader c
  pull_file dec d = header_of dec (read_full c d clip_header_size)

  -- `clipHandshake` over fresh streams, with the random block, up to the peer's header.
  abbrev pub peer_checked :
      Result StreamError (List ℕ) × DecryptReader c → Option TransferError × DecryptReader c
  peer_checked (err x, d) = (some (stream x), d)
  peer_checked (ok peer, d) =
      let pt = get_or peer 0 0 in
      if pt == Types.clipboard || pt == Types.clipboard_push
      then (none, d)
      else (some (bad_peer pt), d)

  abbrev pub iv_read :
      Result StreamError (List ℕ) × DecryptReader c → Option TransferError × DecryptReader c
  iv_read (err x, d) = (some (stream x), d)
  iv_read (ok ran, d) = peer_checked (read_full c d 64)

  abbrev pub greeted :
      DecryptReader c
      → EncryptWriter c × Option TransferError
      → EncryptWriter c × (Option TransferError × DecryptReader c)
  greeted d (e, some x) = (e, (some x, d))
  greeted d (e, none) = (e, iv_read (read_full c d 16))

  unfoldable pub clip_handshake :
      Fate
      → List ℕ
      → Bool
      → ℕ
      → List ℕ
      → EncryptWriter c
      → DecryptReader c
      → EncryptWriter c × (Option TransferError × DecryptReader c)
  clip_handshake fate ran push machine_id name e d = greeted d (
      written_then
        (λ e'.
          written_then (λ e''. (e'', none)) (write c fate e' (data_header push machine_id name)))
        (write c fate e ran))
