-- ===== src/Clipboard/Manager.antt =====
-- The Manager of internal/clipboard/clipboard_linux.go: chunks in and out, and the poll of the local
-- clipboard. A goroutine that is started, a packet sequence that is sent, and a write to the local
-- clipboard are recorded as effects, the last one first. What xclip and wl-paste answer is an
-- argument, and Deflate (compress/flate) is a parameter.
pub mod Assembly
pub mod Received
pub mod Echo
pub mod Bound
use wayland_without_borders.Prelude.{
  ℕ, zero, suc, ◌+◌, ◌-◌, ◌*◌, ◌≡◌, ◌<◌, Bool, true, false, ◌&&◌, ◌||◌, not, Option, none, some,
  List, [], ◌∷◌, ◌++◌, ltb, ◌==◌, if◌then◌else◌, length, take, drop, replicate, get_or,
}
use wayland_without_borders.Prelude.Bytes.{copy_at}
use wayland_without_borders.Prelude.Text.{Text, text_eq}
use wayland_without_borders.Protocol.Types
use wayland_without_borders.Protocol.Types.{PackageType, id_all}
use wayland_without_borders.Protocol.Packet.{Packet, new_packet}
use wayland_without_borders.Protocol.Packet.Names.{set_machine_name}
use wayland_without_borders.Clipboard.Utf16.{encode_utf16le, decode_utf16le, utf8}
use wayland_without_borders.Clipboard.Formats.{Strings, clip_text_payload, extract_clipboard_text}

abbrev pub chunk_size : ℕ
chunk_size = 48

abbrev pub max_inline_size : ℕ
max_inline_size = 1048576

abbrev pub max_recv_buf : ℕ
max_recv_buf = 2097152

-- `none` is an error.
pub record Deflate : Type 0 where
  pub compress : List ℕ → Option (List ℕ)
  pub decompress : List ℕ → Option (List ℕ)

-- What compress/flate documents: a stream is not empty, it is read back, and the reader stops at its
-- end, whatever follows.
pub record DeflateLaws (z : Deflate) : Type 0 where
  pub compress_nonempty : (bytes c : List ℕ) → z.compress bytes ≡ some c → 0 < length c
  pub decompress-compress :
      (bytes c rest : List ℕ) → z.compress bytes ≡ some c → z.decompress (c ++ rest) ≡ some bytes

-- The hash of what was sent last: a text by its length and its first 100 bytes, an image by its
-- length, a file by its path. These are strings in Go, `%d:%s`, `img:%d` and `file:%s`, which
-- differ as these values do.
pub data Hash : Type 0 where
  no_hash : Hash
  text_hash : ℕ → List ℕ → Hash
  image_hash : ℕ → Hash
  file_hash : Text → Hash

abbrev pub hash_eq : Hash → Hash → Bool
hash_eq no_hash no_hash = true
hash_eq (text_hash n p) (text_hash m q) = n == m && text_eq p q
hash_eq (image_hash n) (image_hash m) = n == m
hash_eq (file_hash p) (file_hash q) = text_eq p q
hash_eq _ _ = false

-- `fmt.Sprintf("%d:%s", len(text), text[:min(100, len(text))])`
unfoldable pub hash_of_text : Text → Hash
hash_of_text text = text_hash (length (utf8 text)) (take 100 (utf8 text))

pub data Effect : Type 0 where
  set_text : Text → Effect
  set_image : Bool → List ℕ → Effect
  pull_file send_clipboard : Effect
  push_file : Text → Text → Effect

pub record Manager : Type 0 where
  pub machine_id : ℕ
  pub local_name : Text
  pub key : Text
  pub host : Text
  pub last_hash : Hash
  pub local_file : Text
  pub recv_buf : List ℕ
  pub receiving : Bool
  pub recv_is_image : Bool
  pub just_set : Option ℕ
  pub effects : List Effect

-- `chunkPackets`: a packet takes a byte at least, so a round for each byte is enough.
unfoldable pub chunk_packet : Manager → PackageType → List ℕ → Packet
unfolding copy_at
chunk_packet m typ chunk = record (new_packet typ m.machine_id id_all) {
  clipboard_data = some (copy_at 0 (take chunk_size chunk) (replicate chunk_size 0));
}

unfoldable pub chunk_loop : ℕ → Manager → PackageType → List ℕ → List Packet
chunk_loop rounds m typ [] = []
chunk_loop zero m typ (b ∷ bytes) = []
chunk_loop (suc rounds) m typ (b ∷ bytes) =
    chunk_packet m typ (b ∷ bytes) ∷ chunk_loop rounds m typ (drop chunk_size (b ∷ bytes))

unfoldable pub chunk_packets : Manager → List ℕ → PackageType → List Packet
chunk_packets m bytes typ =
    chunk_loop (length bytes) m typ bytes ++ (chunk_packet m Types.clipboard_data_end [] ∷ [])

-- `sendText` and `sendImage`: the packets that are handed to `SendPackets`, if any.
unfoldable pub send_text : Deflate → Manager → Text → Option (List Packet)
send_text z m text = elim (z.compress (encode_utf16le (clip_text_payload text))) [
  | none ↦ none
  | some c ↦
      if ltb max_inline_size (length c) then none else some (chunk_packets m c Types.clipboard_text)
]

unfoldable pub send_image : Manager → List ℕ → Option (List Packet)
send_image m image =
    if ltb max_inline_size (length image)
    then none
    else some (chunk_packets m image Types.clipboard_image)

-- `sendBeat`
unfoldable pub beat_packet : Manager → Packet
beat_packet m = set_machine_name (new_packet Types.clipboard m.machine_id id_all) m.local_name

-- `handleChunk`: the first chunk starts a stream, and the one that is too much drops it.
abbrev pub started : Manager → PackageType → Manager
started m typ =
    if m.receiving
    then m
    else record m { recv_buf = []; receiving = true; recv_is_image = typ == Types.clipboard_image }

abbrev pub with_chunk : Manager → Option (List ℕ) → Manager
with_chunk m none = m
with_chunk m (some chunk) =
    if ltb max_recv_buf (length m.recv_buf + length chunk)
    then record m { recv_buf = []; receiving = false }
    else record m { recv_buf = m.recv_buf ++ chunk }

unfoldable pub handle_chunk : Manager → Packet → Manager
handle_chunk m p = with_chunk (started m p.typ) p.clipboard_data

-- Whether the image begins like a PNG file; anything else is offered as a bitmap.
abbrev pub is_png : List ℕ → Bool
is_png image =
    ltb 4 (length image)
    && get_or image 0 0 == 0x89
    && get_or image 1 0 == 0x50
    && get_or image 2 0 == 0x4E
    && get_or image 3 0 == 0x47

-- `handleImageClipboard`, where `fine` tells whether the command that sets the clipboard succeeds.
unfoldable pub handle_image : Bool → ℕ → Manager → List ℕ → Manager
handle_image fine now m image =
    let tried = record m { effects = set_image (is_png image) image ∷ m.effects } in
    if fine
    then record tried { just_set = some now; last_hash = image_hash (length image) }
    else tried

abbrev pub or_raw : List ℕ → Option (List ℕ) → List ℕ
or_raw raw none = raw
or_raw raw (some d) = d

unfoldable pub take_text : ℕ → Manager → Text → Manager
take_text now m [] = m
take_text now m (c ∷ cs) = record m {
  last_hash = hash_of_text (c ∷ cs);
  effects = set_text (c ∷ cs) ∷ m.effects;
  just_set = some now;
}

abbrev pub inflated : Strings → ℕ → Manager → Option (List ℕ) → Manager
inflated lib now m none = m
inflated lib now m (some d) = take_text now m (extract_clipboard_text lib (decode_utf16le d))

-- `handleEnd`
unfoldable pub handle_end : Deflate → Strings → Bool → ℕ → Manager → Manager
unfolding handle_image take_text
handle_end z lib fine now m =
    let m' = record m { recv_buf = []; receiving = false } in
    if length m.recv_buf == 0
    then m'
    else if m.recv_is_image
    then handle_image fine now m' (or_raw m.recv_buf (z.decompress m.recv_buf))
    else inflated lib now m' (z.decompress m.recv_buf)

-- `time.Since(m.justSet) < 3*time.Second`
unfoldable pub recently_set : Manager → ℕ → Bool
recently_set m now = elim m.just_set [ none ↦ false | some t ↦ ltb (now - t) 3000000000 ]

unfoldable pub on_ask : Manager → Packet → Manager
on_ask m p = if not (p.des == m.machine_id) then m else record m {
  effects =
      (if not (text_eq m.local_file []) && not (text_eq m.key []) && not (text_eq m.host [])
        then push_file m.host m.local_file
        else send_clipboard)
      ∷ m.effects;
}

-- `HandlePacket` at the time `now`
unfoldable pub handle_packet : Deflate → Strings → Bool → ℕ → Manager → Packet → Manager
unfolding recently_set on_ask handle_chunk handle_end
handle_packet z lib fine now m p =
    if p.typ == Types.clipboard_text
    then handle_chunk m p
    else if p.typ == Types.clipboard_image
    then handle_chunk m p
    else if p.typ == Types.clipboard_data_end
    then handle_end z lib fine now m
    else if p.typ == Types.clipboard
    then (if not (recently_set m now) && not (text_eq m.key [])
        then record m { effects = pull_file ∷ m.effects }
        else m)
    else if p.typ == Types.clipboard_ask
    then on_ask m p
    else m

unfoldable pub handle_packets : Deflate → Strings → Bool → ℕ → Manager → List Packet → Manager
unfolding handle_packet
handle_packets z lib fine now m [] = m
handle_packets z lib fine now m (p ∷ ps) =
    handle_packets z lib fine now (handle_packet z lib fine now m p) ps

-- `pullRemoteFile`, with the path that the transfer gives, if it is no error.
unfoldable pub pulled : ℕ → Manager → Option Text → Manager
pulled now m none = m
pulled now m (some path) =
    if text_eq m.host []
    then m
    else if text_eq path []
    then m
    else record m { just_set = some now; local_file = path; last_hash = file_hash path }

-- What the local clipboard holds at a poll: a file's path, an image, a text, and the text 150 ms later.
-- An empty text stands for none.
pub record Local : Type 0 where
  pub file : Text
  pub image : Option (List ℕ)
  pub text : Text
  pub text_again : Text

pub data Action : Type 0 where
  no_action beat : Action
  sends_image : List ℕ → Action
  sends_text : Text → Action

unfoldable pub poll_text : Manager → Local → Manager × Action
poll_text m l =
    if text_eq l.text []
      || hash_eq (hash_of_text l.text) m.last_hash
      || not (text_eq l.text_again l.text)
    then (m, no_action)
    else (record m { last_hash = hash_of_text l.text }, sends_text l.text)

unfoldable pub poll_image : Manager → Local → Option (List ℕ) → Manager × Action
unfolding poll_text
poll_image m l none = poll_text m l
poll_image m l (some image) =
    if hash_eq (image_hash (length image)) m.last_hash
    then (m, no_action)
    else (record m { last_hash = image_hash (length image) }, sends_image image)

-- One tick of `pollClipboard`
unfoldable pub poll : Manager → ℕ → Local → Manager × Action
unfolding poll_image recently_set
poll m now l =
    if recently_set m now
    then (m, no_action)
    else if not (text_eq m.key []) && not (text_eq l.file [])
    then (if hash_eq (file_hash l.file) m.last_hash
        then (m, no_action)
        else (record m { last_hash = file_hash l.file; local_file = l.file }, beat))
    else poll_image m l l.image
