-- ===== src/Clipboard/Manager/Assembly.antt =====
-- What a receiver puts together from the packets of `chunkPackets`
-- (internal/clipboard/clipboard_linux.go).
use wayland_without_borders.Prelude.{
  ℕ, zero, suc, ◌+◌, ◌-◌, ◌≡◌, ◌⊎◌, inl, inr, ◌<◌, ◌≤◌, refl, ap, sym, ◌∙◌, append_assoc,
  append-nil, Bool, true, false, some, List, [], ◌∷◌, ◌++◌, leb, Bool-cases, length, length-append,
  length-drop, drop, replicate, map, arith,
}
use wayland_without_borders.Prelude.Bytes.{copy_at-zeros, pad, length-pad}
use wayland_without_borders.Protocol.Types
use wayland_without_borders.Protocol.Types.{payload_of}
use wayland_without_borders.Protocol.Packet.{Packet}
use wayland_without_borders.Protocol.Packet.Wire.{on_wire}
use wayland_without_borders.Clipboard.Formats.{Strings}
use wayland_without_borders.Clipboard.Manager.{
  Deflate, Manager, max_recv_buf, chunk_packet, chunk_loop, handle_chunk, handle_packet,
  handle_packets, started, with_chunk,
}

-- The chunks one after the other, each filled up with zeros.
unfoldable pub padded : ℕ → List ℕ → List ℕ
padded rounds [] = []
padded zero (b ∷ bytes) = []
padded (suc rounds) (b ∷ bytes) = pad 48 (b ∷ bytes) ++ padded rounds (drop 48 (b ∷ bytes))

pad_full : (m : ℕ) (d : List ℕ) → length d ≡ m → pad m d ≡ d
unfolding pad
pad_full zero [] h = refl
pad_full zero (x ∷ d) h = absurd (omega arith)
pad_full (suc m) [] h = absurd (omega arith)
pad_full (suc m) (x ∷ d) h = ap (λ t. x ∷ t) (pad_full m d (omega arith))

pad_zeros : (m : ℕ) → pad m [] ≡ replicate m 0
unfolding pad
pad_zeros zero = refl
pad_zeros (suc m) = ap (λ t. 0 ∷ t) (pad_zeros m)

pad_long : (m : ℕ) (d : List ℕ) → m ≤ length d → pad m d ++ drop m d ≡ d
unfolding pad
pad_long zero d h = refl
pad_long (suc m) [] h = absurd (omega arith)
pad_long (suc m) (x ∷ d) h = ap (λ t. x ∷ t) (pad_long m d (omega arith))

pad_short : (m n : ℕ) (d : List ℕ) → length d + n ≡ m → pad m d ≡ d ++ replicate n 0
unfolding pad
pad_short m n [] h = let e : m ≡ n = omega arith in rw e (pad_zeros n)
pad_short zero n (x ∷ d) h = absurd (omega arith)
pad_short (suc m) n (x ∷ d) h = ap (λ t. x ∷ t) (pad_short m n d (omega arith))

drop_short : (m : ℕ) (d : List ℕ) → length d ≤ m → drop m d ≡ []
drop_short zero [] h = refl
drop_short zero (x ∷ d) h = absurd (omega arith)
drop_short (suc m) [] h = refl
drop_short (suc m) (x ∷ d) h = drop_short m d (omega arith)

-- The assembled bytes are the bytes that were sent and fewer than 48 zeros.
abbrev pub Zeros : List ℕ → List ℕ → Type 0
Zeros bytes got = (k : ℕ) × (got ≡ bytes ++ replicate k 0) × (k < 48)

padded_step :
    (xs got : List ℕ)
    → 0 < length xs
    → (48 ≤ length xs) ⊎ (length xs < 48)
    → Zeros (drop 48 xs) got
    → (length xs < 48 → got ≡ [])
    → Zeros xs (pad 48 xs ++ got)
padded_step xs got pos (inl long) (k, e, small) last = (
  k,
  ap (λ t. pad 48 xs ++ t) e
      ∙ sym (append_assoc (pad 48 xs) (drop 48 xs) (replicate k 0))
      ∙ ap (λ t. t ++ replicate k 0) (pad_long 48 xs long),
  small,
)
padded_step xs got pos (inr short) z last = (
  48 - length xs,
  ap (λ t. pad 48 xs ++ t) (last short)
      ∙ append-nil (pad 48 xs)
      ∙ pad_short 48 (48 - length xs) xs (omega arith),
  omega arith,
)

padded_nil : (rounds : ℕ) → padded rounds [] ≡ []
unfolding padded
padded_nil rounds = refl

le_or_lt : (a b : ℕ) → (a ≤ b) ⊎ (b < a)
le_or_lt a b = elim (Bool-cases (leb a b)) [
  | inl e ↦ inl (ground arith)
  | inr e ↦ inr (ground arith)
]

pub padded-Zeros :
    (rounds : ℕ) (bytes : List ℕ) → length bytes ≤ rounds → Zeros bytes (padded rounds bytes)
unfolding padded
padded-Zeros rounds [] h = (0, refl, omega arith)
padded-Zeros zero (b ∷ bytes) h = absurd (omega arith)
padded-Zeros (suc rounds) (b ∷ bytes) h =
    padded_step (b ∷ bytes) (padded rounds (drop 48 (b ∷ bytes))) (omega arith)
      (le_or_lt 48 (length (b ∷ bytes)))
      (padded-Zeros rounds (drop 48 (b ∷ bytes)) (omega (arith, length-drop 48 (b ∷ bytes))))
      (λ short. rw (drop_short 48 (b ∷ bytes) (omega arith)) (padded_nil rounds))

chunk_typ :
    (sender : Manager) (chunk : List ℕ)
    → (on_wire (chunk_packet sender Types.clipboard_text chunk)).typ ≡ Types.clipboard_text
unfolding on_wire chunk_packet payload_of
chunk_typ sender chunk = refl

chunk_bytes :
    (sender : Manager) (chunk : List ℕ)
    → (on_wire (chunk_packet sender Types.clipboard_text chunk)).clipboard_data
      ≡ some (pad 48 chunk)
unfolding on_wire chunk_packet payload_of
chunk_bytes sender chunk =
    ap (λ d. some (pad 48 d)) (copy_at-zeros 48 chunk)
    ∙ ap (λ d. some d) (pad_full 48 (pad 48 chunk) (length-pad 48 chunk))

module _ (z : Deflate) (lib : Strings) (fine : Bool) (now : ℕ) (sender : Manager) where
  text_chunk :
      (m : Manager) (p : Packet) (d : List ℕ)
      → p.typ ≡ Types.clipboard_text
      → p.clipboard_data ≡ some d
      → handle_packet z lib fine now m p ≡ with_chunk (started m Types.clipboard_text) (some d)
  unfolding handle_packet handle_chunk
  text_chunk m p d t e = rw (t, e)

  -- A chunk of a stream that fits is appended.
  one_chunk :
      (m : Manager) (chunk : List ℕ)
      → m.receiving ≡ true
      → length m.recv_buf + 48 ≤ max_recv_buf
      → handle_packet z lib fine now m (on_wire (chunk_packet sender Types.clipboard_text chunk))
        ≡ record m { recv_buf = m.recv_buf ++ pad 48 chunk }
  one_chunk m chunk r fits =
      text_chunk m _ (pad 48 chunk) (chunk_typ sender chunk) (chunk_bytes sender chunk)
      ∙ appended (pad 48 chunk) (length-pad 48 chunk)
    where
      appended :
          (d : List ℕ)
          → length d ≡ 48
          → with_chunk (started m Types.clipboard_text) (some d)
            ≡ record m { recv_buf = m.recv_buf ++ d }
      appended d len = ground arith

  abbrev with_buf : Manager → List ℕ → Manager
  with_buf m b = record m { recv_buf = b }

  -- The stream of all chunks.
  pub all_chunks :
      (rounds : ℕ) (bytes : List ℕ) (m : Manager)
      → m.receiving ≡ true
      → length m.recv_buf + length (padded rounds bytes) ≤ max_recv_buf
      → handle_packets z lib fine now m
          (map on_wire (chunk_loop rounds sender Types.clipboard_text bytes))
        ≡ record m { recv_buf = m.recv_buf ++ padded rounds bytes }
  unfolding padded chunk_loop handle_packets
  all_chunks rounds [] m r fits = ap (with_buf m) (sym (append-nil m.recv_buf))
  all_chunks zero (b ∷ bytes) m r fits = ap (with_buf m) (sym (append-nil m.recv_buf))
  all_chunks (suc rounds) (b ∷ bytes) m r fits =
      rw (one_chunk m (b ∷ bytes) r (omega (arith, both))) (
        all_chunks rounds (drop 48 (b ∷ bytes)) (with_buf m (m.recv_buf ++ pad 48 (b ∷ bytes))) r (
          omega
            (arith, both, length-append m.recv_buf (pad 48 (b ∷ bytes)), length-pad 48 (b ∷ bytes)))
        ∙ ap (with_buf m)
            (append_assoc m.recv_buf (pad 48 (b ∷ bytes)) (padded rounds (drop 48 (b ∷ bytes)))))
    where
      both :
          length (pad 48 (b ∷ bytes) ++ padded rounds (drop 48 (b ∷ bytes)))
          ≡ 48 + length (padded rounds (drop 48 (b ∷ bytes)))
      both =
          length-append (pad 48 (b ∷ bytes)) (padded rounds (drop 48 (b ∷ bytes)))
          ∙ ap (λ n. n + length (padded rounds (drop 48 (b ∷ bytes)))) (length-pad 48 (b ∷ bytes))

  abbrev opened : Manager → Manager
  opened m = record m { recv_buf = []; receiving = true; recv_is_image = false }

  same_start :
      (m : Manager) (chunk : List ℕ)
      → m.receiving ≡ false
      → handle_packet z lib fine now m (on_wire (chunk_packet sender Types.clipboard_text chunk))
        ≡ handle_packet z lib fine now
            (opened m)
            (on_wire (chunk_packet sender Types.clipboard_text chunk))
  same_start m chunk r =
      text_chunk m _ (pad 48 chunk) (chunk_typ sender chunk) (chunk_bytes sender chunk)
      ∙ ap (λ k. with_chunk k (some (pad 48 chunk))) {y = opened m} (rw r)
      ∙ sym (
          text_chunk (opened m) _ (pad 48 chunk) (chunk_typ sender chunk)
            (chunk_bytes sender chunk))

  abbrev rest_of : ℕ → List ℕ → Manager → Manager
  rest_of rounds bytes k =
      handle_packets z lib fine now k
        (map on_wire (chunk_loop rounds sender Types.clipboard_text (drop 48 bytes)))

  -- The same from the start of a stream.
  pub new_stream :
      (rounds : ℕ) (bytes : List ℕ) (m : Manager)
      → m.receiving ≡ false
      → 0 < length bytes
      → length bytes ≤ rounds
      → length (padded rounds bytes) ≤ max_recv_buf
      → handle_packets z lib fine now m
          (map on_wire (chunk_loop rounds sender Types.clipboard_text bytes))
        ≡ record m { recv_buf = padded rounds bytes; receiving = true; recv_is_image = false }
  unfolding chunk_loop handle_packets
  new_stream rounds [] m r some_bytes enough fits = absurd (omega arith)
  new_stream zero (b ∷ bytes) m r some_bytes enough fits = absurd (omega arith)
  new_stream (suc rounds) (b ∷ bytes) m r some_bytes enough fits =
      ap (rest_of rounds (b ∷ bytes)) (same_start m (b ∷ bytes) r)
      ∙ all_chunks (suc rounds) (b ∷ bytes) (opened m) refl (omega arith)
