-- ===== src/Clipboard/Manager/Bound.antt =====
-- How much the receiver buffers (internal/clipboard/clipboard_linux.go).
use wayland_without_borders.Prelude.{
  ℕ, ◌≡◌, ◌≤◌, refl, Bool, false, Option, none, some, List, [], ◌∷◌, length, length-append, arith,
}
use wayland_without_borders.Protocol.Packet.{Packet}
use wayland_without_borders.Prelude.Text.{Text}
use wayland_without_borders.Clipboard.Formats.{Strings}
use wayland_without_borders.Clipboard.Manager.{
  Deflate, Manager, max_recv_buf, started, with_chunk, handle_chunk, handle_image, take_text,
  inflated, handle_end, on_ask, handle_packet, handle_packets,
}

abbrev pub IsBounded : Manager → Type 0
IsBounded m = length m.recv_buf ≤ max_recv_buf

with_chunk-IsBounded :
    (m : Manager) (d : Option (List ℕ)) → IsBounded m → IsBounded (with_chunk m d)
with_chunk-IsBounded m none h = h
with_chunk-IsBounded m (some d) h = ground (arith, length-append m.recv_buf d)

handle_chunk-IsBounded : (m : Manager) (p : Packet) → IsBounded m → IsBounded (handle_chunk m p)
unfolding handle_chunk
handle_chunk-IsBounded m p h =
    with_chunk-IsBounded (started m p.typ) p.clipboard_data (ground arith)

take_text-recv_buf : (now : ℕ) (m : Manager) (t : Text) → (take_text now m t).recv_buf ≡ m.recv_buf
unfolding take_text
take_text-recv_buf now m [] = refl
take_text-recv_buf now m (c ∷ cs) = refl

inflated-recv_buf :
    (lib : Strings) (now : ℕ) (m : Manager) (d : Option (List ℕ))
    → (inflated lib now m d).recv_buf ≡ m.recv_buf
inflated-recv_buf lib now m none = refl
inflated-recv_buf lib now m (some d) = take_text-recv_buf now m _

module _ (z : Deflate) (lib : Strings) (fine : Bool) (now : ℕ) where
  -- The end of a stream leaves nothing in the buffer.
  handle_end-recv_buf : (m : Manager) → (handle_end z lib fine now m).recv_buf ≡ []
  unfolding handle_end handle_image
  handle_end-recv_buf m = ground (
    arith,
    inflated-recv_buf lib now (record m { recv_buf = []; receiving = false })
        (z.decompress m.recv_buf),
  )

  handle_packet-IsBounded :
      (m : Manager) (p : Packet) → IsBounded m → IsBounded (handle_packet z lib fine now m p)
  unfolding handle_packet on_ask
  handle_packet-IsBounded m p h =
      ground (arith, handle_chunk-IsBounded m p h, handle_end-recv_buf m)

  -- Whatever packets arrive, the receive buffer never holds more than 2 MiB, if it did not at first.
  pub handle_packets-IsBounded :
      (ps : List Packet) (m : Manager)
      → IsBounded m
      → IsBounded (handle_packets z lib fine now m ps)
  unfolding handle_packets
  handle_packets-IsBounded [] m h = h
  handle_packets-IsBounded (p ∷ ps) m h =
      handle_packets-IsBounded ps _ (handle_packet-IsBounded m p h)
