-- ===== src/Network/Conn/Handshake/Streams.antt =====
-- The packets that one end sends in a row, as the other end reads them
-- (internal/network/client.go).
use wayland_without_borders.Prelude.{
  ℕ, ◌≡◌, refl, sym, ◌∙◌, ap, none, some, List, [], ◌∷◌, ◌++◌, append_assoc, append-nil, ok,
}
use wayland_without_borders.Prelude.Bytes.{IsU32}
use wayland_without_borders.Protocol.Packet.{Packet, marshal}
use wayland_without_borders.Protocol.Packet.Wire.{IsValid, on_wire}
use wayland_without_borders.Protocol.Stream.{BlockCipher, CbcLaws, Fate, DecryptReader}
use wayland_without_borders.Network.Conn.{Conn, send_packet, recv_packet, next_packet_id}
use wayland_without_borders.Network.Conn.Ids.{IsCounter, next_packet_id-IsCounter}
use wayland_without_borders.Network.Conn.Delivery.{InStep, delivered, plain, sent, behind}

module _ (c : BlockCipher) (laws : CbcLaws c) where
  abbrev pub after_send : Conn c → Packet → Conn c
  after_send a p = sent c laws a (next_packet_id a.next_id) (plain c laws a p)

  unfoldable pub after_sends : Conn c → List Packet → Conn c
  after_sends a [] = a
  after_sends a (p ∷ ps) = after_sends (after_send a p) ps

  -- The bytes that a run of packets puts on the wire.
  unfoldable pub wire : Conn c → List Packet → List ℕ
  wire a [] = []
  wire a (p ∷ ps) = (c.encrypt a.enc.mode (plain c laws a p)).1 ++ wire (after_send a p) ps

  abbrev pub IsSender : Conn c → Type 0
  IsSender a = IsU32 a.magic × IsCounter a.next_id

  -- The reader is in step with the sender, and these packets are what it reads next.
  abbrev pub Reads : Conn c → Conn c → List Packet → List ℕ → Type 0
  Reads a b ps rest = InStep c laws a b × (b.dec.r.input ≡ wire a ps ++ rest)

  -- What the receiver makes of a packet.
  abbrev pub arrived : Conn c → Packet → Packet
  arrived a p = record (on_wire (record p { id = next_packet_id a.next_id })) {
    raw = some (marshal (record p { id = next_packet_id a.next_id }));
  }

  abbrev pub read_on : ℕ → Conn c → Conn c → Packet → List ℕ → Conn c
  read_on now a b p rest = record b {
    dec = behind c laws b.dec (plain c laws a p) rest;
    last_recv = now;
  }

  pub Reads-recv_packet :
      (now : ℕ) (a b : Conn c) (p : Packet) (ps : List Packet) (rest : List ℕ)
      → IsValid p
      → Reads a b (p ∷ ps) rest
      → (recv_packet c now b
          ≡ some (ok (arrived a p), read_on now a b p (wire (after_send a p) ps ++ rest)))
        × Reads (after_send a p) (read_on now a b p (wire (after_send a p) ps ++ rest)) ps rest
  unfolding wire
  Reads-recv_packet now a b p ps rest v (s, input) =
      let ((out, arrives), next) =
        delivered c laws now (λ n. none) a b p (wire (after_send a p) ps ++ rest) v s refl
          (input ∙ append_assoc _ _ rest) in
      (arrives, (next, refl))

  -- A packet that is sent while the connection takes the bytes: the reader of the proof is made up.
  pub send_packet_ok :
      (fate : Fate) (a : Conn c) (p : Packet)
      → IsSender a
      → IsValid p
      → fate a.enc.w.writes ≡ none
      → (send_packet c fate a p ≡ some (after_send a p, none)) × IsSender (after_send a p)
  send_packet_ok fate a p (word, counter) v free =
      let reader : Conn c = record a {
        dec = record {
          r = record (a.dec.r) { input = (c.encrypt a.enc.mode (plain c laws a p)).1 ++ [] };
          mode = a.enc.mode;
        };
      } in
      let ((out, arrives), next) =
        delivered c laws 0 fate a reader p [] v
          (record { magic = refl; word = word; mode = refl; counter = counter }) free refl in
      (out, (word, (next_packet_id-IsCounter a.next_id counter).1))

  pub after_sends-append :
      (a : Conn c) (ps qs : List Packet)
      → after_sends a (ps ++ qs) ≡ after_sends (after_sends a ps) qs
  unfolding after_sends
  after_sends-append a [] qs = refl
  after_sends-append a (p ∷ ps) qs = after_sends-append (after_send a p) ps qs

  -- What is sent is what is on the wire.
  pub after_sends-wire :
      (a : Conn c) (ps : List Packet) → (after_sends a ps).enc.w.sent ≡ a.enc.w.sent ++ wire a ps
  unfolding after_sends wire
  after_sends-wire a [] = sym (append-nil a.enc.w.sent)
  after_sends-wire a (p ∷ ps) = after_sends-wire (after_send a p) ps ∙ append_assoc a.enc.w.sent _ _

  -- What an end has read is no part of what it sends.
  pub wire_lem :
      (a : Conn c) (d : DecryptReader c) (ps : List Packet)
      → wire (record a { dec = d }) ps ≡ wire a ps
  unfolding wire
  wire_lem a d [] = refl
  wire_lem a d (p ∷ ps) =
      ap (λ rest. (c.encrypt a.enc.mode (plain c laws a p)).1 ++ rest)
        (wire_lem (after_send a p) d ps)
