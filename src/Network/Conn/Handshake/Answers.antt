-- ===== src/Network/Conn/Handshake/Answers.antt =====
-- An end of the handshake answers its peer's challenges (internal/network/client.go).
use wayland_without_borders.Prelude.{
  ℕ, zero, suc, ◌≡◌, refl, ◌∙◌, ap, Option, none, List, ◌++◌, replicate,
}
use wayland_without_borders.Prelude.Bytes.{IsU32}
use wayland_without_borders.Protocol.Types.{payload_of}
use wayland_without_borders.Protocol.Packet.{Packet, HandshakeData}
use wayland_without_borders.Protocol.Packet.Wire.{IsValid, on_wire}
use wayland_without_borders.Protocol.Packet.Names.{set_machine_name}
use wayland_without_borders.Protocol.Stream.{BlockCipher, CbcLaws, Fate, DecryptReader}
use wayland_without_borders.Network.Conn.{Conn, ◌>>=◌}
use wayland_without_borders.Network.Conn.Handshake.{
  HandshakeError, send_times, handshake_packet, ack_packet, on_shake, on_received, await_ack,
}
use wayland_without_borders.Network.Conn.Handshake.Streams.{
  after_send, after_sends, wire, IsSender, Reads, arrived, read_on, Reads-recv_packet,
  send_packet_ok,
}
use wayland_without_borders.Network.Conn.Handshake.Valid.{
  IsEnd, handshake_packet-IsValid, ack_packet-IsValid,
}

module _ (c : BlockCipher) (laws : CbcLaws c) (fate : Fate) (free : (n : ℕ) → fate n ≡ none) where
  -- The ten handshake packets are sent.
  pub send_times_ok :
      (k : ℕ) (x : Conn c) (p : Packet) (next : Conn c → Option (Conn c × Option HandshakeError))
      → IsSender c laws x
      → IsValid p
      → send_times c k fate x p next ≡ next (after_sends c laws x (replicate k p))
  unfolding send_times after_sends
  send_times_ok zero x p next s v = refl
  send_times_ok (suc k) x p next s v =
      let (out, s') = send_packet_ok c laws fate x p s v (free x.enc.w.writes) in
      rw (out) (send_times_ok k (after_send c laws x p) p next s' v)

  pub after_sends-IsSender :
      (k : ℕ) (x : Conn c) (p : Packet)
      → IsSender c laws x
      → IsValid p
      → IsSender c laws (after_sends c laws x (replicate k p))
  unfolding after_sends
  after_sends-IsSender zero x p s v = s
  after_sends-IsSender (suc k) x p s v =
      let (out, s') = send_packet_ok c laws fate x p s v (free x.enc.w.writes) in
      after_sends-IsSender k (after_send c laws x p) p s' v

  -- The connection with what it has read.
  abbrev with_read : Conn c → DecryptReader c → ℕ → Conn c
  with_read x d t = record x { dec = d; last_recv = t }

  -- A handshake packet of the peer is answered.
  greeted :
      (challenge : HandshakeData) (next : Conn c → Option (Conn c × Option HandshakeError))
      (x y peer : Conn c) (ran : List ℕ)
      → IsSender c laws x
      → IsU32 x.machine_id
      → IsU32 peer.machine_id
      → on_shake c fate challenge next x (arrived c laws y (handshake_packet c peer ran))
        ≡ next (after_send c laws x (ack_packet c x (handshake_packet c peer ran)))
  unfolding on_shake on_wire payload_of handshake_packet set_machine_name ack_packet
  greeted challenge next x y peer ran s id pid =
      let (out, s') =
        send_packet_ok c laws fate x (ack_packet c x (handshake_packet c peer ran)) s
          (ack_packet-IsValid c x peer ran id pid) (free x.enc.w.writes) in
      rw (out) refl

  abbrev plus : ℕ → ℕ → ℕ
  plus zero m = m
  plus (suc k) m = suc (plus k m)

  -- The wait reads `k` handshake packets and answers each.
  pub greet_loop :
      (k m : ℕ) (now : ℕ → ℕ) (challenge : HandshakeData) (x y peer : Conn c) (ran : List ℕ)
      (d : DecryptReader c) (t : ℕ) (qs : List Packet) (rest : List ℕ)
      → IsSender c laws x
      → IsU32 x.machine_id
      → IsEnd peer ran
      → Reads c laws y (with_read x d t) (replicate k (handshake_packet c peer ran) ++ qs) rest
      → (d' : DecryptReader c) × (t' : ℕ) × (await_ack c
            (plus k m)
            now
            fate
            challenge
            (with_read x d t)
          ≡ await_ack c m now fate challenge (
              with_read
                (after_sends c laws x (replicate k (ack_packet c x (handshake_packet c peer ran))))
                d'
                t'))
        × Reads c laws
            (after_sends c laws y (replicate k (handshake_packet c peer ran)))
            (with_read
              (after_sends c laws x (replicate k (ack_packet c x (handshake_packet c peer ran))))
              d'
              t')
            qs
            rest
  unfolding await_ack after_sends ack_packet
  greet_loop zero m now challenge x y peer ran d t qs rest s id e reads = (d, t, refl, reads)
  greet_loop (suc k) m now challenge x y peer ran d t qs rest s id e reads =
      let hs : Packet = handshake_packet c peer ran in
      let ack : Packet = ack_packet c x hs in
      let at : ℕ = now (plus k m) in
      let (got, on) =
        Reads-recv_packet c laws at y (with_read x d t) hs (replicate k hs ++ qs) rest
          (handshake_packet-IsValid c peer ran e) reads in
      let (out, s') =
        send_packet_ok c laws fate x ack s (ack_packet-IsValid c x peer ran id e.0)
          (free x.enc.w.writes) in
      let x1 : Conn c =
        read_on c laws at y (with_read x d t) hs
          (wire c laws (after_send c laws y hs) (replicate k hs ++ qs) ++ rest) in
      let (d', t', waits, after) =
        greet_loop k m now challenge (after_send c laws x ack) (after_send c laws y hs) peer ran
          x1.dec at qs rest s' id e
          (
            record {
              magic = on.0.magic;
              word = on.0.word;
              mode = on.0.mode;
              counter = on.0.counter;
            },
            on.1,
          ) in
      (
        d',
        t',
        ap (λ r. r >>= on_received c fate challenge (await_ack c (plus k m) now fate challenge)) got
            ∙ greeted challenge (await_ack c (plus k m) now fate challenge) x1 y peer ran s id e.0
            ∙ waits,
        after,
      )
