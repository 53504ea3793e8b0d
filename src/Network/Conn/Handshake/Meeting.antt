-- ===== src/Network/Conn/Handshake/Meeting.antt =====
-- Two ends that both run `doHandshake` of internal/network/client.go.
use wayland_without_borders.Prelude.{
  ℕ, ◌≡◌, refl, sym, ◌∙◌, ap, subst, Option, none, some, List, [], ◌∷◌, ◌++◌, replicate, take,
}
use wayland_without_borders.Prelude.Bytes.{IsU32}
use wayland_without_borders.Protocol.Types.{payload_of}
use wayland_without_borders.Protocol.Packet.{Packet}
use wayland_without_borders.Protocol.Packet.Wire.{IsValid, on_wire}
use wayland_without_borders.Protocol.Packet.Names.{
  set_machine_name, machine_name, trim_right, machine_name-set_machine_name,
}
use wayland_without_borders.Protocol.Stream.{BlockCipher, CbcLaws, Fate, DecryptReader}
use wayland_without_borders.Network.Conn.{Conn, ◌>>=◌}
use wayland_without_borders.Network.Conn.Delivery.{InStep}
use wayland_without_borders.Network.Conn.Handshake.{
  HandshakeError, challenge_of, handshake_packet, ack_packet, on_shake, on_received, await_ack,
  do_handshake,
}
use wayland_without_borders.Network.Conn.Handshake.Accepted.{confirms-inverted}
use wayland_without_borders.Network.Conn.Handshake.Streams.{
  after_send, after_sends, wire, IsSender, Reads, arrived, read_on, Reads-recv_packet,
  after_sends-append, after_sends-wire,
}
use wayland_without_borders.Network.Conn.Handshake.Valid.{
  IsEnd, handshake_packet-IsValid, ack_packet-IsValid,
}
use wayland_without_borders.Network.Conn.Handshake.Answers.{
  send_times_ok, after_sends-IsSender, greet_loop,
}

module _ (c : BlockCipher) (laws : CbcLaws c) (fate : Fate) (free : (n : ℕ) → fate n ≡ none) where
  -- The peer's answer to this end's challenge ends the wait.
  accepted :
      (next : Conn c → Option (Conn c × Option HandshakeError)) (x y peer me : Conn c)
      (ran : List ℕ)
      → on_shake c fate
          (challenge_of ran)
          next
          x
          (arrived c laws y (ack_packet c peer (handshake_packet c me ran)))
        ≡ some (
          record x {
            remote_name = trim_right (take 32 peer.local_name);
            remote_id = peer.machine_id;
          },
          none,
        )
  unfolding on_shake on_wire payload_of handshake_packet set_machine_name ack_packet machine_name
  accepted next x y peer me ran = rw (confirms-inverted c (challenge_of ran)) (
      ap (λ name. some (record x { remote_name = name; remote_id = peer.machine_id }, none))
        (machine_name-set_machine_name (handshake_packet c me ran) peer.local_name))

  -- What an end says in a handshake with `peer`: ten challenges, and ten answers.
  abbrev pub talk : Conn c → List ℕ → Conn c → List ℕ → List Packet
  talk x ran peer peer_ran =
      replicate 10 (handshake_packet c x ran)
      ++ replicate 10 (ack_packet c x (handshake_packet c peer peer_ran))

  -- The end knows its peer, and has written what it says in a handshake.
  pub record HasMet (x : Conn c) (ran : List ℕ) (peer : Conn c) (peer_ran : List ℕ) (x' : Conn c)
      : Type 0 where
    pub remote_id : x'.remote_id ≡ peer.machine_id
    pub remote_name : x'.remote_name ≡ trim_right (take 32 peer.local_name)
    pub written : x'.enc.w.sent ≡ x.enc.w.sent ++ wire c laws x (talk x ran peer peer_ran)

  -- What sending leaves alone.
  after_sends_keeps :
      (x : Conn c) (ps : List Packet)
      → let x' : Conn c = after_sends c laws x ps in
        (x'.dec ≡ x.dec)
        × (x'.machine_id ≡ x.machine_id)
        × (x'.local_name ≡ x.local_name)
        × (x'.magic ≡ x.magic)
  unfolding after_sends
  after_sends_keeps x [] = (refl, refl, refl, refl)
  after_sends_keeps x (p ∷ ps) = after_sends_keeps (after_send c laws x p) ps

  after_sends-Reads :
      (x y : Conn c) (sends ps : List Packet) (rest : List ℕ)
      → Reads c laws y x ps rest
      → Reads c laws y (after_sends c laws x sends) ps rest
  after_sends-Reads x y sends ps rest (step, input) =
      let (reader, id, name, magic) = after_sends_keeps x sends in
      (
        record {
          magic = step.magic ∙ sym magic;
          word = subst IsU32 (sym magic) step.word;
          mode = step.mode ∙ ap (λ (d : DecryptReader c). d.mode) (sym reader);
          counter = step.counter;
        },
        ap (λ (d : DecryptReader c). d.r.input) reader ∙ input,
      )

  same_ack :
      (x : Conn c) (sends : List Packet) (p : Packet)
      → ack_packet c (after_sends c laws x sends) p ≡ ack_packet c x p
  unfolding ack_packet
  same_ack x sends p =
      let (reader, id, name, magic) = after_sends_keeps x sends in rw (id, name) refl

  one_end :
      (now : ℕ → ℕ) (x y : Conn c) (ran peer_ran rest : List ℕ)
      → IsSender c laws x
      → IsEnd x ran
      → IsEnd y peer_ran
      → InStep c laws y x
      → x.dec.r.input ≡ wire c laws y (talk y peer_ran x ran) ++ rest
      → (x' : Conn c) × (do_handshake c now fate ran x ≡ some (x', none))
        × HasMet x ran y peer_ran x'
  unfolding do_handshake await_ack
  one_end now x y ran peer_ran rest s id peer_id step input =
      let hs : Packet = handshake_packet c x ran in
      let peer_hs : Packet = handshake_packet c y peer_ran in
      let v : IsValid hs = handshake_packet-IsValid c x ran id in
      let x1 : Conn c = after_sends c laws x (replicate 10 hs) in
      let x2 : Conn c = after_sends c laws x1 (replicate 10 (ack_packet c x1 peer_hs)) in
      let y1 : Conn c = after_sends c laws y (replicate 10 peer_hs) in
      let answer : Packet = ack_packet c y hs in
      let (d, t, waits, reads) =
        greet_loop c laws fate free 10 10 now (challenge_of ran) x1 y y peer_ran x1.dec x1.last_recv
          (replicate 10 answer) rest (after_sends-IsSender c laws fate free 10 x hs s v)
          (subst IsU32 (sym (after_sends_keeps x (replicate 10 hs)).1) id.0) peer_id
          (after_sends-Reads x y (replicate 10 hs) (talk y peer_ran x ran) rest (step, input)) in
      let (got, on) =
        Reads-recv_packet c laws (now 9) y1 (record x2 { dec = d; last_recv = t }) answer
          (replicate 9 answer) rest (ack_packet-IsValid c y x ran peer_id.0 id.0) reads in
      let x3 : Conn c =
        read_on c laws (now 9) y1 (record x2 { dec = d; last_recv = t }) answer
          (wire c laws (after_send c laws y1 answer) (replicate 9 answer) ++ rest) in
      (
        record x3 { remote_name = trim_right (take 32 y.local_name); remote_id = y.machine_id },
        send_times_ok c laws fate free 10 x hs (await_ack c 20 now fate (challenge_of ran)) s v
            ∙ waits
            ∙ ap
                (λ r.
                  r
                  >>= on_received c fate (challenge_of ran)
                      (await_ack c 9 now fate (challenge_of ran)))
                got
            ∙ accepted (await_ack c 9 now fate (challenge_of ran)) x3 y1 y x ran,
        record {
          remote_id = refl;
          remote_name = refl;
          written =
              ap (λ p. (after_sends c laws x1 (replicate 10 p)).enc.w.sent)
                (same_ack x (replicate 10 hs) peer_hs)
              ∙ ap (λ (k : Conn c). k.enc.w.sent)
                  (sym (
                    after_sends-append c laws x (replicate 10 hs)
                      (replicate 10 (ack_packet c x peer_hs))))
              ∙ after_sends-wire c laws x (talk x ran y peer_ran);
        },
      )

  -- Two ends that are in step both ways and read what the other says, each with something behind it:
  -- both handshakes succeed, each end knows the other's id and its name, cut to 32 bytes and
  -- without trailing spaces, and has written just what the other reads. The cipher keeps its
  -- documented laws, the connection takes every byte, and ids and random bytes have their Go types.
  pub do_handshake-HasMet :
      (now now' : ℕ → ℕ) (x y : Conn c) (ran peer_ran rest peer_rest : List ℕ)
      → IsEnd x ran
      → IsEnd y peer_ran
      → InStep c laws x y
      → InStep c laws y x
      → x.dec.r.input ≡ wire c laws y (talk y peer_ran x ran) ++ rest
      → y.dec.r.input ≡ wire c laws x (talk x ran y peer_ran) ++ peer_rest
      → ((x' : Conn c) × (do_handshake c now fate ran x ≡ some (x', none))
          × HasMet x ran y peer_ran x')
        × ((y' : Conn c) × (do_handshake c now' fate peer_ran y ≡ some (y', none))
            × HasMet y peer_ran x ran y')
  do_handshake-HasMet now now' x y ran peer_ran rest peer_rest id peer_id out back input
        peer_input =
      (
        one_end now x y ran peer_ran rest (back.word, out.counter) id peer_id back input,
        one_end now' y x peer_ran ran peer_rest (out.word, back.counter) peer_id id out peer_input,
      )
