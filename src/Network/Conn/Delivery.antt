-- ===== src/Network/Conn/Delivery.antt =====
-- A packet that is sent on one end is received on the other (internal/network/client.go over
-- internal/protocol).
use wayland_without_borders.Prelude.{
  ℕ, zero, suc, ◌+◌, ◌/◌, ◌%◌, ◌^◌, ◌<◌, ◌≤◌, ◌≡◌, refl, sym, ap, subst, ◌∙◌, Bool, true, false,
  none, some, List, [], ◌∷◌, ◌++◌, if◌then◌else◌, length, length-append, append_assoc, take, drop,
  take-append-drop, length-take, length-drop, get_or, ok, arith,
}
use wayland_without_borders.Prelude.Bytes.{IsU32}
use wayland_without_borders.Prelude.Int.{ℤ, IsI32}
use wayland_without_borders.Protocol.Types.{is_big_packet, wire_size, packet_size}
use wayland_without_borders.Protocol.Packet.{Packet, marshal, unmarshal}
use wayland_without_borders.Protocol.Packet.Wire.{IsValid, on_wire, set_id-IsValid}
use wayland_without_borders.Network.Conn.Ids.{IsCounter, next_packet_id-IsCounter}
use wayland_without_borders.Protocol.Packet.RoundTrip.{unmarshal-marshal}
use wayland_without_borders.Protocol.Packet.Front.{front}
use wayland_without_borders.Protocol.Stamp.Laws.{
  sum_bytes, stamped, checksum_of, stamp_packet_lem, clear_stamp_lem, validate_stamped,
}
use wayland_without_borders.Protocol.Stream.{
  BlockCipher, CbcLaws, IsBlocks, Fate, EncryptWriter, DecryptReader, write, read_full, raw_write,
}
use wayland_without_borders.Protocol.Stream.Laws.{read_full_lem}
use wayland_without_borders.Network.Conn.{
  Conn, next_packet_id, send_packet, recv_packet, recv_cleared,
}

small_or_big : (n typ : ℕ) → n + 4 ≡ wire_size typ → n ≡ (if is_big_packet typ then 60 else 28)
unfolding wire_size
small_or_big n typ h = by_size (is_big_packet typ) h
  where
    by_size : (big : Bool) → n + 4 ≡ (if big then 64 else 32) → n ≡ (if big then 60 else 28)
    by_size true e = omega arith
    by_size false e = omega arith

sum_bytes-append :
    (r i : ℕ) (xs ys : List ℕ) → i + r ≤ length xs → sum_bytes r i (xs ++ ys) ≡ sum_bytes r i xs
unfolding sum_bytes
sum_bytes-append zero i xs ys h = refl
sum_bytes-append (suc r) i xs ys h =
    ground (arith, get_or-append xs i ys (omega arith), sum_bytes-append r (suc i) xs ys)
  where
    get_or-append :
        (xs : List ℕ) (i : ℕ) (ys : List ℕ) → i < length xs → get_or (xs ++ ys) i 0 ≡ get_or xs i 0
    get_or-append [] i ys h = absurd (omega arith)
    get_or-append (x ∷ xs) zero ys h = refl
    get_or-append (x ∷ xs) (suc i) ys h = get_or-append xs i ys (omega arith)

-- The bytes behind the first 32 have no part in the stamp.
stamped-append :
    (t magic : ℕ) (xs ys : List ℕ)
    → 28 ≤ length xs
    → stamped t magic (xs ++ ys) ≡ stamped t magic xs ++ ys
stamped-append t magic xs ys h =
    ap (λ k. t ∷ k ∷ (magic / 2 ^ 16 % 256) ∷ (magic / 2 ^ 24 % 256) ∷ (xs ++ ys))
      (ap (λ s. s % 256)
        (sum_bytes-append 30 0 ((magic / 2 ^ 16 % 256) ∷ (magic / 2 ^ 24 % 256) ∷ xs) ys
          (omega arith)))

module _ (c : BlockCipher) (laws : CbcLaws c) where
  -- One receive, up to what lies behind the stamp.
  recv_stamped :
      (now : ℕ) (b : Conn c) (t : ℕ) (xs rest : List ℕ)
      → length xs ≡ 28
      → IsU32 b.magic
      → b.dec.r.input ≡ (c.encrypt b.dec.mode (stamped t b.magic xs)).1 ++ rest
      → recv_packet c now b
        ≡ some (
            recv_cleared c
              (record b {
                dec = record {
                  r = record (b.dec.r) { input = rest };
                  mode = (c.encrypt b.dec.mode (stamped t b.magic xs)).0;
                };
                last_recv = now;
              })
              (t ∷ 0 ∷ 0 ∷ 0 ∷ xs))
  unfolding recv_packet
  recv_stamped now b t xs rest len m e = rw (
    read,
    validate_stamped t b.magic xs (omega arith) m,
    clear_stamp_lem t (checksum_of b.magic xs) (b.magic / 2 ^ 16 % 256) (b.magic / 2 ^ 24 % 256) xs,
  )
    where
      size : length (stamped t b.magic xs) ≡ packet_size
      size = omega arith

      read : read_full c b.dec packet_size ≡ (
        ok (stamped t b.magic xs),
        record {
          r = record (b.dec.r) { input = rest };
          mode = (c.encrypt b.dec.mode (stamped t b.magic xs)).0;
        },
      )
      read =
          rw (← size)
            (read_full_lem c laws b.dec (stamped t b.magic xs) rest (omega arith) (omega arith) e)

  -- A reader behind the encryption of `plain`, with `rest` to come.
  abbrev pub behind : DecryptReader c → List ℕ → List ℕ → DecryptReader c
  behind d plain rest = record {
    r = record (d.r) { input = rest };
    mode = (c.encrypt d.mode plain).0;
  }

  recv_small :
      (conn : Conn c) (buf : List ℕ) (q : Packet)
      → is_big_packet (get_or buf 0 0) ≡ false
      → unmarshal buf ≡ ok q
      → recv_cleared c conn buf ≡ (ok (record q { raw = some buf }), conn)
  unfolding recv_cleared
  recv_small conn buf q small e = rw (small, e)

  recv_big :
      (conn : Conn c) (buf ys rest : List ℕ) (q : Packet)
      → is_big_packet (get_or buf 0 0) ≡ true
      → length ys ≡ 32
      → conn.dec.r.input ≡ (c.encrypt conn.dec.mode ys).1 ++ rest
      → unmarshal (buf ++ ys) ≡ ok q
      → recv_cleared c conn buf
        ≡ (ok (record q { raw = some (buf ++ ys) }), record conn { dec = behind conn.dec ys rest })
  unfolding recv_cleared
  recv_big conn buf ys rest q big len i e = rw (big, read, e)
    where
      read : read_full c conn.dec packet_size ≡ (ok ys, behind conn.dec ys rest)
      read = rw (← len) (read_full_lem c laws conn.dec ys rest (omega arith) (omega arith) i)

  -- The connection after it sent `buf` as the packet `id`.
  abbrev pub sent : Conn c → ℤ → List ℕ → Conn c
  sent a id buf = record a {
    enc = record {
      w = record {
        sent = a.enc.w.sent ++ (c.encrypt a.enc.mode buf).1;
        writes = suc a.enc.w.writes;
      };
      mode = (c.encrypt a.enc.mode buf).0;
    };
    next_id = id;
  }

  write_free :
      (fate : Fate) (w : EncryptWriter c) (p : List ℕ)
      → IsBlocks p
      → fate w.w.writes ≡ none
      → write c fate w p ≡ (
        record {
          w = record { sent = w.w.sent ++ (c.encrypt w.mode p).1; writes = suc w.w.writes };
          mode = (c.encrypt w.mode p).0;
        },
        none,
      )
  unfolding write raw_write
  write_free fate w p blocks free = ground (arith, free)

  send_stamped :
      (fate : Fate) (a : Conn c) (p : Packet) (t : ℕ) (xs : List ℕ)
      → marshal (record p { id = next_packet_id a.next_id }) ≡ t ∷ 0 ∷ 0 ∷ 0 ∷ xs
      → 28 ≤ length xs
      → IsBlocks (stamped t a.magic xs)
      → fate a.enc.w.writes ≡ none
      → send_packet c fate a p
        ≡ some (sent a (next_packet_id a.next_id) (stamped t a.magic xs), none)
  unfolding send_packet
  send_stamped fate a p t xs e len blocks free = rw (
    e,
    stamp_packet_lem t 0 0 0 a.magic xs len,
    write_free fate a.enc (stamped t a.magic xs) blocks free,
  )

  -- What the receiver makes of the packet, and how its half of the connection stands behind it.
  abbrev pub Arrives : ℕ → Fate → Conn c → Conn c → Packet → List ℕ → List ℕ → Type 0
  Arrives now fate a b p wire rest =
      (send_packet c fate a p ≡ some (sent a (next_packet_id a.next_id) wire, none))
      × (recv_packet c now b
          ≡ some (
            ok (record (on_wire (record p { id = next_packet_id a.next_id })) {
              raw = some (marshal (record p { id = next_packet_id a.next_id }));
            }),
            record b { dec = behind b.dec wire rest; last_recv = now },
          ))

  delivered_small :
      (now : ℕ) (fate : Fate) (a b : Conn c) (p : Packet) (xs rest : List ℕ)
      → IsValid (record p { id = next_packet_id a.next_id })
      → marshal (record p { id = next_packet_id a.next_id }) ≡ p.typ ∷ 0 ∷ 0 ∷ 0 ∷ xs
      → is_big_packet p.typ ≡ false
      → length xs ≡ 28
      → IsU32 b.magic
      → a.magic ≡ b.magic
      → fate a.enc.w.writes ≡ none
      → b.dec.r.input ≡ (c.encrypt b.dec.mode (stamped p.typ b.magic xs)).1 ++ rest
      → Arrives now fate a b p (stamped p.typ a.magic xs) rest
  delivered_small now fate a b p xs rest v m small len u same free input = (
    send_stamped fate a p p.typ xs m (omega arith) (omega arith) free,
    rw (same, m)
        (recv_stamped now b p.typ xs rest len u input
          ∙ ap (λ r. some r)
              (recv_small _ (p.typ ∷ 0 ∷ 0 ∷ 0 ∷ xs) (on_wire q) small
                (rw (← m) (unmarshal-marshal q v)))),
  )
    where
      q : Packet
      q = record p { id = next_packet_id a.next_id }

  abbrev at_mode : DecryptReader c → List ℕ → c.Mode → DecryptReader c
  at_mode d rest m = record { r = record (d.r) { input = rest }; mode = m }

  -- Two reads in a row stand where one read of all would.
  behind-append :
      (d : DecryptReader c) (xs ys rest : List ℕ)
      → IsBlocks xs
      → IsBlocks ys
      → behind (behind d xs ((c.encrypt (c.encrypt d.mode xs).0 ys).1 ++ rest)) ys rest
        ≡ behind d (xs ++ ys) rest
  behind-append d xs ys rest hx hy =
      ap (at_mode d rest) (sym (laws.encrypt-append_mode d.mode xs ys hx hy))

  input-append :
      (d : DecryptReader c) (xs ys rest : List ℕ)
      → IsBlocks xs
      → IsBlocks ys
      → d.r.input ≡ (c.encrypt d.mode (xs ++ ys)).1 ++ rest
      → d.r.input ≡ (c.encrypt d.mode xs).1 ++ ((c.encrypt (c.encrypt d.mode xs).0 ys).1 ++ rest)
  input-append d xs ys rest hx hy e =
      e ∙ ap (λ t. t ++ rest) (laws.encrypt-append d.mode xs ys hx hy) ∙ append_assoc _ _ rest

  delivered_big :
      (now : ℕ) (fate : Fate) (a b : Conn c) (p : Packet) (us ys rest : List ℕ)
      → IsValid (record p { id = next_packet_id a.next_id })
      → marshal (record p { id = next_packet_id a.next_id }) ≡ p.typ ∷ 0 ∷ 0 ∷ 0 ∷ us ++ ys
      → is_big_packet p.typ ≡ true
      → length us ≡ 28
      → length ys ≡ 32
      → IsU32 b.magic
      → a.magic ≡ b.magic
      → fate a.enc.w.writes ≡ none
      → b.dec.r.input ≡ (c.encrypt b.dec.mode (stamped p.typ b.magic us ++ ys)).1 ++ rest
      → Arrives now fate a b p (stamped p.typ b.magic us ++ ys) rest
  delivered_big now fate a b p us ys rest v m big lu ly u same free input = (
    out,
    rw (m) (
        recv_stamped now b p.typ us rest' lu u i
        ∙ ap (λ r. some r)
            (recv_big _ (p.typ ∷ 0 ∷ 0 ∷ 0 ∷ us) ys rest (on_wire q) big ly refl
              (rw (← m) (unmarshal-marshal q v)))
        ∙ ap
            (λ d. some (
              ok (record (on_wire q) { raw = some (p.typ ∷ 0 ∷ 0 ∷ 0 ∷ us ++ ys) }),
              record b { dec = d; last_recv = now },
            ))
            (behind-append b.dec ss ys rest hs hy)),
  )
    where
      q : Packet
      q = record p { id = next_packet_id a.next_id }

      ss : List ℕ
      ss = stamped p.typ b.magic us

      hs : IsBlocks (stamped p.typ b.magic us)
      hs = omega arith

      hy : IsBlocks ys
      hy = omega arith

      rest' : List ℕ
      rest' = (c.encrypt (c.encrypt b.dec.mode (stamped p.typ b.magic us)).0 ys).1 ++ rest

      i : b.dec.r.input ≡ (c.encrypt b.dec.mode (stamped p.typ b.magic us)).1 ++ rest'
      i = input-append b.dec (stamped p.typ b.magic us) ys rest hs hy input

      wire : stamped p.typ a.magic (us ++ ys) ≡ stamped p.typ b.magic us ++ ys
      wire = rw same (stamped-append p.typ b.magic us ys (omega arith))

      long : length (us ++ ys) ≡ 60
      long = length-append us ys ∙ omega arith

      out :
          send_packet c fate a p
          ≡ some (sent a (next_packet_id a.next_id) (stamped p.typ b.magic us ++ ys), none)
      out =
          subst (λ w. send_packet c fate a p ≡ some (sent a (next_packet_id a.next_id) w, none))
            wire
            (send_stamped fate a p p.typ (us ++ ys) m (omega (arith, long)) (omega (arith, long))
              free)

  -- The two ends agree on the magic number and on the state of the cipher.
  pub record InStep (a b : Conn c) : Type 0 where
    pub magic : a.magic ≡ b.magic
    pub word : IsU32 b.magic
    pub mode : a.enc.mode ≡ b.dec.mode
    pub counter : IsCounter a.next_id

  -- What the sender encrypts.
  abbrev pub plain : Conn c → Packet → List ℕ
  plain a p = stamped p.typ a.magic (drop 4 (marshal (record p { id = next_packet_id a.next_id })))

  id-IsI32 : (n : ℤ) → IsCounter n → IsI32 (next_packet_id n)
  id-IsI32 n h = let k = next_packet_id-IsCounter n h in ground (arith, k)

  delivered_as :
      (now : ℕ) (fate : Fate) (a b : Conn c) (p : Packet) (xs rest : List ℕ) (big : Bool)
      → IsValid (record p { id = next_packet_id a.next_id })
      → marshal (record p { id = next_packet_id a.next_id }) ≡ p.typ ∷ 0 ∷ 0 ∷ 0 ∷ xs
      → is_big_packet p.typ ≡ big
      → length xs ≡ (if big then 60 else 28)
      → InStep a b
      → fate a.enc.w.writes ≡ none
      → b.dec.r.input ≡ (c.encrypt b.dec.mode (stamped p.typ b.magic xs)).1 ++ rest
      → Arrives now fate a b p (stamped p.typ a.magic xs) rest
  delivered_as now fate a b p xs rest false v m e len s free input =
      delivered_small now fate a b p xs rest v m e len s.word s.magic free input
  delivered_as now fate a b p xs rest true v m e len s free input =
      subst (λ w. Arrives now fate a b p w rest) split_back
        (delivered_big now fate a b p (take 28 xs) (drop 28 xs) rest v
          (m ∙ ap (λ t. p.typ ∷ 0 ∷ 0 ∷ 0 ∷ t) (sym (take-append-drop 28 xs))) e front_len
          (omega (arith, length-drop 28 xs)) s.word s.magic free
          (input ∙ ap (λ w. (c.encrypt b.dec.mode w).1 ++ rest) (split b.magic)))
    where
      front_len : length (take 28 xs) ≡ 28
      front_len = ground (arith, length-take 28 xs)

      split : (magic : ℕ) → stamped p.typ magic xs ≡ stamped p.typ magic (take 28 xs) ++ drop 28 xs
      split magic =
          ap (λ t. stamped p.typ magic t) (sym (take-append-drop 28 xs))
          ∙ stamped-append p.typ magic (take 28 xs) (drop 28 xs) (omega (arith, front_len))

      split_back : stamped p.typ b.magic (take 28 xs) ++ drop 28 xs ≡ stamped p.typ a.magic xs
      split_back = rw (s.magic) (sym (split b.magic))

  -- If the cipher keeps its documented laws and the two ends are in step, a valid packet that is sent
  -- while the connection takes the bytes is received, whatever is still
  -- behind it: with the sender's next id, its header and the payload of its type. The two ends
  -- are in step afterwards, so this holds for the next packet too.
  pub delivered :
      (now : ℕ) (fate : Fate) (a b : Conn c) (p : Packet) (rest : List ℕ)
      → IsValid p
      → InStep a b
      → fate a.enc.w.writes ≡ none
      → b.dec.r.input ≡ (c.encrypt a.enc.mode (plain a p)).1 ++ rest
      → Arrives now fate a b p (plain a p) rest
        × InStep
            (sent a (next_packet_id a.next_id) (plain a p))
            (record b { dec = behind b.dec (plain a p) rest; last_recv = now })
  delivered now fate a b p rest v s free input = (
    delivered_as now fate a b p (drop 4 (marshal q)) rest (is_big_packet p.typ) v' front_of refl
        long s free (input ∙ same),
    record {
      magic = s.magic;
      word = s.word;
      mode = rw (s.mode) refl;
      counter = (next_packet_id-IsCounter a.next_id s.counter).1;
    },
  )
    where
      q : Packet
      q = record p { id = next_packet_id a.next_id }

      v' : IsValid q
      v' = set_id-IsValid p (next_packet_id a.next_id) (id-IsI32 a.next_id s.counter) v

      front_of : marshal q ≡ p.typ ∷ 0 ∷ 0 ∷ 0 ∷ drop 4 (marshal q)
      front_of = rw ((front q v').bytes) refl

      long : length (drop 4 (marshal q)) ≡ (if is_big_packet p.typ then 60 else 28)
      long =
          rw ((front q v').bytes)
            (small_or_big (length ((front q v').body)) p.typ (front q v').size)

      same :
          (c.encrypt a.enc.mode (plain a p)).1 ++ rest
          ≡ (c.encrypt b.dec.mode (stamped p.typ b.magic (drop 4 (marshal q)))).1 ++ rest
      same = rw (s.mode, s.magic) refl
