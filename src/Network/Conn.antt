-- ===== src/Network/Conn.antt =====
-- internal/network/client.go: an established connection, its sends and receives.
-- Locks are not modelled: each operation is one step. Deadlines and the end of the stream enter
-- by the fate of the writes and by the source of the reader.
pub mod Handshake
pub mod Setup
pub mod Ids
pub mod Delivery
use wayland_without_borders.Prelude.{
  ℕ, suc, ◌+◌, ◌-◌, ◌*◌, ◌/◌, ◌%◌, ◌^◌, Bool, Option, none, some, List, [], ◌∷◌, ◌++◌, ◌==◌,
  if◌then◌else◌, ◌||◌, get_or, Result, ok, err,
}
use wayland_without_borders.Prelude.Int.{ℤ, pos, ◌+ℤ◌, leb_ℤ, wrap32}
use wayland_without_borders.Prelude.Text.{Text}
use wayland_without_borders.Protocol.Types
use wayland_without_borders.Protocol.Types.{is_big_packet, packet_size, id_all}
use wayland_without_borders.Protocol.Packet.{Packet, PacketError, new_packet, marshal, unmarshal}
use wayland_without_borders.Protocol.Packet.Names.{set_machine_name}
use wayland_without_borders.Protocol.Stamp.{StampError, stamp_packet, validate_packet, clear_stamp}
use wayland_without_borders.Protocol.Stream.{
  BlockCipher, StreamError, Fate, EncryptWriter, DecryptReader, write, read_full,
}

-- `none` is a run-time panic.
infixl 5 ◌>>=◌
abbrev pub ◌>>=◌ {ℓ κ} : {A : Type ℓ} {B : Type κ} → Option A → (A → Option B) → Option B
none >>= f = none
some a >>= f = f a

pub data RecvError : Type 0 where
  read_packet : StreamError → RecvError
  read_extended : StreamError → RecvError
  invalid_stamp : StampError → RecvError
  invalid_packet : PacketError → RecvError

-- The counter of packet ids, and its wrap before 0x7FFFFF00.
unfoldable pub next_packet_id : ℤ → ℤ
next_packet_id n = wrap32 ((if leb_ℤ (pos 0x7FFFFF00) n then pos 0 else n) +ℤ pos 1)

-- The machine id from the first four random bytes: 0 and 255 are not used.
unfoldable pub machine_id_of : List ℕ → ℕ
machine_id_of ran =
    let id =
      get_or ran 0 0 * 2 ^ 24 + get_or ran 1 0 * 2 ^ 16 + get_or ran 2 0 * 2 ^ 8 + get_or ran 3 0 in
    if id == 0 || id == 255 then 1 else id

module _ (c : BlockCipher) where
  pub record Conn : Type 0 where
    pub enc : EncryptWriter c
    pub dec : DecryptReader c
    pub magic : ℕ
    pub machine_id : ℕ
    pub remote_id : ℕ
    pub local_name : Text
    pub remote_name : Text
    pub next_id : ℤ
    pub last_recv : ℕ

  -- `SendPacket`. It also stores the id in the caller's packet, which is not read again.
  unfoldable pub send_packet : Fate → Conn → Packet → Option (Conn × Option StreamError)
  send_packet fate conn p = do
    let id = next_packet_id conn.next_id
    buf ← stamp_packet (marshal (record p { id = id })) conn.magic
    let (enc', e) = write c fate conn.enc buf
    some (record conn { enc = enc'; next_id = id }, e)

  -- The loop of `SendPackets`, which stops at the first error.
  abbrev pub or_stop :
      (Conn → Option (Conn × Option StreamError))
      → Conn × Option StreamError
      → Option (Conn × Option StreamError)
  or_stop next (conn, some e) = some (conn, some e)
  or_stop next (conn, none) = next conn

  unfoldable pub send_packets : Fate → Conn → List Packet → Option (Conn × Option StreamError)
  send_packets fate conn [] = some (conn, none)
  send_packets fate conn (p ∷ ps) =
      let rest = λ (k : Conn). send_packets fate k ps in send_packet fate conn p >>= or_stop rest

  abbrev pub unmarshalled : List ℕ → Result PacketError Packet → Result RecvError Packet
  unmarshalled buf (err e) = err (invalid_packet e)
  unmarshalled buf (ok p) = ok (record p { raw = some buf })

  -- The second half of a big packet.
  abbrev pub extended :
      List ℕ → Conn → Result StreamError (List ℕ) × DecryptReader c → Result RecvError Packet × Conn
  extended buf conn (err e, d) = (err (read_extended e), record conn { dec = d })
  extended buf conn (ok ext, d) =
      (unmarshalled (buf ++ ext) (unmarshal (buf ++ ext)), record conn { dec = d })

  -- `RecvPacket` behind the stamp.
  unfoldable pub recv_cleared : Conn → List ℕ → Result RecvError Packet × Conn
  recv_cleared conn buf =
      if is_big_packet (get_or buf 0 0)
      then extended buf conn (read_full c conn.dec packet_size)
      else (unmarshalled buf (unmarshal buf), conn)

  abbrev pub checked :
      Conn → List ℕ → Result StampError (Unit {0}) → Option (Result RecvError Packet × Conn)
  checked conn buf (err e) = some (err (invalid_stamp e), conn)
  checked conn buf (ok u) = do cleared ← clear_stamp buf; some (recv_cleared conn cleared)

  abbrev pub received :
      ℕ
      → Conn
      → Result StreamError (List ℕ) × DecryptReader c
      → Option (Result RecvError Packet × Conn)
  received now conn (err e, d) = some (err (read_packet e), record conn { dec = d })
  received now conn (ok buf, d) = do
    let conn' = record conn { dec = d; last_recv = now }
    verdict ← validate_packet buf conn.magic
    checked conn' buf verdict

  -- `RecvPacket` at the time `now`
  unfoldable pub recv_packet : ℕ → Conn → Option (Result RecvError Packet × Conn)
  recv_packet now conn = received now conn (read_full c conn.dec packet_size)

  -- The packets that the connection answers with, and the one that it sends on `Close`.
  unfoldable pub named_packet : Conn → ℕ → ℕ → Packet
  named_packet conn typ des = set_machine_name (new_packet typ conn.machine_id des) conn.local_name

  unfoldable pub bye_packet : Conn → Packet
  bye_packet conn = new_packet Types.bye_bye conn.machine_id id_all

  -- `silentFor`: nothing before the first packet.
  unfoldable pub silent_for : Conn → ℕ → ℕ
  silent_for conn now = if conn.last_recv == 0 then 0 else now - conn.last_recv
