-- ===== src/Network/Receiver.antt =====
-- internal/network/receiver.go: the heartbeat's liveness checks, and what the receive loop does with
-- one packet. Times are in nanoseconds.
pub mod Stall
pub mod Loop
use wayland_without_borders.Prelude.{
  ℕ, ◌+◌, ◌-◌, ◌*◌, ◌/◌, ◌%◌, Bool, true, false, ◌&&◌, ◌||◌, Option, none, some, ltb, leb, ◌==◌,
  if◌then◌else◌,
}
use wayland_without_borders.Protocol.Types
use wayland_without_borders.Protocol.Types.{PackageType, id_all, is_matrix}
use wayland_without_borders.Protocol.Packet.{Packet}
use wayland_without_borders.Protocol.Stream.{BlockCipher, StreamError, Fate}
use wayland_without_borders.Network.Conn.{
  Conn, ◌>>=◌, send_packet, named_packet, bye_packet, silent_for,
}

abbrev pub liveness_timeout : ℕ
liveness_timeout = 15 * 1000000000

pub record SendStallTracker : Type 0 where
  pub last_progress : ℕ
  pub last_out_q : ℕ

-- `stalled`: the new tracker, and whether the queue has not drained for too long. A time before
-- the last progress is no stall in Go either, where the difference is negative.
unfoldable pub stalled : SendStallTracker → ℕ → ℕ → SendStallTracker × Bool
stalled t n now =
    let progress = if n == 0 || ltb n t.last_out_q then now else t.last_progress in
    (
      record { last_progress = progress; last_out_q = n },
      ltb 0 n && ltb liveness_timeout (now - progress),
    )

module _ (c : BlockCipher) where
  -- A goroutine's connection after one step: whether it goes on.
  pub data Outcome : Type 0 where
    going closed : Conn c → Outcome

  -- `Close`: a ByeBye, whose error is ignored, and the end of the connection.
  unfoldable pub close : Fate → Conn c → Option Outcome
  close fate conn = send_packet c fate conn (bye_packet c conn) >>= λ r. some (closed r.0)

  abbrev pub or_close : Fate → Conn c × Option StreamError → Option Outcome
  or_close fate (conn, none) = some (going conn)
  or_close fate (conn, some e) = close fate conn

  -- The check of the send queue; `none` where its length cannot be asked for.
  unfoldable pub queue_check : SendStallTracker → Option ℕ → ℕ → SendStallTracker × Bool
  unfolding stalled
  queue_check t none now = (t, false)
  queue_check t (some n) now = stalled t n now

  -- One tick of `startHeartbeat`.
  unfoldable pub tick :
      Fate → Conn c → SendStallTracker → Option ℕ → ℕ → Option (Outcome × SendStallTracker)
  tick fate conn t out_q now =
      if ltb liveness_timeout (silent_for c conn now)
      then close fate conn >>= (λ o. some (o, t))
      else (let (t', stall) = queue_check t out_q now in
          if stall
          then close fate conn >>= (λ o. some (o, t'))
          else ((send_packet c fate conn (named_packet c conn Types.heartbeat_ex id_all)
                >>= or_close fate)
              >>= λ o. some (o, t')))

-- What `ReceiveLoop` does with a packet.
pub data Route : Type 0 where
  answered_with : PackageType → Route
  finished ignored handled : Route

unfoldable pub route : PackageType → Route
route t =
    if t == Types.hi
    then answered_with Types.hello
    else if t == Types.heartbeat
        || t == Types.heartbeat_ex
        || t == Types.heartbeat_ex_l2
        || t == Types.heartbeat_ex_l3
    then answered_with t
    else if t == Types.bye_bye
    then finished
    else if t == Types.invalid || t == Types.handshake
    then ignored
    else if is_matrix t
    then (if (t - Types.matrix) == Types.hi then answered_with Types.hello else ignored)
    else handled
