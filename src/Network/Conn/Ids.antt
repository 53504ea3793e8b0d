-- ===== src/Network/Conn/Ids.antt =====
-- Packet ids and machine ids (internal/network/client.go).
use wayland_without_borders.Prelude.{ℕ, ◌≢◌, List, arith}
use wayland_without_borders.Prelude.Int.{ℤ, pos, ◌≤ℤ◌, ◌+ℤ◌, wrap32}
use wayland_without_borders.Network.Conn.{next_packet_id, machine_id_of}

-- The range of the counter between two packets.
abbrev pub IsCounter : ℤ → Type 0
IsCounter n = (pos 0 ≤ℤ n) × (n ≤ℤ pos 0x7FFFFF00)

-- An id is positive and stays below the wrap, so the counter never overflows.
pub next_packet_id-IsCounter :
    (n : ℤ) → IsCounter n → (pos 1 ≤ℤ next_packet_id n) × IsCounter (next_packet_id n)
unfolding next_packet_id ◌+ℤ◌ wrap32
next_packet_id-IsCounter n h = ground arith

-- The machine id is never 0, nor the broadcast id 255.
pub machine_id_of_usable : (ran : List ℕ) → (machine_id_of ran ≢ 0) × (machine_id_of ran ≢ 255)
unfolding machine_id_of
machine_id_of_usable ran = ground arith
