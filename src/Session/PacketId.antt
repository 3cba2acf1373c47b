-- ===== src/Session/PacketId.antt =====
-- The packet ids that `mqtt_get_packetid` hands out.
use smart_door_lock.Base.{ℕ, zero, suc, ◌+◌, ◌^◌, ◌≤◌, ◌<◌, ◌≡◌, ◌≢◌, ◌⊎◌, inl, arith}
use smart_door_lock.Session.{mqtt_get_packetid}

-- The id that the `k`-th call returns, where the last one before was `last`.
unfoldable pub packet_id_after : (max_packet_id last : ℕ) → ℕ → ℕ
packet_id_after m last zero = last
packet_id_after m last (suc k) = mqtt_get_packetid m (packet_id_after m last k)

-- An id is from 1 to the greatest one, so it is never 0, whatever the last one was.
packet_id-range :
    (m last : ℕ)
    → 0 < m
    → m < 2 ^ 16
    → (1 ≤ mqtt_get_packetid m last) × (mqtt_get_packetid m last ≤ m)
unfolding mqtt_get_packetid
packet_id-range m last pos_m small = ground arith

packet_id_after-sum :
    (m last d : ℕ)
    → 0 < m
    → m < 2 ^ 16
    → 1 ≤ last
    → last ≤ m
    → d ≤ m
    → ((last + d ≤ m) × (packet_id_after m last d ≡ last + d))
      ⊎ ((m < last + d) × (packet_id_after m last d + m ≡ last + d))
unfolding packet_id_after mqtt_get_packetid
packet_id_after-sum m last zero pos_m small lo hi few = inl (omega arith, omega arith)
packet_id_after-sum m last (suc d) pos_m small lo hi few =
    ground (arith, packet_id_after-sum m last d pos_m small lo hi (omega arith))

-- An id is not used again by the next `max_packet_id - 1` calls, also where the numbering starts anew
-- in between.
pub packet_id-fresh :
    (m last d : ℕ)
    → 0 < m
    → m < 2 ^ 16
    → 1 ≤ last
    → last ≤ m
    → 0 < d
    → d < m
    → packet_id_after m last d ≢ last
packet_id-fresh m last d pos_m small lo hi some_calls few =
    omega (arith, packet_id_after-sum m last d pos_m small lo hi (omega arith))
