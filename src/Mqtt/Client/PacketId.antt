-- ===== src/Mqtt/Client/PacketId.antt =====
-- MQTT/MQTTClient.h: the class PacketId. Its one member is `next`.
use remotus_hardware.Base.{ℕ, zero, suc, ◌+◌, ◌%◌, ◌≤◌, ◌<◌, ◌≡◌, ◌≢◌, ◌==◌, if◌then◌else◌, arith}

abbrev pub max_packet_id : ℕ
max_packet_id = 65535

-- The result is also what `next` becomes.
unfoldable pub get_next : ℕ → ℕ
get_next next = if next == max_packet_id then 1 else next + 1

-- `next` after some calls
unfoldable pub after_calls : ℕ → ℕ → ℕ
after_calls zero next = next
after_calls (suc n) next = get_next (after_calls n next)

after_calls-mod : (n next : ℕ) → next ≤ 65535 → after_calls (suc n) next ≡ (next + n) % 65535 + 1
unfolding after_calls get_next
after_calls-mod zero next h = ground arith
after_calls-mod (suc n) next h = ground (arith, after_calls-mod n next h)

-- From a `next` of at most 65535, every packet id that getNext gives is between 1 and 65535, and two
-- calls give different ids if fewer than 65534 calls lie between them.
pub get_next_distinct :
    (next i j : ℕ)
    → next ≤ 65535
    → i < j
    → j < i + 65535
    → (0 < after_calls (suc i) next)
      × (after_calls (suc i) next ≤ 65535)
      × (after_calls (suc i) next ≢ after_calls (suc j) next)
get_next_distinct next i j h p q =
    let at_i = after_calls-mod i next h in
    let at_j = after_calls-mod j next h in (omega arith, omega arith, λ e. omega arith)
