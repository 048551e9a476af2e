-- ===== src/LinkProxy/Tests.antt =====
-- The proxy of 722device/network/tls_net_proxy.c: runs, and the theorems at small rings.
use ai_coding_for_business.Common.{
  put, put-holds, ℕ, ◌<◌, ◌≡◌, ◌⊎◌, refl, arith, some, [], ◌∷◌, length,
}
use ai_coding_for_business.LinkProxy.{
  Node, PrioQueue, World, append_node, send_or_requeue, send_node, transmit_loop,
}
use ai_coding_for_business.LinkProxy.Ring.{WellFormed}
use ai_coding_for_business.LinkProxy.Order.{Formed, waiting, sendings, transmit_loop-sends}
use ai_coding_for_business.LinkProxy.Relay.{preempted, Requeued}

abbrev node : ℕ → Node
node p = record {
  dest_ip = 49 ∷ [];
  dest_port = 8888;
  proto = 1;
  url = 47 ∷ 97 ∷ [];
  data_at = 100;
  data_len = 2;
  priority = p;
}

-- A ring whose next index is the last one.
abbrev empty_ring : PrioQueue
empty_ring = record { nodes = λ _. node 0; head = 255; tail = 255; count = 0 }

abbrev empty_rings : ℕ → PrioQueue
empty_rings p = empty_ring

empty-WellFormed : WellFormed empty_ring
empty-WellFormed = record { head = omega arith; count = omega arith; tail = refl }

abbrev one_in : ℕ → PrioQueue
one_in p = append_node empty_ring (node p)

one_in-WellFormed : (p : ℕ) → WellFormed (one_in p)
one_in-WellFormed p = record { head = omega arith; count = omega arith; tail = refl }

-- Messages of priorities 2 and 5.
abbrev rings : ℕ → PrioQueue
rings = put (put empty_rings 2 (one_in 2)) 5 (one_in 5)

rings-Formed : (p : ℕ) → Formed p (rings p)
rings-Formed p =
    put-holds Formed (put empty_rings 2 (one_in 2)) 5 (one_in 5) p (one_in-WellFormed 5, (refl, tt))
      (put-holds Formed empty_rings 2 (one_in 2) p (one_in-WellFormed 2, (refl, tt))
        (empty-WellFormed, tt))

abbrev world : World
world = record { memory = λ a. a; takes = λ s. some (length s.bytes) }

transmit_loop-sends_example :
    (qs' : ℕ → PrioQueue) × (transmit_loop 5 world rings
      ≡ some (sendings world (node 5 ∷ node 2 ∷ []), qs'))
    × (waiting 8 qs' ≡ [])
transmit_loop-sends_example = transmit_loop-sends 5 world rings rings-Formed (omega arith)

-- A node of priority 2 has been taken when one of priority 5 comes.
preempted_example :
    ((p : ℕ) × (2 < p) × (p < 8) × (0 < (rings p).count) × Requeued world rings (node 2))
    ⊎ (((p : ℕ) → 2 < p → p < 8 → (rings p).count ≡ 0)
        × (send_or_requeue world (node 2) rings ≡ (send_node world (node 2), rings)))
preempted_example = preempted world rings (node 2) (one_in-WellFormed 2)
