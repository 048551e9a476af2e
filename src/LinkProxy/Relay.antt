-- ===== src/LinkProxy/Relay.antt =====
-- What one device sends and another one publishes, and what a preempted node becomes, in
-- 722device/network/tls_net_proxy.c.
use ai_coding_for_business.Common.{
  put, put-same, subst, ℕ, zero, suc, ◌+◌, ◌≤◌, ◌<◌, ◌≡◌, ◌⊎◌, inl, inr, refl, sym, ap, ◌∙◌, arith,
  true, false, some, List, [], ◌∷◌, ◌++◌, length, length-append, length-cells, take-all,
  take-append, drop, drop-append, u32_at-be32, ◌≢◌, cells, ◌==◌, Bool-cases,
}
use native.Mathlib.Decide.{dec_le}
use ai_coding_for_business.NetProxy.Text.{Text, cut-id}
use ai_coding_for_business.LinkProxy.{
  Node, PrioQueue, max_priority_levels, queue_size, prio_queue_push, send_buffer,
  check_higher_waiting, send_or_requeue, split_url, parse_url_payload, publish_bytes, published,
  Sending, World, sending_of, taken, send_node, proto_udp, proto_tcp,
}
use ai_coding_for_business.LinkProxy.Ring.{contents, WellFormed, push-refines}

split-send_buffer :
    (url bytes : List ℕ)
    → length url < 256
    → split_url (length url) (send_buffer url bytes) ≡ some (url, bytes)
unfolding split_url
split-send_buffer url bytes h =
    let n = length url in
    let behind : 4 + n ≡ suc (suc (suc (suc n))) = omega arith in
    let rest : drop (4 + n) (send_buffer url bytes) ≡ bytes =
      subst (λ k. drop k (send_buffer url bytes) ≡ bytes) (sym behind)
        (drop-append n url bytes refl) in
    ground (arith, rest, take-append n url bytes refl, length-append url bytes)

parse-send_buffer :
    (url bytes : List ℕ)
    → length url < 256
    → parse_url_payload (send_buffer url bytes) ≡ some (url, bytes)
unfolding parse_url_payload
parse-send_buffer url bytes h =
    ap (λ k. split_url k (send_buffer url bytes)) (u32_at-be32 (length url) ∙ omega arith)
    ∙ split-send_buffer url bytes h

-- A url of fewer than 256 characters and data that fit with it into 4095 bytes: what the sender's buffer
-- holds is published under that url, with that data.
pub published-send_buffer :
    (url bytes : List ℕ)
    → Text url
    → length url < 256
    → 4 + length url + length bytes ≤ 4095
    → published (send_buffer url bytes) ≡ some (url, bytes)
unfolding published publish_bytes
published-send_buffer url bytes t h fits =
    let size = length-append url bytes in
    ap publish_bytes (take-all 4095 (send_buffer url bytes) (omega (arith, size)))
    ∙ ground (arith, parse-send_buffer url bytes h, cut-id url t)

-- The network takes all bytes of a message that fits into the datagram of a receiver.
abbrev pub TakesAll : World → Type 0
TakesAll world = (s : Sending) → length s.bytes ≤ 4095 → world.takes s ≡ some (length s.bytes)

taken-all : (s : Sending) → taken s (some (length s.bytes)) ≡ s ∷ []
taken-all s = elim (Bool-cases (s.proto == proto_tcp)) [
  | inl tcp ↦ rw (tcp, take-all (length s.bytes) s.bytes (omega arith)) refl
  | inr other ↦ rw other refl
]

pub send_node-sending :
    (world : World) (n : Node)
    → TakesAll world
    → n.data_at ≢ 0
    → n.data_len ≢ 0
    → 4 + length n.url + n.data_len ≤ 4095
    → (n.proto ≡ proto_udp) ⊎ (n.proto ≡ proto_tcp)
    → send_node world n ≡ sending_of world n ∷ []
unfolding send_node
send_node-sending world n all some_data some_bytes fits proto =
    let bytes = cells world.memory n.data_at n.data_len in
    let whole = all (sending_of world n) (
      omega
        (arith, length-append n.url bytes, length-cells world.memory n.data_at n.data_len, fits)) in
    known proto (ap (taken (sending_of world n)) whole ∙ taken-all (sending_of world n))
  where
    known :
        (n.proto ≡ proto_udp) ⊎ (n.proto ≡ proto_tcp)
        → taken (sending_of world n) (world.takes (sending_of world n)) ≡ sending_of world n ∷ []
        → send_node world n ≡ sending_of world n ∷ []
    known (inl udp) e = ground (arith, some_data, some_bytes, udp, e)
    known (inr tcp) e = ground (arith, some_data, some_bytes, tcp, e)

module _ (world : World) (qs : ℕ → PrioQueue) (n : Node) where
  requeue :
      check_higher_waiting max_priority_levels qs n.priority ≡ true
      → send_or_requeue world n qs ≡ ([], put qs n.priority (prio_queue_push (qs n.priority) n).1)
  unfolding send_or_requeue
  requeue h = ground (arith, h)

  keep :
      check_higher_waiting max_priority_levels qs n.priority ≡ false
      → send_or_requeue world n qs ≡ (send_node world n, qs)
  unfolding send_or_requeue
  keep h = ground (arith, h)

  -- The node is not sent; it is behind the others of its priority, or these fill their ring.
  abbrev pub Requeued : Type 0
  Requeued =
      ((send_or_requeue world n qs).0 ≡ [])
      × ((contents ((send_or_requeue world n qs).1 n.priority) ≡ contents (qs n.priority) ++ n ∷ [])
          ⊎ ((length (contents (qs n.priority)) ≡ queue_size)
              × ((send_or_requeue world n qs).1 n.priority ≡ qs n.priority)))

  requeue-Requeued :
      WellFormed (qs n.priority)
      → check_higher_waiting max_priority_levels qs n.priority ≡ true
      → Requeued
  requeue-Requeued w h =
      let back = requeue h in
      let q = prio_queue_push (qs n.priority) n in
      let here : put qs n.priority q.1 n.priority ≡ q.1 = put-same qs n.priority q.1 in
      (
        ap (λ r. r.0) back,
        elim (push-refines (qs n.priority) w n) [
          | inl (room, e, c, w') ↦
              inl (
                ap (λ r. contents (r.1 n.priority)) back ∙ ap contents (here ∙ ap (λ r. r.1) e) ∙ c)
          | inr (full, e) ↦ inr (full, ap (λ r. r.1 n.priority) back ∙ here ∙ ap (λ r. r.1) e)
        ],
      )

  -- A ring above the node's priority holds nodes, below number `i`; or none does.
  check_higher_waiting-cases :
      (i : ℕ)
      → ((p : ℕ) × (check_higher_waiting i qs n.priority ≡ true)
          × (n.priority < p)
          × (p < i)
          × (0 < (qs p).count))
        ⊎ ((check_higher_waiting i qs n.priority ≡ false)
            × ((p : ℕ) → n.priority < p → p < i → (qs p).count ≡ 0))
  unfolding check_higher_waiting
  check_higher_waiting-cases zero = inr (refl, λ p lo hi. absurd (omega arith))
  check_higher_waiting-cases (suc i) = elim (dec_le i n.priority) [
    | yes low ↦ inr (ground arith, λ p lo hi. absurd (omega arith))
    | no above ↦ elim (dec_le 1 (qs i).count) [
      | yes some_node ↦ inl (i, ground arith, omega arith, omega arith, omega arith)
      | no empty ↦ elim (check_higher_waiting-cases i) [
        | inl (p, e, lo, hi, found) ↦ inl (p, ground arith, lo, omega arith, found)
        | inr (e, none_above) ↦ inr (
          ground arith,
          λ p lo hi. elim (dec_le i p) [
            | yes last ↦
                let same : p ≡ i = omega arith in
                subst (λ k. (qs k).count ≡ 0) (sym same) (omega arith)
            | no before ↦ none_above p lo (omega arith)
          ],
        )
      ]
    ]
  ]

  -- A node that was taken, at the next look of the thread: where a ring of a higher priority of the eight holds
  -- nodes, it is not sent; it goes behind the other nodes of its priority, or, where these have filled
  -- their ring meanwhile, it is lost. Where no such ring holds any, it is given to the
  -- network and the rings stay.
  pub preempted :
      WellFormed (qs n.priority)
      → ((p : ℕ) × (n.priority < p) × (p < 8) × (0 < (qs p).count) × Requeued)
        ⊎ (((p : ℕ) → n.priority < p → p < 8 → (qs p).count ≡ 0)
            × (send_or_requeue world n qs ≡ (send_node world n, qs)))
  preempted w = elim (check_higher_waiting-cases max_priority_levels) [
    | inl (p, e, lo, hi, found) ↦ inl (p, lo, hi, found, requeue-Requeued w e)
    | inr (e, none_above) ↦ inr (none_above, keep e)
  ]
