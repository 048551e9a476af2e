-- ===== src/LinkProxy/Ring.antt =====
-- The ring buffers of 722device/network/tls_net_proxy.c as bounded lists.
use native.Mathlib.Decide.{dec_le}
use ai_coding_for_business.Common.{
  put, ℕ, zero, suc, ◌+◌, ◌-◌, ◌%◌, ◌≤◌, ◌<◌, ◌≡◌, ◌≢◌, put-same, sym, subst, ◌⊎◌, inl, inr, refl,
  ap, ap₂, arith, true, false, none, some, List, [], ◌∷◌, ◌++◌, length,
}
use ai_coding_for_business.LinkProxy.{
  Node, PrioQueue, queue_size, append_node, prio_queue_push, prio_queue_pop,
}

-- `c` nodes from index `h` on, around the end of the array.
abbrev elements : (ℕ → Node) → ℕ → ℕ → List Node
elements nodes h zero = []
elements nodes h (suc c) = nodes h ∷ elements nodes ((h + 1) % queue_size) c

abbrev pub contents : PrioQueue → List Node
contents q = elements q.nodes q.head q.count

-- The counters of a ring in use.
pub record WellFormed (q : PrioQueue) : Type 0 where
  pub head : q.head < queue_size
  pub count : q.count ≤ queue_size
  pub tail : q.tail ≡ (q.head + q.count) % queue_size

pub length-contents : (nodes : ℕ → Node) (h c : ℕ) → length (elements nodes h c) ≡ c
length-contents nodes h zero = refl
length-contents nodes h (suc c) = ap suc (length-contents nodes ((h + 1) % queue_size) c)

-- A store behind the last node is the last node then.
elements-put :
    (nodes : ℕ → Node) (n : Node) (h c : ℕ)
    → h < queue_size
    → c < queue_size
    → elements (put nodes ((h + c) % queue_size) n) h (suc c) ≡ elements nodes h c ++ n ∷ []
elements-put nodes n h zero lo hi =
    let at : (h + 0) % 256 ≡ h = omega arith in
    subst (λ k. put nodes k n h ∷ [] ≡ n ∷ []) (sym at) (ap (λ x. x ∷ []) (put-same nodes h n))
elements-put nodes n h (suc c) lo hi =
    let next = (h + 1) % 256 in
    let at : (next + c) % 256 ≡ (h + suc c) % 256 = omega arith in
    let apart : (h + suc c) % 256 ≢ h = omega arith in
    let first : put nodes ((h + suc c) % 256) n h ≡ nodes h = ground (arith, apart) in
    let rest : elements (put nodes ((h + suc c) % 256) n) next (suc c)
        ≡ elements nodes next c ++ n ∷ [] =
      subst (λ k. elements (put nodes k n) next (suc c) ≡ elements nodes next c ++ n ∷ []) at
        (elements-put nodes n next c (omega arith) (omega arith)) in
    ap₂ (λ x xs. x ∷ xs) first rest

module _ (q : PrioQueue) (w : WellFormed q) where
  pub append-WellFormed : (n : Node) → q.count < queue_size → WellFormed (append_node q n)
  append-WellFormed n room = record {
    head = w.head;
    count = omega arith;
    tail = omega (arith, w.tail);
  }

  pub contents-append :
      (n : Node) → q.count < queue_size → contents (append_node q n) ≡ contents q ++ n ∷ []
  contents-append n room =
      let more : q.count + 1 ≡ suc q.count = omega arith in
      subst (λ k. elements (put q.nodes k n) q.head (q.count + 1) ≡ contents q ++ n ∷ [])
        (sym w.tail)
        (subst
          (λ c. elements (put q.nodes ((q.head + q.count) % 256) n) q.head c ≡ contents q ++ n ∷ [])
          (sym more) (elements-put q.nodes n q.head q.count w.head room))

  pub push-room : (n : Node) → q.count < queue_size → prio_queue_push q n ≡ (true, append_node q n)
  unfolding prio_queue_push
  push-room n room = ground arith

  -- A push puts the node behind the others and reports true, or the ring holds 256 nodes and stays as it is,
  -- and the push reports false.
  pub push-refines :
      (n : Node)
      → ((q.count < queue_size)
          × (prio_queue_push q n ≡ (true, append_node q n))
          × (contents (append_node q n) ≡ contents q ++ n ∷ [])
          × WellFormed (append_node q n))
        ⊎ ((length (contents q) ≡ queue_size) × (prio_queue_push q n ≡ (false, q)))
  unfolding prio_queue_push
  push-refines n = elim (dec_le queue_size q.count) [
    | yes full ↦ inr (omega (arith, length-contents q.nodes q.head q.count, w.count), ground arith)
    | no room ↦ inl (
      omega arith,
      ground arith,
      contents-append n (omega arith),
      append-WellFormed n (omega arith),
    )
  ]

  -- A pop takes the first node, or the ring is empty and stays as it is.
  pub pop-refines :
      ((contents q ≡ []) × (prio_queue_pop q ≡ (none, q)))
      ⊎ ((n : Node) × (q' : PrioQueue) × (prio_queue_pop q ≡ (some n, q'))
          × (contents q ≡ n ∷ contents q')
          × WellFormed q')
  unfolding prio_queue_pop
  pop-refines = elim (dec_le q.count 0) [
    | yes none_left ↦
        let zero_count : 0 ≡ q.count = omega arith in
        inl (subst (λ c. elements q.nodes q.head c ≡ []) zero_count refl, ground arith)
    | no some_left ↦
        let one_more : suc (q.count - 1) ≡ q.count = omega arith in
        let after = record q { head = (q.head + 1) % queue_size; count = q.count - 1 } in
        inr (
          q.nodes q.head,
          after,
          ground arith,
          subst (λ c. elements q.nodes q.head c ≡ q.nodes q.head ∷ contents after) one_more refl,
          record {
            head = omega (arith, w.head);
            count = omega (arith, w.count);
            tail = omega (arith, w.tail, w.head);
          },
        )
  ]
