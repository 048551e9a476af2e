-- ===== src/LinkProxy/Order.antt =====
-- The order in which the thread of 722device/network/tls_net_proxy.c sends.
use native.Mathlib.Decide.{dec_le}
use ai_coding_for_business.Common.{
  put, put-holds, put-same, ℕ, zero, suc, ◌≤◌, ◌<◌, ◌≡◌, ◌⊎◌, inl, inr, refl, sym, subst, ap, ◌∙◌,
  arith, false, none, some, List, [], ◌∷◌, ◌++◌, length,
}
use ai_coding_for_business.LinkProxy.{
  Node, PrioQueue, Sending, World, max_priority_levels, prio_queue_pop, pop_highest,
  check_higher_waiting, send_node, send_or_requeue, transmit_loop,
}
use ai_coding_for_business.LinkProxy.Ring.{contents, WellFormed, length-contents, pop-refines}

abbrev pub Owned : ℕ → List Node → Type 0
Owned p [] = Unit {0}
Owned p (n ∷ ns) = (n.priority ≡ p) × Owned p ns

-- A ring in use whose nodes have the priority of the ring.
abbrev pub Formed : ℕ → PrioQueue → Type 0
Formed p q = WellFormed q × Owned p (contents q)

-- The nodes below priority `i`, higher priorities first and each ring from its head.
abbrev pub waiting : ℕ → (ℕ → PrioQueue) → List Node
waiting zero qs = []
waiting (suc i) qs = contents (qs i) ++ waiting i qs

abbrev pub sendings : World → List Node → List Sending
sendings world [] = []
sendings world (n ∷ ns) = send_node world n ++ sendings world ns

pub waiting-put_above :
    (i p : ℕ) (qs : ℕ → PrioQueue) (q : PrioQueue) → i ≤ p → waiting i (put qs p q) ≡ waiting i qs
waiting-put_above zero p qs q h = refl
waiting-put_above (suc i) p qs q h = ground (arith, waiting-put_above i p qs q)

count_zero : (i : ℕ) (qs : ℕ → PrioQueue) → contents (qs i) ≡ [] → (qs i).count ≡ 0
count_zero i qs c =
    omega (arith, length-contents (qs i).nodes (qs i).head (qs i).count, ap length c)

-- A node taken below priority `i`: it was the first of those that wait, and no higher ring has one.
record Taken (i : ℕ) (qs : ℕ → PrioQueue) (n : Node) (qs' : ℕ → PrioQueue) : Type 0 where
  pub found : pop_highest i qs ≡ some (n, qs')
  pub first : waiting i qs ≡ n ∷ waiting i qs'
  pub below : n.priority < i
  pub none_above : (p : ℕ) → n.priority < p → p < i → (qs' p).count ≡ 0
  pub formed : (p : ℕ) → Formed p (qs' p)
  pub above : (p : ℕ) → i ≤ p → qs' p ≡ qs p

abbrev Taking : ℕ → (ℕ → PrioQueue) → Type 0
Taking i qs =
    ((waiting i qs ≡ []) × (pop_highest i qs ≡ none) × ((p : ℕ) → p < i → (qs p).count ≡ 0))
    ⊎ ((n : Node) × (qs' : ℕ → PrioQueue) × Taken i qs n qs')

module _ (i : ℕ) (qs : ℕ → PrioQueue) (f : (p : ℕ) → Formed p (qs p)) where
  take_here :
      (n : Node) (q : PrioQueue)
      → prio_queue_pop (qs i) ≡ (some n, q)
      → contents (qs i) ≡ n ∷ contents q
      → WellFormed q
      → Taken (suc i) qs n (put qs i q)
  unfolding pop_highest
  take_here n q e c w =
      let owned : Owned i (n ∷ contents q) = subst (λ l. Owned i l) c (f i).1 in
      record {
        found = ground (arith, e);
        first = ground (arith, c, waiting-put_above i i qs q, put-same qs i q);
        below = omega (arith, owned.0);
        none_above = λ p lo hi. absurd (omega (arith, owned.0));
        formed = λ p. put-holds Formed qs i q p (w, owned.1) (f p);
        above = λ p h. ground (arith, h);
      }

  take_below :
      prio_queue_pop (qs i) ≡ (none, qs i) → contents (qs i) ≡ [] → Taking i qs → Taking (suc i) qs
  unfolding pop_highest
  take_below e c (inl (w, p, z)) =
      let zero_count : (qs i).count ≡ 0 = count_zero i qs c in
      inl (
        ground (arith, c, w),
        ground (arith, e, p),
        λ j h. elim (dec_le i j) [
          | yes top ↦ let here : j ≡ i = omega arith in rw here zero_count
          | no low ↦ z j (omega arith)
        ],
      )
  take_below e c (inr (n, qs', t)) =
      let same : qs' i ≡ qs i = t.above i (omega arith) in
      let zero_count : (qs' i).count ≡ 0 = rw same (count_zero i qs c) in
      inr (
        n,
        qs',
        record {
          found = ground (arith, e, t.found);
          first = rw (same, c) t.first;
          below = omega (arith, t.below);
          none_above = λ j lo hi. elim (dec_le i j) [
            | yes top ↦ let here : j ≡ i = omega arith in rw here zero_count
            | no low ↦ t.none_above j lo (omega arith)
          ];
          formed = t.formed;
          above = λ j h. t.above j (omega arith);
        },
      )

pop_highest-Taking : (i : ℕ) (qs : ℕ → PrioQueue) → ((p : ℕ) → Formed p (qs p)) → Taking i qs
unfolding pop_highest
pop_highest-Taking zero qs f = inl (refl, refl, λ p h. absurd (omega arith))
pop_highest-Taking (suc i) qs f = elim (pop-refines (qs i) (f i).0) [
  | inl (c, e) ↦ take_below i qs f e c (pop_highest-Taking i qs f)
  | inr (n, q, e, c, w) ↦ inr (n, put qs i q, take_here i qs f n q e c w)
]

-- With no node in a higher ring the node is sent.
check-none :
    (i : ℕ) (qs : ℕ → PrioQueue) (current : ℕ)
    → ((p : ℕ) → current < p → p < i → (qs p).count ≡ 0)
    → check_higher_waiting i qs current ≡ false
unfolding check_higher_waiting
check-none zero qs current h = refl
check-none (suc i) qs current h = elim (dec_le i current) [
  | yes low ↦ ground arith
  | no high ↦ ground (
    arith,
    h i (omega arith) (omega arith),
    check-none i qs current (λ p lo hi. h p lo (omega arith)),
  )
]

send-Taken :
    (world : World) (qs qs' : ℕ → PrioQueue) (n : Node)
    → Taken max_priority_levels qs n qs'
    → send_or_requeue world n qs' ≡ (send_node world n, qs')
unfolding send_or_requeue
send-Taken world qs qs' n t =
    ground (arith, check-none max_priority_levels qs' n.priority t.none_above)

module _ (fuel : ℕ) (world : World) (qs : ℕ → PrioQueue) where
  loop_none :
      pop_highest max_priority_levels qs ≡ none → transmit_loop (suc fuel) world qs ≡ some ([], qs)
  unfolding transmit_loop
  loop_none e = ground arith

  loop_some :
      (n : Node) (qs1 qs2 qs' : ℕ → PrioQueue) (sent more : List Sending)
      → pop_highest max_priority_levels qs ≡ some (n, qs1)
      → send_or_requeue world n qs1 ≡ (sent, qs2)
      → transmit_loop fuel world qs2 ≡ some (more, qs')
      → transmit_loop (suc fuel) world qs ≡ some (sent ++ more, qs')
  unfolding transmit_loop
  loop_some n qs1 qs2 qs' sent more e s l = ground arith

-- With nothing pushed meanwhile, and fuel for one round more than there are nodes: the thread takes all
-- nodes, those of higher priorities first and those of one priority in the order of their pushes, sends
-- each of them as far as the network takes it, and leaves the eight rings empty.
pub transmit_loop-sends :
    (fuel : ℕ) (world : World) (qs : ℕ → PrioQueue)
    → ((p : ℕ) → Formed p (qs p))
    → length (waiting max_priority_levels qs) < fuel
    → (qs' : ℕ → PrioQueue) × (transmit_loop fuel world qs
        ≡ some (sendings world (waiting max_priority_levels qs), qs'))
      × (waiting max_priority_levels qs' ≡ [])
transmit_loop-sends zero world qs f h = absurd (omega arith)
transmit_loop-sends (suc fuel) world qs f h = elim (pop_highest-Taking max_priority_levels qs f) [
  | inl (w, e, z) ↦
      (qs, loop_none fuel world qs e ∙ ap (λ l. some (sendings world l, qs)) (sym w), w)
  | inr (n, qs1, t) ↦
      let size = ap length t.first in
      let (qs', run, left) = transmit_loop-sends fuel world qs1 t.formed (omega (arith, size, h)) in
      (
        qs',
        loop_some fuel world qs n qs1 qs1 qs' (send_node world n)
              (sendings world (waiting max_priority_levels qs1)) t.found
              (send-Taken world qs qs1 n t) run
            ∙ ap (λ l. some (sendings world l, qs')) (sym t.first),
        left,
      )
]
