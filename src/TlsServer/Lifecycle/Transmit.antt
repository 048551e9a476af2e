-- ===== src/TlsServer/Lifecycle/Transmit.antt =====
-- `tls_server_alloc_transmit_buff_queue` of 722device/server/tls_server.c: what it allocates on every path.
use ai_coding_for_business.Common.{
  put, put-same, ℕ, zero, suc, ◌+◌, ◌≤◌, ◌<◌, ◌≡◌, refl, sym, ap, ◌∙◌, subst, arith, true, false,
  some, List, [], ◌++◌, length, TlsResult, s_ok, e_fail, result_fail,
}
use ai_coding_for_business.TlsBuff.{Buff, BuffQueue, zero_queue, allocate_t}
use ai_coding_for_business.TlsBuff.Memory.{Ptr, Mem}
use ai_coding_for_business.TlsBuff.Account.{
  Accounts, owned, count, count-append, count-owned_append,
}
use ai_coding_for_business.TlsBuff.Allocate.{Made, Settled, filled, emptied, allocate_t-Settles}
use ai_coding_for_business.TlsBuff.Lifecycle.{initialize-zero}
use ai_coding_for_business.State.{type_tx}
use ai_coding_for_business.TlsServer.Lifecycle.{
  QueueParam, size_for, count_for, alloc_transmit_queue, alloc_transmit_loop,
  alloc_transmit_buff_queue,
}

-- The buffers in the pools below `i`.
abbrev pub held : ℕ → (ℕ → BuffQueue) → List Buff
held zero pools = []
held (suc i) pools = held i pools ++ (pools i).list_buff

held-put_above :
    (i p : ℕ) (pools : ℕ → BuffQueue) (q : BuffQueue)
    → i ≤ p
    → held i (put pools p q) ≡ held i pools
held-put_above zero p pools q h = refl
held-put_above (suc i) p pools q h = ground (arith, held-put_above i p pools q)

-- The pool of priority `i` holds as many buffers as asked for, each of the size asked for and of that
-- priority.
abbrev pub Full : (ℕ → QueueParam) → ℕ → BuffQueue → Type 0
Full param i q =
    (length q.list_buff ≡ count_for (param i) i) × Made (size_for (param i)) type_tx i q.list_buff

abbrev pub FullBelow : (ℕ → QueueParam) → (ℕ → BuffQueue) → ℕ → Type 0
FullBelow param pools zero = Unit {0}
FullBelow param pools (suc i) = FullBelow param pools i × Full param i (pools i)

FullBelow-put :
    (param : ℕ → QueueParam) (pools : ℕ → BuffQueue) (q : BuffQueue) (i p : ℕ)
    → i ≤ p
    → FullBelow param pools i
    → FullBelow param (put pools p q) i
FullBelow-put param pools q zero p h f = tt
FullBelow-put param pools q (suc i) p h f =
    let other : pools i ≡ put pools p q i = ground (arith, h) in
    (FullBelow-put param pools q i p (omega arith) f.0, subst (λ x. Full param i x) other f.1)

-- How the allocation from index `start` on ends: all pools are full; or one of them has been refused and is empty, those below
-- it are full and those above it are as they were.
pub data Ending (start : ℕ) (param : ℕ → QueueParam) (pools : ℕ → BuffQueue) (rest : List Ptr)
    (result : TlsResult) (pools' : ℕ → BuffQueue) (m' : Mem) : Type 0 where
  all_full :
      result ≡ s_ok
      → FullBelow param pools' 8
      → Accounts m' (held 8 pools') rest
      → Ending start param pools rest result pools' m'
  refused_at :
      (i : ℕ)
      → start ≤ i
      → i < 8
      → result_fail result ≡ true
      → FullBelow param pools' i
      → (pools' i).list_buff ≡ []
      → ((p : ℕ) → i < p → pools' p ≡ pools p)
      → Accounts m' (held i pools') rest
      → Ending start param pools rest result pools' m'

-- A round: the pool is full, or it is empty and the memory is what it was.
data Round (param : QueueParam) (i : ℕ) (others : List Ptr) (result : TlsResult) (q : BuffQueue)
    (m' : Mem) : Type 0 where
  round_full :
      result ≡ s_ok
      → length q.list_buff ≡ count_for param i
      → Made (size_for param) type_tx i q.list_buff
      → Round param i others result q m'
  round_refused : result_fail result ≡ true → q.list_buff ≡ [] → Round param i others result q m'

alloc_transmit_queue-Round :
    (param : QueueParam) (i : ℕ) (others : List Ptr) (m : Mem)
    → Accounts m [] others
    → (result : TlsResult) × (q : BuffQueue) × (m' : Mem) × (alloc_transmit_queue param i m
        ≡ some ((result, q), m'))
      × Accounts m' q.list_buff others
      × Round param i others result q m'
unfolding alloc_transmit_queue
alloc_transmit_queue-Round param i others m h =
    let fresh : BuffQueue = record zero_queue { priority = i } in
    let (result, q, m', e, h', how) =
      allocate_t-Settles (size_for param) (count_for param i) type_tx fresh others m tt h in
    (
      result,
      q,
      m',
      ap
            (λ z.
              allocate_t (record z { priority = i }) (size_for param) (count_for param i) type_tx m)
            initialize-zero
          ∙ e,
      h',
      settle result q m' how,
    )
  where
    settle :
        (result : TlsResult) (q : BuffQueue) (m' : Mem)
        → Settled
            (size_for param)
            (count_for param i)
            type_tx
            (record zero_queue { priority = i })
            result
            q
        → Round param i others result q m'
    settle result q m' (filled new a b c d) =
        let list : new ≡ q.list_buff = sym (ap (λ x. x.list_buff) d) in
        round_full a (subst (λ l. length l ≡ count_for param i) list b)
          (subst (λ l. Made (size_for param) type_tx i l) list c)
    settle result q m' (emptied a d) = round_refused a (ap (λ x. x.list_buff) d)

abbrev Ends : ℕ → ℕ → (ℕ → QueueParam) → TlsResult → (ℕ → BuffQueue) → List Ptr → Mem → Type 0
Ends n index param result pools rest m =
    (result' : TlsResult) × (pools' : ℕ → BuffQueue) × (m' : Mem) × (alloc_transmit_loop n param
        index result pools m
      ≡ some ((result', pools'), m'))
    × Ending index param pools rest result' pools' m'

module _ (n index : ℕ) (param : ℕ → QueueParam) (result : TlsResult) (pools : ℕ → BuffQueue)
    (m : Mem) where
  loop_refused :
      (r : TlsResult) (q : BuffQueue) (m' : Mem)
      → alloc_transmit_queue (param index) index m ≡ some ((r, q), m')
      → result_fail r ≡ true
      → alloc_transmit_loop (suc n) param index result pools m ≡ some ((r, put pools index q), m')
  unfolding alloc_transmit_loop
  loop_refused r q m' e f = ground (arith, e, f)

  loop_full :
      (r : TlsResult) (q : BuffQueue) (m' : Mem)
      → alloc_transmit_queue (param index) index m ≡ some ((r, q), m')
      → result_fail r ≡ false
      → alloc_transmit_loop (suc n) param index result pools m
        ≡ alloc_transmit_loop n param (suc index) r (put pools index q) m'
  unfolding alloc_transmit_loop
  loop_full r q m' e f = ground (arith, e, f)

  -- What the pools below `index` and the new pool own.
  held_more :
      (q : BuffQueue) (rest : List Ptr) (m' : Mem)
      → Accounts m' q.list_buff (owned (held index pools) ++ rest)
      → Accounts m' (held (suc index) (put pools index q)) rest
  held_more q rest m' h r =
      let below = held-put_above index index pools q (omega arith) in
      let here = ap (λ x. x.list_buff) (put-same pools index q) in
      rw (below, here)
        (omega (
          arith,
          h r,
          count-append r (owned (held index pools)) rest,
          count-owned_append r (held index pools) q.list_buff,
        ))

Ending-earlier :
    (param : ℕ → QueueParam) (pools : ℕ → BuffQueue) (rest : List Ptr) (index : ℕ) (q : BuffQueue)
    (result : TlsResult) (pools' : ℕ → BuffQueue) (m' : Mem)
    → Ending (suc index) param (put pools index q) rest result pools' m'
    → Ending index param pools rest result pools' m'
Ending-earlier param pools rest index q result pools' m' (all_full a b c) = all_full a b c
Ending-earlier param pools rest index q result pools' m' (refused_at i s a b c d e f) =
    refused_at i (omega arith) a b c d (λ p h. e p h ∙ ground arith) f

loop-Ends :
    (n index : ℕ) (param : ℕ → QueueParam) (result : TlsResult) (pools : ℕ → BuffQueue)
    (rest : List Ptr) (m : Mem)
    → index + n ≡ 8
    → (n ≡ 0 → result ≡ s_ok)
    → FullBelow param pools index
    → Accounts m (held index pools) rest
    → Ends n index param result pools rest m
unfolding alloc_transmit_loop
loop-Ends zero index param result pools rest m eight good full h =
    let all : index ≡ 8 = omega arith in
    (
      result,
      pools,
      m,
      refl,
      all_full (good refl) (subst (λ i. FullBelow param pools i) all full)
          (subst (λ i. Accounts m (held i pools) rest) all h),
    )
loop-Ends (suc n) index param result pools rest m eight good full h =
    let (r, q, m1, e, h1, how) =
      alloc_transmit_queue-Round (param index) index (owned (held index pools) ++ rest) m
        (λ r. omega (arith, h r, count-append r (owned (held index pools)) rest)) in
    go r q m1 e h1 how (λ a f h2.
      loop-Ends n (suc index) param r (put pools index q) rest m1 (omega arith) (λ z. a) f h2)
  where
    go :
        (r : TlsResult) (q : BuffQueue) (m1 : Mem)
        → alloc_transmit_queue (param index) index m ≡ some ((r, q), m1)
        → Accounts m1 q.list_buff (owned (held index pools) ++ rest)
        → Round (param index) index (owned (held index pools) ++ rest) r q m1
        → (r ≡ s_ok
            → FullBelow param (put pools index q) (suc index)
            → Accounts m1 (held (suc index) (put pools index q)) rest
            → Ends n (suc index) param r (put pools index q) rest m1)
        → Ends (suc n) index param result pools rest m
    go r q m1 e h1 (round_refused a b) again =
        let below = held-put_above index index pools q (omega arith) in
        (
          r,
          put pools index q,
          m1,
          loop_refused n index param result pools m r q m1 e a,
          refused_at index (omega arith) (omega arith) a
              (FullBelow-put param pools q index index (omega arith) full)
              (ap (λ x. x.list_buff) (put-same pools index q) ∙ b) (λ p less. ground arith)
              (λ p. rw below (
                omega (
                  arith,
                  subst
                      (λ l.
                        count p m1.live
                        ≡ count p (owned l) + count p (owned (held index pools) ++ rest))
                      b (h1 p),
                  count-append p (owned (held index pools)) rest,
                ))),
        )
    go r q m1 e h1 (round_full a b c) again =
        let same = sym (put-same pools index q) in
        let (r', pools', m', run, how) =
          again a
            (
              FullBelow-put param pools q index index (omega arith) full,
              subst (λ x. Full param index x) same (b, c),
            )
            (held_more n index param result pools m q rest m1 h1) in
        (
          r',
          pools',
          m',
          loop_full n index param result pools m r q m1 e (ground arith) ∙ run,
          Ending-earlier param pools rest index q r' pools' m' how,
        )

-- `tls_server_alloc_transmit_buff_queue`, whichever requests for memory are granted: it always returns. It
-- succeeds with eight pools that hold as many buffers as asked for, of the size asked for and of their
-- priority; or it fails at one pool, which is empty then, with the pools below full and those above
-- untouched. In both cases exactly the buffers of those pools are allocated, beside what was before.
pub alloc_transmit-Ending :
    (param : ℕ → QueueParam) (pools : ℕ → BuffQueue) (m : Mem)
    → (result : TlsResult) × (pools' : ℕ → BuffQueue) × (m' : Mem) × (alloc_transmit_buff_queue
          param pools m
        ≡ some ((result, pools'), m'))
      × Ending 0 param pools m.live result pools' m'
unfolding alloc_transmit_buff_queue
alloc_transmit-Ending param pools m =
    loop-Ends 8 0 param e_fail pools m.live m (omega arith) (λ z. absurd (omega arith)) tt
      (λ r. omega arith)
