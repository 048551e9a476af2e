-- ===== src/TlsServer/Lifecycle/Release.antt =====
-- The pools of 722device/server/tls_server.c when they are given up.
use ai_coding_for_business.Common.{
  put, put-holds, ℕ, zero, suc, ◌≡◌, refl, ap, ◌∙◌, arith, inl, inr, false, Bool-cases, some,
  TlsResult, e_fail, result_fail,
}
use ai_coding_for_business.TlsBuff.{BuffQueue, zero_queue, initialize, allocate_t}
use ai_coding_for_business.TlsBuff.Memory.{Mem}
use ai_coding_for_business.TlsBuff.Allocate.{Settled, filled, emptied, allocate_t-Settles}
use ai_coding_for_business.TlsBuff.Lifecycle.{initialize-zero, uninitialize-unset}
use ai_coding_for_business.State.{type_tx, type_rx}
use ai_coding_for_business.TlsServer.{tls_buff_size}
use ai_coding_for_business.TlsServer.Lifecycle.{
  QueueParam, Pools, tls_buff_count, size_for, count_for, alloc_transmit_queue, alloc_transmit_loop,
  alloc_transmit_buff_queue, alloc_send_buff_queue, alloc_recv_buff_queue, alloc_pools,
  free_buff_queue, free_transmit_loop, free_pools,
}

-- The flag `queue_init_` is clear.
abbrev pub Unset : BuffQueue → Type 0
Unset q = q.queue_init ≡ false

abbrev pub AllUnset : Pools → Type 0
AllUnset s = Unset s.send × ((p : ℕ) → Unset (s.transmit p)) × Unset s.recv

-- An empty pool with the flag clear is filled, or not, with the flag clear.
allocate-Unset :
    (start : BuffQueue) (priority size count type : ℕ) (m : Mem)
    → start ≡ record zero_queue { priority = priority }
    → (result : TlsResult) × (q : BuffQueue) × (m' : Mem) × (allocate_t start size count type m
        ≡ some ((result, q), m'))
      × Unset q
allocate-Unset start priority size count type m same =
    let (result, q, m', e, h, how) =
      allocate_t-Settles size count type (record zero_queue { priority = priority }) m.live m tt
        (λ r. omega arith) in
    (result, q, m', ap (λ z. allocate_t z size count type m) same ∙ e, unset result q how)
  where
    unset :
        (result : TlsResult) (q : BuffQueue)
        → Settled size count type (record zero_queue { priority = priority }) result q
        → Unset q
    unset result q (filled new a b c d) = ap (λ x. x.queue_init) d
    unset result q (emptied a d) = ap (λ x. x.queue_init) d

-- The pools of a run of the loop.
loop-Unset :
    (n index : ℕ) (param : ℕ → QueueParam) (result : TlsResult) (pools : ℕ → BuffQueue) (m : Mem)
    → ((p : ℕ) → Unset (pools p))
    → (result' : TlsResult) × (pools' : ℕ → BuffQueue) × (m' : Mem) × (alloc_transmit_loop n param
          index result pools m
        ≡ some ((result', pools'), m'))
      × ((p : ℕ) → Unset (pools' p))
unfolding alloc_transmit_loop alloc_transmit_queue
loop-Unset zero index param result pools m u = (result, pools, m, refl, u)
loop-Unset (suc n) index param result pools m u =
    let (r, q, m1, e, unset) =
      allocate-Unset (record (initialize zero_queue).1 { priority = index }) index
        (size_for (param index)) (count_for (param index) index) type_tx m
        (ap (λ (z : BuffQueue). record z { priority = index }) initialize-zero) in
    let after : (p : ℕ) → Unset (put pools index q p) =
      λ p. put-holds (λ p q. Unset q) pools index q p unset (u p) in
    let (r', pools', m', run, u') = loop-Unset n (suc index) param r (put pools index q) m1 after in
    elim (Bool-cases (result_fail r)) [
      | inl bad ↦ (r, put pools index q, m1, ground (arith, e), after)
      | inr good ↦ (r', pools', m', ground (arith, e, run), u')
    ]

free_loop-Unset :
    (n index : ℕ) (pools : ℕ → BuffQueue) (m : Mem)
    → ((p : ℕ) → Unset (pools p))
    → (pools' : ℕ → BuffQueue) × (free_transmit_loop n index pools m ≡ some (pools', m))
unfolding free_transmit_loop free_buff_queue
free_loop-Unset zero index pools m u = (pools, refl)
free_loop-Unset (suc n) index pools m u =
    let (pools', run) =
      free_loop-Unset n (suc index) (put pools index zero_queue) m
        (λ p. put-holds (λ p q. Unset q) pools index zero_queue p refl (u p)) in
    (pools', ground (arith, uninitialize-unset (pools index) m (u index), run))

-- Pools whose flags are clear are given up without a change of the memory.
free_pools-Unset :
    (s : Pools) (m : Mem) → AllUnset s → (s' : Pools) × (free_pools s m ≡ some (s', m))
unfolding free_pools free_buff_queue
free_pools-Unset s m (send, transmit, recv) =
    let (pools', run) = free_loop-Unset 8 0 s.transmit m transmit in
    (
      record { send = zero_queue; transmit = pools'; recv = zero_queue },
      ground (arith, uninitialize-unset s.recv m recv, uninitialize-unset s.send m send, run),
    )

alloc_pools-Unset :
    (param : ℕ → QueueParam) (s : Pools) (m : Mem)
    → AllUnset s
    → (result : TlsResult) × (s' : Pools) × (m' : Mem) × (alloc_pools param s m
        ≡ some ((result, s'), m'))
      × AllUnset s'
unfolding alloc_pools alloc_transmit_buff_queue alloc_send_buff_queue alloc_recv_buff_queue
alloc_pools-Unset param s m (send, transmit, recv) =
    let (r1, q1, m1, e1, u1) =
      allocate-Unset (initialize zero_queue).1 0 tls_buff_size tls_buff_count type_tx m
        initialize-zero in
    let (r2, q2, m2, e2, u2) = loop-Unset 8 0 param e_fail s.transmit m1 transmit in
    let (r3, q3, m3, e3, u3) =
      allocate-Unset (initialize zero_queue).1 0 tls_buff_size tls_buff_count type_rx m2
        initialize-zero in
    elim (Bool-cases (result_fail r1)) [
      | inl bad ↦ (
        r1,
        record { send = q1; transmit = s.transmit; recv = s.recv },
        m1,
        ground (arith, e1),
        (u1, transmit, recv),
      )
      | inr good ↦ elim (Bool-cases (result_fail r2)) [
        | inl bad ↦ (
          r2,
          record { send = q1; transmit = q2; recv = s.recv },
          m2,
          ground (arith, e1, e2),
          (u1, u2, recv),
        )
        | inr good' ↦ (
          r3,
          record { send = q1; transmit = q2; recv = q3 },
          m3,
          ground (arith, e1, e2, e3),
          (u1, u2, u3),
        )
      ]
    ]

-- The ten pools of a server whose flags are clear are filled, fully or up to a refused request, and then given
-- up as `tls_server_uninitialize` does: both calls return, and the second changes nothing in the memory, so
-- that every buffer which the first allocated stays allocated.
pub pools-leak :
    (param : ℕ → QueueParam) (s : Pools) (m : Mem)
    → AllUnset s
    → (result : TlsResult) × (s' : Pools) × (s'' : Pools) × (m' : Mem) × (alloc_pools param s m
        ≡ some ((result, s'), m'))
      × (free_pools s' m' ≡ some (s'', m'))
pools-leak param s m u =
    let (result, s', m', e, u') = alloc_pools-Unset param s m u in
    let (s'', e') = free_pools-Unset s' m' u' in (result, s', s'', m', e, e')
