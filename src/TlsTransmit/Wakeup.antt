-- ===== src/TlsTransmit/Wakeup.antt =====
-- No message of 722device/server/tls_transmit.c is forgotten, however the threads interleave.
use ai_coding_for_business.Common.{
  put, ℕ, zero, suc, ◌+◌, ◌<◌, Bool, true, false, ◌||◌, none, some, List, [], ◌∷◌, ◌≡◌, refl, arith,
  ltb, leb, is_nil, tail,
}
use ai_coding_for_business.TlsBuff.{Buff}
use ai_coding_for_business.State.{Transmit, Server, pri_7}
use ai_coding_for_business.TlsTransmit.{
  QueueState, queue_empty, queue_not_empty, insert, active, update_transmit_queue, queue_state,
  taken, handle, lower, current_or_top, xmit,
}
use ai_coding_for_business.TlsTransmit.Drain.{transmit-release_buff, transmit-xmit, put_self}
use ai_coding_for_business.TlsTransmit.Threads.{
  Poller, idle, took, Threads, with_transmit, at_current, after_take, Step, inserts, raises, wakes,
  takes, finishes, Reach, here, next,
}

-- `queue_transmit_` stands at priority `p` or above.
abbrev pub reaches : Transmit → ℕ → Bool
reaches t p = elim t.current [ none ↦ false | some k ↦ leb p k ]

-- A queue that the polling thread has found empty is empty still, or a thread has inserted since and
-- has not raised yet.
abbrev pub Held : Threads → Poller → Type 0
Held s idle = Unit {0}
Held s (took k queue_not_empty) =
    (s.server.transmit.current ≡ some k) × (s.server.transmit.evt_loop ≡ true)
Held s (took k queue_empty) =
    (s.server.transmit.current ≡ some k)
    × (s.server.transmit.evt_loop ≡ true)
    × ((is_nil (s.server.transmit.queues k) || ltb 0 (s.inserted k)) ≡ true)

pub record Inv (s : Threads) : Type 0 where
  -- A queue above `queue_transmit_` is empty, or a thread that has inserted there is about to raise.
  pub above :
      (p : ℕ)
      → (is_nil (s.server.transmit.queues p) || reaches s.server.transmit p || ltb 0 (s.inserted p))
        ≡ true
  -- Where a queue is not empty, the event is set, or a thread is about to set it.
  pub waking :
      (p : ℕ)
      → (s.server.transmit.evt_loop
          || is_nil (s.server.transmit.queues p)
          || ltb 0 (s.inserted p + s.raised p))
        ≡ true
  pub held : Held s s.poller
  pub in_range : (p : ℕ) → (leb p pri_7 || is_nil (s.server.transmit.queues p)) ≡ true

handle_lem :
    (s : Server) (k : ℕ) (a : Bool)
    → ((handle s k a).0 ≡ queue_state (tail (s.transmit.queues k)))
      × ((handle s k a).1.transmit
          ≡ record s.transmit { queues = put s.transmit.queues k (tail (s.transmit.queues k)) })
unfolding handle
handle_lem s k a = go (s.transmit.queues k) refl
  where
    go :
        (q : List Buff)
        → s.transmit.queues k ≡ q
        → ((handle s k a).0 ≡ queue_state (tail (s.transmit.queues k)))
          × ((handle s k a).1.transmit
              ≡ record s.transmit { queues = put s.transmit.queues k (tail (s.transmit.queues k)) })
    go [] e = ground (arith, put_self s.transmit.queues k e)
    go (b ∷ bs) e =
        ground (
          arith,
          transmit-release_buff (xmit (taken s k bs) b a) b,
          transmit-xmit (taken s k bs) b a,
        )

abbrev after_insert : Threads → Buff → Threads
after_insert s b = record s {
  server = with_transmit s.server (insert s.server.transmit b.priority b);
  inserted = put s.inserted b.priority (suc (s.inserted b.priority));
}

Held-insert : (s : Threads) (b : Buff) (w : Poller) → Held s w → Held (after_insert s b) w
Held-insert s b idle h = tt
Held-insert s b (took k queue_not_empty) h = h
Held-insert s b (took k queue_empty) h = (h.0, h.1, ground arith)

abbrev after_wake : Threads → ℕ → ℕ → Threads
after_wake s p n = record s {
  server = with_transmit s.server (active s.server.transmit);
  raised = put s.raised p n;
}

Held-wake : (s : Threads) (p n : ℕ) (w : Poller) → Held s w → Held (after_wake s p n) w
Held-wake s p n idle h = tt
Held-wake s p n (took k queue_not_empty) h = (h.0, refl)
Held-wake s p n (took k queue_empty) h = (h.0, refl, h.2)

Held-took :
    (s : Threads) (k : ℕ) (q : List Buff) (ret : QueueState)
    → ret ≡ queue_state q
    → s.server.transmit.current ≡ some k
    → s.server.transmit.evt_loop ≡ true
    → s.server.transmit.queues k ≡ q
    → Held s (took k ret)
Held-took s k [] ret r c e h = rw r (c, e, ground arith)
Held-took s k (b ∷ bs) ret r c e h = rw r (c, e)

takes-Inv :
    (s : Threads) (a : Bool) → s.server.transmit.evt_loop ≡ true → Inv s → Inv (after_take s a)
takes-Inv s a w v =
    let k = current_or_top s.server.transmit in
    let (r, q) = handle_lem (at_current s.server) k a in
    record {
      above = λ p. ground (arith, v.above p, v.in_range p, q);
      waking = λ p. ground (arith, q);
      held =
          Held-took (after_take s a) k (tail (s.server.transmit.queues k)) _ r (ground (arith, q))
            (ground (arith, q)) (ground (arith, q));
      in_range = λ p. ground (arith, v.in_range p, q);
    }

abbrev after_finish : Threads → ℕ → QueueState → Threads
after_finish s k ret = record s {
  server = with_transmit s.server (lower s.server.transmit k ret);
  poller = idle;
}

finishes-Inv :
    (s : Threads) (k : ℕ) (ret : QueueState)
    → Held s (took k ret)
    → Inv s
    → Inv (after_finish s k ret)
finishes-Inv s k queue_not_empty h v = record {
  above = v.above;
  waking = v.waking;
  held = tt;
  in_range = v.in_range;
}
finishes-Inv s zero queue_empty h v = record {
  above = v.above;
  waking = λ p. ground (arith, v.above p);
  held = tt;
  in_range = v.in_range;
}
finishes-Inv s (suc k) queue_empty h v = record {
  above = λ p. ground (arith, v.above p);
  waking = v.waking;
  held = tt;
  in_range = v.in_range;
}

Step-Inv : (s t : Threads) → Step s t → Inv s → Inv t
unfolding update_transmit_queue
Step-Inv s t (inserts b ne sz pr st e) v = rw e (record {
  above = λ p. ground (arith, v.above p);
  waking = λ p. ground (arith, v.waking p);
  held = Held-insert s b s.poller v.held;
  in_range = λ p. ground (arith, v.in_range p);
})
Step-Inv s t (raises p n i c e) v = rw e (record {
  above = λ q. ground (arith, v.above q, v.in_range p);
  waking = λ q. ground (arith, v.waking q);
  held = rw i tt;
  in_range = λ q. ground (arith, v.in_range q);
})
Step-Inv s t (wakes p n c e) v = rw e (record {
  above = λ q. ground (arith, v.above q);
  waking = λ q. ground (arith, v.waking q);
  held = Held-wake s p n s.poller v.held;
  in_range = λ q. ground (arith, v.in_range q);
})
Step-Inv s t (takes a i r w e) v = rw e (takes-Inv s a w v)
Step-Inv s t (finishes k ret i e) v = rw e (finishes-Inv s k ret (rw i at v.held) v)

-- What holds of the queues, the event and the pushing threads holds after any interleaving.
Reach-Inv : (s t : Threads) → Inv s → Reach s t → Inv t
Reach-Inv s t v here = v
Reach-Inv s t v (next {t = u} r st) = Step-Inv u t st (Reach-Inv s u v r)

-- A transmitter that `tls_transmit_start` has made ready, with no thread in a call.
abbrev pub Started : Threads → Type 0
Started s = ((p : ℕ) → s.server.transmit.queues p ≡ []) × (s.poller ≡ idle)

Started-Inv : (s : Threads) → Started s → Inv s
Started-Inv s (e, i) = record {
  above = λ p. ground (arith, e p);
  waking = λ p. ground (arith, e p);
  held = rw i tt;
  in_range = λ p. ground (arith, e p);
}

-- From a transmitter with empty queues, after any interleaving of any number of pushing threads with
-- the polling thread: if the event is clear and no thread is inside `tls_transmit_push` between its
-- insertion and setting the event, then no queue holds a message. So the polling thread never sleeps
-- on a message that nobody will wake it for.
pub no_lost_wakeup :
    (s t : Threads)
    → Started s
    → Reach s t
    → t.server.transmit.evt_loop ≡ false
    → ((p : ℕ) → t.inserted p ≡ 0)
    → ((p : ℕ) → t.raised p ≡ 0)
    → (p : ℕ) → t.server.transmit.queues p ≡ []
no_lost_wakeup s t st r asleep none_in none_up p =
    let v = Reach-Inv s t (Started-Inv s st) r in ground (arith, v.waking p, none_in p, none_up p)

-- After any interleaving, a queue of a higher priority than the one that the polling thread serves
-- next holds a message only while some thread that has inserted there has not raised
-- `queue_transmit_` yet.
pub serves_highest :
    (s t : Threads) (k p : ℕ)
    → Started s
    → Reach s t
    → t.server.transmit.current ≡ some k
    → k < p
    → t.inserted p ≡ 0
    → t.server.transmit.queues p ≡ []
serves_highest s t k p st r at above none_in =
    let v = Reach-Inv s t (Started-Inv s st) r in ground (arith, v.above p)
