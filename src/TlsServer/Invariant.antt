-- ===== src/TlsServer/Invariant.antt =====
-- The invariant of the server's buffers through the rounds of its threads: the sending thread of
-- 722device/server/tls_transmit.c, the receiving thread of tls_receive.c and the working thread of
-- tls_server.c.
use ai_coding_for_business.Common.{
  subst, put-holds, List-cases, Option-cases, ℕ, zero, suc, ◌≤◌, ◌≡◌, inl, inr, refl, arith, Bool,
  some, List, ◌∷◌,
}
use ai_coding_for_business.TlsBuff.{Buff}
use ai_coding_for_business.State.{Transmit, Server, pri_7, type_tx}
use ai_coding_for_business.TlsTransmit.{
  QueueState, queue_empty, queue_not_empty, release_buff, xmit, taken, lower, current_or_top,
  thread_poll, queue_state,
}
use ai_coding_for_business.TlsTransmit.Poll.{
  with_buff, release_buff-tx, xmit-fields, at_queue, poll_nil_lem, sent_off, poll_cons_lem,
}
use ai_coding_for_business.TlsServer.Buffers.{WellFormed, Usable, AllUsable, AllUsable-append}

-- The parts that the invariant reads.
WellFormed-same :
    (room : ℕ) (s t : Server)
    → WellFormed room s
    → t.transmit_pool ≡ s.transmit_pool
    → t.transmit.queues ≡ s.transmit.queues
    → t.recv_pool ≡ s.recv_pool
    → t.receive ≡ s.receive
    → ((c : ℕ) → t.transmit.current ≡ some c → c ≤ pri_7)
    → WellFormed room t
WellFormed-same room s t w a b c d cur = record {
  pools = rw a w.pools;
  queues = rw b w.queues;
  known_current = cur;
  recv_pool = rw c w.recv_pool;
  received = rw d w.received;
}

-- A transmit buffer goes to the pool of its priority.
release-WellFormed :
    (room : ℕ) (s : Server) (b : Buff)
    → WellFormed room s
    → b.priority ≤ pri_7
    → Usable room type_tx b.priority b
    → WellFormed room (release_buff s b)
release-WellFormed room s b w le u = rw (release_buff-tx s b u.2 le u.0) (record {
  pools = λ p k.
      put-holds (λ q pool. AllUsable room type_tx q pool.list_buff) s.transmit_pool b.priority
        (with_buff (s.transmit_pool b.priority) b) p
        (AllUsable-append room type_tx b.priority (s.transmit_pool b.priority).list_buff b
          (w.pools b.priority le) u)
        (w.pools p k);
  queues = w.queues;
  known_current = w.known_current;
  recv_pool = w.recv_pool;
  received = w.received;
})

-- `lower` leaves the queues, and stays at one of the eight.
lower-queues : (t : Transmit) (k : ℕ) (q : QueueState) → (lower t k q).queues ≡ t.queues
lower-queues t k queue_not_empty = refl
lower-queues t zero queue_empty = refl
lower-queues t (suc k) queue_empty = refl

lower-known :
    (t : Transmit) (k : ℕ) (q : QueueState)
    → k ≤ pri_7
    → ((c : ℕ) → t.current ≡ some c → c ≤ pri_7)
    → (c : ℕ) → (lower t k q).current ≡ some c
    → c ≤ pri_7
lower-known t k queue_not_empty le h c e = h c e
lower-known t zero queue_empty le h c e = h c e
lower-known t (suc k) queue_empty le h c e = ground arith

lower-WellFormed :
    (room : ℕ) (s : Server) (k : ℕ) (q : QueueState)
    → k ≤ pri_7
    → WellFormed room s
    → WellFormed room (record s { transmit = lower s.transmit k q })
lower-WellFormed room s k q le w =
    WellFormed-same room s (record s { transmit = lower s.transmit k q }) w refl
      (lower-queues s.transmit k q) refl refl (lower-known s.transmit k q le w.known_current)

module _ (room : ℕ) (s : Server) (a : Bool) (w : WellFormed room s) where
  abbrev now : ℕ
  now = current_or_top s.transmit

  now-known : now ≤ pri_7
  now-known = elim (Option-cases s.transmit.current) [
    | inl e ↦ ground arith
    | inr (c, e) ↦ ground (arith, w.known_current c e)
  ]

  at-WellFormed : WellFormed room (at_queue s now)
  at-WellFormed =
      WellFormed-same room s (at_queue s now) w refl refl refl refl
        (λ c e. ground (arith, now-known))

  -- A message of the queue, sent and given back.
  sent_off-WellFormed :
      (b : Buff) (bs : List Buff)
      → s.transmit.queues now ≡ b ∷ bs
      → WellFormed room (sent_off s a b bs)
  sent_off-WellFormed b bs e =
      let all : AllUsable room type_tx now (b ∷ bs) =
        subst (λ l. AllUsable room type_tx now l) e (w.queues now now-known) in
      let u : Usable room type_tx b.priority b = (all.0.0, all.0.1, all.0.2, refl) in
      let le : b.priority ≤ pri_7 = rw all.0.3 now-known in
      let s0 = taken (at_queue s now) now bs in
      let (t, pools, recv, receive) = xmit-fields s0 b a in
      let w0 : WellFormed room s0 = record {
        pools = w.pools;
        queues = λ p k.
            put-holds (λ q l. AllUsable room type_tx q l) s.transmit.queues now bs p all.1
              (w.queues p k);
        known_current = at-WellFormed.known_current;
        recv_pool = w.recv_pool;
        received = w.received;
      } in
      release-WellFormed room (xmit s0 b a) b
        (WellFormed-same room s0 (xmit s0 b a) w0 pools (rw t refl) recv receive
          (rw t w0.known_current))
        le u

  -- A round of the sending thread keeps the invariant, whatever the socket answers.
  pub thread_poll-WellFormed : WellFormed room (thread_poll s a)
  thread_poll-WellFormed = elim (List-cases (s.transmit.queues now)) [
    | inl e ↦
        rw (poll_nil_lem s a e)
          (lower-WellFormed room (at_queue s now) now queue_empty now-known at-WellFormed)
    | inr (b, bs, e) ↦ rw (poll_cons_lem s a b bs e) (
        lower-WellFormed room (sent_off s a b bs) now (queue_state bs) now-known
          (sent_off-WellFormed b bs e))
  ]
