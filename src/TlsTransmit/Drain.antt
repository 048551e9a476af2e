-- ===== src/TlsTransmit/Drain.antt =====
-- How the thread of 722device/server/tls_transmit.c empties the eight queues.
use ai_coding_for_business.Common.{
  put, ℕ, zero, suc, ◌+◌, ◌≤◌, ◌<◌, Bool, true, false, some, List, [], ◌∷◌, ◌++◌, ◌≡◌, ◌≢◌, refl,
  arith, ◌==◌, if◌then◌else◌, length, append_assoc, append-nil, fun_ext, ◌∙◌,
}
use native.Mathlib.Decide.{dec_le}
use ai_coding_for_business.TlsBuff.{Buff}
use ai_coding_for_business.State.{Server, udp, vsoa}
use ai_coding_for_business.TlsTransmit.{
  queue_empty, release_buff, xmit, queue_state, taken, handle, lower, thread_poll, thread_work,
}

-- What waits in the queues of priority `k` and below, in the order of sending: higher priorities
-- first, and each queue from its head.
abbrev pub backlog : (ℕ → List Buff) → ℕ → List Buff
backlog qs zero = qs 0
backlog qs (suc k) = qs (suc k) ++ backlog qs k

-- Those of the buffers that are sent by UDP.
abbrev pub datagrams : List Buff → List Buff
datagrams [] = []
datagrams (b ∷ bs) = if b.transmode == udp then b ∷ datagrams bs else datagrams bs

pub datagrams-udp : (b : Buff) → b.transmode ≡ udp → datagrams (b ∷ []) ≡ b ∷ []
datagrams-udp b h = ground arith

pub datagrams-vsoa : (b : Buff) → b.transmode ≡ vsoa → datagrams (b ∷ []) ≡ []
datagrams-vsoa b h = ground arith

pub datagrams-append : (bs cs : List Buff) → datagrams (bs ++ cs) ≡ datagrams bs ++ datagrams cs
datagrams-append [] cs = refl
datagrams-append (b ∷ bs) cs = ground (arith, datagrams-append bs cs)

pub transmit-release_buff : (s : Server) (b : Buff) → (release_buff s b).transmit ≡ s.transmit
unfolding release_buff
transmit-release_buff s b = ground arith

pub wire-release_buff : (s : Server) (b : Buff) → (release_buff s b).wire ≡ s.wire
unfolding release_buff
wire-release_buff s b = ground arith

pub calls-release_buff : (s : Server) (b : Buff) → (release_buff s b).calls ≡ s.calls
unfolding release_buff
calls-release_buff s b = ground arith

pub transmit-xmit : (s : Server) (b : Buff) (a : Bool) → (xmit s b a).transmit ≡ s.transmit
unfolding xmit
transmit-xmit s b a = ground arith

wire-xmit : (s : Server) (b : Buff) (a : Bool) → (xmit s b a).wire ≡ s.wire ++ datagrams (b ∷ [])
unfolding xmit
wire-xmit s b a = ground (arith, append-nil s.wire)

module _ (s : Server) (k : ℕ) (a : Bool) (at : s.transmit.current ≡ some k) where
  poll-nil :
      s.transmit.queues k ≡ []
      → ((thread_poll s a).transmit ≡ lower s.transmit k queue_empty)
        × ((thread_poll s a).wire ≡ s.wire)
  unfolding thread_poll handle
  poll-nil e = ground arith

  poll-cons :
      (b : Buff) (bs : List Buff)
      → s.transmit.queues k ≡ b ∷ bs
      → ((thread_poll s a).transmit
          ≡ lower (record s.transmit { queues = put s.transmit.queues k bs }) k (queue_state bs))
        × ((thread_poll s a).wire ≡ s.wire ++ datagrams (b ∷ []))
  unfolding thread_poll handle
  poll-cons b bs e =
      let s0 = record s { transmit = record s.transmit { current = some k } } in
      ground (
        arith,
        transmit-release_buff (xmit (taken s0 k bs) b a) b,
        wire-release_buff (xmit (taken s0 k bs) b a) b,
        transmit-xmit (taken s0 k bs) b a,
        wire-xmit (taken s0 k bs) b a,
      )

backlog-put_above :
    (qs : ℕ → List Buff) (j p : ℕ) (v : List Buff) → j < p → backlog (put qs p v) j ≡ backlog qs j
backlog-put_above qs zero p v h = ground arith
backlog-put_above qs (suc j) p v h = ground (arith, backlog-put_above qs j p v)

backlog-head :
    (qs : ℕ → List Buff) (k : ℕ) (b : Buff) (bs : List Buff)
    → qs k ≡ b ∷ bs
    → backlog qs k ≡ b ∷ backlog (put qs k bs) k
backlog-head qs zero b bs e = ground arith
backlog-head qs (suc j) b bs e = ground (arith, backlog-put_above qs j (suc j) bs)

-- The thread has gone to sleep with the queues up to `k` empty and their messages sent.
pub record Drained (s s' : Server) (k : ℕ) : Type 0 where
  pub sent : s'.wire ≡ s.wire ++ datagrams (backlog s.transmit.queues k)
  pub asleep : s'.transmit.evt_loop ≡ false
  pub emptied : (p : ℕ) → p ≤ k → s'.transmit.queues p ≡ []
  pub kept : (p : ℕ) → k < p → s'.transmit.queues p ≡ s.transmit.queues p

abbrev Drains : ℕ → (ℕ → Bool) → Server → ℕ → Type 0
Drains fuel net s k = (s' : Server) × (thread_work fuel net s ≡ some s') × Drained s s' k

work-asleep :
    (i : ℕ) (net : ℕ → Bool) (s : Server)
    → 0 < i
    → s.transmit.evt_loop ≡ false
    → thread_work i net s ≡ some s
unfolding thread_work
work-asleep zero net s h e = absurd (omega arith)
work-asleep (suc i) net s h e = ground arith

work-awake :
    (i : ℕ) (net : ℕ → Bool) (s : Server)
    → s.transmit.run ≡ true
    → s.transmit.evt_loop ≡ true
    → thread_work (suc i) net s ≡ thread_work i net (thread_poll s (net i))
unfolding thread_work
work-awake i net s r e = ground arith

-- One round, from its effect on the transmitter and the wire: `s1` is the state after it.
module _ (s s1 : Server) where
  last_round :
      (sent : List Buff)
      → s1.transmit.evt_loop ≡ false
      → s1.wire ≡ s.wire ++ datagrams sent
      → backlog s.transmit.queues 0 ≡ sent
      → s1.transmit.queues 0 ≡ []
      → ((p : ℕ) → 0 < p → s1.transmit.queues p ≡ s.transmit.queues p)
      → Drained s s1 0
  last_round sent e w b z keep = record {
    sent = ground arith;
    asleep = e;
    emptied = λ p h. let p0 : p ≡ 0 = omega arith in rw p0 z;
    kept = keep;
  }

  more_rounds :
      (s' : Server) (k k' : ℕ) (sent : List Buff)
      → s1.wire ≡ s.wire ++ datagrams sent
      → backlog s.transmit.queues k ≡ sent ++ backlog s1.transmit.queues k'
      → ((p : ℕ) → k' < p → p ≤ k → s1.transmit.queues p ≡ [])
      → ((p : ℕ) → k < p → s1.transmit.queues p ≡ s.transmit.queues p)
      → k' ≤ k
      → Drained s1 s' k'
      → Drained s s' k
  more_rounds s' k k' sent w b mid keep le d = record {
    sent = rw (d.sent, w, b, datagrams-append, append_assoc);
    asleep = d.asleep;
    emptied = λ p h. elim (dec_le p k') [
      | yes low ↦ d.emptied p low
      | no high ↦ d.kept p (omega arith) ∙ mid p (omega arith) h
    ];
    kept = λ p h. d.kept p (omega arith) ∙ keep p h;
  }

-- A round that finds the queue of priority `k` empty, or empties it, ends in `lower`; the round
-- sends `sent`, the one message of the queue or none.
module _ (i : ℕ) (net : ℕ → Bool) (s : Server) (run : s.transmit.run ≡ true)
    (awake : s.transmit.evt_loop ≡ true) (sent : List Buff) where
  bottom_round :
      s.transmit.queues 0 ≡ sent
      → 0 < i
      → (thread_poll s (net i)).transmit
        ≡ lower (record s.transmit { queues = put s.transmit.queues 0 [] }) 0 queue_empty
      → (thread_poll s (net i)).wire ≡ s.wire ++ datagrams sent
      → Drains (suc i) net s 0
  bottom_round all h e w =
      let s1 = thread_poll s (net i) in
      let asleep : s1.transmit.evt_loop ≡ false = ground arith in
      (
        s1,
        work-awake i net s run awake ∙ work-asleep i net s1 h asleep,
        last_round s s1 sent asleep w all (ground arith) (λ p q. ground arith),
      )

  lower_round :
      (j : ℕ)
      → s.transmit.queues (suc j) ≡ sent
      → (thread_poll s (net i)).transmit
        ≡ lower
            (record s.transmit { queues = put s.transmit.queues (suc j) [] })
            (suc j)
            queue_empty
      → (thread_poll s (net i)).wire ≡ s.wire ++ datagrams sent
      → Drains i net (thread_poll s (net i)) j
      → Drains (suc i) net s (suc j)
  lower_round j all e w (s', r, d) =
      let s1 = thread_poll s (net i) in
      (
        s',
        work-awake i net s run awake ∙ r,
        more_rounds s s1 s' (suc j) j sent w
            (ground (arith, backlog-put_above s.transmit.queues j (suc j) []))
            (λ p lo hi. let p0 : p ≡ suc j = omega arith in rw p0 (ground arith))
            (λ p h. ground arith) (omega arith) d,
      )

  -- A round that leaves messages in the queue stays at its priority.
  same_round :
      (k : ℕ) (b c : Buff) (bs : List Buff)
      → sent ≡ b ∷ []
      → s.transmit.queues k ≡ b ∷ c ∷ bs
      → (thread_poll s (net i)).transmit
        ≡ record s.transmit { queues = put s.transmit.queues k (c ∷ bs) }
      → (thread_poll s (net i)).wire ≡ s.wire ++ datagrams sent
      → Drains i net (thread_poll s (net i)) k
      → Drains (suc i) net s k
  same_round k b c bs one all e w (s', r, d) =
      let s1 = thread_poll s (net i) in
      (
        s',
        work-awake i net s run awake ∙ r,
        more_rounds s s1 s' k k sent w (ground (arith, backlog-head s.transmit.queues k b (c ∷ bs)))
            (λ p lo hi. absurd (omega arith)) (λ p h. ground arith) (omega arith) d,
      )

pub put_self : (qs : ℕ → List Buff) (k : ℕ) → qs k ≡ [] → put qs k [] ≡ qs
put_self qs k e = fun_ext λ p. ground arith

-- The number of rounds that surely suffice.
abbrev pub rounds : Server → ℕ → ℕ
rounds s k = length (backlog s.transmit.queues k) + k + 2

-- What the induction gives for the rest of the loop.
abbrev Rest : ℕ → (ℕ → Bool) → Type 0
Rest i net =
    (s : Server) (k : ℕ)
    → s.transmit.run ≡ true
    → s.transmit.evt_loop ≡ true
    → s.transmit.current ≡ some k
    → rounds s k ≤ i
    → Drains i net s k

-- One round and the rest of the loop, by cases on the priority and on what its queue holds.
round_cases :
    (i : ℕ) (net : ℕ → Bool) (s : Server) (k : ℕ) (q : List Buff)
    → s.transmit.run ≡ true
    → s.transmit.evt_loop ≡ true
    → s.transmit.current ≡ some k
    → s.transmit.queues k ≡ q
    → rounds s k ≤ suc i
    → Rest i net
    → Drains (suc i) net s k
round_cases i net s zero [] run awake at e enough rest =
    let (t, w) = poll-nil s 0 (net i) at e in
    bottom_round i net s run awake [] e (omega arith) (rw (put_self s.transmit.queues 0 e) t)
      (rw append-nil w)
round_cases i net s (suc j) [] run awake at e enough rest =
    let (t, w) = poll-nil s (suc j) (net i) at e in
    lower_round i net s run awake [] j e (rw (put_self s.transmit.queues (suc j) e) t)
      (rw append-nil w)
      (rest (thread_poll s (net i)) j (ground arith) (ground arith) (ground arith) (ground arith))
round_cases i net s zero (b ∷ []) run awake at e enough rest =
    let (t, w) = poll-cons s 0 (net i) at b [] e in
    bottom_round i net s run awake (b ∷ []) e (ground arith) t w
round_cases i net s (suc j) (b ∷ []) run awake at e enough rest =
    let (t, w) = poll-cons s (suc j) (net i) at b [] e in
    lower_round i net s run awake (b ∷ []) j e t w (
      rest (thread_poll s (net i)) j (ground arith) (ground arith) (ground arith)
        (ground (arith, backlog-put_above s.transmit.queues j (suc j) [])))
round_cases i net s k (b ∷ c ∷ bs) run awake at e enough rest =
    let (t, w) = poll-cons s k (net i) at b (c ∷ bs) e in
    same_round i net s run awake (b ∷ []) k b c bs refl e t w (
      rest (thread_poll s (net i)) k (ground arith) (ground arith) (ground arith)
        (ground (arith, backlog-head s.transmit.queues k b (c ∷ bs))))

thread_work_lem : (fuel : ℕ) (net : ℕ → Bool) → Rest fuel net
thread_work_lem zero net s k run awake at enough = absurd (omega arith)
thread_work_lem (suc i) net s k run awake at enough =
    round_cases i net s k (s.transmit.queues k) run awake at refl enough (thread_work_lem i net)

-- The thread of tls_transmit.c, awake and at the queue of priority `k`, runs until it sleeps: with fuel
-- for as many rounds as there are messages waiting and priorities below, and two more, the loop ends.
-- By then it has handed to the socket exactly the UDP messages that waited at `k` and below, those of
-- higher priority first and each queue from its head; these queues are empty and the event is clear.
-- Queues of higher priority than `k` are as before.
pub thread_work-Drained :
    (fuel : ℕ) (net : ℕ → Bool) (s : Server) (k : ℕ)
    → s.transmit.run ≡ true
    → s.transmit.evt_loop ≡ true
    → s.transmit.current ≡ some k
    → rounds s k ≤ fuel
    → (s' : Server) × (thread_work fuel net s ≡ some s') × Drained s s' k
thread_work-Drained fuel net = thread_work_lem fuel net

-- One message in queues that are empty else.
backlog-none : (qs : ℕ → List Buff) (k : ℕ) → ((q : ℕ) → q ≤ k → qs q ≡ []) → backlog qs k ≡ []
backlog-none qs zero h = h 0 (omega arith)
backlog-none qs (suc k) h =
    rw (h (suc k) (omega arith)) (backlog-none qs k λ q le. h q (omega arith))

pub backlog-single :
    (qs : ℕ → List Buff) (p k : ℕ) (b : Buff)
    → ((q : ℕ) → q ≢ p → qs q ≡ [])
    → qs p ≡ b ∷ []
    → p ≤ k
    → backlog qs k ≡ b ∷ []
backlog-single qs p zero b h e le = let p0 : 0 ≡ p = omega arith in rw p0 e
backlog-single qs p (suc k) b h e le = elim (dec_le p k) [
  | yes low ↦ rw (h (suc k) (omega arith)) (backlog-single qs p k b h e low)
  | no high ↦
      let p1 : p ≡ suc k = omega arith in
      let top : qs (suc k) ≡ b ∷ [] = rw (← p1) e in
      rw (top, backlog-none qs k (λ q le. h q (omega arith))) refl
]
