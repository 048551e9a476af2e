-- ===== src/TlsRequest/Answer/Timeout.antt =====
-- The time-out of a request of 722device/server/tls_request.c.
use ai_coding_for_business.Common.{
  some-inj, ℕ, suc, ◌+◌, ◌-◌, ◌%◌, ◌≤◌, ◌<◌, ◌≡◌, ◌⊎◌, inl, inr, refl, sym, ap, ◌∙◌, subst, arith,
  true, false, Option, some, List, [], ◌∷◌, ◌==◌, leb, if◌then◌else◌, has, Distinct, put, e_timeout,
  Bool-cases,
}
use ai_coding_for_business.State.{Server}
use ai_coding_for_business.TlsRequest.{
  Command, Request, LinkRequest, due, call_cb, poll_command, poll_loop, command_poll,
}
use ai_coding_for_business.TlsRequest.Steps.{WellFormed, command_poll-WellFormed}
use ai_coding_for_business.TlsRequest.Heaps.{Live, Live-polled, poll_loop-outside}
use ai_coding_for_business.TlsRequest.Answer.{Meanwhile}
use ai_coding_for_business.TlsRequest.Answer.Tracking.{Meanwhile-Tracked}
use ai_coding_for_business.TlsRequest.Answer.Result.{Askable, begun, begun-Tracked}

module _ (times : ℕ → ℕ) (p : ℕ) where
  -- One that is in it is looked at once.
  poll_loop-at :
      (i : ℕ) (ps : List ℕ) (heap : ℕ → Option Command) (c : Command)
      → Distinct ps
      → Live heap ps
      → has p ps ≡ true
      → heap p ≡ some c
      → (k : ℕ) × (heap' : ℕ → Option Command) × (poll_loop times i ps heap ≡ some heap')
        × (heap' p ≡ some (poll_command (times k) c))
  unfolding poll_loop
  poll_loop-at i [] heap c d h inside e = cc
  poll_loop-at i (q ∷ qs) heap c d ((c0, e0), h) inside e = elim (Bool-cases (p == q)) [
    | inl hit ↦
        let there : p ≡ q = ground arith in
        let one : c0 ≡ c = some-inj c0 c (sym e0 ∙ ap heap (sym there) ∙ e) in
        let out : has p qs ≡ false = subst (λ x. has x qs ≡ false) (sym there) d.0 in
        let (heap', run, same) =
          poll_loop-outside times p (suc i) qs (put heap q (some (poll_command (times i) c0))) out
            (Live-polled heap q c0 (times i) qs e0 h) in
        let here : put heap q (some (poll_command (times i) c0)) p
            ≡ some (poll_command (times i) c0) =
          rw hit refl in
        (
          i,
          heap',
          rw (poll_loop, e0) run,
          same ∙ here ∙ ap (λ x. some (poll_command (times i) x)) one,
        )
    | inr miss ↦
        let (k, heap', run, found) =
          poll_loop-at (suc i) qs (put heap q (some (poll_command (times i) c0))) c d.1
            (Live-polled heap q c0 (times i) qs e0 h) (ground arith) (rw miss e) in
        (k, heap', rw (poll_loop, e0) run, found)
  ]

  command_poll-at :
      (r : Request) (c : Command)
      → WellFormed r
      → has p r.waiting ≡ true
      → r.heap p ≡ some c
      → (k : ℕ) × (heap' : ℕ → Option Command) × (command_poll times r
          ≡ some (record r { heap = heap' }))
        × (heap' p ≡ some (poll_command (times k) c))
  unfolding command_poll
  command_poll-at r c w inside e =
      let (k, heap', run, found) = poll_loop-at 0 r.waiting r.heap c w.distinct w.live inside e in
      (k, heap', rw (command_poll, run) refl, found)

-- A command of a request that began at `now`, which waits or whose client has been woken by its time-out.
abbrev Began : (now : ℕ) → Command → Type 0
Began now c =
    (c.timeout ≡ 2000000)
    × (c.tv_start ≡ now)
    × ((c.result ≡ 0) ⊎ ((c.result ≡ 4294967295) × (c.event ≡ true)))

aging-Began : (now t : ℕ) (c : Command) → Began now c → Began now (poll_command t c)
aging-Began now t c (long, start, inr (e, set)) =
    (ground (arith, long), ground (arith, start), inr (ground (arith, e), ground (arith, set)))
aging-Began now t c (long, start, inl e) = elim (Bool-cases (due c)) [
  | inl late ↦ (rw (e, late) long, rw (e, late) start, inr (rw (e, late) (refl, refl)))
  | inr early ↦ (rw (e, early) long, rw (e, early) start, inl (rw (e, early) refl))
]

abbrev timed_out : ℕ → Command → Command
timed_out t c = record (call_cb e_timeout c) { tv_tick = t }

poll_command-done : (t : ℕ) (c : Command) → c.result ≡ 4294967295 → poll_command t c ≡ c
poll_command-done t c e =
    let test : (c.result == 0) ≡ false = subst (λ n. (n == 0) ≡ false) (sym e) refl in
    ap (λ b. if b then record (if due c then call_cb e_timeout c else c) { tv_tick = t } else c)
      test

poll_command-late :
    (t : ℕ) (c : Command) → c.result ≡ 0 → due c ≡ true → poll_command t c ≡ timed_out t c
poll_command-late t c e late =
    let test : (c.result == 0) ≡ true = subst (λ n. (n == 0) ≡ true) (sym e) refl in
    ap (λ b. if b then record (if due c then call_cb e_timeout c else c) { tv_tick = t } else c)
      test
    ∙ ap (λ b. record (if b then call_cb e_timeout c else c) { tv_tick = t }) late

poll_command-early :
    (t : ℕ) (c : Command)
    → c.result ≡ 0
    → due c ≡ false
    → poll_command t c ≡ record c { tv_tick = t }
poll_command-early t c e early =
    let test : (c.result == 0) ≡ true = subst (λ n. (n == 0) ≡ true) (sym e) refl in
    ap (λ b. if b then record (if due c then call_cb e_timeout c else c) { tv_tick = t } else c)
      test
    ∙ ap (λ b. record (if b then call_cb e_timeout c else c) { tv_tick = t }) early

-- Two looks, the first of them when the time is over.
abbrev Woken : Command → Type 0
Woken c = (c.result ≡ 4294967295) × (c.event ≡ true)

twice :
    (now t1 t2 : ℕ) (c : Command)
    → Began now c
    → now + 2000000 ≤ t1
    → t1 < 18446744073709551616
    → Woken (poll_command t2 (poll_command t1 c))
twice now t1 t2 c (long, start, inr (e, set)) le lt =
    let first = poll_command-done t1 c e in
    subst Woken (sym (ap (poll_command t2) first ∙ poll_command-done t2 c e)) (e, set)
twice now t1 t2 c (long, start, inl e) le lt = elim (Bool-cases (due c)) [
  | inl late ↦
      let first = poll_command-late t1 c e late in
      subst Woken (sym (ap (poll_command t2) first ∙ poll_command-done t2 (timed_out t1 c) refl))
        (refl, refl)
  | inr early ↦
      let c1 = record c { tv_tick = t1 } in
      let first = poll_command-early t1 c e early in
      let elapsed : (t1 + (18446744073709551616 - c.tv_start)) % 18446744073709551616 ≡ t1 - now =
        omega (arith, start, le, lt) in
      let late : due c1 ≡ true =
        subst (λ n. leb c.timeout n ≡ true) (sym elapsed)
          (subst (λ n. leb n (t1 - now) ≡ true) (sym long)
            (leb-le 2000000 (t1 - now) (omega (arith, le)))) in
      subst Woken (sym (ap (poll_command t2) first ∙ poll_command-late t2 c1 e late)) (refl, refl)
]
  where
    leb-le : (a b : ℕ) → a ≤ b → leb a b ≡ true
    leb-le a b h = ground arith

module _ (s : Server) (r : Request) (p : ℕ) (id : List ℕ) (now : ℕ) (q : LinkRequest)
    (ask : Askable r p id) (r' : Request)
    (meanwhile : Meanwhile p id (begun s r p id now q ask) r') where
  -- A request begins at a time, and the other threads do what they do. Two seconds later the thread that looks for
  -- time-outs goes over all commands, and then once more; the clock never reaches the end of its 64 bits. After
  -- this the event of the request is set, and its result is that of a time-out: its client is woken.
  pub times_out :
      (times1 times2 : ℕ → ℕ)
      → ((k : ℕ) → now + 2000000 ≤ times1 k)
      → ((k : ℕ) → times1 k < 18446744073709551616)
      → (r1 : Request) × (r2 : Request) × (c : Command) × (command_poll times1 r' ≡ some r1)
        × (command_poll times2 r1 ≡ some r2)
        × (r2.heap p ≡ some c)
        × (c.result ≡ 4294967295)
        × (c.event ≡ true)
  times_out times1 times2 over below =
      let t =
        Meanwhile-Tracked (Began now) (aging-Began now) p id (begun s r p id now q ask) r' meanwhile
          (begun-Tracked s r p id now q ask (Began now) (refl, refl, inl refl)) in
      let (k, heap1, run1, at1) = command_poll-at times1 p r' t.command t.formed t.inside t.at_p in
      let c1 = poll_command (times1 k) t.command in
      let r1 = record r' { heap = heap1 } in
      let formed = command_poll-WellFormed times1 r' r1 run1 t.formed in
      let (j, heap2, run2, at2) = command_poll-at times2 p r1 c1 formed t.inside at1 in
      let (result, event) = twice now (times1 k) (times2 j) t.command t.kept (over k) (below k) in
      (r1, record r1 { heap = heap2 }, poll_command (times2 j) c1, run1, run2, at2, result, event)
