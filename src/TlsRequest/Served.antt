-- ===== src/TlsRequest/Served.antt =====
-- Which thread of 722device/server/tls_request.c has which command, and what each of them finds there.
use ai_coding_for_business.Common.{
  some-inj, ℕ, ◌≡◌, ◌⊎◌, inl, inr, refl, sym, ap, ◌∙◌, subst, arith, Bool, true, false, ◌||◌,
  Option, none, some, List, [], ◌∷◌, ◌==◌, has, Distinct, put, Bool-cases, Option-cases,
}
use ai_coding_for_business.TlsList.Chain.{has-append}
use ai_coding_for_business.TlsList.Remove.{erase, Distinct-erase, has-erase}
use ai_coding_for_business.TlsRequest.{
  Command, Request, initialize, push_queue, remove_queue, command_poll, find, session_id, answered,
  store_response, LinkResult, result_for, freed, link_info_finish, ℕ, List, Option,
}
use ai_coding_for_business.TlsRequest.Heaps.{
  Always, Live, Live-Keeps, Live-put_other, has-Live, Live-has, Live-erase, has-erase_same,
  has-erase_other, command_poll-Keeps, command_poll-outside, find_loop-found, store_response-Keeps,
  store_response-gone, link_info_finish-freed,
}
use ai_coding_for_business.TlsRequest.Steps.{
  WellFormed, Threads, Step, begins, polls, finds, stores, leaves, frees, Reach, here, next,
  push_queue-WellFormed, remove_queue-WellFormed, freed-WellFormed, Keeps-WellFormed,
  command_poll-WellFormed,
}

-- What is allocated waits in the queue or has been removed by its client, and never both.
pub record Owned (t : Threads) : Type 0 where
  pub formed : WellFormed t.table
  pub distinct : Distinct t.leaving
  pub live : Live t.table.heap t.leaving
  pub apart : (q : ℕ) → has q t.leaving ≡ true → has q t.table.waiting ≡ false
  pub exact :
      (q : ℕ) → has q t.table.waiting ≡ false → has q t.leaving ≡ false → t.table.heap q ≡ none

begins-Owned :
    (t : Threads) (p : ℕ) (id : List ℕ) (now : ℕ)
    → t.table.heap p ≡ none
    → Owned t
    → Owned (record t { table = push_queue t.table p (initialize id) now })
unfolding push_queue
begins-Owned t p id now e o =
    let r = t.table in
    let c = record (initialize id) { tv_start = now; tv_tick = now } in
    let out = has-Live r.heap p t.leaving e o.live in
    record {
      formed = push_queue-WellFormed r p (initialize id) now e o.formed;
      distinct = o.distinct;
      live = Live-put_other r.heap p (some c) t.leaving out o.live;
      apart = λ q h. elim (Bool-cases (q == p)) [
        | inl hit ↦ let there : q ≡ p = ground arith in cc
        | inr miss ↦ ground (arith, has-append q r.waiting (p ∷ []), o.apart q h, miss)
      ];
      exact = λ q a b. elim (Bool-cases (q == p)) [
        | inl hit ↦ absurd (ground (arith, has-append q r.waiting (p ∷ []), hit, a))
        | inr miss ↦
            rw miss (o.exact q (ground (arith, has-append q r.waiting (p ∷ []), miss, a)) b)
      ];
    }

polls-Owned :
    (t : Threads) (times : ℕ → ℕ) (r : Request)
    → command_poll times t.table ≡ some r
    → Owned t
    → Owned (record t { table = r })
polls-Owned t times r run o =
    let (heap', e, k) = command_poll-Keeps Always (λ now c h. h) times t.table o.formed.live in
    let one : record t.table { heap = heap' } ≡ r =
      some-inj (record t.table { heap = heap' }) r (sym e ∙ run) in
    let waits : r.waiting ≡ t.table.waiting = ap (λ x. x.waiting) (sym one) in
    record {
      formed = command_poll-WellFormed times t.table r run o.formed;
      distinct = o.distinct;
      live =
          subst (λ x. Live x.heap t.leaving) one
            (Live-Keeps Always t.table.heap heap' k t.leaving o.live);
      apart = λ q h. ap (has q) waits ∙ o.apart q h;
      exact = λ q a b.
          let out = ap (has q) (sym waits) ∙ a in
          (command_poll-outside times q t.table r out o.formed.live run).0 ∙ o.exact q out b;
    }

-- A response is stored into a command that is allocated.
store-Owned :
    (t : Threads) (p : ℕ) (msg : ℕ → ℕ) (c : Command)
    → t.table.heap p ≡ some c
    → Owned t
    → Owned (record t {
      table = record t.table { heap = put t.table.heap p (some (answered c msg)) };
      found = none;
    })
store-Owned t p msg c e o =
    let (run, k) = store_response-Keeps Always msg t.table p c e (λ h. h) in
    let heap' = put t.table.heap p (some (answered c msg)) in
    record {
      formed = Keeps-WellFormed t.table heap' k o.formed;
      distinct = o.distinct;
      live = Live-Keeps Always t.table.heap heap' k t.leaving o.live;
      apart = o.apart;
      exact = λ q a b. elim (Bool-cases (q == p)) [
        | inl hit ↦ let there : q ≡ p = ground arith in let gone = o.exact q a b in cc
        | inr miss ↦ rw miss (o.exact q a b)
      ];
    }

stores-Owned :
    (t : Threads) (p : ℕ) (msg : ℕ → ℕ) (r : Request)
    → store_response t.table p msg ≡ some r
    → Owned t
    → Owned (record t { table = r; found = none })
stores-Owned t p msg r run o = elim (Option-cases (t.table.heap p)) [
  | inl e ↦ let gone = store_response-gone msg t.table p e in cc
  | inr (c, e) ↦
      let (run', k) = store_response-Keeps Always msg t.table p c e (λ h. h) in
      let r1 = record t.table { heap = put t.table.heap p (some (answered c msg)) } in
      subst (λ x. Owned (record t { table = x; found = none })) (some-inj r1 r (sym run' ∙ run))
        (store-Owned t p msg c e o)
]

leaves-Owned :
    (t : Threads) (p : ℕ)
    → has p t.table.waiting ≡ true
    → Owned t
    → Owned (record t { table = remove_queue t.table p; leaving = p ∷ t.leaving })
unfolding remove_queue
leaves-Owned t p inside o =
    let r = t.table in
    let fresh : has p t.leaving ≡ false = elim (Bool-cases (has p t.leaving)) [
      | inl h ↦ let out = o.apart p h in cc
      | inr h ↦ h
    ] in
    record {
      formed = remove_queue-WellFormed r p o.formed;
      distinct = (fresh, o.distinct);
      live = (Live-has r.heap p r.waiting inside o.formed.live, o.live);
      apart = λ q h. elim (Bool-cases (q == p)) [
        | inl hit ↦
            let there : q ≡ p = ground arith in
            subst (λ x. has x (erase p r.waiting) ≡ false) (sym there)
              (has-erase_same p r.waiting o.formed.distinct)
        | inr miss ↦ has-erase q p r.waiting (o.apart q (ground (arith, h, miss)))
      ];
      exact = λ q a b. elim (Bool-cases (has q r.waiting)) [
        | inl h ↦ elim (Bool-cases (q == p)) [
          | inl hit ↦ absurd (ground (arith, b, hit))
          | inr miss ↦ let still = has-erase_other q p r.waiting miss h in cc
        ]
        | inr h ↦ o.exact q h (ground (arith, b))
      ];
    }

freed-Owned :
    (t : Threads) (p : ℕ)
    → has p t.leaving ≡ true
    → Owned t
    → Owned (record t { table = freed t.table p; leaving = erase p t.leaving })
freed-Owned t p inside o = record {
  formed = freed-WellFormed t.table p (o.apart p inside) o.formed;
  distinct = Distinct-erase p t.leaving o.distinct;
  live =
      Live-put_other t.table.heap p none (erase p t.leaving) (has-erase_same p t.leaving o.distinct)
        (Live-erase t.table.heap p t.leaving o.live);
  apart = λ q h. elim (Bool-cases (has q t.leaving)) [
    | inl still ↦ o.apart q still
    | inr gone ↦ let out = has-erase q p t.leaving gone in cc
  ];
  exact = λ q a b. elim (Bool-cases (q == p)) [
    | inl hit ↦ rw hit refl
    | inr miss ↦ elim (Bool-cases (has q t.leaving)) [
      | inl h ↦ let still = has-erase_other q p t.leaving miss h in cc
      | inr h ↦ rw miss (o.exact q a h)
    ]
  ];
}

Step-Owned : (t u : Threads) → Step t u → Owned t → Owned u
Step-Owned t _ (begins p id now e) o = begins-Owned t p id now e o
Step-Owned t _ (polls times r run) o = polls-Owned t times r run o
Step-Owned t _ (finds msg found idle run) o = record {
  formed = o.formed;
  distinct = o.distinct;
  live = o.live;
  apart = o.apart;
  exact = o.exact;
}
Step-Owned t _ (stores p msg r held run) o = stores-Owned t p msg r run o
Step-Owned t _ (leaves p inside) o = leaves-Owned t p inside o
Step-Owned t _ (frees p woken result r inside run) o =
    let (c, e) = Live-has t.table.heap p t.leaving inside o.live in
    let one =
      some-inj {A = LinkResult × Request} (result_for woken c, freed t.table p) (result, r)
        (sym (link_info_finish-freed t.table p woken c e) ∙ run) in
    subst (λ x. Owned (record t { table = x; leaving = erase p t.leaving })) (ap (λ x. x.1) one)
      (freed-Owned t p inside o)

-- What each thread meets at its next step; for the receiver, whether the command that it has found is still
-- the client's, or is freed.
pub record Served (t : Threads) : Type 0 where
  pub polled : (times : ℕ → ℕ) → (r : Request) × (command_poll times t.table ≡ some r)
  pub searched : (msg : ℕ → ℕ) → (o : Option ℕ) × (find t.table (session_id msg) ≡ some o)
  pub finished :
      (p : ℕ) (woken : Bool)
      → has p t.leaving ≡ true
      → (result : LinkResult) × (r : Request) × (link_info_finish t.table p woken
          ≡ some (result, r))
  pub stored :
      (p : ℕ) (msg : ℕ → ℕ)
      → t.found ≡ some (p, msg)
      → (((has p t.table.waiting || has p t.leaving) ≡ true)
          × ((r : Request) × (store_response t.table p msg ≡ some r)))
        ⊎ (((has p t.table.waiting || has p t.leaving) ≡ false)
            × (store_response t.table p msg ≡ none))

Reach-Owned : (t u : Threads) → Reach t u → Owned t → Owned u
Reach-Owned t _ here o = o
Reach-Owned t _ (next u v steps step) o = Step-Owned u v step (Reach-Owned t u steps o)

stored-cases :
    (t : Threads) (p : ℕ) (msg : ℕ → ℕ)
    → Owned t
    → (((has p t.table.waiting || has p t.leaving) ≡ true)
        × ((r : Request) × (store_response t.table p msg ≡ some r)))
      ⊎ (((has p t.table.waiting || has p t.leaving) ≡ false)
          × (store_response t.table p msg ≡ none))
stored-cases t p msg o = elim (Bool-cases (has p t.table.waiting)) [
  | inl waits ↦
      let (c, e) = Live-has t.table.heap p t.table.waiting waits o.formed.live in
      let (run, k) = store_response-Keeps Always msg t.table p c e (λ h. h) in
      inl (rw waits refl, (_, run))
  | inr no_wait ↦ elim (Bool-cases (has p t.leaving)) [
    | inl left ↦
        let (c, e) = Live-has t.table.heap p t.leaving left o.live in
        let (run, k) = store_response-Keeps Always msg t.table p c e (λ h. h) in
        inl (rw (no_wait, left) refl, (_, run))
    | inr gone ↦
        inr (rw (no_wait, gone) refl, store_response-gone msg t.table p (o.exact p no_wait gone))
  ]
]

-- Clients begin, leave the queue and free their commands, one thread looks for time-outs, and the receiver finds
-- commands and stores responses, in any order, from a state where what is allocated waits or is being left. Then
-- the look for time-outs, the search of the receiver, and the reading and freeing of each command by its
-- client never meet a freed command. The receiver, which stores without the lock, meets one exactly when
-- the client of the command that it has found has freed it meanwhile, and no new one is at its address.
pub Reach-Served : (t u : Threads) → Reach t u → Owned t → Served u
Reach-Served t u steps o0 =
    let o = Reach-Owned t u steps o0 in
    record {
      polled = λ times.
          let (heap', e, k) =
            command_poll-Keeps Always (λ now c h. h) times u.table o.formed.live in
          (record u.table { heap = heap' }, e);
      searched = λ msg.
          elim (find_loop-found u.table.heap u.table.waiting (session_id msg) o.formed.live) [
            | inl absent ↦ (none, absent)
            | inr (p, c, found, e, same) ↦ (some p, found)
          ];
      finished = λ p woken inside.
          let (c, e) = Live-has u.table.heap p u.leaving inside o.live in
          (result_for woken c, freed u.table p, link_info_finish-freed u.table p woken c e);
      stored = λ p msg held. stored-cases u p msg o;
    }
