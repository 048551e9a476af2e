-- ===== src/TlsRequest/Answer/Result.antt =====
-- What `tls_request_link_info` of 722device/server/tls_request.c returns, whatever the other threads do meanwhile.
use ai_coding_for_business.Common.{
  ℕ, ◌≡◌, ◌⊎◌, inl, inr, refl, sym, ap, ◌∙◌, subst, arith, Bool, true, false, Option, none, some,
  List, [], ◌∷◌, ◌++◌, ◌==◌, if◌then◌else◌, has, Distinct, put, put-same, Bool-cases, str_eq,
  str_eq_refl,
}
use ai_coding_for_business.TlsList.Chain.{has-append}
use ai_coding_for_business.State.{Server}
use ai_coding_for_business.TlsRequest.{
  Command, Request, LinkRequest, initialize, push_queue, remove_queue, due, poll_command, find_loop,
  find, answered, session_id, store_response, LinkResult, result_for, copy_linkinfo, no_linkinfo,
  freed, link_info_begin, link_info_end,
}
use ai_coding_for_business.TlsRequest.Messages.{copy_linkinfo-answered}
use ai_coding_for_business.TlsRequest.Steps.{WellFormed, push_queue-WellFormed}
use ai_coding_for_business.TlsRequest.Heaps.{
  Always, Live, has-erase_same, has-Live, store_response-Keeps, link_info_end-freed,
}
use ai_coding_for_business.TlsRequest.Answer.{Meanwhile, Apart, Apart-put_other, find_loop-Apart}
use ai_coding_for_business.TlsRequest.Answer.Tracking.{Tracked, Meanwhile-Tracked}

-- A request can begin: there is memory for its command at `p`, and no command that waits has its id.
pub record Askable (r : Request) (p : ℕ) (id : List ℕ) : Type 0 where
  pub formed : WellFormed r
  pub free : r.heap p ≡ none
  pub unused : find r id ≡ some none

find_loop-none :
    (heap : ℕ → Option Command) (p : ℕ) (id : List ℕ) (ps : List ℕ)
    → Live heap ps
    → find_loop heap ps id ≡ some none
    → Apart heap p id ps
unfolding find_loop
find_loop-none heap p id [] h absent = tt
find_loop-none heap p id (q ∷ qs) ((c, e), h) absent = elim (Bool-cases (str_eq c.id id)) [
  | inl hit ↦ ground (arith, e, hit, absent)
  | inr miss ↦ (inr (c, e, miss), find_loop-none heap p id qs h (rw (find_loop, e, miss) at absent))
]

Apart-self :
    (heap : ℕ → Option Command) (p : ℕ) (id : List ℕ) (ps : List ℕ)
    → Apart heap p id ps
    → Apart heap p id (ps ++ p ∷ [])
Apart-self heap p id [] h = (inl refl, tt)
Apart-self heap p id (q ∷ qs) h = (h.0, Apart-self heap p id qs h.1)

module _ (s : Server) (r : Request) (p : ℕ) (id : List ℕ) (now : ℕ) (q : LinkRequest)
    (ask : Askable r p id) where
  abbrev pub begun : Request
  begun = (link_info_begin s r p id now q).2

  pub begun-Tracked :
      (P : Command → Type 0)
      → P (record (initialize id) { tv_start = now; tv_tick = now })
      → Tracked P p id begun
  unfolding link_info_begin push_queue
  begun-Tracked P h =
      let c = record (initialize id) { tv_start = now; tv_tick = now } in
      let out = has-Live r.heap p r.waiting ask.free ask.formed.live in
      record {
        formed = push_queue-WellFormed r p (initialize id) now ask.free ask.formed;
        inside = ground (arith, has-append p r.waiting (p ∷ []));
        command = c;
        at_p = put-same r.heap p (some c);
        same_id = str_eq_refl id;
        kept = h;
        apart = Apart-self (put r.heap p (some c)) p id r.waiting (
            Apart-put_other r.heap p id p (some c) r.waiting out
              (find_loop-none r.heap p id r.waiting ask.formed.live ask.unused));
      }

-- A command waits, or its time-out has been noticed.
abbrev Fate : Command → Type 0
Fate c = (c.result ≡ 0) ⊎ (c.result ≡ 4294967295)

aging-Fate : (now : ℕ) (c : Command) → Fate c → Fate (poll_command now c)
aging-Fate now c (inr e) = inr (ground (arith, e))
aging-Fate now c (inl e) = elim (Bool-cases (due c)) [
  | inl late ↦ inr (rw (e, late) refl)
  | inr early ↦ inl (rw (e, early) refl)
]

-- No response has come.
abbrev Unanswered : Command → Type 0
Unanswered c = ((c.result ≡ 0) × (c.event ≡ false)) ⊎ (c.result ≡ 4294967295)

aging-Unanswered : (now : ℕ) (c : Command) → Unanswered c → Unanswered (poll_command now c)
aging-Unanswered now c (inr e) = inr (ground (arith, e))
aging-Unanswered now c (inl (e, quiet)) = elim (Bool-cases (due c)) [
  | inl late ↦ inr (rw (e, late) refl)
  | inr early ↦ inl (rw (e, early) (refl, quiet))
]

freed-gone :
    (r : Request) (p : ℕ)
    → Distinct r.waiting
    → let r' = freed (remove_queue r p) p in (has p r'.waiting ≡ false) × (r'.heap p ≡ none)
unfolding remove_queue
freed-gone r p d = (has-erase_same p r.waiting d, put-same r.heap p none)

module _ (s : Server) (r : Request) (p : ℕ) (id : List ℕ) (now : ℕ) (q : LinkRequest)
    (ask : Askable r p id) (r' : Request)
    (meanwhile : Meanwhile p id (begun s r p id now q ask) r') where
  -- On a well-formed table, a request begins with an id that no other one has, and the other threads do what they do: begin and
  -- end their own requests, look for time-outs, and store responses into other commands. Then the
  -- response with its id comes. The receiver finds the command of this request, the others go on, and it
  -- stores the response there. The client that is woken returns the fields of the response, the result
  -- negated, or nothing where the time-out was noticed before; and its command is neither in the
  -- queue nor on the heap.
  pub link_info-answered :
      (r1 : Request) (msg : ℕ → ℕ)
      → Meanwhile p id r' r1
      → session_id msg ≡ id
      → (c : Command) × (r2 : Request) × (rest : Request) × (find r' (session_id msg)
          ≡ some (some p))
        × (r1.heap p ≡ some c)
        × ((c.result ≡ 0) ⊎ (c.result ≡ 4294967295))
        × (store_response r1 p msg ≡ some r2)
        × (link_info_end r2 p true
            ≡ some (if c.result == 0 then copy_linkinfo msg else no_linkinfo, rest))
        × (has p rest.waiting ≡ false)
        × (rest.heap p ≡ none)
  link_info-answered r1 msg more same =
      let t0 =
        Meanwhile-Tracked Fate aging-Fate p id (begun s r p id now q ask) r' meanwhile
          (begun-Tracked s r p id now q ask Fate (inl refl)) in
      let t = Meanwhile-Tracked Fate aging-Fate p id r' r1 more t0 in
      let c = t.command in
      let r2 = record r1 { heap = put r1.heap p (some (answered c msg)) } in
      let found =
        find_loop-Apart r'.heap p id t0.command r'.waiting t0.at_p t0.same_id t0.apart t0.inside in
      let (stored, k) = store_response-Keeps Always msg r1 p c t.at_p (λ h. h) in
      let result : result_for true (answered c msg)
          ≡ (if c.result == 0 then copy_linkinfo msg else no_linkinfo) =
        ap (λ x. if c.result == 0 then x else no_linkinfo) (copy_linkinfo-answered c msg) in
      let run =
        link_info_end-freed r2 p true (answered c msg)
          (put-same r1.heap p (some (answered c msg))) in
      let (gone, free) = freed-gone r2 p t.formed.distinct in
      (
        c,
        r2,
        freed (remove_queue r2 p) p,
        subst (λ i. find r' i ≡ some (some p)) (sym same) found,
        t.at_p,
        t.kept,
        stored,
        run ∙ ap (λ x. some (x, freed (remove_queue r2 p) p)) result,
        gone,
        free,
      )

  -- The lock is given up between the two parts of `tls_request_on_response`. Where the response with the id has
  -- found the command, and then the wait of the client ends, the response is stored into memory that has
  -- been freed.
  pub link_info-late :
      (msg : ℕ → ℕ) (woken : Bool)
      → session_id msg ≡ id
      → (result : LinkResult) × (rest : Request) × (find r' (session_id msg) ≡ some (some p))
        × (link_info_end r' p woken ≡ some (result, rest))
        × (store_response rest p msg ≡ none)
  unfolding store_response
  link_info-late msg woken same =
      let t =
        Meanwhile-Tracked Fate aging-Fate p id (begun s r p id now q ask) r' meanwhile
          (begun-Tracked s r p id now q ask Fate (inl refl)) in
      let found =
        find_loop-Apart r'.heap p id t.command r'.waiting t.at_p t.same_id t.apart t.inside in
      let (gone, free) = freed-gone r' p t.formed.distinct in
      (
        result_for woken t.command,
        freed (remove_queue r' p) p,
        subst (λ i. find r' i ≡ some (some p)) (sym same) found,
        link_info_end-freed r' p woken t.command t.at_p,
        rw (store_response, free) refl,
      )

  -- Where no response with its id comes, the client returns a result of zeros, whether its wait ends because it is
  -- woken, as it is only after the event has been set, or because its own time has run out.
  pub link_info-unanswered :
      (woken : Bool)
      → (woken ≡ true → (c : Command) → r'.heap p ≡ some c → c.event ≡ true)
      → (rest : Request) × (link_info_end r' p woken ≡ some (no_linkinfo, rest))
  link_info-unanswered woken event =
      let t =
        Meanwhile-Tracked Unanswered aging-Unanswered p id (begun s r p id now q ask) r' meanwhile
          (begun-Tracked s r p id now q ask Unanswered (inl (refl, refl))) in
      let c = t.command in
      let result : result_for woken c ≡ no_linkinfo = go woken c (λ w. event w c t.at_p) t.kept in
      (
        freed (remove_queue r' p) p,
        link_info_end-freed r' p woken c t.at_p
            ∙ ap (λ x. some (x, freed (remove_queue r' p) p)) result,
      )
    where
      go :
          (woken : Bool) (c : Command)
          → (woken ≡ true → c.event ≡ true)
          → Unanswered c
          → result_for woken c ≡ no_linkinfo
      go false c h u = refl
      go true c h (inl (e, quiet)) = absurd (ground (arith, h refl, quiet))
      go true c h (inr e) = rw e refl
