-- ===== src/TlsRequest/Answer/Tracking.antt =====
-- A command of 722device/server/tls_request.c that waits, through the steps of the other threads.
use ai_coding_for_business.Common.{
  some-inj, ℕ, ◌≡◌, inl, inr, refl, sym, ◌∙◌, subst, arith, true, false, Option, none, some, List,
  [], ◌∷◌, ◌==◌, has, put, put-same, Bool-cases, Option-cases, str_eq,
}
use ai_coding_for_business.TlsList.Chain.{has-append}
use ai_coding_for_business.TlsRequest.{
  Command, Request, initialize, push_queue, remove_queue, poll_command, answered, freed,
}
use ai_coding_for_business.TlsRequest.Steps.{
  WellFormed, push_queue-WellFormed, remove_queue-WellFormed, freed-WellFormed, Keeps-WellFormed,
  command_poll-WellFormed,
}
use ai_coding_for_business.TlsRequest.Heaps.{
  Always, Keeps, has-erase_other, command_poll-Keeps, store_response-Keeps, store_response-gone,
}
use ai_coding_for_business.TlsRequest.Answer.{
  Others, begins, polls, stores, leaves, frees, Meanwhile, here, next, Apart, Apart-Keeps,
  Apart-append, Apart-erase, Apart-put_other,
}

fresh-Keeps :
    (P : Command → Type 0) (heap : ℕ → Option Command) (q : ℕ) (c : Command)
    → heap q ≡ none
    → Keeps P heap (put heap q (some c))
fresh-Keeps P heap q c e x d f = elim (Bool-cases (x == q)) [
  | inl hit ↦ let there : x ≡ q = ground arith in cc
  | inr miss ↦ (d, rw miss f, refl, λ h. h)
]

-- The command `p` waits with its id and has the property `P`.
pub record Tracked (P : Command → Type 0) (p : ℕ) (id : List ℕ) (r : Request) : Type 0 where
  pub formed : WellFormed r
  pub inside : has p r.waiting ≡ true
  pub command : Command
  pub at_p : r.heap p ≡ some command
  pub same_id : str_eq command.id id ≡ true
  pub kept : P command
  pub apart : Apart r.heap p id r.waiting

module _ (P : Command → Type 0) (aging : (now : ℕ) (c : Command) → P c → P (poll_command now c))
    (p : ℕ) (id : List ℕ) where
  -- `P` for the commands with the id only.
  abbrev ForId : Command → Type 0
  ForId c = str_eq c.id id ≡ true → P c

  aging_id : (now : ℕ) (c : Command) → ForId c → ForId (poll_command now c)
  aging_id now c h same = aging now c (h (ground (arith, same)))

  Tracked-Keeps :
      (r : Request) (heap' : ℕ → Option Command)
      → WellFormed (record r { heap = heap' })
      → Keeps ForId r.heap heap'
      → Tracked P p id r
      → Tracked P p id (record r { heap = heap' })
  Tracked-Keeps r heap' w k t =
      let (c', e, same, kept) = k p t.command t.at_p in
      let same' : str_eq c'.id id ≡ true = subst (λ i. str_eq i id ≡ true) (sym same) t.same_id in
      record {
        formed = w;
        inside = t.inside;
        command = c';
        at_p = e;
        same_id = same';
        kept = kept (λ h. t.kept) same';
        apart = Apart-Keeps ForId r.heap heap' p id k r.waiting t.apart;
      }

  Tracked-begins :
      (r : Request) (q : ℕ) (other : List ℕ) (now : ℕ)
      → WellFormed (push_queue r q (initialize other) now)
      → r.heap q ≡ none
      → str_eq other id ≡ false
      → Tracked P p id r
      → Tracked P p id (push_queue r q (initialize other) now)
  unfolding push_queue
  Tracked-begins r q other now w e differs t =
      let c = record (initialize other) { tv_start = now; tv_tick = now } in
      let k = fresh-Keeps ForId r.heap q c e in
      let (c', e', same, kept) = k p t.command t.at_p in
      let same' : str_eq c'.id id ≡ true = subst (λ i. str_eq i id ≡ true) (sym same) t.same_id in
      record {
        formed = w;
        inside = ground (arith, has-append p r.waiting (q ∷ []), t.inside);
        command = c';
        at_p = e';
        same_id = same';
        kept = kept (λ h. t.kept) same';
        apart =
            Apart-append (put r.heap q (some c)) p id r.waiting q c
              (Apart-Keeps ForId r.heap (put r.heap q (some c)) p id k r.waiting t.apart)
              (put-same r.heap q (some c)) differs;
      }

  Tracked-stores :
      (r : Request) (q : ℕ) (msg : ℕ → ℕ) (c : Command)
      → (p == q) ≡ false
      → r.heap q ≡ some c
      → Tracked P p id r
      → Tracked P p id (record r { heap = put r.heap q (some (answered c msg)) })
  Tracked-stores r q msg c differs e t =
      let heap' = put r.heap q (some (answered c msg)) in
      let (run, k) = store_response-Keeps Always msg r q c e (λ h. h) in
      record {
        formed = Keeps-WellFormed r heap' k t.formed;
        inside = t.inside;
        command = t.command;
        at_p = rw differs t.at_p;
        same_id = t.same_id;
        kept = t.kept;
        apart = Apart-Keeps Always r.heap heap' p id k r.waiting t.apart;
      }

  Tracked-leaves :
      (r : Request) (q : ℕ)
      → (p == q) ≡ false
      → Tracked P p id r
      → Tracked P p id (remove_queue r q)
  unfolding remove_queue
  Tracked-leaves r q differs t = record {
    formed = remove_queue-WellFormed r q t.formed;
    inside = has-erase_other p q r.waiting differs t.inside;
    command = t.command;
    at_p = t.at_p;
    same_id = t.same_id;
    kept = t.kept;
    apart = Apart-erase r.heap p id q r.waiting t.apart;
  }

  Tracked-frees :
      (r : Request) (q : ℕ)
      → (p == q) ≡ false
      → has q r.waiting ≡ false
      → Tracked P p id r
      → Tracked P p id (freed r q)
  Tracked-frees r q differs out t = record {
    formed = freed-WellFormed r q out t.formed;
    inside = t.inside;
    command = t.command;
    at_p = rw differs t.at_p;
    same_id = t.same_id;
    kept = t.kept;
    apart = Apart-put_other r.heap p id q none r.waiting out t.apart;
  }

  Others-Tracked : (r r' : Request) → Others p id r r' → Tracked P p id r → Tracked P p id r'
  Others-Tracked r _ (begins q other now e differs) t =
      Tracked-begins r q other now (push_queue-WellFormed r q (initialize other) now e t.formed) e
        differs t
  Others-Tracked r _ (polls times r' run) t =
      let (heap', e, k) = command_poll-Keeps ForId aging_id times r t.formed.live in
      let one = some-inj (record r { heap = heap' }) r' (sym e ∙ run) in
      subst (Tracked P p id) one (
        Tracked-Keeps r heap'
          (subst WellFormed (sym one) (command_poll-WellFormed times r r' run t.formed)) k t)
  Others-Tracked r _ (stores q msg r' differs run) t = elim (Option-cases (r.heap q)) [
    | inl e ↦ let gone = store_response-gone msg r q e in cc
    | inr (c, e) ↦
        let (run', k) = store_response-Keeps Always msg r q c e (λ h. h) in
        subst (Tracked P p id)
          (some-inj (record r { heap = put r.heap q (some (answered c msg)) }) r' (sym run' ∙ run))
          (Tracked-stores r q msg c differs e t)
  ]
  Others-Tracked r _ (leaves q differs) t = Tracked-leaves r q differs t
  Others-Tracked r _ (frees q differs out) t = Tracked-frees r q differs out t

  pub Meanwhile-Tracked :
      (r r' : Request) → Meanwhile p id r r' → Tracked P p id r → Tracked P p id r'
  Meanwhile-Tracked r _ here t = t
  Meanwhile-Tracked r _ (next s r' steps step) t =
      Others-Tracked s r' step (Meanwhile-Tracked r s steps t)
