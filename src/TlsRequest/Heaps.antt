-- ===== src/TlsRequest/Heaps.antt =====
-- The commands of 722device/server/tls_request.c on their heap, and what each operation does with them.
use ai_coding_for_business.Common.{
  some-inj, ℕ, suc, ◌≡◌, ◌⊎◌, inl, inr, refl, sym, ap, ◌∙◌, subst, arith, Bool, true, false, Option,
  none, some, List, [], ◌∷◌, ◌++◌, ◌==◌, has, Distinct, put, Bool-cases, str_eq,
}
use ai_coding_for_business.TlsList.Remove.{erase}
use ai_coding_for_business.TlsRequest.{
  Command, Request, remove_queue, poll_command, poll_loop, command_poll, find_loop, answered,
  store_response, result_for, freed, link_info_finish, link_info_end, ℕ, List, Option, ◌∷◌,
}

-- The commands that wait are allocated.
abbrev pub Live : (ℕ → Option Command) → List ℕ → Type 0
Live heap [] = Unit {0}
Live heap (p ∷ ps) = ((c : Command) × (heap p ≡ some c)) × Live heap ps

same_cell :
    (heap : ℕ → Option Command) (p q : ℕ) (c d : Command)
    → heap p ≡ some c
    → heap q ≡ some d
    → (q == p) ≡ true
    → c ≡ d
same_cell heap p q c d e f h = let there : q ≡ p = ground arith in cc

-- Heaps on which every command stays, with its id, and with the property `P` where it has it.
abbrev pub Keeps : (Command → Type 0) → (ℕ → Option Command) → (ℕ → Option Command) → Type 0
Keeps P heap heap' =
    (q : ℕ) (c : Command)
    → heap q ≡ some c
    → (c' : Command) × (heap' q ≡ some c') × (c'.id ≡ c.id) × (P c → P c')

pub Live-Keeps :
    (P : Command → Type 0) (heap heap' : ℕ → Option Command)
    → Keeps P heap heap'
    → (ps : List ℕ) → Live heap ps
    → Live heap' ps
Live-Keeps P heap heap' k [] h = tt
Live-Keeps P heap heap' k (p ∷ ps) ((c, e), h) =
    let (c', e', same, kept) = k p c e in ((c', e'), Live-Keeps P heap heap' k ps h)

pub put-Keeps :
    (P : Command → Type 0) (heap : ℕ → Option Command) (p : ℕ) (c c' : Command)
    → heap p ≡ some c
    → c'.id ≡ c.id
    → (P c → P c')
    → Keeps P heap (put heap p (some c'))
put-Keeps P heap p c c' e same kept q d f = elim (Bool-cases (q == p)) [
  | inl hit ↦
      let one = same_cell heap p q c d e f hit in
      (c', rw hit refl, same ∙ ap (λ x. x.id) one, λ h. kept (subst P (sym one) h))
  | inr miss ↦ (d, rw miss f, refl, λ h. h)
]

pub Live-put_other :
    (heap : ℕ → Option Command) (p : ℕ) (o : Option Command) (ps : List ℕ)
    → has p ps ≡ false
    → Live heap ps
    → Live (put heap p o) ps
Live-put_other heap p o [] out h = tt
Live-put_other heap p o (q ∷ qs) out ((c, e), h) =
    ((c, ground (arith, e)), Live-put_other heap p o qs (ground arith) h)

pub has-Live :
    (heap : ℕ → Option Command) (p : ℕ) (ps : List ℕ)
    → heap p ≡ none
    → Live heap ps
    → has p ps ≡ false
has-Live heap p [] e h = refl
has-Live heap p (q ∷ qs) e ((c, f), h) = elim (Bool-cases (p == q)) [
  | inl hit ↦ let there : p ≡ q = ground arith in cc
  | inr miss ↦ ground (arith, has-Live heap p qs e h)
]

pub Live-has :
    (heap : ℕ → Option Command) (p : ℕ) (ps : List ℕ)
    → has p ps ≡ true
    → Live heap ps
    → (c : Command) × (heap p ≡ some c)
Live-has heap p [] e h = cc
Live-has heap p (q ∷ qs) e ((c, f), h) = elim (Bool-cases (p == q)) [
  | inl hit ↦ let there : p ≡ q = ground arith in (c, ap heap there ∙ f)
  | inr miss ↦ Live-has heap p qs (ground arith) h
]

pub Live-append :
    (heap : ℕ → Option Command) (ps : List ℕ) (p : ℕ)
    → Live heap ps
    → (c : Command) × (heap p ≡ some c)
    → Live heap (ps ++ p ∷ [])
Live-append heap [] p h e = (e, tt)
Live-append heap (q ∷ qs) p h e = (h.0, Live-append heap qs p h.1 e)

pub Live-erase :
    (heap : ℕ → Option Command) (p : ℕ) (ps : List ℕ) → Live heap ps → Live heap (erase p ps)
Live-erase heap p [] h = tt
Live-erase heap p (q ∷ qs) h = ground (arith, Live-erase heap p qs h.1)

pub has-erase_same : (p : ℕ) (ps : List ℕ) → Distinct ps → has p (erase p ps) ≡ false
has-erase_same p [] d = refl
has-erase_same p (q ∷ qs) d = ground (arith, has-erase_same p qs d.1)

poll_command-id : (now : ℕ) (c : Command) → (poll_command now c).id ≡ c.id
poll_command-id now c = ground arith

-- The thread that looks for time-outs.
module _ (P : Command → Type 0) (aging : (now : ℕ) (c : Command) → P c → P (poll_command now c))
    (times : ℕ → ℕ) where
  pub poll_loop-Keeps :
      (i : ℕ) (ps : List ℕ) (heap : ℕ → Option Command)
      → Live heap ps
      → (heap' : ℕ → Option Command) × (poll_loop times i ps heap ≡ some heap') × Keeps P heap heap'
  unfolding poll_loop
  poll_loop-Keeps i [] heap h = (heap, refl, λ q c e. (c, e, refl, λ p. p))
  poll_loop-Keeps i (p ∷ ps) heap ((c, e), h) =
      let c1 = poll_command (times i) c in
      let k = put-Keeps P heap p c c1 e (poll_command-id (times i) c) (aging (times i) c) in
      let (heap', run, more) =
        poll_loop-Keeps (suc i) ps (put heap p (some c1))
          (Live-Keeps P heap (put heap p (some c1)) k ps h) in
      (
        heap',
        rw (poll_loop, e) run,
        λ q d f.
            let (d1, f1, same1, kept1) = k q d f in
            let (d2, f2, same2, kept2) = more q d1 f1 in
            (d2, f2, same2 ∙ same1, λ x. kept2 (kept1 x)),
      )

  pub command_poll-Keeps :
      (r : Request)
      → Live r.heap r.waiting
      → (heap' : ℕ → Option Command) × (command_poll times r ≡ some (record r { heap = heap' }))
        × Keeps P r.heap heap'
  unfolding command_poll
  command_poll-Keeps r h =
      let (heap', run, k) = poll_loop-Keeps 0 r.waiting r.heap h in
      (heap', rw (command_poll, run) refl, k)

-- A search: no command that waits has the id, or one has it.
pub find_loop-found :
    (heap : ℕ → Option Command) (ps : List ℕ) (id : List ℕ)
    → Live heap ps
    → (find_loop heap ps id ≡ some none)
      ⊎ ((p : ℕ) × (c : Command) × (find_loop heap ps id ≡ some (some p))
          × (heap p ≡ some c)
          × (str_eq c.id id ≡ true))
unfolding find_loop
find_loop-found heap [] id h = inl refl
find_loop-found heap (q ∷ qs) id ((c, e), h) = elim (Bool-cases (str_eq c.id id)) [
  | inl hit ↦ inr (q, c, rw (find_loop, e, hit) refl, e, hit)
  | inr miss ↦ elim (find_loop-found heap qs id h) [
    | inl absent ↦ inl (rw (find_loop, e, miss) absent)
    | inr (p, d, found, f, same) ↦ inr (p, d, rw (find_loop, e, miss) found, f, same)
  ]
]

-- The receiver stores a response into a command that is allocated.
pub store_response-Keeps :
    (P : Command → Type 0) (msg : ℕ → ℕ) (r : Request) (p : ℕ) (c : Command)
    → r.heap p ≡ some c
    → (P c → P (answered c msg))
    → (store_response r p msg ≡ some (record r { heap = put r.heap p (some (answered c msg)) }))
      × Keeps P r.heap (put r.heap p (some (answered c msg)))
unfolding store_response
store_response-Keeps P msg r p c e storing =
    (rw (store_response, e) refl, put-Keeps P r.heap p c (answered c msg) e refl storing)

pub store_response-gone :
    (msg : ℕ → ℕ) (r : Request) (p : ℕ) → r.heap p ≡ none → store_response r p msg ≡ none
unfolding store_response
store_response-gone msg r p e = rw (store_response, e) refl

pub link_info_finish-freed :
    (r : Request) (p : ℕ) (woken : Bool) (c : Command)
    → r.heap p ≡ some c
    → link_info_finish r p woken ≡ some (result_for woken c, freed r p)
unfolding link_info_finish
link_info_finish-freed r p woken c e = rw (link_info_finish, e) refl

pub link_info_end-freed :
    (r : Request) (p : ℕ) (woken : Bool) (c : Command)
    → r.heap p ≡ some c
    → link_info_end r p woken ≡ some (result_for woken c, freed (remove_queue r p) p)
unfolding link_info_end remove_queue
link_info_end-freed r p woken c e = link_info_finish-freed (remove_queue r p) p woken c e

abbrev pub Always : Command → Type 0
Always c = Unit {0}

pub Live-polled :
    (heap : ℕ → Option Command) (q : ℕ) (c : Command) (now : ℕ) (qs : List ℕ)
    → heap q ≡ some c
    → Live heap qs
    → Live (put heap q (some (poll_command now c))) qs
Live-polled heap q c now qs e h =
    Live-Keeps Always heap (put heap q (some (poll_command now c)))
      (put-Keeps Always heap q c (poll_command now c) e (ground arith) (λ u. u)) qs h

module _ (times : ℕ → ℕ) (p : ℕ) where
  -- A command that is not in the queue is left alone.
  pub poll_loop-outside :
      (i : ℕ) (ps : List ℕ) (heap : ℕ → Option Command)
      → has p ps ≡ false
      → Live heap ps
      → (heap' : ℕ → Option Command) × (poll_loop times i ps heap ≡ some heap') × (heap' p ≡ heap p)
  unfolding poll_loop
  poll_loop-outside i [] heap out h = (heap, refl, refl)
  poll_loop-outside i (q ∷ qs) heap out ((c, e), h) =
      let (heap', run, same) =
        poll_loop-outside (suc i) qs (put heap q (some (poll_command (times i) c))) (ground arith)
          (Live-polled heap q c (times i) qs e h) in
      (heap', rw (poll_loop, e) run, ground (arith, same))

pub command_poll-outside :
    (times : ℕ → ℕ) (p : ℕ) (r r' : Request)
    → has p r.waiting ≡ false
    → Live r.heap r.waiting
    → command_poll times r ≡ some r'
    → (r'.heap p ≡ r.heap p) × (r'.waiting ≡ r.waiting)
unfolding command_poll
command_poll-outside times p r r' out h run =
    let (heap', e, same) = poll_loop-outside times p 0 r.waiting r.heap out h in
    let one : record r { heap = heap' } ≡ r' =
      some-inj (record r { heap = heap' }) r' (sym (rw (command_poll, e) refl) ∙ run) in
    (ap (λ x. x.heap p) (sym one) ∙ same, ap (λ x. x.waiting) (sym one))

pub has-erase_other :
    (p q : ℕ) (xs : List ℕ) → (p == q) ≡ false → has p xs ≡ true → has p (erase q xs) ≡ true
has-erase_other p q [] differs h = cc
has-erase_other p q (x ∷ xs) differs h = ground (arith, differs, h, has-erase_other p q xs)
