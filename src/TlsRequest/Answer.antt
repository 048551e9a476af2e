-- ===== src/TlsRequest/Answer.antt =====
-- What a client of 722device/server/tls_request.c gets, whatever the other threads do meanwhile.
pub mod Tracking
pub mod Result
pub mod Timeout
use ai_coding_for_business.Common.{
  some-inj, ℕ, ◌≡◌, ◌⊎◌, inl, inr, sym, ap, ◌∙◌, subst, arith, true, false, Option, none, some,
  List, [], ◌∷◌, ◌++◌, ◌==◌, has, put, Bool-cases, str_eq,
}
use ai_coding_for_business.TlsList.Remove.{erase}
use ai_coding_for_business.TlsRequest.{
  Command, Request, initialize, push_queue, remove_queue, command_poll, find_loop, store_response,
  freed,
}
use ai_coding_for_business.TlsRequest.Heaps.{Keeps}

-- What the other threads do while the command `p` with this id waits: they begin requests with other ids, look for
-- time-outs, store responses into other commands, which they may have found at any time before, and remove and
-- free other commands.
pub data Others (p : ℕ) (id : List ℕ) (r : Request) : Request → Type 0 where
  begins :
      (q : ℕ) (other : List ℕ) (now : ℕ)
      → r.heap q ≡ none
      → str_eq other id ≡ false
      → Others p id r (push_queue r q (initialize other) now)
  polls : (times : ℕ → ℕ) (r' : Request) → command_poll times r ≡ some r' → Others p id r r'
  stores :
      (q : ℕ) (msg : ℕ → ℕ) (r' : Request)
      → (p == q) ≡ false
      → store_response r q msg ≡ some r'
      → Others p id r r'
  leaves : (q : ℕ) → (p == q) ≡ false → Others p id r (remove_queue r q)
  frees : (q : ℕ) → (p == q) ≡ false → has q r.waiting ≡ false → Others p id r (freed r q)

pub data Meanwhile (p : ℕ) (id : List ℕ) (r : Request) : Request → Type 0 where
  here : Meanwhile p id r r
  next : (s t : Request) → Meanwhile p id r s → Others p id s t → Meanwhile p id r t

-- No other command that waits has the id.
abbrev pub Apart : (ℕ → Option Command) → (p : ℕ) → (id : List ℕ) → List ℕ → Type 0
Apart heap p id [] = Unit {0}
Apart heap p id (q ∷ qs) =
    ((q ≡ p) ⊎ ((c : Command) × (heap q ≡ some c) × (str_eq c.id id ≡ false))) × Apart heap p id qs

Apart-Keeps :
    (P : Command → Type 0) (heap heap' : ℕ → Option Command) (p : ℕ) (id : List ℕ)
    → Keeps P heap heap'
    → (ps : List ℕ) → Apart heap p id ps
    → Apart heap' p id ps
Apart-Keeps P heap heap' p id k [] h = tt
Apart-Keeps P heap heap' p id k (q ∷ qs) (inl e, h) = (inl e, Apart-Keeps P heap heap' p id k qs h)
Apart-Keeps P heap heap' p id k (q ∷ qs) (inr (c, e, differs), h) =
    let (c', e', same, kept) = k q c e in
    (
      inr (c', e', subst (λ i. str_eq i id ≡ false) (sym same) differs),
      Apart-Keeps P heap heap' p id k qs h,
    )

Apart-append :
    (heap : ℕ → Option Command) (p : ℕ) (id : List ℕ) (ps : List ℕ) (q : ℕ) (c : Command)
    → Apart heap p id ps
    → heap q ≡ some c
    → str_eq c.id id ≡ false
    → Apart heap p id (ps ++ q ∷ [])
Apart-append heap p id [] q c h e differs = (inr (c, e, differs), tt)
Apart-append heap p id (x ∷ xs) q c h e differs = (h.0, Apart-append heap p id xs q c h.1 e differs)

Apart-erase :
    (heap : ℕ → Option Command) (p : ℕ) (id : List ℕ) (q : ℕ) (ps : List ℕ)
    → Apart heap p id ps
    → Apart heap p id (erase q ps)
Apart-erase heap p id q [] h = tt
Apart-erase heap p id q (x ∷ xs) h = elim (Bool-cases (x == q)) [
  | inl hit ↦ rw hit h.1
  | inr miss ↦ rw miss (h.0, Apart-erase heap p id q xs h.1)
]

Apart-put_other :
    (heap : ℕ → Option Command) (p : ℕ) (id : List ℕ) (q : ℕ) (o : Option Command) (ps : List ℕ)
    → has q ps ≡ false
    → Apart heap p id ps
    → Apart (put heap q o) p id ps
Apart-put_other heap p id q o [] out h = tt
Apart-put_other heap p id q o (x ∷ xs) out (inl e, h) =
    (inl e, Apart-put_other heap p id q o xs (ground arith) h)
Apart-put_other heap p id q o (x ∷ xs) out (inr (c, e, differs), h) =
    (inr (c, ground (arith, e), differs), Apart-put_other heap p id q o xs (ground arith) h)

pub find_loop-Apart :
    (heap : ℕ → Option Command) (p : ℕ) (id : List ℕ) (c : Command) (ps : List ℕ)
    → heap p ≡ some c
    → str_eq c.id id ≡ true
    → Apart heap p id ps
    → has p ps ≡ true
    → find_loop heap ps id ≡ some (some p)
unfolding find_loop
find_loop-Apart heap p id c [] e same h inside = cc
find_loop-Apart heap p id c (q ∷ qs) e same (inl hit, h) inside =
    rw (find_loop, hit, e, same) (ap (λ x. some (some x)) hit)
find_loop-Apart heap p id c (q ∷ qs) e same (inr (d, f, differs), h) inside =
    elim (Bool-cases (p == q)) [
      | inl hit ↦
          let there : p ≡ q = ground arith in
          let one : c ≡ d = some-inj c d (sym e ∙ ap heap there ∙ f) in
          let clash : str_eq c.id id ≡ false =
            subst (λ x. str_eq x.id id ≡ false) (sym one) differs in
          cc
      | inr miss ↦
          rw (find_loop, f, differs) (find_loop-Apart heap p id c qs e same h (ground arith))
    ]
