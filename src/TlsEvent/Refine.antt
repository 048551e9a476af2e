-- ===== src/TlsEvent/Refine.antt =====
-- The events of 722device/com/tls_event.c are flags.
use ai_coding_for_business.Common.{
  ℕ, ◌≡◌, inl, inr, refl, ap, ◌∙◌, Bool-cases, Bool, true, false, not, Option, none, some, List, [],
  ◌∷◌, ltb, if◌then◌else◌,
}
use ai_coding_for_business.TlsEvent.{
  Event, set, reset, wait, timewait, initialize, set_size, returning,
}

-- What threads do with an event, and what an abstract one, a flag, does. The wait without a time-out has an
-- outcome only where the flag is set.
pub data Op : Type 0 where
  sets resets waits : Op
  timewaits : ℕ → Op

abbrev pub apply : Op → Event → Option (ℕ × Event)
apply sets e = some (0, set e)
apply resets e = returning 0 (reset e)
apply waits e = returning 0 (wait e)
apply (timewaits timeout) e = timewait timeout e

abbrev pub apply_flag : (auto_reset : Bool) → Op → Bool → Option (ℕ × Bool)
apply_flag auto_reset sets flag = some (0, true)
apply_flag auto_reset resets flag = some (0, false)
apply_flag auto_reset waits flag = if flag then some (0, not auto_reset) else none
apply_flag auto_reset (timewaits timeout) flag =
    if flag then some (1, not auto_reset) else if ltb 0 timeout then some (0, false) else none

-- The results of a sequence of operations.
abbrev pub prepend : {A : Type 0} → ℕ → Option (List ℕ × A) → Option (List ℕ × A)
prepend n none = none
prepend n (some rest) = some (n ∷ rest.0, rest.1)

abbrev pub run : List Op → Event → Option (List ℕ × Event)
run [] e = some ([], e)
run (op ∷ ops) e = elim (apply op e) [ none ↦ none | some got ↦ prepend got.0 (run ops got.1) ]

abbrev pub run_flag : (auto_reset : Bool) → List Op → Bool → Option (List ℕ × Bool)
run_flag auto_reset [] flag = some ([], flag)
run_flag auto_reset (op ∷ ops) flag = elim (apply_flag auto_reset op flag) [
  | none ↦ none
  | some got ↦ prepend got.0 (run_flag auto_reset ops got.1)
]

-- An event with a flag: bytes are in the pipe where it is set.
abbrev pub of_flag : (auto_reset flag : Bool) → Event
of_flag auto_reset flag = record {
  pipe = if flag then set_size else 0;
  auto_reset = auto_reset;
  state = flag;
}

abbrev as_event : (auto_reset : Bool) → Option (ℕ × Bool) → Option (ℕ × Event)
as_event auto_reset none = none
as_event auto_reset (some got) = some (got.0, of_flag auto_reset got.1)

apply-of_flag :
    (auto_reset flag : Bool) (op : Op)
    → apply op (of_flag auto_reset flag) ≡ as_event auto_reset (apply_flag auto_reset op flag)
unfolding set reset wait timewait
apply-of_flag auto_reset true sets = refl
apply-of_flag auto_reset false sets = refl
apply-of_flag auto_reset true resets = refl
apply-of_flag auto_reset false resets = refl
apply-of_flag true true waits = refl
apply-of_flag false true waits = refl
apply-of_flag auto_reset false waits = refl
apply-of_flag true true (timewaits timeout) = elim (Bool-cases (ltb 0 timeout)) [
  | inl timed ↦ rw (timewait, timed) refl
  | inr untimed ↦ rw (timewait, untimed) refl
]
apply-of_flag false true (timewaits timeout) = elim (Bool-cases (ltb 0 timeout)) [
  | inl timed ↦ rw (timewait, timed) refl
  | inr untimed ↦ rw (timewait, untimed) refl
]
apply-of_flag auto_reset false (timewaits timeout) = elim (Bool-cases (ltb 0 timeout)) [
  | inl timed ↦ rw (timewait, timed) refl
  | inr untimed ↦ rw (timewait, untimed) refl
]

abbrev pub results : (auto_reset : Bool) → Option (List ℕ × Bool) → Option (List ℕ × Event)
results auto_reset none = none
results auto_reset (some got) = some (got.0, of_flag auto_reset got.1)

results-prepend :
    (auto_reset : Bool) (n : ℕ) (r : Option (List ℕ × Bool))
    → prepend n (results auto_reset r) ≡ results auto_reset (prepend n r)
results-prepend auto_reset n none = refl
results-prepend auto_reset n (some rest) = refl

run-of_flag :
    (auto_reset flag : Bool) (ops : List Op)
    → run ops (of_flag auto_reset flag) ≡ results auto_reset (run_flag auto_reset ops flag)
run-of_flag auto_reset flag [] = refl
run-of_flag auto_reset flag (op ∷ ops) =
    ap
      (λ o. elim o as (λ x. Option (List ℕ × Event)) [
        | none ↦ none
        | some got ↦ prepend got.0 (run ops got.1)
      ])
      (apply-of_flag auto_reset flag op)
    ∙ go (apply_flag auto_reset op flag) (λ f. run-of_flag auto_reset f ops)
  where
    go :
        (o : Option (ℕ × Bool))
        → ((f : Bool)
            → run ops (of_flag auto_reset f) ≡ results auto_reset (run_flag auto_reset ops f))
        → elim (as_event auto_reset o) as (λ x. Option (List ℕ × Event)) [
          | none ↦ none
          | some got ↦ prepend got.0 (run ops got.1)
        ]
          ≡ results auto_reset (elim o as (λ x. Option (List ℕ × Bool)) [
            | none ↦ none
            | some got ↦ prepend got.0 (run_flag auto_reset ops got.1)
          ])
    go none h = refl
    go (some got) h =
        ap (prepend got.0) (h got.1)
        ∙ results-prepend auto_reset got.0 (run_flag auto_reset ops got.1)

initialize-of_flag : (auto_reset flag : Bool) → initialize auto_reset flag ≡ of_flag auto_reset flag
unfolding initialize set
initialize-of_flag auto_reset true = refl
initialize-of_flag auto_reset false = refl

-- An event that has been initialised does what a flag does, whatever the sequence of operations: each wait returns
-- what it returns on the flag, or blocks where it blocks there; no reset ever blocks; and in the end the pipe has
-- the bytes of one set where the flag is set, and none otherwise.
pub run-refines :
    (auto_reset flag : Bool) (ops : List Op)
    → run ops (initialize auto_reset flag) ≡ results auto_reset (run_flag auto_reset ops flag)
run-refines auto_reset flag ops =
    ap (run ops) (initialize-of_flag auto_reset flag) ∙ run-of_flag auto_reset flag ops
