-- ===== src/TlsBuff/Memory.antt =====
-- `malloc` and `free` of the C library, as 722device/server/tls_buff_queue.c uses them: which
-- addresses are allocated, and whether the next requests are granted.
use ai_coding_for_business.Common.{
  ℕ, zero, suc, Bool, true, false, Option, none, some, List, [], ◌∷◌, ◌==◌, if◌then◌else◌, has, ◌≡◌,
  ◌≢◌, ◌⊎◌, inl, inr, refl, arith,
}

abbrev pub Ptr : Type 0
Ptr = ℕ

abbrev pub null : Ptr
null = 0

-- `granted` has the answer to each coming request; when it is used up, memory is exhausted.
-- Addresses are handed out from `fresh` on and never twice, so that a use after free shows;
-- `garbage` is what a block holds when it is handed out.
pub record Mem : Type 0 where
  pub fresh : Ptr
  pub live : List Ptr
  pub granted : List Bool
  pub garbage : Ptr → ℕ → ℕ

-- An action on the memory. Its outcome is missing where the behaviour is undefined: at a `free` of
-- what is not allocated.
abbrev pub Action : Type 0 → Type 0
Action R = Mem → Option (R × Mem)

abbrev pub pure : {R : Type 0} → R → Action R
pure r m = some (r, m)

abbrev pub continue : {R Q : Type 0} → Option (R × Mem) → (R → Action Q) → Option (Q × Mem)
continue none rest = none
continue (some (r, m)) rest = rest r m

infixl 8 ◌>>=◌ ◌>>◌
abbrev pub ◌>>=◌ : {R Q : Type 0} → Action R → (R → Action Q) → Action Q
◌>>=◌ action rest m = continue (action m) rest

abbrev pub ◌>>◌ : {Q : Type 0} → Action (Unit {0}) → Action Q → Action Q
action >> rest = action >>= λ _. rest

abbrev pub erase : ℕ → List ℕ → List ℕ
erase p [] = []
erase p (x ∷ xs) = if x == p then xs else x ∷ erase p xs

-- An address, or `null` where the request is refused.
abbrev alloc : List Bool → Mem → Ptr × Mem
alloc [] m = (null, m)
alloc (false ∷ rest) m = (null, record m { granted = rest })
alloc (true ∷ rest) m =
    (suc m.fresh, record m { fresh = suc m.fresh; live = suc m.fresh ∷ m.live; granted = rest })

unfoldable pub malloc : Action Ptr
malloc m = some (alloc m.granted m)

unfoldable pub free : Ptr → Action (Unit {0})
free p m = if has p m.live then some (tt, record m { live = erase p m.live }) else none

alloc-cases :
    (g : List Bool) (m : Mem)
    → ((m' : Mem) × (alloc g m ≡ (null, m')) × (m'.live ≡ m.live))
      ⊎ ((p : Ptr) × (m' : Mem) × (p ≢ null) × (alloc g m ≡ (p, m')) × (m'.live ≡ p ∷ m.live))
alloc-cases [] m = inl (m, refl, refl)
alloc-cases (false ∷ g) m = inl (record m { granted = g }, refl, refl)
alloc-cases (true ∷ g) m = inr (
  suc m.fresh,
  record m { fresh = suc m.fresh; live = suc m.fresh ∷ m.live; granted = g },
  omega arith,
  refl,
  refl,
)

-- A request is refused, or gives an address that is not null.
pub malloc-cases :
    (m : Mem)
    → ((m' : Mem) × (malloc m ≡ some (null, m')) × (m'.live ≡ m.live))
      ⊎ ((p : Ptr) × (m' : Mem) × (p ≢ null) × (malloc m ≡ some (p, m')) × (m'.live ≡ p ∷ m.live))
unfolding malloc
malloc-cases m = elim (alloc-cases m.granted m) [
  | inl (m', e, l) ↦ inl (m', rw e, l)
  | inr (p, m', ne, e, l) ↦ inr (p, m', ne, rw e, l)
]

-- The next `k` requests are granted.
abbrev pub Grants : ℕ → List Bool → Type 0
Grants zero g = Unit {0}
Grants (suc k) [] = ⊥
Grants (suc k) (b ∷ g) = (b ≡ true) × Grants k g

alloc-granted :
    (k : ℕ) (g : List Bool) (m : Mem)
    → Grants (suc k) g
    → (p : Ptr) × (m' : Mem) × (p ≢ null) × (alloc g m ≡ (p, m')) × Grants k m'.granted
alloc-granted k [] m h = absurd h
alloc-granted k (false ∷ g) m h = cc
alloc-granted k (true ∷ g) m h = (suc m.fresh, _, omega arith, refl, h.1)

pub malloc-granted :
    (k : ℕ) (m : Mem)
    → Grants (suc k) m.granted
    → (p : Ptr) × (m' : Mem) × (p ≢ null) × (malloc m ≡ some (p, m')) × Grants k m'.granted
unfolding malloc
malloc-granted k m h =
    let (p, m', ne, e, h') = alloc-granted k m.granted m h in (p, m', ne, rw e, h')
