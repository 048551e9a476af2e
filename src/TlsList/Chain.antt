-- ===== src/TlsList/Chain.antt =====
-- What a ring of 722device/com/tls_list.c stands for: the list of its nodes, in order.
use ai_coding_for_business.Common.{
  ℕ, true, false, ◌||◌, List, [], ◌∷◌, ◌++◌, ◌≡◌, ◌≢◌, refl, arith, has, Distinct,
}
use ai_coding_for_business.TlsList.{Ptr, null, Store}

-- `a` leads by `next` through the nodes `xs` to `b`, and each link is matched by a `pre` back.
abbrev pub Chain : Store → Ptr → List Ptr → Ptr → Type 0
Chain s a [] b = (s.next a ≡ b) × (s.pre b ≡ a)
Chain s a (x ∷ xs) b = (s.next a ≡ x) × (s.pre x ≡ a) × Chain s x xs b

-- The last node of `a ∷ xs`.
abbrev pub last : Ptr → List Ptr → Ptr
last a [] = a
last a (x ∷ xs) = last x xs

-- `head` is the head of a ring whose nodes are `xs`: they are distinct, none of them is `head`, and
-- neither they nor `head` are `null`.
pub record IsRing (s : Store) (head : Ptr) (xs : List Ptr) : Type 0 where
  pub chain : Chain s head xs head
  pub distinct : Distinct (head ∷ xs)
  pub no_null : has null (head ∷ xs) ≡ false

pub pre-end : (s : Store) (a : Ptr) (xs : List Ptr) (b : Ptr) → Chain s a xs b → s.pre b ≡ last a xs
pre-end s a [] b c = c.1
pre-end s a (x ∷ xs) b c = pre-end s x xs b c.2

pub has-last : (a : Ptr) (xs : List Ptr) → has (last a xs) (a ∷ xs) ≡ true
has-last a [] = ground arith
has-last a (x ∷ xs) = ground (arith, has-last x xs)

pub has-ne : (p q : ℕ) (ps : List ℕ) → has p ps ≡ true → has q ps ≡ false → p ≢ q
has-ne p q ps h k e = cc

-- Another store carries the chain on to another end `b'`, if it agrees on all but the last link.
pub Chain-retarget :
    (s t : Store) (a : Ptr) (xs : List Ptr) (b b' : Ptr)
    → Chain s a xs b
    → Distinct (a ∷ xs)
    → ((p : Ptr) → has p (a ∷ xs) ≡ true → p ≢ last a xs → t.next p ≡ s.next p)
    → ((p : Ptr) → has p xs ≡ true → t.pre p ≡ s.pre p)
    → t.next (last a xs) ≡ b'
    → t.pre b' ≡ last a xs
    → Chain t a xs b'
Chain-retarget s t a [] b b' c d same_next same_pre forth back = (forth, back)
Chain-retarget s t a (x ∷ xs) b b' c d same_next same_pre forth back = (
  ground (arith, same_next a, has-last x xs),
  ground (arith, same_pre x),
  Chain-retarget s t x xs b b' c.2 d.1 (λ p h ne. same_next p (ground arith) ne)
      (λ p h. same_pre p (ground arith)) forth back,
)

pub Chain-snoc :
    (s : Store) (a : Ptr) (xs : List Ptr) (n b : Ptr)
    → Chain s a xs n
    → s.next n ≡ b
    → s.pre b ≡ n
    → Chain s a (xs ++ n ∷ []) b
Chain-snoc s a [] n b c forth back = (c.0, c.1, (forth, back))
Chain-snoc s a (x ∷ xs) n b c forth back = (c.0, c.1, Chain-snoc s x xs n b c.2 forth back)

pub has-append : (a : ℕ) (xs ys : List ℕ) → has a (xs ++ ys) ≡ (has a xs || has a ys)
has-append a [] ys = refl
has-append a (x ∷ xs) ys = ground (arith, has-append a xs ys)

pub Distinct-snoc : (xs : List ℕ) (n : ℕ) → Distinct xs → has n xs ≡ false → Distinct (xs ++ n ∷ [])
Distinct-snoc [] n d h = (refl, tt)
Distinct-snoc (x ∷ xs) n d h =
    (ground (arith, has-append x xs (n ∷ [])), Distinct-snoc xs n d.1 (ground arith))

-- `t` has the pointers of `s` at every node that is not in `ps`.
abbrev pub SameOutside : List Ptr → Store → Store → Type 0
SameOutside ps s t = (p : Ptr) → has p ps ≡ false → (t.next p ≡ s.next p) × (t.pre p ≡ s.pre p)

pub Chain-same :
    (s t : Store) (a : Ptr) (xs : List Ptr) (b : Ptr)
    → Chain s a xs b
    → ((p : Ptr) → has p (a ∷ xs) ≡ true → t.next p ≡ s.next p)
    → ((p : Ptr) → has p (xs ++ b ∷ []) ≡ true → t.pre p ≡ s.pre p)
    → Chain t a xs b
Chain-same s t a [] b c same_next same_pre =
    (ground (arith, same_next a), ground (arith, same_pre b))
Chain-same s t a (x ∷ xs) b c same_next same_pre = (
  ground (arith, same_next a),
  ground (arith, same_pre x),
  Chain-same s t x xs b c.2 (λ p h. same_next p (ground arith)) (λ p h. same_pre p (ground arith)),
)

-- A ring is not touched by what happens to other nodes.
pub IsRing-frame :
    (s t : Store) (head : Ptr) (xs ps : List Ptr)
    → IsRing s head xs
    → SameOutside ps s t
    → ((p : Ptr) → has p (head ∷ xs) ≡ true → has p ps ≡ false)
    → IsRing t head xs
IsRing-frame s t head xs ps r same apart = record {
  chain =
      Chain-same s t head xs head r.chain (λ p h. (same p (apart p h)).0)
        (λ p h. (same p (apart p (ground (arith, has-append p xs (head ∷ []))))).1);
  distinct = r.distinct;
  no_null = r.no_null;
}
