-- ===== src/TlsList/Remove.antt =====
-- `tls_list_remove_head` and `tls_list_remove_node` of 722device/com/tls_list.c, against the list of
-- nodes of a ring.
use ai_coding_for_business.Common.{
  ℕ, zero, suc, ◌<◌, true, false, some, List, [], ◌∷◌, ◌++◌, ◌≡◌, refl, arith, ◌==◌, if◌then◌else◌,
  has, Distinct, length, Bool-cases, inl, inr,
}
use ai_coding_for_business.TlsList.{Ptr, null, Store, remove_head, find_loop, unlink, remove_node}
use ai_coding_for_business.TlsList.Chain.{
  Chain, IsRing, Chain-same, has-append, SameOutside, has-ne,
}

pre-in :
    (s : Store) (a : Ptr) (xs : List Ptr) (b p : Ptr)
    → Chain s a xs b
    → has p xs ≡ true
    → has (s.pre p) (a ∷ xs) ≡ true
pre-in s a [] b p c h = cc
pre-in s a (x ∷ xs) b p c h = ground (arith, pre-in s x xs b p c.2)

next-in :
    (s : Store) (a : Ptr) (xs : List Ptr) (b p : Ptr)
    → Chain s a xs b
    → has p (a ∷ xs) ≡ true
    → has (s.next p) (xs ++ b ∷ []) ≡ true
next-in s a [] b p c h = ground arith
next-in s a (x ∷ xs) b p c h = ground (arith, next-in s x xs b p c.2)

remove_head-Chain :
    (s : Store) (head x : Ptr) (xs : List Ptr)
    → IsRing s head (x ∷ xs)
    → Chain (remove_head head s).1 head xs head
unfolding remove_head
remove_head-Chain s head x [] r = (ground arith, ground arith)
remove_head-Chain s head x (y ∷ ys) r = (
  ground arith,
  ground arith,
  Chain-same s _ y ys head r.chain.2.2 (λ p h. ground (arith, has-ne p head (y ∷ ys) h))
      (λ p h. ground (arith, has-append p ys (head ∷ []), has-ne p y ys)),
)

-- `tls_list_remove_head` of a ring with a node returns the first node, leaves a ring of the others,
-- and changes the pointers of no node outside the ring. The removed node keeps its own pointers.
pub remove_head-cons :
    (s : Store) (head x : Ptr) (xs : List Ptr)
    → IsRing s head (x ∷ xs)
    → let (node, t) = remove_head head s in
      (node ≡ x) × IsRing t head xs × SameOutside (head ∷ xs) s t
unfolding remove_head
remove_head-cons s head x xs r = (
  r.chain.0,
  record {
    chain = remove_head-Chain s head x xs r;
    distinct = ground arith;
    no_null = ground (arith, r.no_null);
  },
  λ p h. ground (
    arith,
    next-in s x xs head x r.chain.2,
    has-append (s.next x) xs (head ∷ []),
    has-ne (s.next x) p xs,
  ),
)

-- The search loop, from the node behind `a`: it finds `node` if that is in the list, and ends at the
-- head if not.
find_loop_lem :
    (k : ℕ) (s : Store) (head node a : Ptr) (xs : List Ptr)
    → Chain s a xs head
    → has head xs ≡ false
    → length xs < k
    → find_loop k head node (s.next a) s ≡ some (if has node xs then node else head)
unfolding find_loop
find_loop_lem zero s head node a xs c out fuel = absurd (omega arith)
find_loop_lem (suc k) s head node a [] c out fuel = ground arith
find_loop_lem (suc k) s head node a (x ∷ xs) c out fuel =
    ground (arith, find_loop_lem k s head node x xs c.2)

abbrev pub erase : ℕ → List ℕ → List ℕ
erase p [] = []
erase p (x ∷ xs) = if x == p then xs else x ∷ erase p xs

unlink-here :
    (s : Store) (a p : Ptr) (xs : List Ptr) (b : Ptr)
    → Chain s a (p ∷ xs) b
    → Distinct (a ∷ p ∷ xs)
    → has b (p ∷ xs) ≡ false
    → Chain (unlink p s) a xs b
unfolding unlink
unlink-here s a p [] b c d out = (ground arith, ground arith)
unlink-here s a p (y ∷ ys) b c d out = (
  ground arith,
  ground arith,
  Chain-same s _ y ys b c.2.2 (λ q h. ground (arith, has-ne q a (y ∷ ys) h, has-ne q p (y ∷ ys) h))
      (λ q h. ground (arith, has-append q ys (b ∷ []), has-ne q y ys, has-ne q p ys)),
)

-- Where the ring's first node `x` is not the one that is unlinked, its links to `a` stay.
module _ (s : Store) (a p x : Ptr) (xs : List Ptr) (b : Ptr) (c : Chain s a (x ∷ xs) b)
    (d : Distinct (a ∷ x ∷ xs)) (out : has b (x ∷ xs) ≡ false) (h : has p xs ≡ true) where
  unlink-forth : (unlink p s).next a ≡ x
  unfolding unlink
  unlink-forth =
      ground (arith, pre-in s x xs b p c.2 h, has-ne (s.pre p) a (x ∷ xs), has-ne p a (x ∷ xs))

  unlink-back : (unlink p s).pre x ≡ a
  unfolding unlink
  unlink-back = ground (
    arith,
    next-in s x xs b p c.2,
    has-append (s.next p) xs (b ∷ []),
    has-ne (s.next p) x xs,
    has-ne p x xs h,
  )

unlink-Chain :
    (s : Store) (a p : Ptr) (xs : List Ptr) (b : Ptr)
    → Chain s a xs b
    → Distinct (a ∷ xs)
    → has b xs ≡ false
    → has p xs ≡ true
    → Chain (unlink p s) a (erase p xs) b
unlink-Chain s a p [] b c d out h = cc
unlink-Chain s a p (x ∷ xs) b c d out h = elim (Bool-cases (x == p)) [
  | inl hit ↦
      let e : x ≡ p = ground arith in
      rw hit (unlink-here s a p xs b (rw e at c) (rw e at d) (rw e at out))
  | inr miss ↦ rw miss (
    unlink-forth s a p x xs b c d out (ground arith),
    unlink-back s a p x xs b c d out (ground arith),
    unlink-Chain s x p xs b c.2 d.1 (ground arith) (ground arith),
  )
]

pub has-erase : (q p : ℕ) (xs : List ℕ) → has q xs ≡ false → has q (erase p xs) ≡ false
has-erase q p [] h = refl
has-erase q p (x ∷ xs) h = ground (arith, has-erase q p xs)

pub Distinct-erase : (p : ℕ) (xs : List ℕ) → Distinct xs → Distinct (erase p xs)
Distinct-erase p [] d = tt
Distinct-erase p (x ∷ xs) d = ground (arith, has-erase x p xs d.0, Distinct-erase p xs d.1)

-- What `tls_list_remove_node` promises for a node of the ring.
pub record Removed (s t : Store) (head node : Ptr) (xs : List Ptr) : Type 0 where
  pub ring : IsRing t head (erase node xs)
  pub same : SameOutside (head ∷ xs) s t
  pub self_next : t.next node ≡ node
  pub self_pre : t.pre node ≡ node

unlink-Removed :
    (s : Store) (head node : Ptr) (xs : List Ptr)
    → IsRing s head xs
    → has node xs ≡ true
    → Removed s (unlink node s) head node xs
unfolding unlink
unlink-Removed s head node xs r h = record {
  ring = record {
    chain = unlink-Chain s head node xs head r.chain r.distinct r.distinct.0 h;
    distinct = (has-erase head node xs r.distinct.0, Distinct-erase node xs r.distinct.1);
    no_null = ground (arith, r.no_null, has-erase null node xs);
  };
  same = λ p out. ground (
    arith,
    pre-in s head xs head node r.chain h,
    next-in s head xs head node r.chain,
    has-append (s.next node) xs (head ∷ []),
    has-ne (s.pre node) p (head ∷ xs),
    has-ne (s.next node) p (head ∷ xs),
    has-ne node p (head ∷ xs),
  );
  self_next = ground arith;
  self_pre = ground arith;
}

module _ (fuel : ℕ) (s : Store) (head node : Ptr) (xs : List Ptr) (r : IsRing s head xs)
    (enough : length xs < fuel) where
  -- `tls_list_remove_node` of a node of the ring, with fuel for one round more than the ring has
  -- nodes: it returns the node, takes it out of the list of the ring, leaves every node outside the
  -- ring alone, and links the node to itself.
  pub remove_node-erase :
      has node xs ≡ true
      → (t : Store) × (remove_node fuel head node s ≡ some (node, t)) × Removed s t head node xs
  unfolding remove_node
  remove_node-erase h = (
    unlink node s,
    ground (
      arith,
      find_loop_lem fuel s head node head xs r.chain r.distinct.0 enough,
      r.no_null,
      has-ne node null xs h,
      has-ne node head xs h r.distinct.0,
    ),
    unlink-Removed s head node xs r h,
  )

  -- `tls_list_remove_node` of a node that is not in the ring, be it null or the head itself, returns
  -- null and changes no pointer.
  remove_node-absent : has node xs ≡ false → remove_node fuel head node s ≡ some (null, s)
  unfolding remove_node
  remove_node-absent h =
      ground (arith, find_loop_lem fuel s head node head xs r.chain r.distinct.0 enough)
