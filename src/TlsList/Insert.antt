-- ===== src/TlsList/Insert.antt =====
-- `tls_list_initialize`, `tls_list_empty` and `tls_list_insert_tail` of 722device/com/tls_list.c,
-- against the list of nodes of a ring.
use ai_coding_for_business.Common.{false, List, [], ◌∷◌, ◌++◌, ◌≡◌, ◌≢◌, arith, has, is_nil}
use ai_coding_for_business.TlsList.{Ptr, null, Store, initialize, empty, insert_tail}
use ai_coding_for_business.TlsList.Chain.{
  Chain, last, IsRing, pre-end, has-last, Chain-retarget, Chain-snoc, has-append, Distinct-snoc,
  SameOutside, has-ne,
}

-- `tls_list_initialize` makes of any node that is not null the head of an empty ring, whatever its
-- pointers were, and touches no other node.
pub initialize-IsRing :
    (head : Ptr) (s : Store)
    → head ≢ null
    → IsRing (initialize head s) head [] × SameOutside (head ∷ []) s (initialize head s)
unfolding initialize
initialize-IsRing head s ne = (ground arith, λ p h. ground arith)

-- `tls_list_empty` of the head of a ring says whether the ring has no node.
pub empty-is_nil :
    (s : Store) (head : Ptr) (xs : List Ptr) → IsRing s head xs → empty head s ≡ is_nil xs
unfolding empty
empty-is_nil s head [] r = ground arith
empty-is_nil s head (x ∷ xs) r = ground (
  arith,
  pre-end s head (x ∷ xs) head r.chain,
  has-ne (last x xs) null (head ∷ x ∷ xs) (ground (arith, has-last x xs)) r.no_null,
)

module _ (s : Store) (head n : Ptr) (xs : List Ptr) (r : IsRing s head xs)
    (fresh : has n (head ∷ xs) ≡ false) where
  insert_tail-Chain : Chain (insert_tail head n s) head (xs ++ n ∷ []) head
  unfolding insert_tail
  insert_tail-Chain =
      let back = pre-end s head xs head r.chain in
      let ne = has-ne (last head xs) n (head ∷ xs) (has-last head xs) fresh in
      Chain-snoc _ head xs n head
        (Chain-retarget s _ head xs head n r.chain r.distinct
          (λ p h away. ground (arith, has-ne p n (head ∷ xs) h fresh))
          (λ p h. ground (arith, has-ne p n xs h, has-ne p head xs h)) (ground arith)
          (ground arith))
        (ground arith) (ground arith)

  -- `tls_list_insert_tail` of a node that is not null and not in the ring appends it to the list of
  -- the ring. It writes only to the node, the head and the last node, so that every node outside
  -- the ring but the new one keeps its pointers; and it returns a ring again.
  pub insert_tail-append :
      n ≢ null
      → IsRing (insert_tail head n s) head (xs ++ n ∷ [])
        × SameOutside (n ∷ head ∷ xs) s (insert_tail head n s)
  unfolding insert_tail
  insert_tail-append ne = (
    record {
      chain = insert_tail-Chain;
      distinct = ground (arith, has-append head xs (n ∷ []), Distinct-snoc xs n r.distinct.1);
      no_null = ground (arith, has-append null xs (n ∷ []), r.no_null);
    },
    λ p h. ground (
      arith,
      pre-end s head xs head r.chain,
      has-ne (last head xs) p (head ∷ xs) (has-last head xs),
    ),
  )
