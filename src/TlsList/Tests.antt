-- ===== src/TlsList/Tests.antt =====
-- The lists of 722device/com/tls_list.c at a small ring: runs, and the theorems at their inputs.
use ai_coding_for_business.Common.{◌≡◌, refl, true, false, some, [], ◌∷◌, arith}
use ai_coding_for_business.TlsList.{Store, initialize, empty, insert_tail, remove_head, remove_node}
use ai_coding_for_business.TlsList.Chain.{IsRing, SameOutside}
use ai_coding_for_business.TlsList.Insert.{initialize-IsRing, empty-is_nil, insert_tail-append}
use ai_coding_for_business.TlsList.Remove.{Removed, remove_head-cons, remove_node-erase}

abbrev zeroed : Store
zeroed = record { pre = λ _. 0; next = λ _. 0 }

-- A ring with head 1 and nodes 5, 7, 9.
abbrev ring : Store
unfolding initialize insert_tail
ring = insert_tail 1 9 (insert_tail 1 7 (insert_tail 1 5 (initialize 1 zeroed)))

ring-IsRing : IsRing ring 1 (5 ∷ 7 ∷ 9 ∷ [])
unfolding initialize insert_tail
ring-IsRing = record { chain = ground arith; distinct = ground arith; no_null = refl }

runs : (empty 1 ring ≡ false) × ((remove_head 1 ring).0 ≡ 5) × (empty 2 zeroed ≡ true)
unfolding initialize insert_tail empty remove_head
runs = (refl, refl, refl)

-- `tls_list_remove_head` of an empty ring returns the head itself: callers test for emptiness first.
remove_head_of_empty : (remove_head 1 (initialize 1 zeroed)).0 ≡ 1
unfolding initialize remove_head
remove_head_of_empty = refl

initialize-IsRing_example :
    IsRing (initialize 1 zeroed) 1 [] × SameOutside (1 ∷ []) zeroed (initialize 1 zeroed)
initialize-IsRing_example = initialize-IsRing 1 zeroed (omega arith)

empty-is_nil_example : empty 1 ring ≡ false
empty-is_nil_example = empty-is_nil ring 1 (5 ∷ 7 ∷ 9 ∷ []) ring-IsRing

insert_tail-append_example :
    IsRing (insert_tail 1 11 ring) 1 (5 ∷ 7 ∷ 9 ∷ 11 ∷ [])
    × SameOutside (11 ∷ 1 ∷ 5 ∷ 7 ∷ 9 ∷ []) ring (insert_tail 1 11 ring)
insert_tail-append_example =
    insert_tail-append ring 1 11 (5 ∷ 7 ∷ 9 ∷ []) ring-IsRing refl (omega arith)

remove_head-cons_example :
    let (node, t) = remove_head 1 ring in
    (node ≡ 5) × IsRing t 1 (7 ∷ 9 ∷ []) × SameOutside (1 ∷ 7 ∷ 9 ∷ []) ring t
remove_head-cons_example = remove_head-cons ring 1 5 (7 ∷ 9 ∷ []) ring-IsRing

remove_node-erase_example :
    (t : Store) × (remove_node 4 1 7 ring ≡ some (7, t)) × Removed ring t 1 7 (5 ∷ 7 ∷ 9 ∷ [])
remove_node-erase_example =
    remove_node-erase 4 ring 1 7 (5 ∷ 7 ∷ 9 ∷ []) ring-IsRing (omega arith) refl
