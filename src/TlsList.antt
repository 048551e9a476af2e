-- ===== src/TlsList.antt =====
-- 722device/com/tls_list.c and tls_list.h: circular doubly linked lists, with a head node that is
-- part of the ring and carries no data.
--
-- A node is an address. The store gives the two pointers of each node; address 0 is `NULL`.
-- An operation returns the store that it leaves, and what the C function returns.
pub mod Chain
pub mod Insert
pub mod Remove
mod Tests
use ai_coding_for_business.Common.{
  ℕ, zero, suc, Bool, true, false, ◌||◌, Option, none, some, ◌==◌, if◌then◌else◌,
}

abbrev pub Ptr : Type 0
Ptr = ℕ

abbrev pub null : Ptr
null = 0

-- `tls_list_node_t`, one for each address.
pub record Store : Type 0 where
  pub pre : Ptr → Ptr
  pub next : Ptr → Ptr

abbrev pub update : (Ptr → Ptr) → Ptr → Ptr → Ptr → Ptr
update f p v q = if q == p then v else f q

-- `p->pre = v` and `p->next = v`.
abbrev pub set_pre : Ptr → Ptr → Store → Store
set_pre p v s = record s { pre = update s.pre p v }

abbrev pub set_next : Ptr → Ptr → Store → Store
set_next p v s = record s { next = update s.next p v }

-- `tls_list_initialize`: `head->pre = head->next = head`.
pub initialize : Ptr → Store → Store
initialize head s = set_pre head head (set_next head head s)

-- `tls_list_empty`.
pub empty : Ptr → Store → Bool
empty head s =
    if (head == null) || (s.pre head == null) || (s.next head == null)
    then true
    else s.next head == head

-- `tls_list_insert_tail`: the four assignments in order, each on the store that the last one left.
pub insert_tail : Ptr → Ptr → Store → Store
insert_tail head node s =
    let s1 = set_next node head s in
    let s2 = set_next (s1.pre head) node s1 in
    let s3 = set_pre node (s2.pre head) s2 in set_pre head node s3

-- `tls_list_remove_head`: the node is unlinked, and its own pointers stay.
pub remove_head : Ptr → Store → Ptr × Store
remove_head head s =
    let node = s.next head in
    let s1 = set_pre (s.next node) head s in (node, set_next head (s1.next node) s1)

-- The search loop of `tls_list_remove_node`, on fuel: `none` when the fuel ran out.
find_loop : ℕ → (head node cur : Ptr) → Store → Option Ptr
find_loop zero head node cur s = none
find_loop (suc k) head node cur s =
    let rest = find_loop k head node (s.next cur) s in
    if cur == head then some cur else if cur == node then some cur else rest

-- The three assignments that take `list_node` out of the ring.
unlink : Ptr → Store → Store
unlink p s =
    let s1 = set_next (s.pre p) (s.next p) s in
    let s2 = set_pre (s1.next p) (s1.pre p) s1 in set_pre p p (set_next p p s2)

-- `tls_list_remove_node` on fuel for its loop; it returns `null` for a node that is not in the list.
pub remove_node : ℕ → (head node : Ptr) → Store → Option (Ptr × Store)
unfolding find_loop unlink
remove_node fuel head node s =
    if node == null then some (null, s) else elim (find_loop fuel head node (s.next head) s) [
      | none ↦ none
      | some p ↦ some (if p == head then (null, s) else (p, unlink p s))
    ]
