-- ===== src/FileTransfer/Entries/Placed.antt =====
-- The blocks of 722device/filetransmit/file_transmit.c, counted while a received one goes to its place.
use ai_coding_for_business.Common.{
  str_eq, ℕ, ◌+◌, ◌≡◌, inl, inr, refl, ap, subst, arith, Bool, true, false, not, ◌||◌, Option, none,
  some, List, [], ◌∷◌, ◌++◌, ◌==◌, ltb, leb, if◌then◌else◌, length, length-append, is_nil,
  List-cases, Bool-cases, Option-cases,
}
use ai_coding_for_business.FileTransfer.{
  Block, Entry, Transfer, filename, drop_block, flag, file_block_flag, filesize, sequence, hdr_size,
}
use ai_coding_for_business.FileTransfer.Entries.{
  add_block, add_to_named, place_block, handle_file_block, handle_next, place_later, place_first,
  new_entry, bad_path,
}

-- The blocks that wait in entries.
abbrev pub held : List Entry → ℕ
held [] = 0
held (e ∷ es) = length e.write_blocks + held es

abbrev pub block_count : Transfer → ℕ
block_count t = length t.alloc_blocks + length t.file_blocks + held t.entries

pub held-append : (es fs : List Entry) → held (es ++ fs) ≡ held es + held fs
held-append [] fs = omega arith
held-append (e ∷ es) fs = omega (arith, held-append es fs)

add_to_named-held :
    (name : List ℕ) (b : Block) (es es' : List Entry)
    → add_to_named name b es ≡ some es'
    → held es' ≡ held es + 1
add_to_named-held name b [] es' h = cc
add_to_named-held name b (e ∷ es) es' h = elim (Bool-cases (str_eq e.file_name name)) [
  | inl here ↦ ground (arith, here, length-append e.write_blocks (b ∷ []))
  | inr other ↦ elim (Option-cases (add_to_named name b es)) [
    | inl absent ↦ ground (arith, other, absent)
    | inr (more, found) ↦ ground (arith, other, found, add_to_named-held name b es more found)
  ]
]

drop-count : (t : Transfer) (b : Block) → block_count (drop_block t b) ≡ block_count t + 1
drop-count t b = omega (arith, length-append t.alloc_blocks (b ∷ []))

-- Where a block goes, it is one more there.
abbrev Grows : Option Transfer → Transfer → Type 0
Grows out t = (t' : Transfer) → out ≡ some t' → block_count t' ≡ block_count t + 1

count-some : (t t' : Transfer) (n : ℕ) → block_count t ≡ n → some t ≡ some t' → block_count t' ≡ n
count-some t t' n h e = cc

place_first-Grows :
    (granted long : Bool) (t : Transfer) (b : Block) → Grows (place_first granted long t b) t
place_first-Grows false long t b t' e = count-some _ t' _ (drop-count t b) e
place_first-Grows true true t b t' e = cc
place_first-Grows true false t b t' e =
    let e1 = add_block (new_entry t.param b) b in
    count-some (record t { entries = t.entries ++ e1 ∷ [] }) t' (block_count t + 1)
      (omega (arith, held-append t.entries (e1 ∷ []))) e

place_later-Grows :
    (name : List ℕ) (t : Transfer) (b : Block)
    → Grows (place_later (add_to_named name b t.entries) t b) t
place_later-Grows name t b t' e = elim (Option-cases (add_to_named name b t.entries)) [
  | inl absent ↦
      let e' : some (drop_block t b) ≡ some t' =
        subst (λ o. place_later o t b ≡ some t') absent e in
      count-some (drop_block t b) t' (block_count t + 1) (drop-count t b) e'
  | inr (es, found) ↦
      let e' : some (record t { entries = es }) ≡ some t' =
        subst (λ o. place_later o t b ≡ some t') found e in
      count-some (record t { entries = es }) t' (block_count t + 1)
        (omega (arith, add_to_named-held name b t.entries es found)) e'
]

if-Grows :
    (test : Bool) (x y : Option Transfer) (t : Transfer)
    → Grows x t
    → Grows y t
    → Grows (if test then x else y) t
if-Grows true x y t h k = h
if-Grows false x y t h k = k

none-Grows : (t : Transfer) → Grows none t
none-Grows t t' e = cc

drop-Grows : (t : Transfer) (b : Block) → Grows (some (drop_block t b)) t
drop-Grows t b t' e = count-some (drop_block t b) t' (block_count t + 1) (drop-count t b) e

handle_file_block-Grows :
    (granted : Bool) (t : Transfer) (b : Block) → Grows (handle_file_block granted t b) t
unfolding handle_file_block place_block
handle_file_block-Grows granted t b = if-Grows (ltb b.block_size hdr_size) _ _ t (none-Grows t) (
    if-Grows (not (flag b == file_block_flag)) _ _ t (drop-Grows t b) (
      if-Grows (leb 128 (length (filename b))) _ _ t (none-Grows t) (
        if-Grows (is_nil (filename b) || (filesize b == 0)) _ _ t (drop-Grows t b) (
          if-Grows (sequence b == 0) _ _ t
            (place_first-Grows granted (bad_path t.param (filename b)) t b)
            (place_later-Grows (filename b) t b)))))

pub handle_next-count :
    (granted : Bool) (t t' : Transfer)
    → handle_next granted t ≡ some t'
    → block_count t' ≡ block_count t
unfolding handle_next
handle_next-count granted t t' h = elim (List-cases t.file_blocks) [
  | inl empty ↦
      let h' : some t ≡ some t' =
        subst
          (λ l.
            elim l as (λ x. Option Transfer) [
              | [] ↦ some t
              | b ∷ bs ↦ handle_file_block granted (record t { file_blocks = bs }) b
            ]
            ≡ some t')
          empty h in
      count-some t t' (block_count t) refl h'
  | inr (b, bs, e) ↦
      let h' : handle_file_block granted (record t { file_blocks = bs }) b ≡ some t' =
        subst
          (λ l.
            elim l as (λ x. Option Transfer) [
              | [] ↦ some t
              | b ∷ bs ↦ handle_file_block granted (record t { file_blocks = bs }) b
            ]
            ≡ some t')
          e h in
      omega (
        arith,
        handle_file_block-Grows granted (record t { file_blocks = bs }) b t' h',
        ap length e,
      )
]
