-- ===== src/FileTransfer/Entries/Account.antt =====
-- Where the blocks of 722device/filetransmit/file_transmit.c are: free, received, or in an entry.
use ai_coding_for_business.Common.{
  ℕ, suc, ◌+◌, ◌≡◌, refl, sym, ap, arith, Bool, false, Option, none, some, List, [], ◌∷◌, ◌++◌,
  if◌then◌else◌, length, length-append, is_nil, TlsResult,
}
use ai_coding_for_business.TlsServer.Publish.{VsoaSession}
use ai_coding_for_business.FileTransfer.{◌>>=◌, Block, Entry, Disk, Transfer}
use ai_coding_for_business.FileTransfer.Entries.{
  Answers, write_handle, read_handle, entry_handle, handle_entries, incomplete, handle_next,
  entry_poll, thread_poll,
}
use ai_coding_for_business.FileTransfer.Entries.Placed.{held, block_count, handle_next-count}
use ai_coding_for_business.FileTransfer.Entries.Served.{back, write_handle-Pays, read_handle-Keeps}

>>=-eq-some :
    {A B : Type 0} (m : Option A) (f : A → Option B) (b : B)
    → (m >>= f) ≡ some b
    → (a : A) × (m ≡ some a) × (f a ≡ some b)
>>=-eq-some none f b h = cc
>>=-eq-some (some a) f b h = (a, refl, h)

some-first : {A B : Type 0} (x y : A × B) → some x ≡ some y → x.0 ≡ y.0
some-first x y h = cc

-- The entries that are freed.
abbrev pub completed : List Entry → List Entry
completed [] = []
completed (e ∷ es) = let rest = completed es in if e.complete then e ∷ rest else rest

held-incomplete : (es : List Entry) → held es ≡ held (incomplete es) + held (completed es)
held-incomplete [] = omega arith
held-incomplete (e ∷ es) = ground (arith, held-incomplete es)

length-back : (o : Option Block) → length (elim o [ none ↦ [] | some b ↦ b ∷ [] ]) ≡ back o
length-back none = refl
length-back (some b) = refl

module _ {S : Type 0} (publish : S → VsoaSession → Option (TlsResult × S)) where
  entry_handle-count :
      (a : Answers) (disk : Disk) (s : S) (e : Entry) (x : Entry × Disk × S × List Block)
      → entry_handle publish a disk s e ≡ some x
      → length x.0.write_blocks + length x.3 ≡ length e.write_blocks
  unfolding entry_handle
  entry_handle-count a disk s e x h =
      let (w, wrote, h1) = >>=-eq-some (write_handle a disk e) _ x h in
      let (r, reading, h2) = >>=-eq-some (read_handle publish a w.1 s w.0) _ x h1 in
      let kept = read_handle-Keeps publish a w.1 s w.0 r reading in
      let paid = write_handle-Pays a disk e w wrote in
      let blocks = ap length kept in
      let final : some (r.0, w.1, r.1, elim w.2 [ none ↦ [] | some b ↦ b ∷ [] ]) ≡ some x = h2 in
      let count : length x.0.write_blocks + length x.3
          ≡ length r.0.write_blocks + length (elim w.2 [ none ↦ [] | some b ↦ b ∷ [] ]) =
        cc in
      omega (arith, count, blocks, paid, length-back w.2)

  handle_entries-count :
      (answers : ℕ → Answers) (i : ℕ) (disk : Disk) (s : S) (es : List Entry)
      (x : List Entry × Disk × S × List Block)
      → handle_entries publish answers i disk s es ≡ some x
      → held x.0 + length x.3 ≡ held es
  unfolding handle_entries
  handle_entries-count answers i disk s [] x h = cc
  handle_entries-count answers i disk s (e ∷ es) x h =
      let (y, one, h1) = >>=-eq-some (entry_handle publish (answers i) disk s e) _ x h in
      let (z, rest, h2) = >>=-eq-some (handle_entries publish answers (suc i) y.1 y.2 es) _ x h1 in
      let here = entry_handle-count (answers i) disk s e y one in
      let more = handle_entries-count answers (suc i) y.1 y.2 es z rest in
      let final : some (y.0 ∷ z.0, z.1, z.2, y.3 ++ z.3) ≡ some x = h2 in
      let count : held x.0 + length x.3
          ≡ (length y.0.write_blocks + held z.0) + length (y.3 ++ z.3) =
        cc in
      omega (arith, count, here, more, length-append y.3 z.3)

  -- A round of the thread, which takes a received block to its entry, handles the entries, and frees those that are
  -- complete after it: all blocks are still there, free, received or in an entry, but those that wait in an
  -- entry which the round frees. These are lost.
  pub thread_poll-count :
      (granted : Bool) (answers : ℕ → Answers) (s : S) (t : Transfer) (t' : Transfer) (s' : S)
      → thread_poll publish granted answers s t ≡ some (t', s')
      → (t1 : Transfer) × (x : List Entry × Disk × S × List Block) × (handle_next granted t
          ≡ some t1)
        × (handle_entries publish answers 0 t1.disk s t1.entries ≡ some x)
        × (t'.entries ≡ incomplete x.0)
        × (block_count t ≡ block_count t' + held (completed x.0))
  unfolding thread_poll entry_poll
  thread_poll-count granted answers s t t' s' h =
      let (t1, placing, h1) = >>=-eq-some (handle_next granted t) _ (t', s') h in
      let (x, handling, h2) =
        >>=-eq-some (handle_entries publish answers 0 t1.disk s t1.entries) _ (t', s') h1 in
      let after : Transfer = record t1 {
        entries = incomplete x.0;
        disk = x.1;
        alloc_blocks = t1.alloc_blocks ++ x.3;
        evt_loop = if is_nil (incomplete x.0) then false else t1.evt_loop;
      } in
      let same = some-first (after, x.2) (t', s') h2 in
      (
        t1,
        x,
        placing,
        handling,
        ap (λ (z : Transfer). z.entries) (sym same),
        omega (
          arith,
          ap block_count same,
          handle_next-count granted t t1 placing,
          handle_entries-count answers 0 t1.disk s t1.entries x handling,
          held-incomplete x.0,
          length-append t1.alloc_blocks x.3,
        ),
      )
