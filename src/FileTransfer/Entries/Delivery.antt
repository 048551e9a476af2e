-- ===== src/FileTransfer/Entries/Delivery.antt =====
-- A file that comes in blocks and in order is on the disk: the thread of 722device/filetransmit/file_transmit.c
-- with the entries of file_entry.c.
pub mod Placing
pub mod Files
use ai_coding_for_business.Common.{
  ℕ, zero, suc, ◌+◌, ◌*◌, ◌-◌, ◌%◌, ◌^◌, ◌≤◌, ◌<◌, ◌≡◌, ◌≢◌, ◌⊎◌, inl, inr, refl, sym, ap, ◌∙◌,
  subst, arith, Bool, true, false, not, ◌&&◌, ◌||◌, Option, none, some, List, [], ◌∷◌, ◌++◌,
  append-nil, ◌==◌, ltb, leb, if◌then◌else◌, length, length-append, is_nil, TlsResult,
}
use ai_coding_for_business.TlsServer.Publish.{VsoaSession, Url}
use ai_coding_for_business.FileTransfer.{
  ◌>>=◌, flag, sequence, filename, filesize, file_block_flag, Block, Fd, opened, closed, Entry,
  Disk, Transfer, Param,
}
use ai_coding_for_business.FileTransfer.Blocks.{Says}
use ai_coding_for_business.FileTransfer.Entries.{
  Answers, write_handle, read_handle, entry_handle, handle_entries, incomplete, path_of, new_entry,
  add_block, add_to_named, place_block, handle_file_block, handle_next, entry_poll, thread_poll,
}
use ai_coding_for_business.FileTransfer.Entries.Writing.{
  Holds, Writable, written, write_handle-writes,
}
use ai_coding_for_business.FileTransfer.Entries.Handling.{
  Returns, SameFile, ReadsWithin, read_handle-Reading,
}

-- The only entry is for the file `name` of `size` bytes, holds `done` of it, and has `blocks` to write.
pub record Active (t : Transfer) (e : Entry) (blocks : List Block) (name : List ℕ) (size : ℕ)
    (done : List ℕ) : Type 0 where
  pub only : t.entries ≡ e ∷ []
  pub named : e.file_name ≡ name
  pub sized : e.file_size ≡ size
  pub at_path : e.file_path ≡ path_of t.param name
  pub publishes : e.publish_url ≡ t.param.publish_url
  pub waiting : e.write_blocks ≡ blocks
  pub holds : Holds e t.disk done
  pub counted : e.write_size ≡ length done
  pub lasting : e.complete ≡ false
  pub reads : ReadsWithin e (length done)

-- The transfer after a round that has written the block `b`.
abbrev pub after_poll : Transfer → Block → Entry → Disk → Transfer
after_poll t b e disk = record t {
  entries = e ∷ [];
  disk = disk;
  alloc_blocks = t.alloc_blocks ++ b ∷ [];
}

module _ {S : Type 0} (publish : S → VsoaSession → Option (TlsResult × S)) (Holds : S → Type 0)
    (url : Url) (limit : ℕ) (returns : Returns publish Holds url limit) (answers : ℕ → Answers)
    (s : S) (t : Transfer) (e : Entry) (b : Block) (total seq : ℕ) (name : List ℕ) (size : ℕ)
    (done chunk : List ℕ) where
  handle-one :
      (e1 : Entry) (disk' : Disk) (e2 : Entry) (s' : S)
      → write_handle (answers 0) t.disk e ≡ some (e1, disk', some b)
      → read_handle publish (answers 0) disk' s e1 ≡ some (e2, s')
      → handle_entries publish answers 0 t.disk s (e ∷ []) ≡ some (e2 ∷ [], disk', s', b ∷ [])
  unfolding handle_entries entry_handle
  handle-one e1 disk' e2 s' w r = ground (arith, w, r)

  poll-one :
      (disk' : Disk) (e2 : Entry) (s' : S)
      → t.entries ≡ e ∷ []
      → e2.complete ≡ false
      → handle_entries publish answers 0 t.disk s (e ∷ []) ≡ some (e2 ∷ [], disk', s', b ∷ [])
      → entry_poll publish answers s t ≡ some (after_poll t b e2 disk', s')
  unfolding entry_poll
  poll-one disk' e2 s' only lasting run = ground (arith, only, lasting, run)

  -- A round of the thread on an entry with one block writes this block.
  pub entry_poll-Active :
      Active t e (b ∷ []) name size done
      → Writable (answers 0) b total seq name size chunk
      → length done + length chunk ≤ size
      → size < 4294967296
      → size ≤ limit
      → Holds s
      → t.param.publish_url ≡ url
      → (e' : Entry) × (disk' : Disk) × (s' : S) × (entry_poll publish answers s t
          ≡ some (after_poll t b e' disk', s'))
        × Active (after_poll t b e' disk') e' [] name size (done ++ chunk)
        × (disk' (path_of t.param name) ≡ done ++ chunk)
        × Holds s'
  entry_poll-Active act w fits small few ok u =
      let (disk', wrote, content) =
        write_handle-writes (answers 0) b total seq name size chunk w t.disk e done act.waiting
          act.holds in
      let more = length-append done chunk in
      let (e', s', reading, ok', same, within) =
        read_handle-Reading publish Holds url limit returns (answers 0) disk' s
          (written e done (length chunk))
          (omega (arith, act.sized, act.reads.0, act.reads.1, w.some_bytes))
          (omega (arith, ap length content, more, act.reads.0, act.reads.1)) ok (act.publishes ∙ u)
          (omega (arith, ap length content, more)) in
      let there : disk' (path_of t.param name) ≡ done ++ chunk =
        subst (λ p. disk' p ≡ done ++ chunk) act.at_path content in
      let content' : disk' e'.file_path ≡ done ++ chunk =
        subst (λ p. disk' p ≡ done ++ chunk) (sym same.file_path) content in
      (
        e',
        disk',
        s',
        poll-one disk' e' s' act.only (same.complete ∙ act.lasting)
            (handle-one (written e done (length chunk)) disk' e' s' wrote reading),
        record {
          only = refl;
          named = same.file_name ∙ act.named;
          sized = same.file_size ∙ act.sized;
          at_path = same.file_path ∙ act.at_path;
          publishes = same.publish_url ∙ act.publishes;
          waiting = same.write_blocks;
          holds = inl (same.write_fd, same.write_offset ∙ sym more, content');
          counted = omega (arith, same.write_size, act.counted, more);
          lasting = same.complete ∙ act.lasting;
          reads = omega (arith, within.0, within.1, ap length content);
        },
        there,
        ok',
      )
