-- ===== src/FileTransfer/Entries/Writing.antt =====
-- How the blocks of a file are written: `file_entry_write_handle` of 722device/filetransmit/file_entry.c.
use ai_coding_for_business.Common.{
  str_eq_refl, ℕ, zero, suc, ◌+◌, ◌%◌, ◌^◌, ◌≤◌, ◌<◌, ◌≡◌, ◌⊎◌, inl, inr, refl, sym, ap, ap₂, ◌∙◌,
  arith, true, false, some, List, [], ◌∷◌, ◌++◌, append-nil, ltb, length, is_nil, take, take-all,
  drop,
}
use ai_coding_for_business.NetProxy.{pad}
use ai_coding_for_business.FileTransfer.{
  Block, data_size, data_of, closed, opened, Entry, Disk, put_file, write_at,
}
use ai_coding_for_business.FileTransfer.Blocks.{Says}
use ai_coding_for_business.FileTransfer.Entries.{
  Answers, min, count_written, write_block, write_handle,
}

put_file-same : (disk : Disk) (name content : List ℕ) → put_file disk name content name ≡ content
put_file-same disk name content = rw (str_eq_refl name) refl

pad-all : (s : List ℕ) → pad (length s) s ≡ s
pad-all [] = refl
pad-all (c ∷ s) = ap (λ l. c ∷ l) (pad-all s)

drop-beyond : (s : List ℕ) (n : ℕ) → drop (length s + n) s ≡ []
drop-beyond [] zero = refl
drop-beyond [] (suc n) = let e : 0 + suc n ≡ suc n = omega arith in rw e refl
drop-beyond (c ∷ s) n =
    let e : suc (length s) + n ≡ suc (length s + n) = omega arith in rw e (drop-beyond s n)

-- A write at the end.
write_at-end : (content bytes : List ℕ) → write_at content (length content) bytes ≡ content ++ bytes
write_at-end content bytes =
    ap₂ (λ front back. front ++ (bytes ++ back)) (pad-all content)
      (drop-beyond content (length bytes))
    ∙ ap (λ l. content ++ l) (append-nil bytes)

-- The file of an entry holds `done`: it is open at the end of these bytes, or not yet opened.
abbrev pub Holds : Entry → Disk → List ℕ → Type 0
Holds e disk done =
    ((e.write_fd ≡ opened) × (e.write_offset ≡ length done) × (disk e.file_path ≡ done))
    ⊎ ((e.write_fd ≡ closed) × (done ≡ []))

-- The entry after `n` bytes have been written behind `done`, with no block left.
abbrev pub written : Entry → List ℕ → ℕ → Entry
written e done n = record e {
  write_blocks = [];
  write_fd = opened;
  write_offset = length done + n;
  write_count = (e.write_count + 1) % 2 ^ 32;
  write_size = (e.write_size + n) % 2 ^ 32;
}

is_nil-pos : (s : List ℕ) → 0 < length s → is_nil s ≡ false
is_nil-pos [] h = absurd (omega arith)
is_nil-pos (c ∷ s) h = refl

-- A block with its chunk, in a buffer that has room for it, and a system that takes all of it.
pub record Writable (a : Answers) (b : Block) (total seq : ℕ) (name : List ℕ) (size : ℕ)
    (chunk : List ℕ) : Type 0 where
  pub says : Says b total seq name size chunk
  pub room : 148 + length chunk ≤ b.block_size
  pub some_bytes : 0 < length chunk
  pub taken : ℕ
  pub wrote : a.wrote ≡ some taken
  pub all_taken : length chunk ≤ taken
  pub may_open : a.open_write ≡ true

module _ (a : Answers) (b : Block) (total seq : ℕ) (name : List ℕ) (size : ℕ) (chunk : List ℕ)
    (w : Writable a b total seq name size chunk) (disk : Disk) (e : Entry) (done : List ℕ) where
  block_bytes : take (min w.taken (data_size b)) (data_of b) ≡ chunk
  block_bytes =
      let n : min w.taken (data_size b) ≡ length chunk =
        ground (arith, w.says.chunk_size, w.all_taken) in
      ap₂ (λ k l. take k l) n w.says.bytes ∙ take-all (length chunk) chunk (omega arith)

  write_block-writes :
      e.write_offset ≡ length done
      → disk e.file_path ≡ done
      → write_block a disk e b
        ≡ some (count_written e (length chunk), put_file disk e.file_path (done ++ chunk), some b)
  unfolding write_block
  write_block-writes off content =
      let fits : ltb b.block_size (148 + data_size b) ≡ false =
        ground (arith, w.says.chunk_size, w.room) in
      let all : write_at (disk e.file_path) e.write_offset chunk ≡ done ++ chunk =
        ap₂ (λ c o. write_at c o chunk) content off ∙ write_at-end done chunk in
      rw (fits, w.wrote, block_bytes, is_nil-pos chunk w.some_bytes, all) refl

-- The first block of an entry, and no other, is written behind what the file holds.
module _ (a : Answers) (b : Block) (total seq : ℕ) (name : List ℕ) (size : ℕ) (chunk : List ℕ)
    (w : Writable a b total seq name size chunk) (disk : Disk) (e : Entry) (done : List ℕ) where
  pub write_handle-writes :
      e.write_blocks ≡ b ∷ []
      → Holds e disk done
      → (disk' : Disk) × (write_handle a disk e
          ≡ some (written e done (length chunk), disk', some b))
        × (disk' e.file_path ≡ done ++ chunk)
  unfolding write_handle
  write_handle-writes one (inl (fd, off, content)) =
      let run =
        write_block-writes a b total seq name size chunk w disk (record e { write_blocks = [] })
          done off content in
      (
        put_file disk e.file_path (done ++ chunk),
        ground (arith, one, fd, off, run),
        put_file-same disk e.file_path (done ++ chunk),
      )
  write_handle-writes one (inr (fd, empty)) =
      let truncated = put_file disk e.file_path [] in
      let fresh = record e { write_blocks = []; write_fd = opened; write_offset = 0 } in
      let run =
        write_block-writes a b total seq name size chunk w truncated fresh done
          (ap length (sym empty)) (put_file-same disk e.file_path [] ∙ sym empty) in
      (
        put_file truncated e.file_path (done ++ chunk),
        ground (arith, one, fd, empty, w.may_open, run),
        put_file-same truncated e.file_path (done ++ chunk),
      )
