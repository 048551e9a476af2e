-- ===== src/FileTransfer/Entries/Handling.antt =====
-- What reading the file of an entry, and sending it on, leaves of the entry: `file_entry_read_handle` of
-- 722device/filetransmit/file_entry.c.
use ai_coding_for_business.Common.{
  ℕ, zero, suc, ◌+◌, ◌-◌, ◌%◌, ◌^◌, ◌≤◌, ◌<◌, ◌≡◌, inl, inr, refl, arith, false, ◌&&◌, Option, some,
  List, [], ◌∷◌, ◌==◌, ltb, length, take, length-drop, drop, TlsResult, result_fail, Bool-cases,
  Option-cases,
}
use ai_coding_for_business.TlsServer.Publish.{VsoaSession, Url}
use ai_coding_for_business.FileTransfer.{is_open, Entry, Disk}
use ai_coding_for_business.FileTransfer.Entries.{
  Answers, min, moved_on, count_read, session_for, r_file_open, to_open, publish_chunk, read_data,
  read_when_due, read_handle,
}

-- A publisher that returns, with success or without, from any state for which `Holds` is so, and leaves it so: when it
-- is given the block of an entry that publishes under `url`, with at most `limit` bytes of the file.
abbrev pub Returns :
    {S : Type 0}
    → (S → VsoaSession → Option (TlsResult × S))
    → (Holds : S → Type 0) → Url
    → ℕ
    → Type 0
Returns {S} publish Holds url limit =
    (s : S) (e : Entry) (chunk : List ℕ)
    → Holds s
    → e.publish_url ≡ url
    → 0 < length chunk
    → length chunk ≤ limit
    → (r : TlsResult) × (s' : S) × (publish s (session_for e chunk) ≡ some (r, s')) × Holds s'

-- An entry whose writing stands where that of another one does.
pub record SameFile (e e' : Entry) : Type 0 where
  pub file_path : e'.file_path ≡ e.file_path
  pub file_name : e'.file_name ≡ e.file_name
  pub file_size : e'.file_size ≡ e.file_size
  pub publish_url : e'.publish_url ≡ e.publish_url
  pub write_blocks : e'.write_blocks ≡ e.write_blocks
  pub write_fd : e'.write_fd ≡ e.write_fd
  pub write_offset : e'.write_offset ≡ e.write_offset
  pub write_size : e'.write_size ≡ e.write_size
  pub complete : e'.complete ≡ e.complete

-- No more has been sent on than read, and no more read than the file has.
abbrev pub ReadsWithin : Entry → ℕ → Type 0
ReadsWithin e n = (e.read_size ≤ e.read_offset) × (e.read_offset ≤ n)

length-take : (k : ℕ) (s : List ℕ) → length (take k s) ≤ length s
length-take zero s = omega arith
length-take (suc k) [] = omega arith
length-take (suc k) (c ∷ s) = omega (arith, length-take k s)

module _ {S : Type 0} (publish : S → VsoaSession → Option (TlsResult × S)) (Holds : S → Type 0)
    (url : Url) (limit : ℕ) (returns : Returns publish Holds url limit) where
  abbrev Reading : Option (Entry × S) → Entry → ℕ → Type 0
  Reading out e n =
      (e' : Entry) × (s' : S) × (out ≡ some (e', s')) × Holds s' × SameFile e e' × ReadsWithin e' n

  publish_chunk-Reading :
      (s : S) (e : Entry) (chunk : List ℕ) (n : ℕ)
      → ReadsWithin e n
      → Holds s
      → e.publish_url ≡ url
      → n ≤ limit
      → e.read_offset + length chunk ≤ n
      → Reading (publish_chunk publish s e chunk) e n
  unfolding publish_chunk
  publish_chunk-Reading s e [] n h ok u few fits = (e, s, refl, ok, ground arith, h)
  publish_chunk-Reading s e (c ∷ cs) n h ok u few fits =
      let (r, s', run, ok') = returns s e (c ∷ cs) ok u (omega arith) (omega arith) in
      elim (Bool-cases (result_fail r)) [
        | inl bad ↦ (
          moved_on e (length (c ∷ cs)),
          s',
          ground (arith, run, bad),
          ok',
          ground arith,
          ground arith,
        )
        | inr good ↦ (
          count_read (moved_on e (length (c ∷ cs))) (length (c ∷ cs)),
          s',
          ground (arith, run, good),
          ok',
          ground arith,
          ground arith,
        )
      ]

  read_data-Reading :
      (a : Answers) (disk : Disk) (s : S) (e : Entry)
      → ReadsWithin e (length (disk e.file_path))
      → Holds s
      → e.publish_url ≡ url
      → length (disk e.file_path) ≤ limit
      → Reading (read_data publish a disk s e) e (length (disk e.file_path))
  unfolding read_data
  read_data-Reading a disk s e h ok u few = elim (Bool-cases (is_open e.read_fd)) [
    | inr shut ↦ (e, s, rw shut refl, ok, ground arith, h)
    | inl is_reading ↦ elim (Option-cases a.read) [
      | inl failing ↦ (e, s, rw (is_reading, failing) refl, ok, ground arith, h)
      | inr (n, answer) ↦
          let chunk = take (min n 4096) (drop e.read_offset (disk e.file_path)) in
          let small = length-take (min n 4096) (drop e.read_offset (disk e.file_path)) in
          let (e', s', run, ok', same, within) =
            publish_chunk-Reading s e chunk (length (disk e.file_path)) h ok u few
              (omega (arith, small, length-drop e.read_offset (disk e.file_path), h.1)) in
          (e', s', rw (is_reading, answer) run, ok', same, within)
    ]
  ]

  read_when_due-Reading :
      (a : Answers) (disk : Disk) (s : S) (e : Entry)
      → ReadsWithin e (length (disk e.file_path))
      → Holds s
      → e.publish_url ≡ url
      → length (disk e.file_path) ≤ limit
      → Reading (read_when_due publish a disk s e) e (length (disk e.file_path))
  unfolding read_when_due
  read_when_due-Reading a disk s e h ok u few =
      let (e', s', run, ok', same, within) = read_data-Reading a disk s e h ok u few in
      elim (Bool-cases (ltb e.interval ((e.tick_time + (2 ^ 64 - e.start_time)) % 2 ^ 64))) [
        | inl due ↦ (
          record e' { start_time = a.read_at; tick_time = a.now },
          s',
          rw (due, run) refl,
          ok',
          record {
            file_path = same.file_path;
            file_name = same.file_name;
            file_size = same.file_size;
            publish_url = same.publish_url;
            write_blocks = same.write_blocks;
            write_fd = same.write_fd;
            write_offset = same.write_offset;
            write_size = same.write_size;
            complete = same.complete;
          },
          within,
        )
        | inr early ↦ (record e { tick_time = a.now }, s, rw early refl, ok, ground arith, h)
      ]

  -- Less than the whole file has been sent on: the entry stays.
  pub read_handle-Reading :
      (a : Answers) (disk : Disk) (s : S) (e : Entry)
      → e.read_size < e.file_size
      → ReadsWithin e (length (disk e.file_path))
      → Holds s
      → e.publish_url ≡ url
      → length (disk e.file_path) ≤ limit
      → Reading (read_handle publish a disk s e) e (length (disk e.file_path))
  unfolding read_handle
  read_handle-Reading a disk s e less h ok u few =
      let unfinished : (is_open e.read_fd && (e.read_size == e.file_size)) ≡ false =
        ground (arith, less) in
      elim (Bool-cases (to_open e)) [
        | inr kept ↦ rw (unfinished, kept) (read_when_due-Reading a disk s e h ok u few)
        | inl opens ↦
            let (e', s', run, ok', same, within) =
              read_when_due-Reading a disk s (r_file_open a e) (ground arith) ok u few in
            (
              e',
              s',
              rw (unfinished, opens) run,
              ok',
              record {
                file_path = same.file_path;
                file_name = same.file_name;
                file_size = same.file_size;
                publish_url = same.publish_url;
                write_blocks = same.write_blocks;
                write_fd = same.write_fd;
                write_offset = same.write_offset;
                write_size = same.write_size;
                complete = same.complete;
              },
              within,
            )
      ]
