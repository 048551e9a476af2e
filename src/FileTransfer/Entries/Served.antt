-- ===== src/FileTransfer/Entries/Served.antt =====
-- The blocks of an entry of 722device/filetransmit/file_entry.c, counted while it is served.
use ai_coding_for_business.Common.{
  ℕ, ◌+◌, ◌-◌, ◌%◌, ◌^◌, ◌≡◌, inl, inr, refl, arith, Bool, true, false, ◌&&◌, Option, none, some,
  List, [], ◌∷◌, ◌==◌, ltb, if◌then◌else◌, length, is_nil, take, drop, TlsResult, result_fail,
  Bool-cases, Option-cases,
}
use ai_coding_for_business.TlsServer.Publish.{VsoaSession}
use ai_coding_for_business.FileTransfer.{
  Block, Entry, Disk, data_size, is_open, put_file, data_of, failed,
}
use ai_coding_for_business.FileTransfer.Entries.{
  Answers, Served, write_block, write_handle, publish_chunk, read_data, read_when_due, read_handle,
  w_file_close, min, w_file_open, write_first, session_for, to_open, r_file_open,
}

-- The block that a step of writing gives back was the entry's.
abbrev pub back : Option Block → ℕ
back none = 0
back (some b) = 1

abbrev pub Pays : Option Served → ℕ → Type 0
Pays out n = (w : Served) → out ≡ some w → length w.0.write_blocks + back w.2 ≡ n

if-Pays :
    (test : Bool) (x y : Option Served) (n : ℕ)
    → Pays x n
    → Pays y n
    → Pays (if test then x else y) n
if-Pays true x y n h k = h
if-Pays false x y n h k = k

some-Pays : (x : Served) (n : ℕ) → length x.0.write_blocks + back x.2 ≡ n → Pays (some x) n
some-Pays x n h w e = cc

none-Pays : (n : ℕ) → Pays none n
none-Pays n w e = cc

write_block-Pays :
    (a : Answers) (disk : Disk) (e : Entry) (b : Block)
    → Pays (write_block a disk e b) (length e.write_blocks + 1)
unfolding write_block
write_block-Pays a disk e b = elim (Option-cases a.wrote) [
  | inl failing ↦ rw failing (
      if-Pays (ltb b.block_size (148 + data_size b)) _ _ _ (none-Pays _)
        (some-Pays (e, disk, some b) _ refl))
  | inr (n, answer) ↦ rw answer (
      if-Pays (ltb b.block_size (148 + data_size b)) _ _ _ (none-Pays _) (
        if-Pays (is_nil (take (min n (data_size b)) (data_of b))) _ _ _
          (some-Pays (e, disk, some b) _ refl) (some-Pays (_, _, some b) _ refl)))
]

write_first-Pays :
    (a : Answers) (disk : Disk) (e : Entry) (blocks : List Block)
    → length e.write_blocks ≡ length blocks
    → Pays (write_first a disk e blocks) (length blocks)
write_first-Pays a disk e [] h w run = some-Pays (e, disk, none) 0 (omega arith) w run
write_first-Pays a disk e (b ∷ bs) h w run =
    omega (arith, write_block-Pays a disk (record e { write_blocks = bs }) b w run)

pub write_handle-Pays :
    (a : Answers) (disk : Disk) (e : Entry) → Pays (write_handle a disk e) (length e.write_blocks)
unfolding write_handle
write_handle-Pays a disk e =
    if-Pays ((e.file_size == e.write_size) && is_nil e.write_blocks) _ _ _
      (some-Pays (w_file_close e, disk, none) _ (omega arith))
      (if-Pays (is_open e.write_fd) _ _ _ (write_first-Pays a disk e e.write_blocks refl) (
        if-Pays a.open_write _ _ _
          (write_first-Pays a (put_file disk e.file_path []) (w_file_open e) e.write_blocks refl)
          (some-Pays (record e { write_fd = failed; complete = true }, disk, none) _
            (omega arith))))

module _ {S : Type 0} (publish : S → VsoaSession → Option (TlsResult × S)) where
  -- Reading leaves the blocks of an entry.
  abbrev pub Keeps : Option (Entry × S) → Entry → Type 0
  Keeps out e = (r : Entry × S) → out ≡ some r → r.0.write_blocks ≡ e.write_blocks

  publish_chunk-Keeps :
      (s : S) (e : Entry) (chunk : List ℕ) → Keeps (publish_chunk publish s e chunk) e
  unfolding publish_chunk
  publish_chunk-Keeps s e [] r run = cc
  publish_chunk-Keeps s e (c ∷ cs) r run =
      elim (Option-cases (publish s (session_for e (c ∷ cs)))) [
        | inl lost ↦ ground (arith, lost)
        | inr ((result, s'), sent) ↦ elim (Bool-cases (result_fail result)) [
          | inl bad ↦ ground (arith, sent, bad)
          | inr good ↦ ground (arith, sent, good)
        ]
      ]

  read_data-Keeps :
      (a : Answers) (disk : Disk) (s : S) (e : Entry) → Keeps (read_data publish a disk s e) e
  unfolding read_data
  read_data-Keeps a disk s e r run = elim (Bool-cases (is_open e.read_fd)) [
    | inr shut ↦ ground (arith, shut)
    | inl is_reading ↦ elim (Option-cases a.read) [
      | inl failing ↦ ground (arith, is_reading, failing)
      | inr (n, answer) ↦
          publish_chunk-Keeps s e (take (min n 4096) (drop e.read_offset (disk e.file_path))) r
            (rw (is_reading, answer) at run)
    ]
  ]

  read_when_due-Keeps :
      (a : Answers) (disk : Disk) (s : S) (e : Entry) → Keeps (read_when_due publish a disk s e) e
  unfolding read_when_due
  read_when_due-Keeps a disk s e r run =
      elim (Bool-cases (ltb e.interval ((e.tick_time + (2 ^ 64 - e.start_time)) % 2 ^ 64))) [
        | inr early ↦ ground (arith, early)
        | inl due ↦ elim (Option-cases (read_data publish a disk s e)) [
          | inl lost ↦ ground (arith, due, lost)
          | inr (got, some_read) ↦
              ground (arith, due, some_read, read_data-Keeps a disk s e got some_read)
        ]
      ]

  pub read_handle-Keeps :
      (a : Answers) (disk : Disk) (s : S) (e : Entry) → Keeps (read_handle publish a disk s e) e
  unfolding read_handle
  read_handle-Keeps a disk s e r run =
      elim (Bool-cases (is_open e.read_fd && (e.read_size == e.file_size))) [
        | inl finished ↦ ground (arith, finished)
        | inr more ↦ elim (Bool-cases (to_open e)) [
          | inl opens ↦ read_when_due-Keeps a disk s (r_file_open a e) r (rw (more, opens) at run)
          | inr kept ↦ read_when_due-Keeps a disk s e r (rw (more, kept) at run)
        ]
      ]
