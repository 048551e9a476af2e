-- ===== src/FileTransfer/Entries.antt =====
-- The entries of 722device/filetransmit: file_entry.c, and the thread of file_transmit.c that serves them.
--
-- Publishing is `tls_server_vsoa_publish_transmit` on a server of type `S`, which the functions take as an
-- argument.
pub mod Writing
pub mod Handling
pub mod Delivery
pub mod Placed
pub mod Served
pub mod Account
pub mod Sending
pub mod Overrun
mod Tests
use ai_coding_for_business.Common.{
  str_eq, ℕ, zero, suc, ◌+◌, ◌-◌, ◌*◌, ◌%◌, ◌^◌, Bool, true, false, not, ◌&&◌, ◌||◌, Option, none,
  some, List, [], ◌∷◌, ◌++◌, ◌==◌, ltb, leb, if◌then◌else◌, length, is_nil, take, drop, TlsResult,
  result_fail,
}
use ai_coding_for_business.TlsServer.Publish.{VsoaSession}
use ai_coding_for_business.FileTransfer.{
  ◌>>=◌, file_block_flag, file_data_mtu, hdr_size, Block, flag, count, sequence, filename, filesize,
  data_size, data_of, header, Fd, closed, failed, is_open, is_closed, open_answer, Entry, Disk,
  put_file, write_at, Param, Transfer, drop_block,
}

-- What the operating system answers while an entry is served: whether its files can be opened, how much is
-- written and read or that it fails, and the times at which the clock is read.
pub record Answers : Type 0 where
  pub open_write : Bool
  pub wrote : Option ℕ
  pub open_read : Bool
  pub read : Option ℕ
  pub opened_at : ℕ
  pub read_at : ℕ
  pub now : ℕ

abbrev pub min : ℕ → ℕ → ℕ
min a b = if leb a b then a else b

-- An entry after a step, with the disk and the block that the step gives back.
abbrev pub Served : Type 0
Served = Entry × Disk × Option Block

-- `file_entry_w_file_close`.
abbrev pub w_file_close : Entry → Entry
w_file_close e = record e { write_fd = if is_open e.write_fd then closed else e.write_fd }

-- `file_entry_w_file_write_block`, and the counters after it. The size in the header is not compared with
-- that of the block.
abbrev pub count_written : Entry → ℕ → Entry
count_written e n = record e {
  write_size = (e.write_size + n) % 2 ^ 32;
  write_count = (e.write_count + 1) % 2 ^ 32;
  write_offset = e.write_offset + n;
}

pub write_block : Answers → Disk → Entry → Block → Option Served
write_block a disk e b = if ltb b.block_size (148 + data_size b) then none else elim a.wrote [
  | none ↦ some (e, disk, some b)
  | some n ↦
      let bytes = take (min n (data_size b)) (data_of b) in
      if is_nil bytes
      then some (e, disk, some b)
      else some (
        count_written e (length bytes),
        put_file disk e.file_path (write_at (disk e.file_path) e.write_offset bytes),
        some b,
      )
]

abbrev pub write_first : Answers → Disk → Entry → List Block → Option Served
write_first a disk e [] = some (e, disk, none)
write_first a disk e (b ∷ bs) = write_block a disk (record e { write_blocks = bs }) b

abbrev pub write_next : Answers → Disk → Entry → Option Served
write_next a disk e = write_first a disk e e.write_blocks

-- `file_entry_w_file_open` with O_TRUNC.
abbrev pub w_file_open : Entry → Entry
w_file_open e = record e { write_fd = Fd.opened; write_offset = 0 }

-- `file_entry_write_handle`.
pub write_handle : Answers → Disk → Entry → Option Served
write_handle a disk e =
    if (e.file_size == e.write_size) && is_nil e.write_blocks
    then some (w_file_close e, disk, none)
    else if is_open e.write_fd
    then write_next a disk e
    else if a.open_write
    then write_next a (put_file disk e.file_path []) (w_file_open e)
    else some (record e { write_fd = failed; complete = true }, disk, none)

-- What `file_entry_r_file_read_data` publishes of the bytes read.
abbrev pub session_for : Entry → List ℕ → VsoaSession
session_for e chunk = record {
  dest_addr = e.dest_addr;
  dest_entry = e.dest_entry % 2 ^ 16;
  vsoa_url = some e.publish_url;
  vsoa_payload = some (record {
    param = [];
    content = header e.block_count e.read_count e.file_name e.file_size (length chunk) ++ chunk;
  });
  priority = 0;
}

abbrev pub moved_on : Entry → ℕ → Entry
moved_on e n = record e { read_offset = e.read_offset + n }

abbrev pub count_read : Entry → ℕ → Entry
count_read e n = record e {
  read_count = (e.read_count + 1) % 2 ^ 32;
  read_size = (e.read_size + n) % 2 ^ 32;
}

-- `file_entry_r_file_open`, and the times after it.
abbrev pub r_file_open : Answers → Entry → Entry
r_file_open a e = record e {
  read_fd = open_answer a.open_read;
  read_offset = 0;
  start_time = a.opened_at;
  tick_time = a.opened_at;
}

abbrev pub to_open : Entry → Bool
to_open e = is_closed e.read_fd && ((e.read_size == 0) && ltb 0 e.file_size)

module _ {S : Type 0} (publish : S → VsoaSession → Option (TlsResult × S)) where
  -- `file_entry_r_file_read_data`. Where the message is not taken, the position in the file has moved all
  -- the same.
  pub publish_chunk : S → Entry → List ℕ → Option (Entry × S)
  publish_chunk s e [] = some (e, s)
  publish_chunk s e (c ∷ cs) = elim (publish s (session_for e (c ∷ cs))) [
    | none ↦ none
    | some (r, s') ↦
        let moved = moved_on e (length (c ∷ cs)) in
        some (if result_fail r then moved else count_read moved (length (c ∷ cs)), s')
  ]

  pub read_data : Answers → Disk → S → Entry → Option (Entry × S)
  read_data a disk s e = if not (is_open e.read_fd) then some (e, s) else elim a.read [
    | none ↦ some (e, s)
    | some n ↦
        publish_chunk s e (take (min n file_data_mtu) (drop e.read_offset (disk e.file_path)))
  ]

  -- The end of `file_entry_read_handle`: the difference of the times is a U64.
  pub read_when_due : Answers → Disk → S → Entry → Option (Entry × S)
  read_when_due a disk s e =
      if ltb e.interval ((e.tick_time + (2 ^ 64 - e.start_time)) % 2 ^ 64)
      then (read_data a disk s e >>= λ got.
          some (record got.0 { start_time = a.read_at; tick_time = a.now }, got.1))
      else some (record e { tick_time = a.now }, s)

  -- `file_entry_read_handle`. `file_entry_r_file_close` clears the descriptor of the other file.
  pub read_handle : Answers → Disk → S → Entry → Option (Entry × S)
  read_handle a disk s e =
      if is_open e.read_fd && (e.read_size == e.file_size)
      then some (record e { write_fd = closed; complete = true }, s)
      else read_when_due a disk s (if to_open e then r_file_open a e else e)

  -- `file_entry_handle`: the entry, the disk, the server, and the block given back.
  pub entry_handle : Answers → Disk → S → Entry → Option (Entry × Disk × S × List Block)
  entry_handle a disk s e = write_handle a disk e >>= λ w. read_handle a w.1 s w.0 >>= λ r.
      some (r.0, w.1, r.1, elim w.2 [ none ↦ [] | some b ↦ b ∷ [] ])

  -- The first loop of `file_transmit_file_entry_poll`, from entry number `i` on.
  pub handle_entries :
      (ℕ → Answers) → ℕ → Disk → S → List Entry → Option (List Entry × Disk × S × List Block)
  handle_entries answers i disk s [] = some ([], disk, s, [])
  handle_entries answers i disk s (e ∷ es) = entry_handle (answers i) disk s e >>= λ h.
      handle_entries answers (suc i) h.1 h.2 es >>= λ rest.
      some (h.0 ∷ rest.0, rest.1, rest.2, h.3 ++ rest.3)

-- The second loop: complete entries are freed, with the blocks that still wait in them.
abbrev pub incomplete : List Entry → List Entry
incomplete [] = []
incomplete (e ∷ es) = let rest = incomplete es in if e.complete then rest else e ∷ rest

-- `file_transmit_create_file_entry`, where `malloc` grants it and the path fits into its array.
abbrev pub ends_in_slash : List ℕ → Bool
ends_in_slash [] = false
ends_in_slash (c ∷ s) = let rest = ends_in_slash s in if is_nil s then c == 47 else rest

abbrev pub path_of : Param → List ℕ → List ℕ
path_of p name = p.file_dir ++ (if ends_in_slash p.file_dir then name else 47 ∷ name)

abbrev pub interval_of : Param → ℕ
interval_of p = let us = p.send_interval * 1000 % 2 ^ 32 in if us == 0 then 1000 else us

abbrev pub new_entry : Param → Block → Entry
new_entry p b = record {
  file_path = path_of p (filename b);
  file_name = filename b;
  file_size = filesize b;
  block_count = count b;
  dest_addr = p.dst_addr;
  dest_entry = p.dst_entry;
  publish_url = p.publish_url;
  write_blocks = [];
  write_fd = closed;
  write_offset = 0;
  write_count = 0;
  write_size = 0;
  read_fd = closed;
  read_offset = 0;
  read_size = 0;
  read_count = 0;
  complete = false;
  interval = interval_of p;
  start_time = 0;
  tick_time = 0;
}

-- `file_entry_add_file_block` to the first entry of that name, which `file_transmit_find_file_entry` finds.
abbrev pub add_block : Entry → Block → Entry
add_block e b = record e { write_blocks = e.write_blocks ++ b ∷ [] }

abbrev pub add_to_named : List ℕ → Block → List Entry → Option (List Entry)
add_to_named name b [] = none
add_to_named name b (e ∷ es) =
    let rest = add_to_named name b es in
    if str_eq e.file_name name
    then some (add_block e b ∷ es)
    else elim rest [ none ↦ none | some es' ↦ some (e ∷ es') ]

-- The directory is not empty, since the code looks for its last character, and the path fits into its array.
abbrev pub bad_path : Param → List ℕ → Bool
bad_path p name = is_nil p.file_dir || leb 128 (length (path_of p name))

-- The two ways of `file_transmit_handle_file_block` to an entry: a new one, where `malloc` grants it and its
-- path is not bad, and the one that was found.
abbrev pub place_first : (granted bad : Bool) → Transfer → Block → Option Transfer
place_first false long t b = some (drop_block t b)
place_first true true t b = none
place_first true false t b =
    some (record t { entries = t.entries ++ add_block (new_entry t.param b) b ∷ [] })

abbrev pub place_later : Option (List Entry) → Transfer → Block → Option Transfer
place_later none t b = some (drop_block t b)
place_later (some es) t b = some (record t { entries = es })

pub place_block : (granted : Bool) → Transfer → Block → Option Transfer
place_block granted t b =
    if sequence b == 0
    then place_first granted (bad_path t.param (filename b)) t b
    else place_later (add_to_named (filename b) b t.entries) t b

-- `file_transmit_handle_file_block`. A block without room for a header, or with a file name that has no end in
-- its array, has no outcome.
pub handle_file_block : (granted : Bool) → Transfer → Block → Option Transfer
handle_file_block granted t b =
    if ltb b.block_size hdr_size
    then none
    else if not (flag b == file_block_flag)
    then some (drop_block t b)
    else if leb 128 (length (filename b))
    then none
    else if is_nil (filename b) || (filesize b == 0)
    then some (drop_block t b)
    else place_block granted t b

-- The block that `file_transmit_pop_file_block` takes.
pub handle_next : (granted : Bool) → Transfer → Option Transfer
handle_next granted t = elim t.file_blocks [
  | [] ↦ some t
  | b ∷ bs ↦ handle_file_block granted (record t { file_blocks = bs }) b
]

module _ {S : Type 0} (publish : S → VsoaSession → Option (TlsResult × S)) where
  -- `file_transmit_file_entry_poll`, and `file_transmit_thread_poll`.
  pub entry_poll : (ℕ → Answers) → S → Transfer → Option (Transfer × S)
  entry_poll answers s t = handle_entries publish answers 0 t.disk s t.entries >>= λ h. some (
    record t {
      entries = incomplete h.0;
      disk = h.1;
      alloc_blocks = t.alloc_blocks ++ h.3;
      evt_loop = if is_nil (incomplete h.0) then false else t.evt_loop;
    },
    h.2,
  )

  pub thread_poll : (granted : Bool) → (ℕ → Answers) → S → Transfer → Option (Transfer × S)
  thread_poll granted answers s t = handle_next granted t >>= λ t'. entry_poll answers s t'
