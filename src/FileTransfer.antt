-- ===== src/FileTransfer.antt =====
-- 722device/filetransmit: files that come in blocks, are written to the disk, and are sent on in blocks
-- (file_block.h, file_entry.c, file_transmit.c).
--
-- A block keeps the storage of its buffer, so that a header is read from where it lies. The disk has the
-- contents of each path; an open file is its position. What the operating system answers is an
-- argument. Undefined behaviour, such as a copy beyond a buffer, has no outcome.
pub mod Entries
pub mod Blocks
use ai_coding_for_business.Common.{
  str_eq, ℕ, zero, suc, ◌+◌, ◌-◌, ◌*◌, ◌%◌, ◌^◌, Bool, true, false, not, ◌&&◌, ◌||◌, Option, none,
  some, List, [], ◌∷◌, ◌++◌, ◌==◌, ltb, leb, if◌then◌else◌, length, is_nil, take, drop, cells,
  write, le_bytes, le_value,
}
use ai_coding_for_business.NetProxy.{pad, cut}

-- A chain of steps that may be undefined.
infixl 8 ◌>>=◌
abbrev pub ◌>>=◌ : {A B : Type 0} → Option A → (A → Option B) → Option B
none >>= k = none
some a >>= k = k a

-- `FILE_BLOCK_FLAG`, `FILE_DATA_MTU`, and the size of the header.
abbrev pub file_block_flag : ℕ
file_block_flag = 21920

abbrev pub file_data_mtu : ℕ
file_data_mtu = 4096

abbrev pub hdr_size : ℕ
hdr_size = 148

-- `file_block_t`, with the bytes of its storage.
pub record Block : Type 0 where
  pub block_size : ℕ
  pub size : ℕ
  pub bytes : ℕ → ℕ

-- The fields of `file_block_hdr_t`, a packed structure of little-endian numbers.
abbrev pub u16_le : (ℕ → ℕ) → ℕ → ℕ
u16_le f off = le_value (cells f off 2)

abbrev pub u32_le : (ℕ → ℕ) → ℕ → ℕ
u32_le f off = le_value (cells f off 4)

abbrev pub flag : Block → ℕ
flag b = u16_le b.bytes 0

abbrev pub count : Block → ℕ
count b = u32_le b.bytes 4

abbrev pub sequence : Block → ℕ
sequence b = u32_le b.bytes 8

abbrev pub filename : Block → List ℕ
filename b = cut (cells b.bytes 12 128)

abbrev pub filesize : Block → ℕ
filesize b = u32_le b.bytes 140

abbrev pub data_size : Block → ℕ
data_size b = u32_le b.bytes 144

abbrev pub data_of : Block → List ℕ
data_of b = cells b.bytes 148 (data_size b)

-- The stores through a `file_block_hdr_t`, and the data behind it.
abbrev pub header : (count sequence : ℕ) → (name : List ℕ) → (filesize size : ℕ) → List ℕ
header count sequence name filesize size =
    le_bytes 2 file_block_flag
    ++ (0 ∷ 0 ∷ [])
    ++ (le_bytes 4 count
        ++ (le_bytes 4 sequence ++ (pad 128 name ++ (le_bytes 4 filesize ++ le_bytes 4 size))))

-- A file descriptor: 0, negative, or that of an open file.
pub data Fd : Type 0 where
  closed failed opened : Fd

abbrev pub is_open : Fd → Bool
is_open opened = true
is_open _ = false

abbrev pub is_closed : Fd → Bool
is_closed closed = true
is_closed _ = false

abbrev pub open_answer : Bool → Fd
open_answer granted = if granted then opened else failed

-- `file_entry_t`, but for the buffer of a read, which no later one looks at, and the time that it sleeps. The offsets
-- are the positions of the two open files.
pub record Entry : Type 0 where
  pub file_path : List ℕ
  pub file_name : List ℕ
  pub file_size : ℕ
  pub block_count : ℕ
  pub dest_addr : ℕ
  pub dest_entry : ℕ
  pub publish_url : List ℕ
  pub write_blocks : List Block
  pub write_fd : Fd
  pub write_offset : ℕ
  pub write_count : ℕ
  pub write_size : ℕ
  pub read_fd : Fd
  pub read_offset : ℕ
  pub read_size : ℕ
  pub read_count : ℕ
  pub complete : Bool
  pub interval : ℕ
  pub start_time : ℕ
  pub tick_time : ℕ

-- `file_transmit_param_t`, as far as blocks and entries are made from it.
pub record Param : Type 0 where
  pub file_dir : List ℕ
  pub block_size : ℕ
  pub send_interval : ℕ
  pub dst_addr : ℕ
  pub dst_entry : ℕ
  pub publish_url : List ℕ

-- The contents of each path.
abbrev pub Disk : Type 0
Disk = List ℕ → List ℕ

abbrev pub put_file : Disk → List ℕ → List ℕ → Disk
put_file disk name content q = if str_eq q name then content else disk q

-- `write` at a position: a gap before it reads as zeros.
abbrev pub write_at : List ℕ → ℕ → List ℕ → List ℕ
write_at content offset bytes =
    pad offset content ++ (bytes ++ drop (offset + length bytes) content)

-- `file_transmit_t`: the free blocks, the received ones, and the entries.
pub record Transfer : Type 0 where
  pub param : Param
  pub alloc_blocks : List Block
  pub file_blocks : List Block
  pub entries : List Entry
  pub evt_loop : Bool
  pub disk : Disk

-- `on_file_transmit_receive_file_data`, and `on_file_transmit_subscribe_message` before it: the bytes go into
-- a free block, or into a new one where `malloc` grants it, whose storage holds `garbage`.
abbrev pub put_block : Transfer → Block → List ℕ → Option Transfer
put_block t b bytes =
    if ltb b.block_size (length bytes)
    then none
    else some (record t {
      file_blocks =
          t.file_blocks ++ record b { size = length bytes; bytes = write b.bytes 0 bytes } ∷ [];
      evt_loop = true;
    })

pub receive_file_data : (granted : Bool) → (garbage : ℕ → ℕ) → Transfer → List ℕ → Option Transfer
receive_file_data granted garbage t [] = some t
receive_file_data granted garbage t (c ∷ s) = elim t.alloc_blocks [
  | [] ↦
      if granted && not (t.param.block_size == 0)
      then put_block t (record { block_size = t.param.block_size; size = 0; bytes = garbage })
          (c ∷ s)
      else some t
  | b ∷ bs ↦ put_block (record t { alloc_blocks = bs }) b (c ∷ s)
]

-- `file_transmit_drop_file_block`.
abbrev pub drop_block : Transfer → Block → Transfer
drop_block t b = record t { alloc_blocks = t.alloc_blocks ++ b ∷ [] }
