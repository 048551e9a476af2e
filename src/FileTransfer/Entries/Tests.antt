-- ===== src/FileTransfer/Entries/Tests.antt =====
-- The transfer of files of 722device/filetransmit: runs, and the theorems at small files.
use ai_coding_for_business.Common.{
  ℕ, suc, ◌+◌, ◌≡◌, refl, arith, true, false, Option, none, some, List, [], ◌∷◌, codes, replicate,
  ◌==◌, if◌then◌else◌, s_ok, TlsResult, length-replicate,
}
use ai_coding_for_business.State.{Server}
use ai_coding_for_business.TlsBuff.{Buff, zero_buff, zero_queue}
use ai_coding_for_business.TlsServer.Buffers.{WellFormed}
use ai_coding_for_business.TlsServer.Publish.{VsoaSession}
use ai_coding_for_business.TlsServer.Publish.Session.{Running}
use ai_coding_for_business.FileTransfer.{Block, Fd, Param, Entry, Transfer, Disk, put_file}
use ai_coding_for_business.FileTransfer.Entries.{
  write_handle, Answers, path_of, incomplete, new_entry, thread_poll, handle_next, entry_poll,
  handle_entries, entry_handle, write_block, read_data, read_handle,
}
use ai_coding_for_business.FileTransfer.Entries.Account.{completed, thread_poll-count}
use ai_coding_for_business.FileTransfer.Entries.Placed.{held}
use ai_coding_for_business.FileTransfer.Entries.Sending.{by_server, by_server-Returns}
use ai_coding_for_business.FileTransfer.Entries.Overrun.{read_data-overruns}
use ai_coding_for_business.FileTransfer.Entries.Delivery.Files.{
  Round, serve_all, messages, serve_all-file,
}

-- A publisher that counts its messages and takes them all, and one that takes none.
abbrev counting : ℕ → VsoaSession → Option (TlsResult × ℕ)
counting n session = some (s_ok, suc n)

abbrev params : Param
params = record {
  file_dir = codes "/up";
  block_size = 4244;
  send_interval = 5;
  dst_addr = 9;
  dst_entry = 3;
  publish_url = codes "/file";
}

abbrev start : Transfer
start = record {
  param = params;
  alloc_blocks = [];
  file_blocks = [];
  entries = [];
  evt_loop = false;
  disk = λ _. [];
}

abbrev answers : ℕ → Answers
answers i = record {
  open_write = true;
  wrote = some 4096;
  open_read = true;
  read = some 2;
  opened_at = 0;
  read_at = 50;
  now = 7000;
}

abbrev round : Round
round = record { garbage = λ _. 170; answers = answers }

abbrev name : List ℕ
name = codes "f"

abbrev chunks : List (List ℕ)
chunks = (65 ∷ 66 ∷ 67 ∷ []) ∷ (68 ∷ []) ∷ []

-- An entry whose file has been sent on, while two blocks of one byte still wait in it.
abbrev waiting : Block
waiting = record { block_size = 4244; size = 149; bytes = λ i. if i == 144 then 1 else 0 }

abbrev finished : Entry
finished = record (new_entry params waiting) {
  file_name = name;
  file_size = 4;
  write_blocks = waiting ∷ waiting ∷ [];
  write_fd = Fd.opened;
  write_size = 3;
  write_offset = 3;
  read_fd = Fd.opened;
  read_size = 4;
  read_offset = 4;
}

abbrev before : Transfer
before = record start { entries = finished ∷ [] }

-- The round writes one of them and frees the entry with the other one.
abbrev after : Transfer
after = record before {
  entries = [];
  alloc_blocks = waiting ∷ [];
  disk = put_file before.disk finished.file_path (0 ∷ 0 ∷ 0 ∷ 0 ∷ []);
}

freed : thread_poll counting true answers 0 before ≡ some (after, 0)
unfolding thread_poll handle_next entry_poll handle_entries entry_handle write_handle write_block
    read_handle
freed = refl

thread_poll-count_example :
    (t1 : Transfer) × (x : List Entry × Disk × ℕ × List Block) × (handle_next true before ≡ some t1)
    × (handle_entries counting answers 0 t1.disk 0 t1.entries ≡ some x)
    × ([] ≡ incomplete x.0)
    × (2 ≡ 1 + held (completed x.0))
thread_poll-count_example = thread_poll-count counting true answers 0 before after 0 freed

abbrev default_buff : Buff
default_buff = record (zero_buff 50) { buf = 51; buf_size = 2048 }

-- A server whose pool for the priority 0 has a buffer of the default size.
abbrev server : Server
server = record {
  start = true;
  param = record {
    local_ip = 0;
    local_id = 1;
    local_sub_id = 2;
    on_register = false;
    on_receive = false;
  };
  sequence = 0;
  transmit = record {
    start = true;
    queues = λ _. [];
    current = none;
    run = true;
    evt_loop = false;
  };
  receive = record { start = true; queue = []; run = true };
  work_run = true;
  evt_work_loop = false;
  send_pool = zero_queue;
  recv_pool = zero_queue;
  transmit_pool = λ p. record zero_queue { list_buff = record default_buff { priority = p } ∷ [] };
  mem = record { fresh = 100; live = []; granted = []; garbage = λ _ _. 170 };
  wire = [];
  tx_output = 0;
  calls = [];
}

abbrev reading : Entry
reading = record finished { file_size = 5000; read_size = 0; read_offset = 0 }

read_data-overruns_example :
    read_data by_server
      (record (answers 0) { read = some 4096 })
      (λ _. replicate 5000 65)
      server
      reading
    ≡ none
read_data-overruns_example =
    read_data-overruns server
      (record {
        started = refl;
        next = default_buff;
        more = [];
        pooled = refl;
        default_size = omega arith;
      })
      reading (record (answers 0) { read = some 4096 }) (λ _. replicate 5000 65) 4096 refl refl
      (omega arith) (omega (arith, length-replicate {A = ℕ} 5000 65))

-- The publisher is the server, whose pools hold buffers of the default size.
server-WellFormed : WellFormed 2048 server
server-WellFormed = record {
  pools = λ p h. omega arith;
  queues = λ p h. tt;
  known_current = λ c h. cc;
  recv_pool = tt;
  received = tt;
}

serve_all-file_example :
    (t' : Transfer) × (s' : Server) × (serve_all by_server
        (λ _. round)
        0
        server
        start
        (messages 2 0 name 4 chunks)
      ≡ some (t', s'))
    × (t'.disk (path_of params name) ≡ 65 ∷ 66 ∷ 67 ∷ 68 ∷ [])
    × Running 2048 s'
serve_all-file_example =
    serve_all-file by_server (Running 2048) (codes "/file") 4
      (by_server-Returns 2048 (codes "/file") 4 (omega arith) (omega arith)) (λ _. round)
      (λ i. record { taken = 4096; wrote = refl; enough = omega arith; may_open = refl }) 2 name
      (record {
        some_name = refl;
        text = omega arith;
        short = omega arith;
        some_size = omega arith;
        small = omega arith;
        few = omega arith;
      })
      chunks server start (omega arith) refl refl
      (record { formed = server-WellFormed; started = refl; sending = refl }) refl
      (record {
        nothing_queued = refl;
        roomy = tt;
        block_room = omega arith;
        some_dir = refl;
        path_room = omega arith;
      })
      refl
