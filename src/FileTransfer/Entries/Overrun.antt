-- ===== src/FileTransfer/Entries/Overrun.antt =====
-- The blocks that 722device/filetransmit/file_entry.c sends on, in the buffers of 722device/server/tls_work.c.
use ai_coding_for_business.Common.{
  ℕ, zero, suc, ◌+◌, ◌≤◌, ◌<◌, ◌≡◌, refl, arith, true, none, some, Option, List, [], ◌∷◌, ◌++◌,
  length, take, drop, TlsResult, length-drop,
}
use ai_coding_for_business.State.{Server}
use ai_coding_for_business.TlsBuff.{Buff}
use ai_coding_for_business.TlsServer.{tls_buff_size}
use ai_coding_for_business.TlsServer.Publish.Frame.{vsoa_publish_transmit-overruns}
use ai_coding_for_business.TlsServer.Publish.{VsoaSession, Payload}
use ai_coding_for_business.FileTransfer.Blocks.{length-message}
use ai_coding_for_business.FileTransfer.{
  file_data_mtu, header, Entry, Disk, is_open, ℕ, List, length,
}
use ai_coding_for_business.FileTransfer.Entries.Sending.{by_server, frame_room}
use ai_coding_for_business.FileTransfer.Entries.{
  Answers, session_for, publish_chunk, read_data, min,
}

-- The pool for the priority of files has a buffer next that is as large as the code makes them.
pub record NextBuff (s : Server) : Type 0 where
  pub started : s.start ≡ true
  pub next : Buff
  pub more : List Buff
  pub pooled : (s.transmit_pool 0).list_buff ≡ next ∷ more
  pub default_size : next.buf_size ≤ tls_buff_size

length-take_all : (k : ℕ) (s : List ℕ) → k ≤ length s → length (take k s) ≡ k
length-take_all zero s h = refl
length-take_all (suc k) [] h = absurd (omega arith)
length-take_all (suc k) (c ∷ s) h = omega (arith, length-take_all k s (omega arith))

publish_chunk-lost :
    {S : Type 0} (publish : S → VsoaSession → Option (TlsResult × S)) (s : S) (e : Entry) (c : ℕ)
    (cs : List ℕ)
    → publish s (session_for e (c ∷ cs)) ≡ none
    → publish_chunk publish s e (c ∷ cs) ≡ none
unfolding publish_chunk
publish_chunk-lost publish s e c cs lost = ground (arith, lost)

module _ (s : Server) (next : NextBuff s) (e : Entry) where
  pub publish_chunk-overruns :
      (chunk : List ℕ)
      → 0 < length chunk
      → tls_buff_size < frame_room e.publish_url (length chunk)
      → publish_chunk by_server s e chunk ≡ none
  publish_chunk-overruns [] some_bytes short = absurd (omega arith)
  publish_chunk-overruns (c ∷ cs) some_bytes short =
      let session = session_for e (c ∷ cs) in
      let payload : Payload = record {
        param = [];
        content =
            header e.block_count e.read_count e.file_name e.file_size (length (c ∷ cs)) ++ c ∷ cs;
      } in
      let size =
        length-message (λ _. 0) e.block_count e.read_count e.file_name e.file_size (c ∷ cs) in
      let lost : by_server s session ≡ none =
        vsoa_publish_transmit-overruns s session e.publish_url payload next.next next.more
          next.started refl refl (omega arith) next.pooled
          (omega (arith, next.default_size, size)) in
      publish_chunk-lost by_server s e c cs lost

  -- A chunk of a file is up to 4096 bytes, and a transmit buffer of the default size has 2048. On a server that
  -- runs, whose pool for the priority of files has a buffer of at most this size next: where 4096 bytes of
  -- the file are still to be read, and the system reads all that it is asked for, sending them on writes
  -- beyond the end of the buffer.
  pub read_data-overruns :
      (a : Answers) (disk : Disk) (n : ℕ)
      → is_open e.read_fd ≡ true
      → a.read ≡ some n
      → file_data_mtu ≤ n
      → e.read_offset + file_data_mtu ≤ length (disk e.file_path)
      → read_data by_server a disk s e ≡ none
  unfolding read_data
  read_data-overruns a disk n reading answer all more =
      let unread = drop e.read_offset (disk e.file_path) in
      let whole : min n file_data_mtu ≡ file_data_mtu = ground (arith, all) in
      let size =
        length-take_all file_data_mtu unread
          (omega (arith, length-drop e.read_offset (disk e.file_path))) in
      rw (reading, answer, whole)
        (publish_chunk-overruns (take file_data_mtu unread) (omega (arith, size))
          (omega (arith, size)))
