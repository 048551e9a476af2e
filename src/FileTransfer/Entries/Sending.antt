-- ===== src/FileTransfer/Entries/Sending.antt =====
-- Publishing by `tls_server_vsoa_publish_transmit`, for files whose blocks fit into the transmit buffers: 722device/filetransmit/file_entry.c
-- with 722device/server/tls_work.c.
use ai_coding_for_business.Common.{
  ℕ, ◌+◌, ◌≤◌, refl, ap, arith, some, Option, [], ◌++◌, length, TlsResult,
}
use ai_coding_for_business.State.{Server}
use ai_coding_for_business.TlsServer.{tls_buff_size}
use ai_coding_for_business.TlsServer.Publish.Session.{Running, vsoa_publish_transmit-Running}
use ai_coding_for_business.TlsServer.Publish.{VsoaSession, Url, Payload, vsoa_publish_transmit}
use ai_coding_for_business.FileTransfer.Blocks.{length-message}
use ai_coding_for_business.FileTransfer.{header}
use ai_coding_for_business.FileTransfer.Entries.{session_for}
use ai_coding_for_business.FileTransfer.Entries.Handling.{Returns}

-- The publisher of an entry: `tls_server_vsoa_publish_transmit` with the address of a session.
abbrev pub by_server : Server → VsoaSession → Option (TlsResult × Server)
by_server s session = vsoa_publish_transmit s (some session)

-- The bytes of a frame for a chunk of `n` bytes: the head and the content, the header for VSOA, the url,
-- the header of the block, and the chunk.
abbrev pub frame_room : Url → ℕ → ℕ
frame_room url n = 53 + 48 + length url + 148 + n

-- A server that runs and whose buffers have room for the frames.
pub by_server-Returns :
    (room : ℕ) (url : Url) (limit : ℕ)
    → frame_room url limit ≤ room
    → room ≤ tls_buff_size
    → Returns by_server (Running room) url limit
by_server-Returns room url limit fits small s e chunk w u some_bytes few =
    let payload : Payload = record {
      param = [];
      content = header e.block_count e.read_count e.file_name e.file_size (length chunk) ++ chunk;
    } in
    let size = length-message (λ _. 0) e.block_count e.read_count e.file_name e.file_size chunk in
    vsoa_publish_transmit-Running s (session_for e chunk) e.publish_url payload room w
      (omega (arith, size, ap length u)) small refl refl (omega arith)
