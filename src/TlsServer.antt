-- ===== src/TlsServer.antt =====
-- 722device/server/tls_work.c and tls_receive.c: the server's buffers, the messages that it sends, and
-- what it does with the messages that come in.
--
-- The frames are those of tls_protocol.h, packed structures of fixed offsets: the head has 8 bytes,
-- the content that follows it 45, and then comes the payload. The counters of tls_statis.c are left
-- out: the server's `tls_statis_` is null, and the receiving thread counts in the unused end of the
-- array `local_ip_`.
pub mod Publish
pub mod Receive
pub mod Buffers
pub mod Fill
pub mod Message
pub mod Deliver
pub mod Invariant
pub mod Running
pub mod Lifecycle
mod Tests
use ai_coding_for_business.Common.{
  put, ℕ, ◌+◌, ◌*◌, ◌%◌, ◌^◌, Bool, true, false, ◌||◌, not, Option, none, some, List, [], ◌∷◌, ◌++◌,
  ◌==◌, ltb, leb, if◌then◌else◌, length, write, be16, be32, TlsResult, s_ok, e_invalid_param,
  e_invalid_data, e_allocate,
}
use ai_coding_for_business.TlsBuff.{Buff, BuffQueue, acquire, create}
use ai_coding_for_business.TlsBuff.Memory.{Mem}
use ai_coding_for_business.State.{Param, Server, pri_7, type_tx, type_rx}
use ai_coding_for_business.TlsTransmit.{push}

-- `TLS_BUFF_SIZE`, the message types of tls_protocol.h that are used, and the sizes of the packed
-- structures `tls_message_head_t`, `tls_message_content_t` and `tls_register_request_t`.
abbrev pub tls_buff_size : ℕ
tls_buff_size = 2048

abbrev pub register_request : ℕ
register_request = 17

abbrev pub register_response : ℕ
register_response = 18

abbrev pub send_message : ℕ
send_message = 65

abbrev pub recv_message : ℕ
recv_message = 66

abbrev pub head_size : ℕ
head_size = 8

abbrev pub content_size : ℕ
content_size = 45

abbrev pub request_size : ℕ
request_size = 14

-- `tls_session_t`. `session_id` is the string in `tls_session_id_`, without the byte 0 that ends it.
pub record Session : Type 0 where
  pub session_id : List ℕ
  pub remote_id : ℕ
  pub remote_sub_id : ℕ
  pub priority : ℕ

-- `tls_server_active` and `tls_server_deactive`.
pub server_active : Server → Server
server_active s = if s.start then record s { evt_work_loop = true } else s

pub server_deactive : Server → Server
server_deactive s = if s.start then record s { evt_work_loop = false } else s

-- The end of the `tls_server_acquire_*` functions: a new buffer where the pool has none. `keep` puts
-- the pool back. The outcome is missing where the memory's is.
pub acquire_or_create :
    Server → BuffQueue → (Server → BuffQueue → Server) → ℕ → Option (Option Buff × Server)
acquire_or_create s pool keep type =
    let (got, pool') = acquire pool in
    elim got [
      | some b ↦ some (some b, keep s pool')
      | none ↦ elim (create tls_buff_size type s.mem) [
        | none ↦ none
        | some made ↦ some (made.0, record (keep s pool') { mem = made.1 })
      ]
    ]

-- `tls_server_acquire_send_buff` and `tls_server_acquire_recv_buff`.
pub acquire_send_buff : Server → Option (Option Buff × Server)
unfolding acquire_or_create
acquire_send_buff s =
    acquire_or_create s s.send_pool (λ t pool. record t { send_pool = pool }) type_tx

pub acquire_recv_buff : Server → Option (Option Buff × Server)
unfolding acquire_or_create
acquire_recv_buff s =
    acquire_or_create s s.recv_pool (λ t pool. record t { recv_pool = pool }) type_rx

-- `tls_server_acquire_transmit_buff`. A new buffer is given the priority; one of the pool has its own.
abbrev pub with_priority : ℕ → Option Buff → Option Buff
with_priority priority none = none
with_priority priority (some b) = some (record b { priority = priority })

pub acquire_transmit_buff : Server → ℕ → Option (Option Buff × Server)
acquire_transmit_buff s priority =
    let (got, pool) = acquire (s.transmit_pool priority) in
    if ltb pri_7 priority then some (none, s) else elim got [
      | some b ↦ some (some b, record s { transmit_pool = put s.transmit_pool priority pool })
      | none ↦ elim (create tls_buff_size type_tx s.mem) [
        | none ↦ none
        | some made ↦ some (with_priority priority made.0, record s { mem = made.1 })
      ]
    ]

-- Stores into a buffer, each a run of bytes and its offset. A store beyond the end of the storage has
-- no outcome.
pub stores : List (ℕ × List ℕ) → Buff → Option Buff
stores [] b = some b
stores (w ∷ ws) b =
    let rest = stores ws (record b { bytes = write b.bytes w.0 w.1 }) in
    if leb (w.0 + length w.1) b.buf_size then rest else none

-- The fields of `tls_message_head_t` that the code sets.
abbrev pub head_stores : (type sequence : ℕ) → List (ℕ × List ℕ)
head_stores type sequence = (0, 0 ∷ []) ∷ (1, type ∷ []) ∷ (6, be16 sequence) ∷ []

-- The fields of `tls_message_content_t` that the code sets, but the size: `strcpy` of the id, the
-- kind of transfer, source, count of destinations, destination, message type, reliability, priority
-- and timeout.
abbrev pub content_stores : Param → (id : List ℕ) → (dst_addr dst_entry : ℕ) → List (ℕ × List ℕ)
content_stores p id dst_addr dst_entry =
    (8, id ++ 0 ∷ [])
    ∷ (24, 1 ∷ [])
    ∷ (25, be32 p.local_id)
    ∷ (29, be16 p.local_sub_id)
    ∷ (31, be16 1)
    ∷ (33, be32 dst_addr)
    ∷ (37, be16 dst_entry)
    ∷ (39, be32 0)
    ∷ (43, 0 ∷ [])
    ∷ (44, 0 ∷ [])
    ∷ (49, be16 0)
    ∷ []

-- The sequence number after `server->sequence_++`.
abbrev pub next_sequence : Server → Server
next_sequence s = record s { sequence = (s.sequence + 1) % 2 ^ 16 }

-- `tls_transmit_push` on the server's transmitter.
pub push_buff : Server → Buff → TlsResult × Server
push_buff s b = let (result, t) = push s.transmit (some b) in (result, record s { transmit = t })

-- What the sending functions have in common: without a buffer they fail, and a buffer that `fill` has
-- filled is pushed.
pub fill_and_push :
    Option (Option Buff × Server)
    → (Buff → Option Buff)
    → (Server → Server)
    → Option (TlsResult × Server)
unfolding push_buff
fill_and_push none fill count = none
fill_and_push (some (none, s)) fill count = some (e_allocate, s)
fill_and_push (some (some b, s)) fill count = elim (fill b) [
  | none ↦ none
  | some b' ↦ some (push_buff (count s) b')
]

-- `memset(data_ptr, 0, buff->buf_size_)`.
abbrev pub memset_bytes : Buff → Buff
memset_bytes b = record b { bytes = λ i. if ltb i b.buf_size then 0 else b.bytes i }

abbrev pub with_size : ℕ → Buff → Buff
with_size n b = record b { size = n }

-- `tls_server_register` of a server that is not null.
pub fill_register : Server → (id subid : ℕ) → Buff → Option Buff
unfolding stores
fill_register s id subid b =
    stores
      (head_stores register_request s.sequence
        ++ (8, be32 id) ∷ (12, be16 subid) ∷ (14, be32 s.param.local_ip) ∷ [])
      (with_size (head_size + request_size) (memset_bytes b))

pub register : Server → (id subid : ℕ) → Option (TlsResult × Server)
unfolding fill_and_push acquire_transmit_buff fill_register
register s id subid =
    if not s.start
    then some (e_invalid_data, s)
    else fill_and_push (acquire_transmit_buff s pri_7) (fill_register s id subid) next_sequence

-- The body of `tls_server_transmit` between the buffer and `tls_transmit_push`.
pub fill_message : Server → Session → List ℕ → Buff → Option Buff
unfolding stores
fill_message s session payload b =
    stores
      (head_stores send_message s.sequence
        ++ content_stores s.param session.session_id session.remote_id session.remote_sub_id
        ++ (51, be16 (length payload)) ∷ (53, payload) ∷ [])
      (with_size (head_size + content_size + length payload) b)

-- `tls_server_transmit` of a server that is not null: `payload` are the `size` bytes at its argument `data`.
pub transmit : Server → Option Session → Option (List ℕ) → Option (TlsResult × Server)
unfolding fill_and_push acquire_transmit_buff fill_message
transmit s none payload = some (e_invalid_param, s)
transmit s (some session) none = some (e_invalid_param, s)
transmit s (some session) (some payload) =
    if length payload == 0
    then some (e_invalid_param, s)
    else if not s.start
    then some (e_invalid_data, s)
    else if ltb 1024 (length payload)
    then some (e_invalid_data, s)
    else fill_and_push (acquire_transmit_buff s session.priority) (fill_message s session payload)
        next_sequence
