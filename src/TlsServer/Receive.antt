-- ===== src/TlsServer/Receive.antt =====
-- The receiving side: `tls_server_parsedata` of 722device/server/tls_work.c, `tls_server_work_poll` of
-- tls_server.c, and the queue and the thread of tls_receive.c.
pub mod Relay
pub mod Rounds
use ai_coding_for_business.Common.{
  ℕ, zero, suc, ◌+◌, ◌-◌, Bool, true, false, ◌||◌, ◌&&◌, not, Option, none, some, List, [], ◌∷◌,
  ◌++◌, ◌==◌, ltb, if◌then◌else◌, length, take, write, cells, u16_at, TlsResult, s_ok, s_continue,
  e_invalid_param, e_invalid_data,
}
use ai_coding_for_business.TlsBuff.{Buff, release}
use ai_coding_for_business.TlsBuff.Memory.{null}
use ai_coding_for_business.State.{Receive, Server, Call, registered, received}
use ai_coding_for_business.TlsTransmit.{release_buff}
use ai_coding_for_business.TlsServer.{
  server_active, server_deactive, acquire_recv_buff, register_response, recv_message,
}

-- `TLS_REGISTER_OK`, and `TLS_REGISTER_FAIL` as a U32.
abbrev pub register_ok : ℕ
register_ok = 0

abbrev pub register_fail : ℕ
register_fail = 4294967295

abbrev pub min : ℕ → ℕ → ℕ
min a b = if ltb a b then a else b

-- The call of `on_tls_receive_callback`: the payload starts at offset 53, and its size is the field
-- `size` of the content, at offset 51.
abbrev pub receive_call : Buff → Call
receive_call b =
    let n = u16_at b.bytes 51 in received n (cells b.bytes 53 (min n (b.buf_size - 53)))

-- The calls that `tls_server_parsedata` makes: the type is at offset 1, and the result of a register
-- response at offset 14.
pub parsed_calls : Server → Buff → List Call
parsed_calls s b =
    if b.bytes 1 == register_response
    then if s.param.on_register
      then registered (if b.bytes 14 == register_ok then register_ok else register_fail) ∷ []
      else []
    else if (b.bytes 1 == recv_message) && s.param.on_receive
    then receive_call b ∷ []
    else []

-- `tls_server_parsedata` of a server that is not null.
pub parsedata : Server → Option Buff → TlsResult × Server
unfolding parsed_calls
parsedata s none = (e_invalid_param, s)
parsedata s (some b) =
    if (b.buf == null) || (b.size == 0)
    then (e_invalid_data, s)
    else (s_ok, record s { calls = s.calls ++ parsed_calls s b })

-- `tls_receive_start` and `tls_receive_stop`.
pub receive_start : Receive → TlsResult × Receive
receive_start r =
    if r.start then (s_continue, r) else (s_ok, record { start = true; queue = []; run = true })

pub receive_stop : Receive → TlsResult × Receive
receive_stop r =
    if r.start then (s_ok, record r { start = false; run = false }) else (s_continue, r)

-- `tls_receive_push` and `tls_receive_pop`.
pub receive_push : Server → Buff → Server
unfolding server_active
receive_push s b =
    server_active (record s { receive = record s.receive { queue = s.receive.queue ++ b ∷ [] } })

unfoldable pub receive_pop : Server → Option Buff × Server
receive_pop s = elim s.receive.queue [
  | [] ↦ (none, s)
  | b ∷ bs ↦ (some b, record s { receive = record s.receive { queue = bs } })
]

-- `tls_receive_release_buff`: the loop empties the queue into the pool of receive buffers.
release_received : List Buff → Server → Server
release_received [] s = s
release_received (b ∷ bs) s = release_received bs (record s { recv_pool = release s.recv_pool b })

pub receive_release_buff : Server → Server
unfolding release_received
receive_release_buff s =
    release_received s.receive.queue (record s { receive = record s.receive { queue = [] } })

-- `tls_udp_socket_receive`: the datagram that comes, cut to the storage, or nothing. What the thread
-- does then: an empty or failed receipt gives the buffer back.
pub receive_into : Server → Buff → Option (List ℕ) → Server
unfolding receive_push
receive_into s b none = release_buff s b
receive_into s b (some datagram) =
    let ds = take b.buf_size datagram in
    if length ds == 0
    then release_buff s b
    else receive_push s (record b { size = length ds; bytes = write b.bytes 0 ds })

-- A round of the loop of `tls_receive_thread_work`.
pub receive_round : Server → Option (List ℕ) → Option Server
unfolding receive_into
receive_round s datagram = elim (acquire_recv_buff s) [
  | none ↦ none
  | some got ↦ elim got.0 [ none ↦ some got.1 | some b ↦ some (receive_into got.1 b datagram) ]
]

-- `tls_server_work_poll`.
unfoldable pub work_poll : Server → Server
unfolding receive_pop parsedata server_deactive
work_poll s =
    let (got, s') = receive_pop s in
    elim got [
      | none ↦ server_deactive s'
      | some b ↦
          if (b.buf == null) || (b.size == 0)
          then server_deactive s'
          else release_buff (parsedata s' (some b)).1 b
    ]

-- The loop of `tls_server_thread_work`, on fuel, up to where the thread waits or ends.
pub server_work : ℕ → Server → Option Server
unfolding work_poll
server_work zero s = none
server_work (suc i) s =
    let rest = server_work i (work_poll s) in
    if not s.work_run then some s else if not s.evt_work_loop then some s else rest
