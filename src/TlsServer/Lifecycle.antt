-- ===== src/TlsServer/Lifecycle.antt =====
-- 722device/server/tls_server.c: the ten pools that `tls_server_initialize` fills and
-- `tls_server_uninitialize` gives up: one for sending, one for each priority, one for receiving.
pub mod Transmit
pub mod Release
mod Tests
use ai_coding_for_business.Common.{
  put, ℕ, zero, suc, Bool, Option, none, some, List, [], ◌∷◌, if◌then◌else◌, ltb, get_or, TlsResult,
  s_ok, e_fail, result_fail,
}
use ai_coding_for_business.TlsBuff.{BuffQueue, zero_queue, initialize, uninitialize, allocate_t}
use ai_coding_for_business.TlsBuff.Memory.{Mem, Action, pure, ◌>>=◌}
use ai_coding_for_business.State.{type_tx, type_rx}
use ai_coding_for_business.TlsServer.{tls_buff_size}

-- `tls_queue_param_t`.
pub record QueueParam : Type 0 where
  pub buff_size : ℕ
  pub buff_count : ℕ

-- The pools of `tls_server_t`.
pub record Pools : Type 0 where
  pub send : BuffQueue
  pub transmit : ℕ → BuffQueue
  pub recv : BuffQueue

-- `TLS_TRANSMIT_BUFF_COUNT` and `TLS_RECEIVE_BUFF_COUNT`, which are the same.
abbrev pub tls_buff_count : ℕ
tls_buff_count = 1024

-- `tls_server_transmit_queue_count` with its table.
abbrev pub transmit_queue_count : ℕ → ℕ
transmit_queue_count priority =
    get_or (1536 ∷ 1024 ∷ 1024 ∷ 1024 ∷ 1024 ∷ 640 ∷ 512 ∷ 128 ∷ []) priority 0

-- The size and the count asked for a priority.
abbrev pub size_for : QueueParam → ℕ
size_for param = if ltb 0 param.buff_size then param.buff_size else tls_buff_size

abbrev pub count_for : QueueParam → ℕ → ℕ
count_for param index =
    if ltb 0 param.buff_count then param.buff_count else transmit_queue_count index

-- A round of `tls_server_alloc_transmit_buff_queue`.
pub alloc_transmit_queue : QueueParam → ℕ → Action (TlsResult × BuffQueue)
alloc_transmit_queue param index =
    allocate_t (record (initialize zero_queue).1 { priority = index }) (size_for param)
      (count_for param index) type_tx

-- Its loop from `index` on, with `n` rounds left.
pub alloc_transmit_loop :
    ℕ → (ℕ → QueueParam) → ℕ → TlsResult → (ℕ → BuffQueue) → Action (TlsResult × (ℕ → BuffQueue))
alloc_transmit_loop zero param index result pools m = some ((result, pools), m)
alloc_transmit_loop (suc n) param index result pools m =
    (do
      (result', queue) ← alloc_transmit_queue (param index) index
      if result_fail result'
          then pure (result', put pools index queue)
          else alloc_transmit_loop n param (suc index) result' (put pools index queue))
      m

pub alloc_transmit_buff_queue :
    (ℕ → QueueParam) → (ℕ → BuffQueue) → Action (TlsResult × (ℕ → BuffQueue))
alloc_transmit_buff_queue param pools = alloc_transmit_loop 8 param 0 e_fail pools

-- `tls_server_alloc_send_buff_queue` and `tls_server_alloc_recv_buff_queue`.
pub alloc_send_buff_queue : Action (TlsResult × BuffQueue)
alloc_send_buff_queue = allocate_t (initialize zero_queue).1 tls_buff_size tls_buff_count type_tx

pub alloc_recv_buff_queue : Action (TlsResult × BuffQueue)
alloc_recv_buff_queue = allocate_t (initialize zero_queue).1 tls_buff_size tls_buff_count type_rx

-- The part of `tls_server_initialize` that fills the pools.
pub alloc_pools : (ℕ → QueueParam) → Pools → Action (TlsResult × Pools)
alloc_pools param s = do
  (result, send) ← alloc_send_buff_queue
  if result_fail result then pure (result, record s { send = send }) else do
    (result', transmit) ← alloc_transmit_buff_queue param s.transmit
    if result_fail result'
        then pure (result', record s { send = send; transmit = transmit })
        else do
          (result'', recv) ← alloc_recv_buff_queue
          pure (result'', record { send = send; transmit = transmit; recv = recv })

-- `tls_server_free_send_buff_queue`, `tls_server_free_recv_buff_queue`, and a round of
-- `tls_server_free_transmit_buff_queue`.
pub free_buff_queue : BuffQueue → Action BuffQueue
free_buff_queue queue = do q ← uninitialize queue; pure zero_queue

pub free_transmit_loop : ℕ → ℕ → (ℕ → BuffQueue) → Action (ℕ → BuffQueue)
free_transmit_loop zero index pools m = some (pools, m)
free_transmit_loop (suc n) index pools m =
    (do
      queue ← free_buff_queue (pools index)
      free_transmit_loop n (suc index) (put pools index queue))
      m

-- The part of `tls_server_uninitialize` that gives the pools up.
pub free_pools : Pools → Action Pools
free_pools s = do
  recv ← free_buff_queue s.recv
  send ← free_buff_queue s.send
  transmit ← free_transmit_loop 8 0 s.transmit
  pure (record { send = send; transmit = transmit; recv = recv })
