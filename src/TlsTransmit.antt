-- ===== src/TlsTransmit.antt =====
-- 722device/server/tls_transmit.c: eight queues of messages, one for each priority, and the thread
-- that sends them. With it `tls_server_release_buff` of tls_work.c, which the thread calls.
--
-- The calls of tls_lock are left out of the functions; what runs under which lock, and what may run
-- between, is modelled in TlsTransmit.Threads.
pub mod Drain
pub mod Poll
pub mod Push
pub mod Threads
pub mod Wakeup
pub mod Steps
mod Tests
use ai_coding_for_business.Common.{
  put, ℕ, zero, suc, ◌+◌, ◌-◌, ◌%◌, ◌^◌, Bool, true, false, ◌||◌, not, Option, none, some, List, [],
  ◌∷◌, ◌++◌, ◌==◌, ltb, if◌then◌else◌, TlsResult, s_ok, s_continue, e_invalid_param, e_invalid_data,
  e_notready,
}
use ai_coding_for_business.TlsBuff.{Buff, BuffQueue, release}
use ai_coding_for_business.TlsBuff.Memory.{null}
use ai_coding_for_business.State.{Transmit, Server, pri_7, type_tx, type_rx, udp, vsoa}

-- `QUEUE_EMPTY` and `QUEUE_NOT_EMPTY`. `QUEUE_ERROR` is returned for null arguments only.
pub data QueueState : Type 0 where
  queue_empty queue_not_empty : QueueState

-- `tls_transmit_start` of a transmitter and a server that are not null.
pub start : Transmit → TlsResult × Transmit
start t =
    if t.start
    then (s_continue, t)
    else (s_ok, record t { start = true; queues = λ _. []; run = true })

-- `tls_transmit_stop`: the thread is told to leave its loop. The queues are left as they are.
pub stop : Transmit → TlsResult × Transmit
stop t =
    if t.start
    then (s_ok, record t { start = false; run = false; evt_loop = true; current = none })
    else (s_continue, t)

-- `tls_transmit_active` and `tls_transmit_deactive`.
abbrev pub active : Transmit → Transmit
active t = record t { evt_loop = true }

abbrev pub deactive : Transmit → Transmit
deactive t = record t { evt_loop = false }

-- `tls_list_insert_tail` on the queue of a priority.
abbrev pub insert : Transmit → ℕ → Buff → Transmit
insert t p b = record t { queues = put t.queues p (t.queues p ++ b ∷ []) }

-- `tls_transmit_update_transmit_queue`.
pub update_transmit_queue : Transmit → ℕ → Transmit
update_transmit_queue t priority = if ltb pri_7 priority then t else elim t.current [
  | none ↦ record t { current = some priority }
  | some queue ↦ if ltb queue priority then record t { current = some priority } else t
]

-- `tls_transmit_push`. A null buffer is `none`.
pub push : Transmit → Option Buff → TlsResult × Transmit
unfolding update_transmit_queue
push t none = (e_invalid_param, t)
push t (some buff) =
    if (buff.buf == null) || (buff.size == 0) || ltb pri_7 buff.priority
    then (e_invalid_data, t)
    else if not t.start
    then (e_notready, t)
    else (s_ok, active (update_transmit_queue (insert t buff.priority buff) buff.priority))

-- `tls_buff_queue_release` to the pool of a priority.
abbrev pub release_to : Server → ℕ → Buff → Server
release_to s p b = record s {
  transmit_pool = put s.transmit_pool p (release (s.transmit_pool p) b);
}

-- `tls_server_release_buff` of a server and a buffer that are not null.
pub release_buff : Server → Buff → Server
release_buff s buff =
    if buff.type == type_tx
    then release_to s (if ltb pri_7 buff.priority then 0 else buff.priority) buff
    else if buff.type == type_rx
    then record s { recv_pool = release s.recv_pool buff }
    else s

-- The middle of `tls_transmit_handle`: a buffer in mode UDP goes to the socket, which takes it or
-- not; what it takes is counted. A buffer in mode VSOA goes nowhere: that call is compiled out.
pub xmit : Server → Buff → Bool → Server
xmit s buff accepted =
    if buff.transmode == udp
    then record s {
      wire = s.wire ++ buff ∷ [];
      tx_output = if accepted then (s.tx_output + buff.size) % 2 ^ 64 else s.tx_output;
    }
    else s

-- `tls_list_empty` of a queue, as the result of `tls_transmit_handle`.
abbrev pub queue_state : List Buff → QueueState
queue_state [] = queue_empty
queue_state (b ∷ bs) = queue_not_empty

-- The server after `tls_list_remove_head` has left `bs` in the queue of priority `k`.
abbrev pub taken : Server → ℕ → List Buff → Server
taken s k bs = record s { transmit = record s.transmit { queues = put s.transmit.queues k bs } }

-- `tls_transmit_handle` on the queue of priority `k`, for the socket's answer.
pub handle : Server → ℕ → Bool → QueueState × Server
handle s k accepted = elim (s.transmit.queues k) [
  | [] ↦ (queue_empty, s)
  | b ∷ bs ↦ (queue_state bs, release_buff (xmit (taken s k bs) b accepted) b)
]

-- The end of `tls_transmit_thread_poll`: from an empty queue the thread goes on to the next lower
-- priority, and from the lowest it goes to sleep.
abbrev pub lower : Transmit → ℕ → QueueState → Transmit
lower t k queue_not_empty = t
lower t zero queue_empty = deactive t
lower t (suc k) queue_empty = record t { current = some k }

-- `if (NULL == transmit->queue_transmit_)` at the start of the poll.
abbrev pub current_or_top : Transmit → ℕ
current_or_top t = elim t.current [ none ↦ pri_7 | some k ↦ k ]

-- `tls_transmit_thread_poll`.
pub thread_poll : Server → Bool → Server
unfolding handle
thread_poll s accepted =
    let k = current_or_top s.transmit in
    let s0 = record s { transmit = record s.transmit { current = some k } } in
    let (ret, s1) = handle s0 k accepted in record s1 { transmit = lower s1.transmit k ret }

-- The loop of `tls_transmit_thread_work`, on fuel: it ends (`some`) where the thread waits for its event
-- or leaves the loop, and `none` says that the fuel ran out before. `net i` is the socket's answer
-- in the round with `i` rounds left.
pub thread_work : ℕ → (ℕ → Bool) → Server → Option Server
unfolding thread_poll
thread_work zero net s = none
thread_work (suc i) net s =
    let rest = thread_work i net (thread_poll s (net i)) in
    if not s.transmit.run then some s else if not s.transmit.evt_loop then some s else rest

-- The loops of `tls_transmit_release_buff`: the buffers of one queue go to the pools of their own
-- priorities, then those of the next queue.
release_list : Server → List Buff → Server
release_list s [] = s
release_list s (b ∷ bs) = release_list (release_to s b.priority b) bs

release_queues : (rounds index : ℕ) → Server → Server
release_queues zero index s = s
release_queues (suc n) index s =
    let emptied = record s {
      transmit = record s.transmit { queues = put s.transmit.queues index [] };
    } in
    release_queues n (index + 1) (release_list emptied (s.transmit.queues index))

pub transmit_release_buff : Server → Server
unfolding release_queues release_list
transmit_release_buff s = release_queues 8 0 s
