-- ===== src/NetProxy/Queue.antt =====
-- The message queue of net_proxy_v2/common/common.c.
--
-- The list of a queue is its chain of nodes from `front` to `rear`. Each function here is what a thread
-- does from taking the lock up to giving it back, where it returns or waits for a condition; a
-- thread that is woken tests again from there. `true` is a granted malloc.
pub mod Bounded
pub mod Single
use ai_coding_for_business.Common.{
  ℕ, zero, suc, ◌+◌, ◌-◌, Bool, true, false, not, ◌&&◌, Option, none, some, List, [], ◌∷◌, ◌++◌,
  ◌==◌, leb, ltb, if◌then◌else◌,
}
use ai_coding_for_business.NetProxy.{Message}

-- `msg_queue_t`.
pub record MsgQueue : Type 0 where
  pub msgs : List Message
  pub count : ℕ
  pub capacity : ℕ
  pub shutdown : Bool

-- `MSG_QUEUE_SIZE`.
abbrev pub msg_queue_size : ℕ
msg_queue_size = 10240

-- `msg_queue_init`; a capacity below 0 is 0 here, and is treated as 0 is.
pub msg_queue_init : Bool → ℕ → Option MsgQueue
msg_queue_init granted capacity =
    if not granted
    then none
    else some (record {
      msgs = [];
      count = 0;
      capacity = if ltb 0 capacity then capacity else msg_queue_size;
      shutdown = false;
    })

-- `msg_queue_destroy` up to the release of the structure: all nodes and payloads are freed.
pub msg_queue_destroy : MsgQueue → MsgQueue
msg_queue_destroy q = record q { msgs = []; shutdown = true }

-- What a call comes to: it returns, or waits for `not_full` or `not_empty`.
pub data Pushed : Type 0 where
  push_done push_refused push_waits : Pushed

-- `msg_queue_push` of a message that is not null.
pub msg_queue_push : MsgQueue → Message → Bool → Pushed × MsgQueue
msg_queue_push q m granted =
    if q.shutdown
    then (push_refused, q)
    else if leb q.capacity q.count
    then (push_waits, q)
    else if not granted
    then (push_refused, q)
    else (push_done, record q { msgs = q.msgs ++ m ∷ []; count = q.count + 1 })

-- `lost` is a message whose copy was refused its memory: it is taken from the queue, and null is returned.
pub data Popped : Type 0 where
  got lost : Message → Popped
  pop_null pop_waits : Popped

-- The end of `msg_queue_pop`, from the test for a shutdown on.
pub take_front : MsgQueue → Bool → Popped × MsgQueue
take_front q granted = if q.shutdown && (q.count == 0) then (pop_null, q) else elim q.msgs [
  | [] ↦ (pop_null, q)
  | m ∷ ms ↦ (if granted then got m else lost m, record q { msgs = ms; count = q.count - 1 })
]

-- `msg_queue_pop` from its start: `forever` says that the time is below 0.
pub msg_queue_pop : MsgQueue → (forever granted : Bool) → Popped × MsgQueue
unfolding take_front
msg_queue_pop q forever granted =
    if not (q.count == 0)
    then take_front q granted
    else if forever && q.shutdown
    then take_front q granted
    else (pop_waits, q)

-- A thread that has waited for a limited time goes on: the time is over, or it was woken, and then it
-- does not test the count again.
pub resume_timed : MsgQueue → (timed_out granted : Bool) → Popped × MsgQueue
unfolding take_front
resume_timed q timed_out granted = if timed_out then (pop_null, q) else take_front q granted

-- `msg_queue_count`.
pub msg_queue_count : MsgQueue → ℕ
msg_queue_count q = q.count
