-- ===== src/NetProxy/Queue/Single.antt =====
-- One message through an empty queue of net_proxy_v2/common/common.c.
use ai_coding_for_business.Common.{◌<◌, ◌≡◌, arith, Bool, true, false, [], ◌∷◌}
use ai_coding_for_business.NetProxy.{Message}
use ai_coding_for_business.NetProxy.Queue.{
  MsgQueue, msg_queue_push, push_done, msg_queue_pop, take_front, got,
}

-- The queue with that message only.
abbrev pub holding : MsgQueue → Message → MsgQueue
holding q m = record q { msgs = m ∷ []; count = 1 }

pub push-empty :
    (q : MsgQueue) (m : Message)
    → q.msgs ≡ []
    → q.count ≡ 0
    → 0 < q.capacity
    → q.shutdown ≡ false
    → msg_queue_push q m true ≡ (push_done, holding q m)
unfolding msg_queue_push
push-empty q m e c room running = ground arith

pub pop-holding :
    (q : MsgQueue) (m : Message) (forever : Bool)
    → msg_queue_pop (holding q m) forever true ≡ (got m, record q { msgs = []; count = 0 })
unfolding msg_queue_pop take_front
pop-holding q m forever = ground arith
