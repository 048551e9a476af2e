-- ===== src/TlsBuff/Pool.antt =====
-- `tls_buff_queue_acquire` and `tls_buff_queue_release` of 722device/server/tls_buff_queue.c, by cases.
use ai_coding_for_business.Common.{◌≡◌, ◌≢◌, none, some, List, [], ◌∷◌, ◌++◌, arith}
use ai_coding_for_business.TlsBuff.{Buff, BuffQueue, acquire, release}
use ai_coding_for_business.TlsBuff.Memory.{null}

module _ (queue : BuffQueue) where
  pub acquire-nil : queue.list_buff ≡ [] → acquire queue ≡ (none, queue)
  unfolding acquire
  acquire-nil e = ground arith

  pub acquire-cons :
      (b : Buff) (bs : List Buff)
      → queue.list_buff ≡ b ∷ bs
      → acquire queue ≡ (some b, record queue { list_buff = bs })
  unfolding acquire
  acquire-cons b bs e = ground arith

  pub release-stored :
      (b : Buff)
      → b.buf ≢ null
      → release queue b ≡ record queue { list_buff = queue.list_buff ++ b ∷ [] }
  unfolding release
  release-stored b h = ground arith
