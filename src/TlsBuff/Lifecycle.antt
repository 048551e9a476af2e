-- ===== src/TlsBuff/Lifecycle.antt =====
-- `tls_buff_queue_initialize` and `tls_buff_queue_uninitialize` of
-- 722device/server/tls_buff_queue.c, one after the other.
use ai_coding_for_business.Common.{ℕ, false, some, ◌≡◌, arith, TlsResult}
use ai_coding_for_business.TlsBuff.Memory.{Mem}
use ai_coding_for_business.TlsBuff.{BuffQueue, zero_queue, initialize, uninitialize, allocate_t}
use ai_coding_for_business.TlsBuff.Allocate.{Settled, filled, emptied, allocate_t-Settles}

-- A pool that was initialized and then filled by `tls_buff_queue_allocate_t` is left as it is by
-- `tls_buff_queue_uninitialize`: the `memset` of `tls_buff_queue_initialize` has cleared the flag
-- `queue_init_` that it tests, so that none of the buffers is freed and the memory is what it was.
uninitialize-leaks :
    (queue queue' : BuffQueue) (size count type : ℕ) (result : TlsResult) (m m' : Mem)
    → queue.queue_init ≡ false
    → allocate_t (initialize queue).1 size count type m ≡ some ((result, queue'), m')
    → uninitialize queue' m' ≡ some (queue', m')
unfolding initialize uninitialize
uninitialize-leaks queue queue' size count type result m m' fresh e =
    let (r, q, m2, e2, acc2, how) =
      allocate_t-Settles size count type (initialize queue).1 m.live m (ground arith)
        (ground arith) in
    keep r q m2 e2 how
  where
    keep :
        (r : TlsResult) (q : BuffQueue) (m2 : Mem)
        → allocate_t (initialize queue).1 size count type m ≡ some ((r, q), m2)
        → Settled size count type (initialize queue).1 r q
        → uninitialize queue' m' ≡ some (queue', m')
    keep r q m2 e2 (filled new a b c d) = ground arith
    keep r q m2 e2 (emptied a d) = ground arith

-- A structure of zero bytes is the same after `tls_buff_queue_initialize`.
pub initialize-zero : (initialize zero_queue).1 ≡ zero_queue
unfolding initialize
initialize-zero = ground arith

pub uninitialize-unset :
    (queue : BuffQueue) (m : Mem)
    → queue.queue_init ≡ false
    → uninitialize queue m ≡ some (queue, m)
unfolding uninitialize
uninitialize-unset queue m unset = ground arith
