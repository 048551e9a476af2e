-- ===== src/TlsBuff.antt =====
-- 722device/server/tls_buff_queue.c and tls_buff_queue.h: message buffers, and the pools (queues) that
-- keep the free ones.
--
-- The list of a pool is the list of the nodes of its ring (see TlsList): `tls_list_insert_tail`
-- appends, `tls_list_remove_head` takes the first. The calls of tls_lock are left out: each
-- operation here is one that holds the lock of its pool.
pub mod Memory
pub mod Account
pub mod Create
pub mod Allocate
pub mod Grants
pub mod Lifecycle
pub mod Order
pub mod Pool
mod Tests
use ai_coding_for_business.Common.{
  ℕ, zero, suc, ◌+◌, ◌%◌, ◌^◌, Bool, true, false, ◌||◌, Option, none, some, List, [], ◌∷◌, ◌++◌,
  ◌==◌, if◌then◌else◌, TlsResult, s_ok, s_continue, e_fail, e_invalid_param, e_invalid_data,
  e_allocate, result_fail, result_ok,
}
use ai_coding_for_business.TlsBuff.Memory.{Ptr, null, Mem, Action, pure, ◌>>=◌, ◌>>◌, malloc, free}

-- `tls_buff_t`. `self` is the address of the structure, `buf` that of its storage, and `bytes` what
-- the storage holds at each offset.
pub record Buff : Type 0 where
  pub self : Ptr
  pub buf : Ptr
  pub buf_size : ℕ
  pub size : ℕ
  pub type : ℕ
  pub priority : ℕ
  pub transmode : ℕ
  pub bytes : ℕ → ℕ

-- What `memset(buff, 0, sizeof(tls_buff_t))` leaves of the structure at `p`.
abbrev pub zero_buff : Ptr → Buff
zero_buff p = record {
  self = p;
  buf = null;
  buf_size = 0;
  size = 0;
  type = 0;
  priority = 0;
  transmode = 0;
  bytes = λ _. 0;
}

-- `tls_buff_queue_t`.
pub record BuffQueue : Type 0 where
  pub list_buff : List Buff
  pub queue_init : Bool
  pub buff_count : ℕ
  pub buff_size : ℕ
  pub mem_size : ℕ
  pub priority : ℕ

-- A queue of zero bytes with an empty ring.
abbrev pub zero_queue : BuffQueue
zero_queue = record {
  list_buff = [];
  queue_init = false;
  buff_count = 0;
  buff_size = 0;
  mem_size = 0;
  priority = 0;
}

-- `memset(queue, 0, sizeof(tls_buff_queue_t))`, and the empty ring made after it.
abbrev pub memset_queue : BuffQueue → BuffQueue
memset_queue queue = zero_queue

-- `tls_buff_queue_initialize` of a queue that is not null. The compare-and-swap sets `queue_init_`;
-- the `memset` that follows clears the whole structure, that flag included.
pub initialize : BuffQueue → TlsResult × BuffQueue
initialize queue =
    if queue.queue_init
    then (s_continue, queue)
    else (s_ok, memset_queue (record queue { queue_init = true }))

-- `tls_buff_allocate_buffer` of a structure that is not null. The storage holds what `malloc` leaves in
-- it.
pub allocate_buffer : Buff → Action (TlsResult × Buff)
allocate_buffer buff m =
    if buff.buf_size == 0
    then some ((e_invalid_data, buff), m)
    else (do
      p ← malloc
      pure (
          if p == null
          then (e_allocate, record buff { buf = null })
          else (s_ok, record buff { buf = p; bytes = m.garbage p })))
        m

-- `tls_buff_free_buffer` and `tls_buff_free_struct`.
pub free_buffer : Buff → Action Buff
free_buffer buff =
    if buff.buf == null then pure buff else do free buff.buf; pure (record buff { buf = null })

pub free_struct : Buff → Action (Unit {0})
free_struct buff = free buff.self

-- `tls_buff_delete`.
pub delete : Buff → Action (Unit {0})
unfolding free_buffer free_struct
delete buff = do b ← free_buffer buff; free_struct b

-- `tls_buff_create`.
pub create : ℕ → ℕ → Action (Option Buff)
unfolding allocate_buffer free_struct
create size type m =
    if size == 0
    then some (none, m)
    else (do
      self ← malloc
      if self == null then pure none else do
        (result, b) ← allocate_buffer (record (zero_buff self) { buf_size = size; type = type })
        if result_ok result then pure (some b) else do free_struct b; pure none)
        m

-- `tls_buff_queue_free`: the loop takes the first buffer until the ring is empty. It makes one round
-- for each buffer, so it recurs on the list.
free_loop : List Buff → Action (Unit {0})
free_loop [] m = some (tt, m)
free_loop (b ∷ bs) m = (do delete b; free_loop bs) m

pub queue_free : BuffQueue → Action (TlsResult × BuffQueue)
unfolding free_loop delete
queue_free queue = do free_loop queue.list_buff; pure (s_ok, record queue { list_buff = [] })

-- `tls_buff_queue_uninitialize`.
pub uninitialize : BuffQueue → Action BuffQueue
unfolding queue_free
uninitialize queue m =
    if queue.queue_init
    then (do (result, q) ← queue_free (record queue { queue_init = false }); pure q) m
    else some (queue, m)

-- The loop of `tls_buff_queue_allocate` and `tls_buff_queue_allocate_t`, with `n` rounds left. The
-- last component is `buff` where the loop breaks: the structure whose storage was refused.
allocate_loop : ℕ → (size type : ℕ) → BuffQueue → Action (TlsResult × BuffQueue × Option Buff)
allocate_loop zero size type queue m = some ((s_ok, queue, none), m)
allocate_loop (suc n) size type queue m =
    (do
      self ← malloc
      if self == null then pure (e_allocate, queue, none) else do
        (result, b) ←
            allocate_buffer
              (record (zero_buff self) { buf_size = size; type = type; priority = queue.priority })
        if result_fail result
            then pure (e_allocate, queue, some b)
            else allocate_loop n size type (record queue { list_buff = queue.list_buff ++ b ∷ [] }))
      m

-- What follows the loop: on failure the buffer at hand is freed, and then the whole queue.
allocate_end : TlsResult × BuffQueue × Option Buff → Action (TlsResult × BuffQueue)
allocate_end (result, queue, none) =
    if result_fail result
    then (do (freed, q) ← queue_free queue; pure (result, q))
    else pure (result, queue)
allocate_end (result, queue, some b) =
    if result_fail result
    then (do b' ← free_buffer b; free_struct b'; (freed, q) ← queue_free queue; pure (result, q))
    else pure (result, queue)

-- `tls_buff_queue_allocate_t`. Bad arguments fail too, so that the queue is freed there as well.
pub allocate_t : BuffQueue → (size count type : ℕ) → Action (TlsResult × BuffQueue)
unfolding allocate_loop allocate_end queue_free allocate_buffer
allocate_t queue size count type =
    if (size == 0) || (count == 0)
    then (do (freed, q) ← queue_free queue; pure (e_invalid_param, q))
    else (do out ← allocate_loop count size type queue; allocate_end out)

-- `tls_buff_queue_allocate`: the `memset` of each structure leaves its type 0.
pub allocate : BuffQueue → (size count : ℕ) → Action (TlsResult × BuffQueue)
unfolding allocate_t
allocate queue size count = allocate_t queue size count 0

-- `tls_buff_queue_acquire`.
pub acquire : BuffQueue → Option Buff × BuffQueue
acquire queue = elim queue.list_buff [
  | [] ↦ (none, queue)
  | b ∷ bs ↦ (some b, record queue { list_buff = bs })
]

-- `tls_buff_queue_release` of a buffer that is not null.
pub release : BuffQueue → Buff → BuffQueue
release queue b =
    if b.buf == null then queue else record queue { list_buff = queue.list_buff ++ b ∷ [] }
