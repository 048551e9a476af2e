-- ===== src/TlsBuff/Grants.antt =====
-- `tls_buff_queue_allocate_t` of 722device/server/tls_buff_queue.c succeeds when there is memory.
use ai_coding_for_business.Common.{
  ℕ, zero, suc, none, some, [], ◌∷◌, ◌++◌, ◌≡◌, ◌≢◌, refl, arith, s_ok,
}
use ai_coding_for_business.TlsBuff.Memory.{Mem, Grants, malloc-granted}
use ai_coding_for_business.TlsBuff.{
  BuffQueue, zero_buff, allocate_buffer, allocate_loop, allocate_end, allocate_t,
}

-- Two requests for each buffer: its structure and its storage.
abbrev pub requests : ℕ → ℕ
requests zero = 0
requests (suc n) = suc (suc (requests n))

allocate_loop-granted :
    (n size type : ℕ) (queue : BuffQueue) (m : Mem)
    → size ≢ 0
    → Grants (requests n) m.granted
    → (queue' : BuffQueue) × (m' : Mem) × (allocate_loop n size type queue m
        ≡ some ((s_ok, queue', none), m'))
unfolding allocate_loop allocate_buffer
allocate_loop-granted zero size type queue m ne h = (queue, m, refl)
allocate_loop-granted (suc n) size type queue m ne h =
    let (p, m1, pne, e1, h1) = malloc-granted (suc (requests n)) m h in
    let (d, m2, dne, e2, h2) = malloc-granted (requests n) m1 h1 in
    let b = record (zero_buff p) {
      buf = d;
      buf_size = size;
      type = type;
      priority = queue.priority;
      bytes = m1.garbage d;
    } in
    let (queue', m', e) =
      allocate_loop-granted n size type (record queue { list_buff = queue.list_buff ++ b ∷ [] }) m2
        ne h2 in
    (queue', m', ground arith)

-- With a size and a count that are not 0, and two requests for memory granted for each buffer, the
-- allocation succeeds.
pub allocate_t-granted :
    (size count type : ℕ) (queue : BuffQueue) (m : Mem)
    → size ≢ 0
    → count ≢ 0
    → Grants (requests count) m.granted
    → (queue' : BuffQueue) × (m' : Mem) × (allocate_t queue size count type m
        ≡ some ((s_ok, queue'), m'))
unfolding allocate_t allocate_end
allocate_t-granted size count type queue m sne cne h =
    let (queue', m', e) = allocate_loop-granted count size type queue m sne h in
    (queue', m', ground arith)
