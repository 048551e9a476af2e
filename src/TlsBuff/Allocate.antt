-- ===== src/TlsBuff/Allocate.antt =====
-- `tls_buff_queue_allocate_t` of 722device/server/tls_buff_queue.c: what it does to the queue and to
-- the memory, whichever requests for memory are granted.
use ai_coding_for_business.Common.{
  ℕ, zero, suc, true, false, ◌||◌, Option, none, some, List, [], ◌∷◌, ◌++◌, ◌≡◌, ◌≢◌, inl, inr,
  refl, arith, ◌==◌, length, append_assoc, append-nil, TlsResult, s_ok, e_allocate, e_invalid_param,
  result_fail, Bool-cases,
}
use ai_coding_for_business.TlsBuff.Memory.{Ptr, null, Mem, malloc, malloc-cases}
use ai_coding_for_business.TlsBuff.{
  Buff, BuffQueue, zero_buff, allocate_buffer, free_buffer, free_struct, allocate_loop,
  allocate_end, allocate_t,
}
use ai_coding_for_business.TlsBuff.Account.{
  count, count-append, owned, count-owned_append, Stored, Accounts, free_lem, queue_free-Accounts,
}

-- Buffers as the allocation makes them.
abbrev pub Made : (size type priority : ℕ) → List Buff → Type 0
Made size type priority [] = Unit {0}
Made size type priority (b ∷ bs) =
    (b.buf ≢ null)
    × (b.buf_size ≡ size)
    × (b.type ≡ type)
    × (b.priority ≡ priority)
    × (b.transmode ≡ 0)
    × Made size type priority bs

Made-Stored : (size type priority : ℕ) (bs : List Buff) → Made size type priority bs → Stored bs
Made-Stored size type priority [] h = tt
Made-Stored size type priority (b ∷ bs) h = (h.0, Made-Stored size type priority bs h.5)

Stored-append : (bs cs : List Buff) → Stored bs → Stored cs → Stored (bs ++ cs)
Stored-append [] cs h k = k
Stored-append (b ∷ bs) cs h k = (h.0, Stored-append bs cs h.1 k)

abbrev extend : BuffQueue → List Buff → BuffQueue
extend queue new = record queue { list_buff = queue.list_buff ++ new }

-- How the loop can end after it has put `new` into the queue: with all rounds made, with a structure
-- refused, or with a structure `b` at hand whose storage was refused.
data LoopEnd (n size type : ℕ) (queue : BuffQueue) (rest : List Ptr) (new : List Buff)
    (result : TlsResult) (left : Option Buff) (m : Mem) : Type 0 where
  done :
      result ≡ s_ok
      → left ≡ none
      → length new ≡ n
      → Accounts m (queue.list_buff ++ new) rest
      → LoopEnd n size type queue rest new result left m
  refused :
      result ≡ e_allocate
      → left ≡ none
      → Accounts m (queue.list_buff ++ new) rest
      → LoopEnd n size type queue rest new result left m
  bare :
      (b : Buff)
      → result ≡ e_allocate
      → left ≡ some b
      → b.buf ≡ null
      → Accounts m (queue.list_buff ++ new) (b.self ∷ rest)
      → LoopEnd n size type queue rest new result left m

abbrev LoopEnds : (n size type : ℕ) → BuffQueue → List Ptr → Mem → Type 0
LoopEnds n size type queue rest m =
    (new : List Buff) × (result : TlsResult) × (left : Option Buff) × (m' : Mem) × (allocate_loop n
        size type queue m
      ≡ some ((result, extend queue new, left), m'))
    × Made size type queue.priority new
    × LoopEnd n size type queue rest new result left m'

-- The structure that a round makes at `p`, before it has storage, and with it.
abbrev bare_buff : (size type : ℕ) → BuffQueue → Ptr → Buff
bare_buff size type queue p = record (zero_buff p) {
  buf_size = size;
  type = type;
  priority = queue.priority;
}

abbrev full_buff : (size type : ℕ) → BuffQueue → (p d : Ptr) → (ℕ → ℕ) → Buff
full_buff size type queue p d bytes = record (bare_buff size type queue p) {
  buf = d;
  bytes = bytes;
}

LoopEnd-cons :
    (n size type : ℕ) (queue : BuffQueue) (rest : List Ptr) (b : Buff) (new : List Buff)
    (result : TlsResult) (left : Option Buff) (m : Mem)
    → (queue.list_buff ++ b ∷ []) ++ new ≡ queue.list_buff ++ (b ∷ new)
    → LoopEnd n size type (extend queue (b ∷ [])) rest new result left m
    → LoopEnd (suc n) size type queue rest (b ∷ new) result left m
LoopEnd-cons n size type queue rest b new result left m shift (done r l k h) =
    done r l (omega arith) (rw (← shift) h)
LoopEnd-cons n size type queue rest b new result left m shift (refused r l h) =
    refused r l (rw (← shift) h)
LoopEnd-cons n size type queue rest b new result left m shift (bare c r l z h) =
    bare c r l z (rw (← shift) h)

-- A round that has made a buffer goes on as the loop over the queue with that buffer.
round_more :
    (n size type : ℕ) (queue : BuffQueue) (rest : List Ptr) (m m1 m2 : Mem) (p d : Ptr)
    → size ≢ 0
    → p ≢ null
    → d ≢ null
    → malloc m ≡ some (p, m1)
    → malloc m1 ≡ some (d, m2)
    → LoopEnds n size type
        (extend queue (full_buff size type queue p d (m1.garbage d) ∷ []))
        rest
        m2
    → LoopEnds (suc n) size type queue rest m
unfolding allocate_loop allocate_buffer
round_more n size type queue rest m m1 m2 p d ne pne dne e1 e2
      (new, result, left, m', e, made, how) =
    let b = full_buff size type queue p d (m1.garbage d) in
    let shift = append_assoc queue.list_buff (b ∷ []) new in
    (
      b ∷ new,
      result,
      left,
      m',
      ground (arith, shift),
      (dne, refl, refl, refl, refl, made),
      LoopEnd-cons n size type queue rest b new result left m' shift how,
    )

allocate_loop_lem :
    (n size type : ℕ) (queue : BuffQueue) (rest : List Ptr) (m : Mem)
    → size ≢ 0
    → Accounts m queue.list_buff rest
    → LoopEnds n size type queue rest m
unfolding allocate_loop allocate_buffer
allocate_loop_lem zero size type queue rest m ne h =
    ([], s_ok, none, m, rw append-nil, tt, done refl refl refl (rw append-nil h))
allocate_loop_lem (suc n) size type queue rest m ne h = elim (malloc-cases m) [
  | inl (m', e, l) ↦ (
    [],
    e_allocate,
    none,
    m',
    ground (arith, append-nil queue.list_buff),
    tt,
    refused refl refl (rw append-nil (λ r. rw l (h r))),
  )
  | inr (p, m1, pne, e1, l1) ↦ elim (malloc-cases m1) [
    | inl (m2, e2, l2) ↦ (
      [],
      e_allocate,
      some (bare_buff size type queue p),
      m2,
      ground (arith, append-nil queue.list_buff),
      tt,
      bare _ refl refl refl (rw append-nil (λ r. rw (l2, l1) (omega (arith, h r)))),
    )
    | inr (d, m2, dne, e2, l2) ↦ round_more n size type queue rest m m1 m2 p d ne pne dne e1 e2 (
        allocate_loop_lem n size type
          (extend queue (full_buff size type queue p d (m1.garbage d) ∷ [])) rest m2 ne
          (λ r.
            rw (l2, l1)
              (omega (
                arith,
                h r,
                count-owned_append r queue.list_buff
                    (full_buff size type queue p d (m1.garbage d) ∷ []),
              ))))
  ]
]

-- The two ways in which `tls_buff_queue_allocate_t` ends.
pub data Settled (size count type : ℕ) (queue : BuffQueue) (result : TlsResult) (queue' : BuffQueue)
    : Type 0 where
  filled :
      (new : List Buff)
      → result ≡ s_ok
      → length new ≡ count
      → Made size type queue.priority new
      → queue' ≡ record queue { list_buff = queue.list_buff ++ new }
      → Settled size count type queue result queue'
  emptied :
      result_fail result ≡ true
      → queue' ≡ record queue { list_buff = [] }
      → Settled size count type queue result queue'

abbrev pub Settles : (size count type : ℕ) → BuffQueue → List Ptr → Mem → Type 0
Settles size count type queue rest m =
    (result : TlsResult) × (queue' : BuffQueue) × (m' : Mem) × (allocate_t queue size count type m
      ≡ some ((result, queue'), m'))
    × Accounts m' queue'.list_buff rest
    × Settled size count type queue result queue'

-- From the end of the loop to the end of the call.
end-Settles :
    (size count type : ℕ) (queue : BuffQueue) (rest : List Ptr) (new : List Buff)
    (result : TlsResult) (left : Option Buff) (m m' : Mem)
    → ((size == 0) || (count == 0)) ≡ false
    → Stored queue.list_buff
    → allocate_loop count size type queue m ≡ some ((result, extend queue new, left), m')
    → Made size type queue.priority new
    → LoopEnd count size type queue rest new result left m'
    → Settles size count type queue rest m
unfolding allocate_t allocate_end free_buffer free_struct
end-Settles size count type queue rest new result left m m' args s e made (done r l k h) =
    (s_ok, extend queue new, m', ground arith, h, filled new refl k made refl)
end-Settles size count type queue rest new result left m m' args s e made (refused r l h) =
    let all = Stored-append queue.list_buff new s (Made-Stored _ _ _ new made) in
    let (m2, e2, h2) = queue_free-Accounts (extend queue new) m' rest all h in
    (e_allocate, record queue { list_buff = [] }, m2, ground arith, h2, emptied refl refl)
end-Settles size count type queue rest new result left m m' args s e made (bare b r l z h) =
    let all = Stored-append queue.list_buff new s (Made-Stored _ _ _ new made) in
    let (m1, e1, h1) =
      free_lem b.self m' (owned (queue.list_buff ++ new) ++ rest)
        (λ r. omega (arith, h r, count-append r (owned (queue.list_buff ++ new)) rest)) in
    let (m2, e2, h2) =
      queue_free-Accounts (extend queue new) m1 rest all
        (λ r. omega (arith, h1 r, count-append r (owned (queue.list_buff ++ new)) rest)) in
    (e_allocate, record queue { list_buff = [] }, m2, ground arith, h2, emptied refl refl)

-- `tls_buff_queue_allocate_t` on every path, whichever requests for memory are granted: it frees
-- nothing twice and leaks nothing (what is allocated afterwards is what the queue owns then, beside
-- what others own), and either it succeeds and has appended `count` buffers of the size, type and
-- priority asked for, or it fails and the queue is empty, those buffers included that it held before.
pub allocate_t-Settles :
    (size count type : ℕ) (queue : BuffQueue) (rest : List Ptr) (m : Mem)
    → Stored queue.list_buff
    → Accounts m queue.list_buff rest
    → Settles size count type queue rest m
unfolding allocate_t
allocate_t-Settles size count type queue rest m s h =
    elim (Bool-cases ((size == 0) || (count == 0))) [
      | inl bad ↦
          let (m', e, h') = queue_free-Accounts queue m rest s h in
          (
            e_invalid_param,
            record queue { list_buff = [] },
            m',
            ground arith,
            h',
            emptied refl refl,
          )
      | inr good ↦
          let (new, result, left, m', e, made, how) =
            allocate_loop_lem count size type queue rest m (ground arith) h in
          end-Settles size count type queue rest new result left m m' good s e made how
    ]
