-- ===== src/TlsBuff/Account.antt =====
-- Accounting of memory in 722device/server/tls_buff_queue.c: what is allocated is what the queue owns,
-- beside what others own. No operation frees twice, and none leaks, on any path.
use ai_coding_for_business.Common.{
  ℕ, ◌+◌, ◌<◌, true, some, List, [], ◌∷◌, ◌++◌, ◌≡◌, ◌≢◌, refl, arith, ◌==◌, if◌then◌else◌, has,
  s_ok,
}
use ai_coding_for_business.TlsBuff.Memory.{Ptr, null, Mem, free, erase}
use ai_coding_for_business.TlsBuff.{Buff, BuffQueue, delete, free_loop, queue_free}

abbrev pub one : ℕ → ℕ → ℕ
one r p = if r == p then 1 else 0

abbrev pub count : ℕ → List ℕ → ℕ
count r [] = 0
count r (x ∷ xs) = one r x + count r xs

-- The addresses that buffers own: their structures and their storage.
abbrev pub owned : List Buff → List Ptr
owned [] = []
owned (b ∷ bs) = b.self ∷ b.buf ∷ owned bs

-- Every buffer has storage.
abbrev pub Stored : List Buff → Type 0
Stored [] = Unit {0}
Stored (b ∷ bs) = (b.buf ≢ null) × Stored bs

-- The allocated addresses are those of `bs` and those of `rest`, each as often.
abbrev pub Accounts : Mem → List Buff → List Ptr → Type 0
Accounts m bs rest = (r : Ptr) → count r m.live ≡ count r (owned bs) + count r rest

pub count-append : (r : ℕ) (xs ys : List ℕ) → count r (xs ++ ys) ≡ count r xs + count r ys
count-append r [] ys = omega arith
count-append r (x ∷ xs) ys = ground (arith, count-append r xs ys)

pub count-owned_append :
    (r : ℕ) (bs cs : List Buff)
    → count r (owned (bs ++ cs)) ≡ count r (owned bs) + count r (owned cs)
count-owned_append r [] cs = omega arith
count-owned_append r (b ∷ bs) cs = ground (arith, count-owned_append r bs cs)

has_of_count : (p : ℕ) (xs : List ℕ) → 0 < count p xs → has p xs ≡ true
has_of_count p [] h = absurd (omega arith)
has_of_count p (x ∷ xs) h = ground (arith, has_of_count p xs)

count-erase :
    (r p : ℕ) (xs : List ℕ) → has p xs ≡ true → count r xs ≡ one r p + count r (erase p xs)
count-erase r p [] h = cc
count-erase r p (x ∷ xs) h = ground (arith, count-erase r p xs)

pub free_lem :
    (p : Ptr) (m : Mem) (rest : List Ptr)
    → ((r : Ptr) → count r m.live ≡ one r p + count r rest)
    → (m' : Mem) × (free p m ≡ some (tt, m')) × ((r : Ptr) → count r m'.live ≡ count r rest)
unfolding free
free_lem p m rest h =
    let got : has p m.live ≡ true = has_of_count p m.live (ground (arith, h p)) in
    (
      record m { live = erase p m.live },
      ground arith,
      λ r. omega (arith, h r, count-erase r p m.live got),
    )

delete_lem :
    (b : Buff) (m : Mem) (rest : List Ptr)
    → b.buf ≢ null
    → ((r : Ptr) → count r m.live ≡ one r b.self + (one r b.buf + count r rest))
    → (m' : Mem) × (delete b m ≡ some (tt, m')) × ((r : Ptr) → count r m'.live ≡ count r rest)
unfolding delete
delete_lem b m rest ne h =
    let (m1, e1, h1) = free_lem b.buf m (b.self ∷ rest) (λ r. omega (arith, h r)) in
    let (m2, e2, h2) = free_lem b.self m1 rest h1 in (m2, ground arith, h2)

free_loop_lem :
    (bs : List Buff) (m : Mem) (rest : List Ptr)
    → Stored bs
    → Accounts m bs rest
    → (m' : Mem) × (free_loop bs m ≡ some (tt, m')) × Accounts m' [] rest
unfolding free_loop
free_loop_lem [] m rest s h = (m, refl, h)
free_loop_lem (b ∷ bs) m rest s h =
    let (m1, e1, h1) =
      delete_lem b m (owned bs ++ rest) s.0
        (λ r. omega (arith, h r, count-append r (owned bs) rest)) in
    let (m2, e2, h2) =
      free_loop_lem bs m1 rest s.1 (λ r. omega (arith, h1 r, count-append r (owned bs) rest)) in
    (m2, ground arith, h2)

-- `tls_buff_queue_free` gives back exactly what the queue owns: no address is freed twice, none of
-- others is touched, and the queue is empty afterwards.
pub queue_free-Accounts :
    (queue : BuffQueue) (m : Mem) (rest : List Ptr)
    → Stored queue.list_buff
    → Accounts m queue.list_buff rest
    → (m' : Mem) × (queue_free queue m ≡ some ((s_ok, record queue { list_buff = [] }), m'))
      × Accounts m' [] rest
unfolding queue_free
queue_free-Accounts queue m rest s h =
    let (m', e, h') = free_loop_lem queue.list_buff m rest s h in (m', ground arith, h')
