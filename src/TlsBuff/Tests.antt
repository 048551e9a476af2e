-- ===== src/TlsBuff/Tests.antt =====
-- The pools of 722device/server/tls_buff_queue.c: runs, and the theorems at small pools.
use mathlib.Core.List.{Perm}
use ai_coding_for_business.Common.{
  ℕ, ◌+◌, ◌≡◌, refl, Bool, true, some, List, [], ◌∷◌, arith, s_ok, e_allocate,
}
use ai_coding_for_business.TlsBuff.Memory.{Mem, malloc, free}
use ai_coding_for_business.TlsBuff.{
  Buff, BuffQueue, zero_buff, zero_queue, allocate_t, acquire, release,
}
use ai_coding_for_business.TlsBuff.Allocate.{Settles, allocate_t-Settles}
use ai_coding_for_business.TlsBuff.Grants.{allocate_t-granted}
use ai_coding_for_business.TlsBuff.Order.{takes, gives, here, next, everywhere, Reach-perm}

abbrev memory : List Bool → Mem
memory g = record { fresh = 100; live = 7 ∷ []; granted = g; garbage = λ _ _. 0 }

abbrev buff : ℕ → Buff
buff p = record (zero_buff p) { buf = p + 1; buf_size = 16 }

abbrev pool : BuffQueue
pool = record zero_queue { list_buff = buff 20 ∷ []; priority = 3 }

abbrev pool_memory : List Bool → Mem
pool_memory g = record { fresh = 100; live = 21 ∷ 7 ∷ 20 ∷ []; granted = g; garbage = λ _ _. 0 }

-- Two buffers are asked for; the storage of the second is refused, and all goes back.
refused :
    (m : Mem) × (allocate_t pool 16 2 1 (pool_memory (true ∷ true ∷ true ∷ []))
      ≡ some ((e_allocate, record pool { list_buff = [] }), m))
    × (m.live ≡ 7 ∷ [])
unfolding allocate_t malloc free
refused = (_, refl, refl)

allocate_t-Settles_example : Settles 16 2 1 pool (7 ∷ []) (pool_memory (true ∷ true ∷ true ∷ []))
allocate_t-Settles_example =
    allocate_t-Settles 16 2 1 pool (7 ∷ []) (pool_memory (true ∷ true ∷ true ∷ [])) (omega arith)
      (λ r. omega arith)

allocate_t-granted_example :
    (queue' : BuffQueue) × (m' : Mem) × (allocate_t pool 16 1 0 (memory (true ∷ true ∷ []))
      ≡ some ((s_ok, queue'), m'))
allocate_t-granted_example =
    allocate_t-granted 16 1 0 pool (memory (true ∷ true ∷ [])) (omega arith) (omega arith)
      (refl, (refl, tt))

abbrev filled_pool : BuffQueue
filled_pool = record zero_queue {
  list_buff = record (zero_buff 101) { buf = 102; buf_size = 16 } ∷ [];
}

abbrev filled_memory : Mem
filled_memory = record { fresh = 102; live = 102 ∷ 101 ∷ 7 ∷ []; granted = []; garbage = λ _ _. 0 }

-- A client takes the buffer and gives it back.
Reach-perm_example :
    Perm
      (everywhere (record { queue = pool; held = [] }))
      (everywhere (record { queue = pool; held = [] }))
unfolding acquire release
Reach-perm_example =
    Reach-perm (record { queue = pool; held = [] }) (record { queue = pool; held = [] })
      (next {t = record { queue = record pool { list_buff = [] }; held = buff 20 ∷ [] }}
        (next here (takes (buff 20) refl refl))
        (gives [] [] (buff 20) refl (omega arith) refl refl))
