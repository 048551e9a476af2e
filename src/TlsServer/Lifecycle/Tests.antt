-- ===== src/TlsServer/Lifecycle/Tests.antt =====
-- The pools of 722device/server/tls_server.c: a run, and the theorems at small pools.
use ai_coding_for_business.Common.{ℕ, ◌≡◌, refl, Bool, true, false, some, List, [], ◌∷◌, TlsResult}
use ai_coding_for_business.TlsBuff.{BuffQueue, zero_queue}
use ai_coding_for_business.TlsBuff.Memory.{Mem}
use ai_coding_for_business.TlsServer.Lifecycle.{
  QueueParam, Pools, alloc_transmit_buff_queue, alloc_pools, free_pools, transmit_queue_count,
  count_for, size_for,
}
use ai_coding_for_business.TlsServer.Lifecycle.Transmit.{Ending, alloc_transmit-Ending}
use ai_coding_for_business.TlsServer.Lifecycle.Release.{pools-leak}

abbrev memory : List Bool → Mem
memory g = record { fresh = 100; live = 7 ∷ []; granted = g; garbage = λ _ _. 0 }

-- Buffers of 16 bytes, one for each priority.
abbrev small : ℕ → QueueParam
small p = record { buff_size = 16; buff_count = 1 }

abbrev empty_pools : ℕ → BuffQueue
empty_pools p = zero_queue

abbrev pools : Pools
pools = record { send = zero_queue; transmit = empty_pools; recv = zero_queue }

-- Where the configuration gives none, the tables of the program are used.
defaults :
    (size_for (record { buff_size = 0; buff_count = 0 }) ≡ 2048)
    × (count_for (record { buff_size = 0; buff_count = 0 }) 5 ≡ 640)
    × (transmit_queue_count 8 ≡ 0)
defaults = (refl, refl, refl)

alloc_transmit-Ending_example :
    (result : TlsResult) × (pools' : ℕ → BuffQueue) × (m' : Mem) × (alloc_transmit_buff_queue small
        empty_pools
        (memory (true ∷ true ∷ true ∷ false ∷ []))
      ≡ some ((result, pools'), m'))
    × Ending 0 small empty_pools (7 ∷ []) result pools' m'
alloc_transmit-Ending_example =
    alloc_transmit-Ending small empty_pools (memory (true ∷ true ∷ true ∷ false ∷ []))

pools-leak_example :
    (result : TlsResult) × (s' : Pools) × (s'' : Pools) × (m' : Mem) × (alloc_pools small pools
        (memory (true ∷ true ∷ false ∷ []))
      ≡ some ((result, s'), m'))
    × (free_pools s' m' ≡ some (s'', m'))
pools-leak_example =
    pools-leak small pools (memory (true ∷ true ∷ false ∷ [])) (refl, (λ p. refl), refl)
