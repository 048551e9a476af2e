-- ===== src/TlsServer/Buffers.antt =====
-- The buffers of the server of 722device/server/tls_work.c: an invariant of its pools and queues, and
-- what `tls_server_acquire_transmit_buff` and `tls_server_acquire_recv_buff` give.
use ai_coding_for_business.Common.{
  sym, subst, put, put-holds, List-cases, ℕ, ◌≤◌, ◌≡◌, ◌≢◌, inl, inr, refl, arith, Option, none,
  some, List, [], ◌∷◌, ◌++◌,
}
use ai_coding_for_business.TlsBuff.{Buff, BuffQueue}
use ai_coding_for_business.TlsBuff.Memory.{Mem, null, Grants}
use ai_coding_for_business.TlsBuff.Pool.{acquire-nil, acquire-cons}
use ai_coding_for_business.TlsBuff.Create.{create-outcomes}
use ai_coding_for_business.TlsTransmit.Push.{pushed, queues-pushed}
use ai_coding_for_business.State.{Server, pri_7, type_tx, type_rx, udp}
use ai_coding_for_business.TlsServer.{tls_buff_size, acquire_transmit_buff}

-- A buffer with at least `room` bytes of storage, of a type and a priority.
abbrev pub Usable : (room type priority : ℕ) → Buff → Type 0
Usable room type priority b =
    (b.buf ≢ null) × (room ≤ b.buf_size) × (b.type ≡ type) × (b.priority ≡ priority)

abbrev pub AllUsable : (room type priority : ℕ) → List Buff → Type 0
AllUsable room type priority [] = Unit {0}
AllUsable room type priority (b ∷ bs) =
    Usable room type priority b × AllUsable room type priority bs

-- Each pool and each queue of priority `p` has buffers of that priority, the queue to be served is one of
-- the eight, and the receiving side has buffers of type RX.
pub record WellFormed (room : ℕ) (s : Server) : Type 0 where
  pub pools : (p : ℕ) → p ≤ pri_7 → AllUsable room type_tx p (s.transmit_pool p).list_buff
  pub queues : (p : ℕ) → p ≤ pri_7 → AllUsable room type_tx p (s.transmit.queues p)
  pub known_current : (c : ℕ) → s.transmit.current ≡ some c → c ≤ pri_7
  pub recv_pool : AllUsable room type_rx 0 s.recv_pool.list_buff
  pub received : AllUsable room type_rx 0 s.receive.queue

pub AllUsable-append :
    (room type p : ℕ) (bs : List Buff) (b : Buff)
    → AllUsable room type p bs
    → Usable room type p b
    → AllUsable room type p (bs ++ b ∷ [])
AllUsable-append room type p [] b h k = (k, tt)
AllUsable-append room type p (c ∷ bs) b h k = (h.0, AllUsable-append room type p bs b h.1 k)

-- The same server but for its pools of transmit buffers and its memory.
abbrev pub repooled : Server → (ℕ → BuffQueue) → Mem → Server
repooled s pools m = record s { transmit_pool = pools; mem = m }

pub repooled-WellFormed :
    (room : ℕ) (s : Server) (pools : ℕ → BuffQueue) (m : Mem)
    → WellFormed room s
    → ((p : ℕ) → p ≤ pri_7 → AllUsable room type_tx p (pools p).list_buff)
    → WellFormed room (repooled s pools m)
repooled-WellFormed room s pools m w h = record {
  pools = h;
  queues = w.queues;
  known_current = w.known_current;
  recv_pool = w.recv_pool;
  received = w.received;
}

-- The mode of the buffer that a pool gives next: a buffer keeps the mode of its last use, and a new one
-- is sent by UDP.
abbrev mode_of : List Buff → ℕ
mode_of [] = udp
mode_of (b ∷ bs) = b.transmode

abbrev pub next_mode : BuffQueue → ℕ
next_mode pool = mode_of pool.list_buff

-- A server without a buffer of a priority and without the memory for a new one, which takes two requests.
abbrev pub NoBuffer : Server → ℕ → Type 0
NoBuffer s priority = ((s.transmit_pool priority).list_buff ≡ []) × (¬ Grants 2 s.mem.granted)

-- What `tls_server_acquire_transmit_buff` can give: no buffer, where there is none, or one that is fit for the priority.
pub data Acquired (room priority : ℕ) (s : Server) (out : Option (Option Buff × Server))
    : Type 0 where
  nothing :
      (m : Mem)
      → out ≡ some (none, repooled s s.transmit_pool m)
      → NoBuffer s priority
      → Acquired room priority s out
  buffer :
      (b : Buff) (pools : ℕ → BuffQueue) (m : Mem)
      → out ≡ some (some b, repooled s pools m)
      → Usable room type_tx priority b
      → b.transmode ≡ next_mode (s.transmit_pool priority)
      → ((p : ℕ) → p ≤ pri_7 → AllUsable room type_tx p (pools p).list_buff)
      → Acquired room priority s out

-- The pool without its first buffer.
abbrev pub without_head : Server → ℕ → List Buff → ℕ → BuffQueue
without_head s priority bs =
    put s.transmit_pool priority (record (s.transmit_pool priority) { list_buff = bs })

pub acquire_transmit_buff-cons :
    (s : Server) (priority : ℕ) (b : Buff) (bs : List Buff)
    → priority ≤ pri_7
    → (s.transmit_pool priority).list_buff ≡ b ∷ bs
    → acquire_transmit_buff s priority
      ≡ some (some b, repooled s (without_head s priority bs) s.mem)
unfolding acquire_transmit_buff
acquire_transmit_buff-cons s priority b bs le e =
    ground (arith, acquire-cons (s.transmit_pool priority) b bs e)

module _ (room priority : ℕ) (s : Server) (w : WellFormed room s) (fits : room ≤ tls_buff_size)
    (le : priority ≤ pri_7) where
  taken_pools :
      (b : Buff) (bs : List Buff)
      → AllUsable room type_tx priority bs
      → (p : ℕ) → p ≤ pri_7
      → AllUsable room type_tx p (without_head s priority bs p).list_buff
  taken_pools b bs k p h =
      put-holds (λ q pool. AllUsable room type_tx q pool.list_buff) s.transmit_pool priority
        (record (s.transmit_pool priority) { list_buff = bs }) p k (w.pools p h)

  acquire-created :
      (s.transmit_pool priority).list_buff ≡ []
      → Acquired room priority s (acquire_transmit_buff s priority)
  unfolding acquire_transmit_buff
  acquire-created e =
      let left = acquire-nil (s.transmit_pool priority) e in
      elim (create-outcomes tls_buff_size type_tx s.mem (omega arith)) [
        | inl (m, c, l, refused) ↦ nothing m (ground (arith, left)) (e, refused)
        | inr (b, m, c, l, (stored, size, type, mode, pri)) ↦
            buffer (record b { priority = priority }) s.transmit_pool m (ground (arith, left))
              (stored, rw size fits, type, refl) (rw e mode) w.pools
      ]

  pub acquire_transmit_buff-Acquired : Acquired room priority s (acquire_transmit_buff s priority)
  acquire_transmit_buff-Acquired = elim (List-cases (s.transmit_pool priority).list_buff) [
    | inl e ↦ acquire-created e
    | inr (b, bs, e) ↦
        let usable : AllUsable room type_tx priority (b ∷ bs) =
          subst (λ l. AllUsable room type_tx priority l) e (w.pools priority le) in
        buffer b (without_head s priority bs) s.mem
          (acquire_transmit_buff-cons s priority b bs le e) usable.0 (rw e refl)
          (taken_pools b bs usable.1)
  ]

-- Taking in a message that is fit for its priority keeps the invariant.
pub pushed-queues :
    (room : ℕ) (s : Server) (b : Buff)
    → ((p : ℕ) → p ≤ pri_7 → AllUsable room type_tx p (s.transmit.queues p))
    → b.priority ≤ pri_7
    → Usable room type_tx b.priority b
    → (p : ℕ) → p ≤ pri_7
    → AllUsable room type_tx p ((pushed s.transmit b).queues p)
pushed-queues room s b h le u p k =
    subst (λ qs. AllUsable room type_tx p (qs p)) (sym (queues-pushed s.transmit b))
      (put-holds (λ q l. AllUsable room type_tx q l) s.transmit.queues b.priority
        (s.transmit.queues b.priority ++ b ∷ []) p
        (AllUsable-append room type_tx b.priority (s.transmit.queues b.priority) b (h b.priority le)
          u)
        (h p k))
