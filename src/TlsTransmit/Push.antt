-- ===== src/TlsTransmit/Push.antt =====
-- `tls_transmit_push` of 722device/server/tls_transmit.c by its branches.
use ai_coding_for_business.Common.{
  put, ◌≤◌, ◌≡◌, ◌≢◌, inl, inr, refl, arith, true, false, some, [], ◌∷◌, ◌++◌, s_ok, e_notready,
  Option-cases, ℕ,
}
use native.Mathlib.Decide.{dec_le}
use ai_coding_for_business.TlsBuff.{Buff}
use ai_coding_for_business.TlsBuff.Memory.{null}
use ai_coding_for_business.State.{Transmit, pri_7}
use ai_coding_for_business.TlsTransmit.{push, insert, active, update_transmit_queue}

-- The transmitter after a message of priority `b.priority` has been taken in.
abbrev pub pushed : Transmit → Buff → Transmit
pushed t b = active (update_transmit_queue (insert t b.priority b) b.priority)

pub push-started :
    (t : Transmit) (b : Buff)
    → b.buf ≢ null
    → b.size ≢ 0
    → b.priority ≤ pri_7
    → t.start ≡ true
    → push t (some b) ≡ (s_ok, pushed t b)
unfolding push
push-started t b h k le st = ground arith

pub push-stopped :
    (t : Transmit) (b : Buff)
    → b.buf ≢ null
    → b.size ≢ 0
    → b.priority ≤ pri_7
    → t.start ≡ false
    → push t (some b) ≡ (e_notready, t)
unfolding push
push-stopped t b h k le st = ground arith

module _ (t : Transmit) (b : Buff) where
  pub queues-pushed : (pushed t b).queues ≡ put t.queues b.priority (t.queues b.priority ++ b ∷ [])
  unfolding update_transmit_queue
  queues-pushed = ground arith

  pub run-pushed : (pushed t b).run ≡ t.run
  unfolding update_transmit_queue
  run-pushed = ground arith

  pub start-pushed : (pushed t b).start ≡ t.start
  unfolding update_transmit_queue
  start-pushed = ground arith

  pub awake-pushed : (pushed t b).evt_loop ≡ true
  unfolding update_transmit_queue
  awake-pushed = refl

  -- The queue to be served is one at or above the message's.
  pub current-pushed :
      b.priority ≤ pri_7
      → ((c : ℕ) → t.current ≡ some c → c ≤ pri_7)
      → (k : ℕ) × ((pushed t b).current ≡ some k) × (b.priority ≤ k) × (k ≤ pri_7)
  unfolding update_transmit_queue
  current-pushed le h = elim (Option-cases t.current) [
    | inl e ↦ (b.priority, ground arith, omega arith, le)
    | inr (c, e) ↦ elim (dec_le b.priority c) [
      | yes low ↦ (c, ground arith, low, h c e)
      | no high ↦ (b.priority, ground arith, omega arith, le)
    ]
  ]

  pub known_current-pushed :
      b.priority ≤ pri_7
      → ((c : ℕ) → t.current ≡ some c → c ≤ pri_7)
      → (c : ℕ) → (pushed t b).current ≡ some c
      → c ≤ pri_7
  known_current-pushed le h c e =
      let (k, at, low, high) = current-pushed le h in ground (arith, at, high, e)
