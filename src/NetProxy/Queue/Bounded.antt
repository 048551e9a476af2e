-- ===== src/NetProxy/Queue/Bounded.antt =====
-- The message queue of net_proxy_v2/common/common.c under any interleaving of its users: it is first in,
-- first out, and never holds more than its capacity.
use native.Mathlib.Decide.{dec_le}
use ai_coding_for_business.Common.{
  subst, if-holds, if◌then◌else◌, not, ◌&&◌, ◌==◌, ◌⊎◌, ℕ, ◌-◌, ◌≤◌, ◌<◌, ◌≡◌, refl, sym, ap, ◌∙◌,
  arith, Bool, true, false, List, [], ◌∷◌, ◌++◌, length, length-append, append_assoc, append-nil,
  List-cases, Bool-cases, inl, inr,
}
use ai_coding_for_business.NetProxy.{Message}
use ai_coding_for_business.NetProxy.Queue.{
  MsgQueue, Pushed, push_done, push_refused, push_waits, msg_queue_push, Popped, got, lost,
  pop_null, pop_waits, take_front, msg_queue_pop, resume_timed,
}

-- The queue, the messages for which a push has returned 0, and those that a pop has taken out, oldest
-- first.
pub record Shared : Type 0 where
  pub queue : MsgQueue
  pub accepted : List Message
  pub taken : List Message

abbrev pub accepts : Pushed → Message → List Message
accepts push_done m = m ∷ []
accepts push_refused m = []
accepts push_waits m = []

abbrev pub takes : Popped → List Message
takes (got m) = m ∷ []
takes (lost m) = m ∷ []
takes pop_null = []
takes pop_waits = []

abbrev pub after_push : Shared → Message → Pushed × MsgQueue → Shared
after_push s m (r, q) = record s { queue = q; accepted = s.accepted ++ accepts r m }

abbrev pub after_pop : Shared → Popped × MsgQueue → Shared
after_pop s (r, q) = record s { queue = q; taken = s.taken ++ takes r }

-- One critical section of some thread.
pub data Step (s t : Shared) : Type 0 where
  pushes :
      (m : Message) (granted : Bool)
      → t ≡ after_push s m (msg_queue_push s.queue m granted)
      → Step s t
  pops :
      (forever granted : Bool) → t ≡ after_pop s (msg_queue_pop s.queue forever granted) → Step s t
  resumes :
      (timed_out granted : Bool)
      → t ≡ after_pop s (resume_timed s.queue timed_out granted)
      → Step s t

pub data Reach (s : Shared) : Shared → Type 0 where
  here : Reach s s
  next : {t u : Shared} → Reach s t → Step t u → Reach s u

pub record Fifo (capacity : ℕ) (s : Shared) : Type 0 where
  pub same_capacity : s.queue.capacity ≡ capacity
  pub counted : s.queue.count ≡ length s.queue.msgs
  pub bounded : length s.queue.msgs ≤ capacity
  pub in_order : s.accepted ≡ s.taken ++ s.queue.msgs

-- What a message at the front becomes.
abbrev front : Message → Bool → Popped
front m granted = if granted then got m else lost m

takes-front : (m : Message) (granted : Bool) → takes (front m granted) ≡ m ∷ []
takes-front m true = refl
takes-front m false = refl

take_front-nil :
    (q : MsgQueue) (granted : Bool) → q.msgs ≡ [] → take_front q granted ≡ (pop_null, q)
unfolding take_front
take_front-nil q granted e = ground arith

take_front-cons :
    (q : MsgQueue) (granted : Bool) (m : Message) (ms : List Message)
    → q.msgs ≡ m ∷ ms
    → q.count ≡ length (m ∷ ms)
    → take_front q granted ≡ (front m granted, record q { msgs = ms; count = q.count - 1 })
unfolding take_front
take_front-cons q granted m ms e c = ground arith

module _ (capacity : ℕ) (s : Shared) (v : Fifo capacity s) where
  idle_push : (m : Message) → s.accepted ++ [] ≡ s.taken ++ s.queue.msgs
  idle_push m = append-nil s.accepted ∙ v.in_order

  push-Fifo :
      (m : Message) (granted : Bool)
      → Fifo capacity (after_push s m (msg_queue_push s.queue m granted))
  unfolding msg_queue_push
  push-Fifo m granted = record {
    same_capacity = ground (arith, v.same_capacity);
    counted = ground (arith, v.counted, length-append s.queue.msgs (m ∷ []));
    bounded =
        ground (arith, v.counted, v.bounded, v.same_capacity, length-append s.queue.msgs (m ∷ []));
    in_order =
        ground
          (arith, append-nil s.accepted, v.in_order, append_assoc s.taken s.queue.msgs (m ∷ []));
  }

  null-Fifo : Fifo capacity (after_pop s (pop_null, s.queue))
  null-Fifo = record {
    same_capacity = v.same_capacity;
    counted = v.counted;
    bounded = v.bounded;
    in_order = rw (append-nil s.taken) v.in_order;
  }

  waits-Fifo : Fifo capacity (after_pop s (pop_waits, s.queue))
  waits-Fifo = record {
    same_capacity = v.same_capacity;
    counted = v.counted;
    bounded = v.bounded;
    in_order = rw (append-nil s.taken) v.in_order;
  }

  taken-Fifo :
      (m : Message) (ms : List Message) (r : Popped)
      → s.queue.msgs ≡ m ∷ ms
      → takes r ≡ m ∷ []
      → Fifo capacity (after_pop s (r, record s.queue { msgs = ms; count = s.queue.count - 1 }))
  taken-Fifo m ms r e k = record {
    same_capacity = v.same_capacity;
    counted = ground (arith, v.counted, e);
    bounded = ground (arith, v.bounded, e);
    in_order = ground (arith, v.in_order, e, k, append_assoc s.taken (m ∷ []) ms);
  }

  pub take_front-Fifo : (granted : Bool) → Fifo capacity (after_pop s (take_front s.queue granted))
  take_front-Fifo granted = elim (List-cases s.queue.msgs) [
    | inl e ↦
        subst (λ o. Fifo capacity (after_pop s o)) (sym (take_front-nil s.queue granted e))
          null-Fifo
    | inr (m, ms, e) ↦
        subst (λ o. Fifo capacity (after_pop s o))
          (sym (take_front-cons s.queue granted m ms e (v.counted ∙ ap length e)))
          (taken-Fifo m ms (front m granted) e (takes-front m granted))
  ]

  pop-Fifo :
      (forever granted : Bool) → Fifo capacity (after_pop s (msg_queue_pop s.queue forever granted))
  unfolding msg_queue_pop
  pop-Fifo forever granted =
      if-holds (λ o. Fifo capacity (after_pop s o)) (not (s.queue.count == 0))
        (take_front s.queue granted)
        (if forever && s.queue.shutdown then take_front s.queue granted else (pop_waits, s.queue))
        (take_front-Fifo granted)
        (if-holds (λ o. Fifo capacity (after_pop s o)) (forever && s.queue.shutdown)
          (take_front s.queue granted) (pop_waits, s.queue) (take_front-Fifo granted) waits-Fifo)

  resume-Fifo :
      (timed_out granted : Bool)
      → Fifo capacity (after_pop s (resume_timed s.queue timed_out granted))
  unfolding resume_timed
  resume-Fifo timed_out granted =
      if-holds (λ o. Fifo capacity (after_pop s o)) timed_out (pop_null, s.queue)
        (take_front s.queue granted) null-Fifo (take_front-Fifo granted)

Step-Fifo : (capacity : ℕ) (s t : Shared) → Step s t → Fifo capacity s → Fifo capacity t
Step-Fifo capacity s t (pushes m granted e) v = rw e (push-Fifo capacity s v m granted)
Step-Fifo capacity s t (pops forever granted e) v = rw e (pop-Fifo capacity s v forever granted)
Step-Fifo capacity s t (resumes timed_out granted e) v =
    rw e (resume-Fifo capacity s v timed_out granted)

-- A queue that is first in, first out and within its capacity stays so, whatever its users do in which
-- order: what has been taken out and what is in the queue is what was accepted, in that order, and
-- `count` is the number of messages in the queue.
pub Reach-Fifo : (capacity : ℕ) (s t : Shared) → Fifo capacity s → Reach s t → Fifo capacity t
Reach-Fifo capacity s t v here = v
Reach-Fifo capacity s t v (next {t = u} r st) =
    Step-Fifo capacity u t st (Reach-Fifo capacity s u v r)

-- A push into a queue that is neither shut down nor full, with memory for a node, is accepted; into a
-- full one it waits; into one that is shut down it is refused.
push-outcomes :
    (capacity : ℕ) (s : Shared) (m : Message)
    → Fifo capacity s
    → ((s.queue.shutdown ≡ true) × (msg_queue_push s.queue m true ≡ (push_refused, s.queue)))
      ⊎ ((length s.queue.msgs ≡ capacity) × (msg_queue_push s.queue m true ≡ (push_waits, s.queue)))
      ⊎ ((length s.queue.msgs < capacity)
          × ((msg_queue_push s.queue m true).0 ≡ push_done)
          × ((msg_queue_push s.queue m true).1.msgs ≡ s.queue.msgs ++ m ∷ []))
unfolding msg_queue_push
push-outcomes capacity s m v = elim (Bool-cases s.queue.shutdown) [
  | inl e ↦ inl (e, ground arith)
  | inr e ↦ elim (dec_le capacity (length s.queue.msgs)) [
    | yes full ↦ inr (inl (omega (arith, v.bounded), ground (arith, v.counted, v.same_capacity)))
    | no room ↦ inr (
        inr (
          omega arith,
          ground (arith, v.counted, v.same_capacity),
          ground (arith, v.counted, v.same_capacity),
        ))
  ]
]
