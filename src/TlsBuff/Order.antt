-- ===== src/TlsBuff/Order.antt =====
-- `tls_buff_queue_acquire` and `tls_buff_queue_release` of 722device/server/tls_buff_queue.c: a first-in
-- first-out pool that neither loses nor duplicates a buffer, whatever its clients do.
use mathlib.Core.List.{Perm, perm_middle}
use mathlib.Core.List.Perm
use ai_coding_for_business.Common.{some, List, [], ◌∷◌, ◌++◌, ◌≡◌, ◌≢◌, arith, append_assoc}
use ai_coding_for_business.TlsBuff.Memory.{null}
use ai_coding_for_business.TlsBuff.{Buff, BuffQueue, acquire, release}

-- A pool and the buffers that its clients hold. A client takes a buffer, or gives back
-- one that it holds.
pub record Lending : Type 0 where
  pub queue : BuffQueue
  pub held : List Buff

pub data Step (s t : Lending) : Type 0 where
  takes : (b : Buff) → acquire s.queue ≡ (some b, t.queue) → t.held ≡ b ∷ s.held → Step s t
  gives :
      (xs ys : List Buff) (b : Buff)
      → s.held ≡ xs ++ (b ∷ ys)
      → b.buf ≢ null
      → t.queue ≡ release s.queue b
      → t.held ≡ xs ++ ys
      → Step s t

pub data Reach (s : Lending) : Lending → Type 0 where
  here : Reach s s
  next : {t u : Lending} → Reach s t → Step t u → Reach s u

abbrev pub everywhere : Lending → List Buff
everywhere s = s.queue.list_buff ++ s.held

acquire-some :
    (q q' : BuffQueue) (b : Buff) → acquire q ≡ (some b, q') → q.list_buff ≡ b ∷ q'.list_buff
unfolding acquire
acquire-some q q' b e = ground arith

Step-perm : (s t : Lending) → Step s t → Perm (everywhere t) (everywhere s)
unfolding release
Step-perm s t (takes b e h) =
    rw (acquire-some s.queue t.queue b e, h) (perm_middle t.queue.list_buff s.held)
Step-perm s t (gives xs ys b h ne e h') =
    let q : t.queue.list_buff ≡ s.queue.list_buff ++ b ∷ [] = ground arith in
    rw (q, h, h', append_assoc) (Perm.append_left s.queue.list_buff (Perm.symm (perm_middle xs ys)))

-- Whatever clients take from a pool and give back, in any order, the buffers in the pool and those
-- in their hands are together the ones of the start: none is lost, none appears twice.
pub Reach-perm : (s t : Lending) → Reach s t → Perm (everywhere t) (everywhere s)
Reach-perm s t here = Perm.rfl
Reach-perm s t (next {t = u} r st) = Perm.trans (Step-perm u t st) (Reach-perm s u r)
