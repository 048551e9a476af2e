-- ===== src/TlsTransmit/Threads.antt =====
-- The threads of 722device/server/tls_transmit.c and how they interleave.
--
-- `tls_transmit_push` is three critical sections: it inserts under the lock of the queue, raises
-- `queue_transmit_` under the lock of the transmitter, and sets the event. The polling thread holds
-- the lock of the transmitter for the whole of `tls_transmit_thread_poll`, and the lock of the queue
-- while it takes a message. So between taking and `lower`, others can insert and set the event, and
-- cannot raise `queue_transmit_`. Any number of threads may push.
use ai_coding_for_business.Common.{put, ℕ, suc, ◌≤◌, Bool, true, some, ◌≡◌, ◌≢◌}
use ai_coding_for_business.TlsBuff.{Buff}
use ai_coding_for_business.TlsBuff.Memory.{null}
use ai_coding_for_business.State.{Transmit, Server, pri_7}
use ai_coding_for_business.TlsTransmit.{
  QueueState, insert, active, update_transmit_queue, handle, lower, current_or_top,
}

-- Where the polling thread is: outside `tls_transmit_thread_poll`, or behind `tls_transmit_handle` on
-- the queue of a priority, with its result.
pub data Poller : Type 0 where
  idle : Poller
  took : ℕ → QueueState → Poller

-- The server, the polling thread, and for each priority the number of pushing threads that have
-- inserted and not yet raised, and of those that have raised and not yet set the event.
pub record Threads : Type 0 where
  pub server : Server
  pub inserted : ℕ → ℕ
  pub raised : ℕ → ℕ
  pub poller : Poller

abbrev pub with_transmit : Server → Transmit → Server
with_transmit s t = record s { transmit = t }

-- `queue_transmit_` after the null test at the start of the poll.
abbrev pub at_current : Server → Server
at_current s = with_transmit s (record s.transmit { current = some (current_or_top s.transmit) })

-- The poll up to the end of `tls_transmit_handle`.
abbrev pub after_take : Threads → Bool → Threads
after_take s accepted =
    let k = current_or_top s.server.transmit in
    let (ret, server) = handle (at_current s.server) k accepted in
    record s { server = server; poller = took k ret }

pub data Step (s t : Threads) : Type 0 where
  inserts :
      (b : Buff)
      → b.buf ≢ null
      → b.size ≢ 0
      → b.priority ≤ pri_7
      → s.server.transmit.start ≡ true
      → t ≡ record s {
        server = with_transmit s.server (insert s.server.transmit b.priority b);
        inserted = put s.inserted b.priority (suc (s.inserted b.priority));
      }
      → Step s t
  raises :
      (p n : ℕ)
      → s.poller ≡ idle
      → s.inserted p ≡ suc n
      → t ≡ record s {
        server = with_transmit s.server (update_transmit_queue s.server.transmit p);
        inserted = put s.inserted p n;
        raised = put s.raised p (suc (s.raised p));
      }
      → Step s t
  wakes :
      (p n : ℕ)
      → s.raised p ≡ suc n
      → t ≡ record s {
        server = with_transmit s.server (active s.server.transmit);
        raised = put s.raised p n;
      }
      → Step s t
  takes :
      (accepted : Bool)
      → s.poller ≡ idle
      → s.server.transmit.run ≡ true
      → s.server.transmit.evt_loop ≡ true
      → t ≡ after_take s accepted
      → Step s t
  finishes :
      (k : ℕ) (ret : QueueState)
      → s.poller ≡ took k ret
      → t ≡ record s {
        server = with_transmit s.server (lower s.server.transmit k ret);
        poller = idle;
      }
      → Step s t

pub data Reach (s : Threads) : Threads → Type 0 where
  here : Reach s s
  next : {t u : Threads} → Reach s t → Step t u → Reach s u

pub Reach-trans : {s t u : Threads} → Reach s t → Reach t u → Reach s u
Reach-trans r here = r
Reach-trans r (next q st) = next (Reach-trans r q) st
