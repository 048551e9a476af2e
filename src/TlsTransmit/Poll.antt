-- ===== src/TlsTransmit/Poll.antt =====
-- What a round of the thread of 722device/server/tls_transmit.c makes of the server, and
-- `tls_server_release_buff` of tls_work.c, by cases.
use ai_coding_for_business.Common.{put, ℕ, ◌≤◌, ◌≡◌, ◌≢◌, arith, Bool, some, List, [], ◌∷◌, ◌++◌}
use ai_coding_for_business.TlsBuff.{Buff, BuffQueue}
use ai_coding_for_business.TlsBuff.Memory.{null}
use ai_coding_for_business.TlsBuff.Pool.{release-stored}
use ai_coding_for_business.State.{Server, pri_7, type_tx, type_rx}
use ai_coding_for_business.TlsTransmit.{
  queue_empty, queue_state, release_buff, xmit, taken, handle, lower, current_or_top, thread_poll,
}

-- A pool with a buffer more.
abbrev pub with_buff : BuffQueue → Buff → BuffQueue
with_buff pool b = record pool { list_buff = pool.list_buff ++ b ∷ [] }

pub release_buff-tx :
    (s : Server) (b : Buff)
    → b.type ≡ type_tx
    → b.priority ≤ pri_7
    → b.buf ≢ null
    → release_buff s b ≡ record s {
      transmit_pool = put s.transmit_pool b.priority (with_buff (s.transmit_pool b.priority) b);
    }
unfolding release_buff
release_buff-tx s b t le ne = ground (arith, release-stored (s.transmit_pool b.priority) b ne)

pub release_buff-rx :
    (s : Server) (b : Buff)
    → b.type ≡ type_rx
    → b.buf ≢ null
    → release_buff s b ≡ record s { recv_pool = with_buff s.recv_pool b }
unfolding release_buff
release_buff-rx s b t ne = ground (arith, release-stored s.recv_pool b ne)

-- Sending touches the list of datagrams and a counter only.
pub xmit-fields :
    (s : Server) (b : Buff) (a : Bool)
    → ((xmit s b a).transmit ≡ s.transmit)
      × ((xmit s b a).transmit_pool ≡ s.transmit_pool)
      × ((xmit s b a).recv_pool ≡ s.recv_pool)
      × ((xmit s b a).receive ≡ s.receive)
unfolding xmit
xmit-fields s b a = (ground arith, ground arith, ground arith, ground arith)

abbrev pub at_queue : Server → ℕ → Server
at_queue s k = record s { transmit = record s.transmit { current = some k } }

-- The server after a round at the queue of priority `k`: from an empty queue only the priority changes,
-- and a message that was taken is sent and released.
pub poll_nil_lem :
    (s : Server) (a : Bool)
    → s.transmit.queues (current_or_top s.transmit) ≡ []
    → thread_poll s a ≡ (
        let s0 = at_queue s (current_or_top s.transmit) in
        record s0 { transmit = lower s0.transmit (current_or_top s.transmit) queue_empty })
unfolding thread_poll handle
poll_nil_lem s a e = ground arith

abbrev pub sent_off : Server → Bool → Buff → List Buff → Server
sent_off s a b bs =
    let k = current_or_top s.transmit in release_buff (xmit (taken (at_queue s k) k bs) b a) b

pub poll_cons_lem :
    (s : Server) (a : Bool) (b : Buff) (bs : List Buff)
    → s.transmit.queues (current_or_top s.transmit) ≡ b ∷ bs
    → thread_poll s a ≡ record (sent_off s a b bs) {
      transmit = lower (sent_off s a b bs).transmit (current_or_top s.transmit) (queue_state bs);
    }
unfolding thread_poll handle
poll_cons_lem s a b bs e = ground arith
