-- ===== src/TlsServer/Deliver.antt =====
-- `tls_server_transmit` of 722device/server/tls_work.c from its buffer to the socket.
use ai_coding_for_business.Common.{
  ℕ, ◌+◌, ◌%◌, ◌^◌, ◌≤◌, ◌<◌, ◌≡◌, ◌⊎◌, inl, inr, append-nil, refl, sym, ap, ◌∙◌, arith, Bool, true,
  false, some, List, [], ◌∷◌, ◌++◌, length, s_ok, e_allocate,
}
use ai_coding_for_business.TlsBuff.{Buff, BuffQueue}
use ai_coding_for_business.TlsBuff.Memory.{Mem}
use ai_coding_for_business.State.{Server, pri_7, type_tx, udp, vsoa}
use ai_coding_for_business.TlsTransmit.{thread_work}
use ai_coding_for_business.TlsTransmit.Push.{
  pushed, push-started, queues-pushed, run-pushed, awake-pushed, current-pushed,
  known_current-pushed,
}
use ai_coding_for_business.TlsTransmit.Drain.{
  datagrams, datagrams-udp, datagrams-vsoa, backlog, backlog-single, thread_work-Drained,
}
use ai_coding_for_business.TlsServer.{
  Session, transmit, fill_message, fill_and_push, acquire_transmit_buff, next_sequence,
}
use ai_coding_for_business.TlsServer.Buffers.{
  WellFormed, Usable, NoBuffer, repooled, nothing, buffer, acquire_transmit_buff-Acquired,
  pushed-queues, next_mode,
}
use ai_coding_for_business.TlsServer.Fill.{fill_and_push-filled}
use ai_coding_for_business.TlsServer.Message.{IsMessage, full, fill_message-IsMessage}

-- The arguments that `tls_server_transmit` takes on a server that runs.
pub record Sendable (s : Server) (session : Session) (payload : List ℕ) : Type 0 where
  pub id_ends : length session.session_id ≤ 15
  pub some_payload : 0 < length payload
  pub short_payload : length payload ≤ 1024
  pub known_priority : session.priority ≤ pri_7
  pub started : s.start ≡ true

-- Room for the largest frame.
abbrev pub frame_room : ℕ
frame_room = 1077

-- The server after a message has been taken in.
abbrev pub queued : Server → (ℕ → BuffQueue) → Mem → Buff → Server
queued s pools m b = record (repooled s pools m) {
  sequence = (s.sequence + 1) % 2 ^ 16;
  transmit = pushed s.transmit b;
}

-- The message of a buffer that has been acquired.
abbrev pub filled : Server → Session → List ℕ → Buff → Buff
filled s session payload b = record b {
  bytes = full s session payload b;
  size = 53 + length payload;
}

module _ (s : Server) (session : Session) (payload : List ℕ) (w : WellFormed frame_room s)
    (h : Sendable s session payload) where
  transmit-guards :
      transmit s (some session) (some payload)
      ≡ fill_and_push
          (acquire_transmit_buff s session.priority)
          (fill_message s session payload)
          next_sequence
  unfolding transmit
  transmit-guards = ground (arith, h.some_payload, h.short_payload, h.started)

  push-filled :
      (b : Buff) (pools : ℕ → BuffQueue) (m : Mem)
      → Usable frame_room type_tx session.priority b
      → s.transmit.start ≡ true
      → fill_and_push
          (some (some b, repooled s pools m))
          (fill_message s session payload)
          next_sequence
        ≡ some (s_ok, queued s pools m (filled s session payload b))
  push-filled b pools m (stored, room, type, pri) st =
      let (f, i) =
        fill_message-IsMessage s session payload b h.id_ends (omega (arith, h.short_payload)) in
      let p =
        push-started s.transmit (filled s session payload b) stored (omega arith)
          (rw pri h.known_priority) st in
      fill_and_push-filled (repooled s pools m) b (filled s session payload b)
        (fill_message s session payload) next_sequence s_ok
        (pushed s.transmit (filled s session payload b)) f p

  -- On a server whose buffers have room for the largest frame, a message of 1 to 1024 bytes of a known priority: it is
  -- queued behind those of its priority, in a buffer that holds its frame, whether that comes from the
  -- pool or is new. Or the call fails, which happens only where the pool of the priority is empty and
  -- memory refuses one of the two requests for a new buffer.
  pub transmit-outcomes :
      s.transmit.start ≡ true
      → ((m : Mem) × (transmit s (some session) (some payload)
            ≡ some (e_allocate, repooled s s.transmit_pool m))
          × NoBuffer s session.priority)
        ⊎ ((b : Buff) × (pools : ℕ → BuffQueue) × (m : Mem) × (transmit s
                (some session)
                (some payload)
              ≡ some (s_ok, queued s pools m b))
            × IsMessage s session payload b
            × Usable frame_room type_tx session.priority b
            × (b.transmode ≡ next_mode (s.transmit_pool session.priority))
            × WellFormed frame_room (queued s pools m b))
  unfolding fill_and_push
  transmit-outcomes st =
      elim (acquire_transmit_buff-Acquired frame_room session.priority s w (omega arith)
        h.known_priority) [
          | nothing m e none_left ↦ inl (m, transmit-guards ∙ rw e refl, none_left)
          | buffer b pools m e u mode ok ↦ inr (
            filled s session payload b,
            pools,
            m,
            transmit-guards ∙ rw e (push-filled b pools m u st),
            (fill_message-IsMessage s session payload b h.id_ends
                (omega (arith, h.short_payload, u.1))).1,
            u,
            mode,
            record {
              pools = ok;
              queues =
                  pushed-queues frame_room s (filled s session payload b) w.queues
                    (rw u.3 h.known_priority) (u.0, u.1, u.2, refl);
              known_current =
                  known_current-pushed s.transmit (filled s session payload b)
                    (rw u.3 h.known_priority) w.known_current;
              recv_pool = w.recv_pool;
              received = w.received;
            },
          )
        ]

-- The thread is up to date: it runs, and no message waits.
pub record Quiet (s : Server) : Type 0 where
  pub sending : s.transmit.start ≡ true
  pub running : s.transmit.run ≡ true
  pub nothing_waits : (p : ℕ) → s.transmit.queues p ≡ []

-- The sending thread, after a message has been queued, sends that message and sleeps again.
pub queued-sent :
    (fuel : ℕ) (net : ℕ → Bool) (s : Server) (pools : ℕ → BuffQueue) (m : Mem) (b : Buff)
    → Quiet s
    → ((c : ℕ) → s.transmit.current ≡ some c → c ≤ pri_7)
    → b.priority ≤ pri_7
    → 10 ≤ fuel
    → (s' : Server) × (thread_work fuel net (queued s pools m b) ≡ some s')
      × (s'.wire ≡ s.wire ++ datagrams (b ∷ []))
      × (s'.transmit.evt_loop ≡ false)
queued-sent fuel net s pools m b q cur le f =
    let (k, at, low, high) = current-pushed s.transmit b le cur in
    let t = pushed s.transmit b in
    let all : backlog t.queues k ≡ b ∷ [] =
      backlog-single t.queues b.priority k b
        (λ p ne. rw (queues-pushed s.transmit b) (ground (arith, q.nothing_waits p)))
        (rw (queues-pushed s.transmit b) (ground (arith, q.nothing_waits b.priority))) low in
    let (s', e, d) =
      thread_work-Drained fuel net (queued s pools m b) k (run-pushed s.transmit b ∙ q.running)
        (awake-pushed s.transmit b) at (rw all (omega arith)) in
    (s', e, d.sent ∙ ap (λ l. s.wire ++ datagrams l) all, d.asleep)

-- From a server where no message waits: a message of at most 1024 bytes is taken in, and the thread sends
-- the frame of that message, when the buffer that the pool gives was last sent by UDP or is new. The
-- call fails only where the pool of the priority is empty and memory refuses one of the two requests
-- for a new buffer.
pub transmit-Sends :
    (s : Server) (session : Session) (payload : List ℕ) (fuel : ℕ) (net : ℕ → Bool)
    → WellFormed frame_room s
    → Sendable s session payload
    → Quiet s
    → next_mode (s.transmit_pool session.priority) ≡ udp
    → 10 ≤ fuel
    → ((m : Mem) × (transmit s (some session) (some payload)
          ≡ some (e_allocate, repooled s s.transmit_pool m))
        × NoBuffer s session.priority)
      ⊎ ((b : Buff) × (s1 : Server) × (s2 : Server) × (transmit s (some session) (some payload)
            ≡ some (s_ok, s1))
          × (thread_work fuel net s1 ≡ some s2)
          × (s2.wire ≡ s.wire ++ b ∷ [])
          × IsMessage s session payload b)
transmit-Sends s session payload fuel net w h q mode f =
    elim (transmit-outcomes s session payload w h q.sending) [
      | inl e ↦ inl e
      | inr (b, pools, m, e, i, u, same, w') ↦
          let (s2, run, sent, asleep) =
            queued-sent fuel net s pools m b q w.known_current (rw u.3 h.known_priority) f in
          inr (
            b,
            queued s pools m b,
            s2,
            e,
            run,
            sent ∙ ap (λ l. s.wire ++ l) (datagrams-udp b (same ∙ mode)),
            i,
          )
    ]

next_mode-nil : (pool : BuffQueue) → pool.list_buff ≡ [] → next_mode pool ≡ udp
next_mode-nil pool e = rw e refl

-- From a server where no message waits, and where the next buffer of the pool was last used for a message of the
-- VSOA bus: of a message of at most 1024 bytes the call reports success, the thread goes through its queues
-- and ends, and nothing is sent.
pub transmit-drops :
    (s : Server) (session : Session) (payload : List ℕ) (fuel : ℕ) (net : ℕ → Bool)
    → WellFormed frame_room s
    → Sendable s session payload
    → Quiet s
    → next_mode (s.transmit_pool session.priority) ≡ vsoa
    → 10 ≤ fuel
    → (s1 : Server) × (s2 : Server) × (transmit s (some session) (some payload) ≡ some (s_ok, s1))
      × (thread_work fuel net s1 ≡ some s2)
      × (s2.wire ≡ s.wire)
transmit-drops s session payload fuel net w h q mode f =
    elim (transmit-outcomes s session payload w h q.sending) [
      | inl (m, e, none_left) ↦
          absurd
            (omega (arith, sym mode ∙ next_mode-nil (s.transmit_pool session.priority) none_left.0))
      | inr (b, pools, m, e, i, u, same, w') ↦
          let (s2, run, sent, asleep) =
            queued-sent fuel net s pools m b q w.known_current (rw u.3 h.known_priority) f in
          (
            queued s pools m b,
            s2,
            e,
            run,
            sent ∙ ap (λ l. s.wire ++ l) (datagrams-vsoa b (same ∙ mode)) ∙ append-nil s.wire,
          )
    ]
