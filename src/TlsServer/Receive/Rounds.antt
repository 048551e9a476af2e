-- ===== src/TlsServer/Receive/Rounds.antt =====
-- The invariant of the server's buffers through the rounds of the receiving thread of
-- 722device/server/tls_receive.c and of the working thread of tls_server.c.
use ai_coding_for_business.Common.{
  if-holds, if◌then◌else◌, sym, subst, List-cases, ℕ, ◌≤◌, ◌≡◌, ◌≢◌, inl, inr, refl, arith, Bool,
  true, false, Option, none, some, List, [], ◌∷◌, ◌++◌, ◌==◌, ◌||◌, TlsResult, s_ok, e_invalid_data,
  length, take, write,
}
use ai_coding_for_business.TlsBuff.{Buff}
use ai_coding_for_business.TlsBuff.Pool.{acquire-nil, acquire-cons}
use ai_coding_for_business.TlsBuff.Create.{create-outcomes}
use ai_coding_for_business.TlsBuff.Memory.{null}
use ai_coding_for_business.State.{Server, type_rx}
use ai_coding_for_business.TlsTransmit.{release_buff}
use ai_coding_for_business.TlsTransmit.Poll.{with_buff, release_buff-rx}
use ai_coding_for_business.TlsServer.{
  tls_buff_size, acquire_recv_buff, server_active, server_deactive,
}
use ai_coding_for_business.TlsServer.Buffers.{WellFormed, Usable, AllUsable, AllUsable-append}
use ai_coding_for_business.TlsServer.Receive.{
  parsed_calls, receive_push, receive_pop, receive_into, receive_round, parsedata, work_poll,
}

-- The sending side is as it was, and the receiving side has fit buffers.
received-WellFormed :
    (room : ℕ) (s t : Server)
    → WellFormed room s
    → t.transmit ≡ s.transmit
    → t.transmit_pool ≡ s.transmit_pool
    → AllUsable room type_rx 0 t.recv_pool.list_buff
    → AllUsable room type_rx 0 t.receive.queue
    → WellFormed room t
received-WellFormed room s t w a b c d = record {
  pools = rw b w.pools;
  queues = rw a w.queues;
  known_current = rw a w.known_current;
  recv_pool = c;
  received = d;
}

event-WellFormed :
    (room : ℕ) (s : Server) (e : Bool)
    → WellFormed room s
    → WellFormed room (record s { evt_work_loop = e })
event-WellFormed room s e w =
    received-WellFormed room s (record s { evt_work_loop = e }) w refl refl w.recv_pool w.received

active-WellFormed : (room : ℕ) (s : Server) → WellFormed room s → WellFormed room (server_active s)
unfolding server_active
active-WellFormed room s w =
    if-holds (WellFormed room) s.start (record s { evt_work_loop = true }) s
      (event-WellFormed room s true w) w

deactive-WellFormed :
    (room : ℕ) (s : Server) → WellFormed room s → WellFormed room (server_deactive s)
unfolding server_deactive
deactive-WellFormed room s w =
    if-holds (WellFormed room) s.start (record s { evt_work_loop = false }) s
      (event-WellFormed room s false w) w

module _ (room : ℕ) (s : Server) (b : Buff) (w : WellFormed room s)
    (u : Usable room type_rx 0 b) where
  release-received : WellFormed room (release_buff s b)
  release-received = rw (release_buff-rx s b u.2 u.0) (
      received-WellFormed room s (record s { recv_pool = with_buff s.recv_pool b }) w refl refl
        (AllUsable-append room type_rx 0 s.recv_pool.list_buff b w.recv_pool u) w.received)

  push-received : WellFormed room (receive_push s b)
  unfolding receive_push
  push-received =
      let s0 = record s { receive = record s.receive { queue = s.receive.queue ++ b ∷ [] } } in
      let queue = AllUsable-append room type_rx 0 s.receive.queue b w.received u in
      active-WellFormed room s0 (received-WellFormed room s s0 w refl refl w.recv_pool queue)

pub receive_into-WellFormed :
    (room : ℕ) (s : Server) (b : Buff) (d : Option (List ℕ))
    → WellFormed room s
    → Usable room type_rx 0 b
    → WellFormed room (receive_into s b d)
unfolding receive_into
receive_into-WellFormed room s b none w u = release-received room s b w u
receive_into-WellFormed room s b (some d) w u =
    let ds = take b.buf_size d in
    let landed = record b { size = length ds; bytes = write b.bytes 0 ds } in
    if-holds (WellFormed room) (length ds == 0) (release_buff s b) (receive_push s landed)
      (release-received room s b w u) (push-received room s landed w u)

-- A round of the receiving thread has always an outcome, whatever comes in and whichever requests for
-- memory are granted, and it keeps the invariant.
pub receive_round-WellFormed :
    (room : ℕ) (s : Server) (d : Option (List ℕ))
    → WellFormed room s
    → room ≤ tls_buff_size
    → (s' : Server) × (receive_round s d ≡ some s') × WellFormed room s'
unfolding receive_round acquire_recv_buff
receive_round-WellFormed room s d w fits = elim (List-cases s.recv_pool.list_buff) [
  | inl e ↦ elim (create-outcomes tls_buff_size type_rx s.mem (omega arith)) [
    | inl (m, c, l, refused) ↦ (
      record s { mem = m },
      ground (arith, acquire-nil s.recv_pool e, c),
      received-WellFormed room s (record s { mem = m }) w refl refl w.recv_pool w.received,
    )
    | inr (b, m, c, l, (stored, size, type, mode, pri)) ↦ (
      receive_into (record s { mem = m }) b d,
      ground (arith, acquire-nil s.recv_pool e, c),
      receive_into-WellFormed room (record s { mem = m }) b d
          (received-WellFormed room s (record s { mem = m }) w refl refl w.recv_pool w.received)
          (stored, rw size fits, type, pri),
    )
  ]
  | inr (b, bs, e) ↦
      let all : AllUsable room type_rx 0 (b ∷ bs) =
        subst (λ l. AllUsable room type_rx 0 l) e w.recv_pool in
      let s0 = record s { recv_pool = record s.recv_pool { list_buff = bs } } in
      (
        receive_into s0 b d,
        ground (arith, acquire-cons s.recv_pool b bs e),
        receive_into-WellFormed room s0 b d
            (received-WellFormed room s s0 w refl refl all.1 w.received) all.0,
      )
]

-- The queue without its first buffer.
abbrev popped : Server → List Buff → Server
popped s bs = record s { receive = record s.receive { queue = bs } }

poll_nil : (s : Server) → s.receive.queue ≡ [] → work_poll s ≡ server_deactive s
unfolding work_poll receive_pop
poll_nil s e = ground arith

poll_cons :
    (s : Server) (b : Buff) (bs : List Buff)
    → s.receive.queue ≡ b ∷ bs
    → b.buf ≢ null
    → work_poll s ≡ (
        if b.size == 0
        then server_deactive (popped s bs)
        else release_buff (parsedata (popped s bs) (some b)).1 b)
unfolding work_poll receive_pop
poll_cons s b bs e ne = ground arith

parsedata-WellFormed :
    (room : ℕ) (s : Server) (b : Buff)
    → WellFormed room s
    → WellFormed room (parsedata s (some b)).1
unfolding parsedata
parsedata-WellFormed room s b w =
    let told = record s { calls = s.calls ++ parsed_calls s b } in
    if-holds (λ (r : TlsResult × Server). WellFormed room r.1) ((b.buf == null) || (b.size == 0))
      (e_invalid_data, s) (s_ok, told) w
      (received-WellFormed room s told w refl refl w.recv_pool w.received)

-- A round of the working thread keeps the invariant.
pub work_poll-WellFormed :
    (room : ℕ) (s : Server) → WellFormed room s → WellFormed room (work_poll s)
work_poll-WellFormed room s w = elim (List-cases s.receive.queue) [
  | inl e ↦ subst (WellFormed room) (sym (poll_nil s e)) (deactive-WellFormed room s w)
  | inr (b, bs, e) ↦
      let all : AllUsable room type_rx 0 (b ∷ bs) =
        subst (λ l. AllUsable room type_rx 0 l) e w.received in
      let w0 : WellFormed room (popped s bs) =
        received-WellFormed room s (popped s bs) w refl refl w.recv_pool all.1 in
      subst (WellFormed room) (sym (poll_cons s b bs e all.0.0)) (
        if-holds (WellFormed room) (b.size == 0) (server_deactive (popped s bs))
          (release_buff (parsedata (popped s bs) (some b)).1 b)
          (deactive-WellFormed room (popped s bs) w0)
          (release-received room (parsedata (popped s bs) (some b)).1 b
            (parsedata-WellFormed room (popped s bs) b w0) all.0))
]
