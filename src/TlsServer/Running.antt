-- ===== src/TlsServer/Running.antt =====
-- The running server of 722device/server: the application that sends, and the threads that send, receive and work,
-- in any order.
use ai_coding_for_business.Common.{
  ℕ, ◌≡◌, inl, inr, sym, ◌∙◌, subst, arith, Bool, true, Option, some, List, TlsResult, e_allocate,
  s_ok,
}
use ai_coding_for_business.State.{Server}
use ai_coding_for_business.TlsTransmit.{thread_poll}
use ai_coding_for_business.TlsServer.{Session, transmit}
use ai_coding_for_business.TlsServer.Buffers.{WellFormed, repooled, repooled-WellFormed}
use ai_coding_for_business.TlsServer.Deliver.{Sendable, frame_room, queued, transmit-outcomes}
use ai_coding_for_business.TlsServer.Invariant.{thread_poll-WellFormed}
use ai_coding_for_business.TlsServer.Receive.{receive_round, work_poll}
use ai_coding_for_business.TlsServer.Receive.Rounds.{receive_round-WellFormed, work_poll-WellFormed}

-- A message that the application sends, or a round of a thread.
pub data Round (s : Server) : Server → Type 0 where
  takes :
      (session : Session) (payload : List ℕ) (r : TlsResult) (s' : Server)
      → Sendable s session payload
      → s.transmit.start ≡ true
      → transmit s (some session) (some payload) ≡ some (r, s')
      → Round s s'
  sends : (answer : Bool) → Round s (thread_poll s answer)
  receives : (d : Option (List ℕ)) (s' : Server) → receive_round s d ≡ some s' → Round s s'
  works : Round s (work_poll s)

pub data Rounds (s : Server) : Server → Type 0 where
  here : Rounds s s
  next : (t u : Server) → Rounds s t → Round t u → Rounds s u

transmit-WellFormed :
    (s : Server) (session : Session) (payload : List ℕ) (r : TlsResult) (s' : Server)
    → WellFormed frame_room s
    → Sendable s session payload
    → s.transmit.start ≡ true
    → transmit s (some session) (some payload) ≡ some (r, s')
    → WellFormed frame_room s'
transmit-WellFormed s session payload r s' w h st run =
    elim (transmit-outcomes s session payload w h st) [
      | inl (m, e, none_left) ↦
          subst (WellFormed frame_room)
            (second (e_allocate, repooled s s.transmit_pool m) (r, s') (sym e ∙ run))
            (repooled-WellFormed frame_room s s.transmit_pool m w w.pools)
      | inr (b, pools, m, e, message, usable, mode, ok) ↦
          subst (WellFormed frame_room) (second (s_ok, queued s pools m b) (r, s') (sym e ∙ run)) ok
    ]
  where
    second : (x y : TlsResult × Server) → some x ≡ some y → x.1 ≡ y.1
    second x y h = cc

Round-WellFormed : (s s' : Server) → Round s s' → WellFormed frame_room s → WellFormed frame_room s'
Round-WellFormed s _ (takes session payload r s' h st run) w =
    transmit-WellFormed s session payload r s' w h st run
Round-WellFormed s _ (sends answer) w = thread_poll-WellFormed frame_room s answer w
Round-WellFormed s _ (receives d s' run) w =
    let (s1, e, ok) = receive_round-WellFormed frame_room s d w (omega arith) in
    subst (WellFormed frame_room) (some-inj s1 s' (sym e ∙ run)) ok
  where
    some-inj : (x y : Server) → some x ≡ some y → x ≡ y
    some-inj x y h = cc
Round-WellFormed s _ works w = work_poll-WellFormed frame_room s w

-- From a server whose buffers have room for a frame, have their priority and are where buffers of their kind belong,
-- the application and the three threads run in any order. Then the buffers are still so; a round of the
-- receiving thread has an outcome whatever comes in; and so has the sending of a message that the
-- application may send, which does not write beyond a buffer.
pub Rounds-WellFormed :
    (s s' : Server) (d : Option (List ℕ)) (session : Session) (payload : List ℕ)
    → Rounds s s'
    → WellFormed frame_room s
    → Sendable s' session payload
    → s'.transmit.start ≡ true
    → WellFormed frame_room s'
      × ((t : Server) × (receive_round s' d ≡ some t))
      × ((r : TlsResult) × (t : Server) × (transmit s' (some session) (some payload) ≡ some (r, t)))
Rounds-WellFormed s s' d session payload rounds w0 h st =
    let w = through s s' rounds w0 in
    let (t, e, ok) = receive_round-WellFormed frame_room s' d w (omega arith) in
    (
      w,
      (t, e),
      elim (transmit-outcomes s' session payload w h st) [
        | inl (m, e, none_left) ↦ (e_allocate, repooled s' s'.transmit_pool m, e)
        | inr (b, pools, m, e, message, usable, mode, ok) ↦ (s_ok, queued s' pools m b, e)
      ],
    )
  where
    through : (s s' : Server) → Rounds s s' → WellFormed frame_room s → WellFormed frame_room s'
    through s _ here w = w
    through s _ (next t s' before round) w = Round-WellFormed t s' round (through s t before w)
