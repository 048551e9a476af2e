-- ===== src/TlsServer/Receive/Relay.antt =====
-- A message of one server as another one receives it: `tls_server_transmit` and the receiving side of
-- 722device/server, with the communication service between them.
use ai_coding_for_business.Common.{
  subst, ℕ, ◌+◌, ◌*◌, ◌-◌, ◌≤◌, ◌<◌, ◌≡◌, ◌≢◌, refl, ap, ap₂, ◌∙◌, arith, true, some, List, [], ◌∷◌,
  ◌++◌, length, get_or, take-all, write, write-get_or, cells, cells_congr, u16_at,
}
use ai_coding_for_business.TlsBuff.{Buff}
use ai_coding_for_business.TlsBuff.Memory.{null}
use ai_coding_for_business.State.{Server, received}
use ai_coding_for_business.TlsTransmit.Drain.{calls-release_buff}
use ai_coding_for_business.TlsServer.{Session, recv_message}
use ai_coding_for_business.TlsServer.Receive.{
  min, receive_call, parsed_calls, parsedata, receive_push, receive_pop, receive_into, work_poll,
}
use ai_coding_for_business.TlsServer.Message.{IsMessage}

-- What the communication service makes of a frame: a datagram of the same length and of type RECV, which
-- agrees with the frame from the field `size` on.
pub record Relayed (b : Buff) (d : List ℕ) : Type 0 where
  pub same_length : length d ≡ b.size
  pub recv_type : get_or d 1 0 ≡ recv_message
  pub same_bytes : (i : ℕ) → 51 ≤ i → i < b.size → get_or d i 0 ≡ b.bytes i

module _ (s : Server) (session : Session) (payload : List ℕ) (b r : Buff) (d : List ℕ)
    (i : IsMessage s session payload b) (short : length payload ≤ 1024) (rel : Relayed b d)
    (room : b.size ≤ r.buf_size) where
  abbrev landed : Buff
  landed = record r { size = length d; bytes = write r.bytes 0 d }

  landed_byte : (j : ℕ) → j < b.size → landed.bytes j ≡ get_or d j 0
  landed_byte j h =
      let from_start : 0 + j ≡ j = omega arith in
      subst (λ k. write r.bytes 0 d k ≡ get_or d j 0) from_start
        (write-get_or r.bytes 0 d j (omega (arith, rel.same_length)))

  landed_same : (j : ℕ) → 51 ≤ j → j < b.size → landed.bytes j ≡ b.bytes j
  landed_same j lo hi = landed_byte j hi ∙ rel.same_bytes j lo hi

  landed_type : landed.bytes 1 ≡ recv_message
  landed_type = landed_byte 1 (omega (arith, i.size)) ∙ rel.recv_type

  landed_size : u16_at landed.bytes 51 ≡ length payload
  landed_size =
      ap₂ (λ x y. x * 256 + y) (landed_same 51 (omega arith) (omega (arith, i.size)))
        (landed_same 52 (omega arith) (omega (arith, i.size)))
      ∙ i.length_field
      ∙ omega arith

  landed_payload : cells landed.bytes 53 (length payload) ≡ payload
  landed_payload =
      cells_congr landed.bytes b.bytes 53 (length payload)
        (λ j lo hi. landed_same j (omega arith) (omega (arith, i.size)))
      ∙ i.payload_field

  landed_call : receive_call landed ≡ received (length payload) payload
  landed_call =
      let all : min (length payload) (r.buf_size - 53) ≡ length payload = ground (arith, i.size) in
      rw (landed_size, all, landed_payload) refl

  landed_calls :
      (peer : Server)
      → peer.param.on_receive ≡ true
      → parsed_calls peer landed ≡ received (length payload) payload ∷ []
  unfolding parsed_calls
  landed_calls peer on = ground (arith, landed_type, landed_call)

  parse_landed :
      (peer : Server)
      → peer.param.on_receive ≡ true
      → r.buf ≢ null
      → (parsedata peer (some landed)).1.calls
        ≡ peer.calls ++ received (length payload) payload ∷ []
  unfolding parsedata
  parse_landed peer on ne = ground (arith, landed_calls peer on, rel.same_length, i.size)

  poll_landed :
      (peer : Server)
      → peer.param.on_receive ≡ true
      → r.buf ≢ null
      → peer.receive.queue ≡ landed ∷ []
      → (work_poll peer).calls ≡ peer.calls ++ received (length payload) payload ∷ []
  unfolding work_poll receive_pop
  poll_landed peer on ne e =
      let rest = record peer { receive = record peer.receive { queue = [] } } in
      ground (
        arith,
        parse_landed rest on ne,
        calls-release_buff (parsedata rest (some landed)).1 landed,
        rel.same_length,
        i.size,
      )

  into_landed : (peer : Server) → receive_into peer r (some d) ≡ receive_push peer landed
  unfolding receive_into
  into_landed peer =
      ground
        (arith, take-all r.buf_size d (omega (arith, rel.same_length)), rel.same_length, i.size)

  pushed_landed :
      (peer : Server)
      → peer.receive.queue ≡ []
      → ((receive_push peer landed).receive.queue ≡ landed ∷ [])
        × ((receive_push peer landed).param.on_receive ≡ peer.param.on_receive)
        × ((receive_push peer landed).calls ≡ peer.calls)
  unfolding receive_push
  pushed_landed peer e = (ground (arith), ground arith, ground arith)

  -- The buffer that a datagram has been received into, and the server's work on it: of a frame of
  -- `tls_server_transmit`, relayed, the receiving server's application is told the payload and its
  -- size, and nothing else.
  pub message-received :
      (peer : Server)
      → peer.param.on_receive ≡ true
      → peer.receive.queue ≡ []
      → r.buf ≢ null
      → (work_poll (receive_into peer r (some d))).calls
        ≡ peer.calls ++ received (length payload) payload ∷ []
  message-received peer on none_waits ne =
      let (waits, same, told) = pushed_landed peer none_waits in
      rw (into_landed peer) (
        poll_landed (receive_push peer landed) (same ∙ on) ne waits
        ∙ ap (λ c. c ++ received (length payload) payload ∷ []) told)
