-- ===== src/TlsServer/Publish/Session.antt =====
-- `tls_server_vsoa_publish_transmit` of 722device/server/tls_work.c where the buffers have room for its frame.
use ai_coding_for_business.Common.{
  ℕ, ◌+◌, ◌%◌, ◌^◌, ◌≤◌, ◌≡◌, refl, ◌∙◌, arith, true, some, List, [], ◌∷◌, ◌++◌, length, be16,
  TlsResult, s_ok, e_allocate,
}
use ai_coding_for_business.TlsBuff.{Buff}
use ai_coding_for_business.State.{Server, pri_7, type_tx}
use ai_coding_for_business.TlsTransmit.Push.{
  pushed, push-started, start-pushed, known_current-pushed,
}
use ai_coding_for_business.TlsServer.{
  tls_buff_size, send_message, head_size, content_size, head_stores, content_stores, next_sequence,
  fill_and_push, acquire_transmit_buff,
}
use ai_coding_for_business.TlsServer.Buffers.{
  WellFormed, Usable, repooled, repooled-WellFormed, nothing, buffer, pushed-queues,
  acquire_transmit_buff-Acquired,
}
use ai_coding_for_business.TlsServer.Fill.{
  Fits, Fits-append, stores-Fits, fill_and_push-filled, write_all,
}
use ai_coding_for_business.TlsServer.Publish.{
  Url, Payload, VsoaSession, payload_size, hdr_stores, by_vsoa, session_word, fill_frame,
  publish_transmit_to, with_session, vsoa_publish_transmit,
}
use ai_coding_for_business.TlsServer.Publish.Layout.{hdr_stores-Fits}

-- A server that runs, with its transmitter, and whose buffers have room.
pub record Running (room : ℕ) (s : Server) : Type 0 where
  pub formed : WellFormed room s
  pub started : s.start ≡ true
  pub sending : s.transmit.start ≡ true

-- The bytes of the frame.
abbrev pub frame_size : Url → Payload → ℕ
frame_size url p = 101 + length url + length p.param + length p.content

pub pushed-WellFormed :
    (room : ℕ) (s : Server) (b : Buff) (n : ℕ)
    → WellFormed room s
    → b.priority ≤ pri_7
    → Usable room type_tx b.priority b
    → WellFormed room (record s { sequence = n; transmit = pushed s.transmit b })
pushed-WellFormed room s b n w le u = record {
  pools = w.pools;
  queues = pushed-queues room s b w.queues le u;
  known_current = known_current-pushed s.transmit b le w.known_current;
  recv_pool = w.recv_pool;
  received = w.received;
}

module _ (s : Server) (session : VsoaSession) (url : Url) (p : Payload) where
  abbrev frame_stores : Buff → List (ℕ × List ℕ)
  frame_stores b =
      head_stores send_message s.sequence
      ++ content_stores s.param session_word session.dest_addr session.dest_entry
      ++ hdr_stores b 53 url p
      ++ (51, be16 (payload_size url p)) ∷ []

  frame_stores-Fits : (b : Buff) (n : ℕ) → frame_size url p ≤ n → Fits n (frame_stores b)
  frame_stores-Fits b n fits =
      Fits-append n (head_stores send_message s.sequence)
        (content_stores s.param session_word session.dest_addr session.dest_entry
          ++ hdr_stores b 53 url p
          ++ (51, be16 (payload_size url p)) ∷ [])
        (ground arith)
        (Fits-append n (content_stores s.param session_word session.dest_addr session.dest_entry)
          (hdr_stores b 53 url p ++ (51, be16 (payload_size url p)) ∷ []) (ground arith)
          (Fits-append n (hdr_stores b 53 url p) ((51, be16 (payload_size url p)) ∷ [])
            (hdr_stores-Fits b.bytes b 53 url p n (omega arith)) (ground arith)))

  abbrev frame_length : ℕ
  frame_length = (head_size + content_size + payload_size url p) % 2 ^ 32

  abbrev framed : Buff → Buff
  framed b = record (by_vsoa frame_length b) { bytes = write_all b.bytes (frame_stores b) }

  fill_frame-framed :
      (b : Buff)
      → frame_size url p ≤ b.buf_size
      → fill_frame s session.dest_addr session.dest_entry frame_length url p b ≡ some (framed b)
  unfolding fill_frame
  fill_frame-framed b fits =
      stores-Fits (frame_stores b) (by_vsoa frame_length b) (frame_stores-Fits b b.buf_size fits)

  publish-guards :
      s.start ≡ true
      → session.vsoa_url ≡ some url
      → session.vsoa_payload ≡ some p
      → vsoa_publish_transmit s (some session)
        ≡ fill_and_push
            (acquire_transmit_buff s session.priority)
            (fill_frame s session.dest_addr session.dest_entry frame_length url p)
            next_sequence
  unfolding vsoa_publish_transmit publish_transmit_to with_session
  publish-guards st u l = simp (u, l, st) refl

  -- The call returns and does not write beyond a buffer, and the server is still such a one.
  pub vsoa_publish_transmit-Running :
      (room : ℕ)
      → Running room s
      → frame_size url p ≤ room
      → room ≤ tls_buff_size
      → session.vsoa_url ≡ some url
      → session.vsoa_payload ≡ some p
      → session.priority ≤ pri_7
      → (r : TlsResult) × (s' : Server) × (vsoa_publish_transmit s (some session) ≡ some (r, s'))
        × Running room s'
  unfolding fill_and_push
  vsoa_publish_transmit-Running room w fits small u l le =
      elim (acquire_transmit_buff-Acquired room session.priority s w.formed small le) [
        | nothing m e none_left ↦ (
          e_allocate,
          repooled s s.transmit_pool m,
          publish-guards w.started u l ∙ rw e refl,
          record {
            formed = repooled-WellFormed room s s.transmit_pool m w.formed w.formed.pools;
            started = w.started;
            sending = w.sending;
          },
        )
        | buffer b pools m e (stored, long, type, pri) mode ok ↦
            let after = repooled s pools m in
            let known : b.priority ≤ pri_7 = rw pri le in
            let taken = push-started s.transmit (framed b) stored (omega arith) known w.sending in
            (
              s_ok,
              record (next_sequence after) { transmit = pushed s.transmit (framed b) },
              publish-guards w.started u l
                  ∙ rw e (
                      fill_and_push-filled after b (framed b)
                        (fill_frame s session.dest_addr session.dest_entry frame_length url p)
                        next_sequence s_ok (pushed s.transmit (framed b))
                        (fill_frame-framed b (omega arith)) taken),
              record {
                formed =
                    pushed-WellFormed room after (framed b) ((s.sequence + 1) % 2 ^ 16)
                      (repooled-WellFormed room s pools m w.formed ok) known
                      (stored, long, type, refl);
                started = w.started;
                sending = start-pushed s.transmit (framed b) ∙ w.sending;
              },
            )
      ]
