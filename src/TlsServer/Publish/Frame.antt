-- ===== src/TlsServer/Publish/Frame.antt =====
-- The frame of `tls_server_vsoa_publish_transmit` of 722device/server/tls_work.c in a buffer that is too short.
use ai_coding_for_business.Common.{
  ℕ, ◌+◌, ◌%◌, ◌^◌, ◌≤◌, ◌<◌, ◌≡◌, ap, ◌∙◌, arith, true, none, some, List, [], ◌∷◌, ◌++◌, length,
  be16,
}
use ai_coding_for_business.TlsBuff.{Buff}
use ai_coding_for_business.State.{Server, pri_7}
use ai_coding_for_business.TlsServer.{
  send_message, head_stores, content_stores, next_sequence, fill_and_push, head_size, content_size,
}
use ai_coding_for_business.TlsServer.Buffers.{repooled, acquire_transmit_buff-cons, without_head}
use ai_coding_for_business.TlsServer.Fill.{Fits, stores-overrun, fill_and_push-overrun}
use ai_coding_for_business.TlsServer.Publish.{
  Url, Payload, VsoaSession, payload_size, hdr_stores, by_vsoa, session_word, fill_frame,
  publish_transmit_to, with_session, vsoa_publish_transmit,
}

Fits-behind : (n : ℕ) (us ws : List (ℕ × List ℕ)) → Fits n (us ++ ws) → Fits n ws
Fits-behind n [] ws h = h
Fits-behind n (u ∷ us) ws h = Fits-behind n us ws h.1

-- The content of the frame reaches to the end of its room.
content-Fits :
    (n : ℕ) (b : Buff) (url : Url) (p : Payload) (ws : List (ℕ × List ℕ))
    → Fits n (hdr_stores b 53 url p ++ ws)
    → 101 + length url + length p.param + length p.content ≤ n
content-Fits n b url p ws h = omega (arith, h.1.1.1.1.1.1.1.1.0)

module _ (s : Server) (session : VsoaSession) (url : Url) (p : Payload) (b : Buff)
    (bs : List Buff) where
  fill_frame-overruns :
      (addr entry n : ℕ)
      → b.buf_size < 101 + length url + length p.param + length p.content
      → fill_frame s addr entry n url p b ≡ none
  unfolding fill_frame
  fill_frame-overruns addr entry n short =
      stores-overrun
        (head_stores send_message s.sequence
          ++ content_stores s.param session_word addr entry
          ++ hdr_stores b 53 url p
          ++ (51, be16 (payload_size url p)) ∷ [])
        (by_vsoa n b)
        (λ fits.
          let last = (51, be16 (payload_size url p)) ∷ [] in
          let message = hdr_stores b 53 url p ++ last in
          let content = content_stores s.param session_word addr entry in
          let head = head_stores send_message s.sequence in
          let content_end : 101 + length url + length p.param + length p.content ≤ b.buf_size =
            content-Fits b.buf_size b url p last (
              Fits-behind b.buf_size content message
                (Fits-behind b.buf_size head (content ++ message) fits)) in
          omega (arith, content_end))

  -- Nothing compares the size of the message with that of the buffer that the pool gives.
  pub vsoa_publish_transmit-overruns :
      s.start ≡ true
      → session.vsoa_url ≡ some url
      → session.vsoa_payload ≡ some p
      → session.priority ≤ pri_7
      → (s.transmit_pool session.priority).list_buff ≡ b ∷ bs
      → b.buf_size < 101 + length url + length p.param + length p.content
      → vsoa_publish_transmit s (some session) ≡ none
  unfolding vsoa_publish_transmit publish_transmit_to with_session
  vsoa_publish_transmit-overruns st u l le pool short =
      let over =
        fill_frame-overruns session.dest_addr session.dest_entry
          ((head_size + content_size + payload_size url p) % 2 ^ 32) short in
      simp (u, l, st)
        (ap
            (λ got.
              fill_and_push got
                (fill_frame s session.dest_addr session.dest_entry
                  ((head_size + content_size + payload_size url p) % 2 ^ 32) url p)
                next_sequence)
            (acquire_transmit_buff-cons s session.priority b bs le pool)
          ∙ fill_and_push-overrun (repooled s (without_head s session.priority bs) s.mem) b _
              next_sequence over)
