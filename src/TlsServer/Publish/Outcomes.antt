-- ===== src/TlsServer/Publish/Outcomes.antt =====
-- The outcomes of `tls_server_vsoa_publish` of 722device/server/tls_work.c.
use ai_coding_for_business.Common.{
  ℕ, ◌+◌, ◌≤◌, ◌<◌, ◌≡◌, ◌⊎◌, inl, inr, refl, ap, ◌∙◌, arith, true, none, some, List, ◌∷◌, length,
  s_ok, e_allocate,
}
use ai_coding_for_business.TlsBuff.{Buff, BuffQueue}
use ai_coding_for_business.TlsBuff.Memory.{Mem}
use ai_coding_for_business.State.{Server, pri_7, vsoa}
use ai_coding_for_business.TlsTransmit.Push.{pushed, push-started}
use ai_coding_for_business.TlsServer.{acquire_transmit_buff, fill_and_push, tls_buff_size}
use ai_coding_for_business.TlsServer.Buffers.{
  WellFormed, NoBuffer, repooled, nothing, buffer, acquire_transmit_buff-Acquired,
  acquire_transmit_buff-cons, without_head,
}
use ai_coding_for_business.TlsServer.Fill.{
  write_all, stores-Fits, stores-overrun, fill_and_push-filled, fill_and_push-overrun,
}
use ai_coding_for_business.TlsServer.Publish.{
  Url, Payload, payload_size, hdr_stores, by_vsoa, fill_publish, vsoa_publish,
}
use ai_coding_for_business.TlsServer.Publish.Layout.{IsHdr, hdr_stores-IsHdr, hdr_stores-Fits}

-- The bytes that a message takes.
abbrev pub message_room : Url → Payload → ℕ
message_room url p = 48 + length url + length p.param + length p.content

-- The arguments that `tls_server_vsoa_publish` takes on a server that runs.
pub record Publishable (s : Server) (url : Url) (p : Payload) (priority : ℕ) : Type 0 where
  pub some_url : 0 < length url
  pub some_payload : 0 < length p.param + length p.content
  pub known_priority : priority ≤ pri_7
  pub started : s.start ≡ true

-- The server after a message has been taken in.
abbrev pub taken_in : Server → (ℕ → BuffQueue) → Mem → Buff → Server
taken_in s pools m b = record (repooled s pools m) { transmit = pushed s.transmit b }

module _ (s : Server) (url : Url) (p : Payload) (priority : ℕ)
    (h : Publishable s url p priority) where
  publish-guards :
      vsoa_publish s (some url) (some p) priority
      ≡ fill_and_push (acquire_transmit_buff s priority) (fill_publish url p) (λ t. t)
  unfolding vsoa_publish
  publish-guards = ground (arith, h.some_url, h.some_payload, h.started)

  -- The url and the payload have no bound: where the buffer that the pool gives is too short for them,
  -- the call writes beyond its end.
  vsoa_publish-overruns :
      (b : Buff) (bs : List Buff)
      → (s.transmit_pool priority).list_buff ≡ b ∷ bs
      → b.buf_size < message_room url p
      → vsoa_publish s (some url) (some p) priority ≡ none
  unfolding fill_publish
  vsoa_publish-overruns b bs e short =
      let over =
        stores-overrun (hdr_stores b 0 url p) (by_vsoa (payload_size url p) b)
          (λ fits. ground (arith, fits)) in
      publish-guards
      ∙ ap (λ got. fill_and_push got (fill_publish url p) (λ t. t))
          (acquire_transmit_buff-cons s priority b bs h.known_priority e)
      ∙ fill_and_push-overrun (repooled s (without_head s priority bs) s.mem) b (fill_publish url p)
          (λ t. t) over

  abbrev pub published : Buff → Buff
  published b = record b {
    bytes = write_all b.bytes (hdr_stores b 0 url p);
    size = payload_size url p;
    transmode = vsoa;
  }

  -- With room for the message in every buffer: the message is queued, in a buffer of mode VSOA that
  -- holds its header, its url and its payload, or the pool of the priority is empty and memory
  -- refuses one of the two requests for a new buffer.
  pub vsoa_publish-outcomes :
      (room : ℕ)
      → WellFormed room s
      → message_room url p ≤ room
      → room ≤ tls_buff_size
      → s.transmit.start ≡ true
      → ((m : Mem) × (vsoa_publish s (some url) (some p) priority
            ≡ some (e_allocate, repooled s s.transmit_pool m))
          × NoBuffer s priority)
        ⊎ ((b : Buff) × (pools : ℕ → BuffQueue) × (m : Mem) × (vsoa_publish s
                (some url)
                (some p)
                priority
              ≡ some (s_ok, taken_in s pools m b))
            × IsHdr b.bytes 0 url p
            × (b.size ≡ message_room url p)
            × (b.transmode ≡ vsoa))
  unfolding fill_publish fill_and_push
  vsoa_publish-outcomes room w fits small st =
      elim (acquire_transmit_buff-Acquired room priority s w small h.known_priority) [
        | nothing m e none_left ↦ inl (m, publish-guards ∙ rw e refl, none_left)
        | buffer b pools m e (stored, long, type, pri) mode ok ↦
            let filled =
              stores-Fits (hdr_stores b 0 url p) (by_vsoa (payload_size url p) b)
                (hdr_stores-Fits b.bytes b 0 url p b.buf_size (omega arith)) in
            let taken =
              push-started s.transmit (published b) stored (omega arith) (rw pri h.known_priority)
                st in
            inr (
              published b,
              pools,
              m,
              publish-guards
                  ∙ rw e (
                      fill_and_push-filled (repooled s pools m) b (published b) (fill_publish url p)
                        (λ t. t) s_ok (pushed s.transmit (published b)) filled taken),
              hdr_stores-IsHdr b.bytes b 0 url p (omega arith) (omega arith) (omega arith),
              omega arith,
              refl,
            )
      ]
