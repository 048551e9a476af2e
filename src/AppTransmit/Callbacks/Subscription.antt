-- ===== src/AppTransmit/Callbacks/Subscription.antt =====
-- What the transport server of one device publishes, and what the subscription of another one makes of it:
-- 722device/server/tls_work.c and 722device/app/app_transmit.c.
use ai_coding_for_business.Common.{
  ℕ, ◌≤◌, ◌<◌, ◌≡◌, ◌⊎◌, inl, inr, ap, ◌∙◌, arith, true, false, some, List, [], ◌∷◌, ◌++◌, length,
  is_nil, cells, s_ok, e_allocate,
}
use ai_coding_for_business.NetProxy.{cut}
use ai_coding_for_business.NetProxy.Text.{Text, cut-id}
use ai_coding_for_business.TlsBuff.{Buff, BuffQueue}
use ai_coding_for_business.TlsBuff.Memory.{Mem}
use ai_coding_for_business.State.{Server}
use ai_coding_for_business.TlsServer.{tls_buff_size}
use ai_coding_for_business.TlsServer.Buffers.{WellFormed, NoBuffer, repooled}
use ai_coding_for_business.TlsServer.Publish.{Url, Payload, vsoa_publish}
use ai_coding_for_business.TlsServer.Publish.Layout.{IsHdr}
use ai_coding_for_business.TlsServer.Publish.Outcomes.{
  Publishable, message_room, taken_in, vsoa_publish-outcomes,
}
use ai_coding_for_business.AppTransmit.Callbacks.{trim_slash, tls_subscribe_message}

-- A url and the url of the publisher that fit into the arrays.
pub record Short (server_url : List ℕ) (url : Url) : Type 0 where
  pub some_server : is_nil server_url ≡ false
  pub server_room : length server_url < 128
  pub url_room : length url < 128
  pub room : length (trim_slash server_url ++ url) < 128
  pub text : Text url

received :
    (server_url : List ℕ) (f : ℕ → ℕ) (url : Url) (p : Payload)
    → Short server_url url
    → 0 < message_room url p
    → IsHdr f 0 url p
    → tls_subscribe_message server_url f (message_room url p)
      ≡ some ((trim_slash server_url ++ url, p) ∷ [])
unfolding tls_subscribe_message
received server_url f url p short pos hdr =
    let whole : cut (cells f 48 (length url)) ≡ url =
      ap cut hdr.url_bytes ∙ cut-id url short.text in
    ground (
      arith, hdr.url_size, hdr.param_size, hdr.data_size, hdr.param_bytes, hdr.data_bytes, whole,
      short.some_server, short.server_room, short.url_room, short.room,
    )

module _ (s : Server) (url : Url) (p : Payload) (priority : ℕ) where
  -- A message that `tls_server_vsoa_publish` takes in: of the bytes of its buffer, as many as the buffer says, the
  -- subscription of another device publishes the url behind that of its own publisher, with the same
  -- parameters and data, when the urls fit into arrays of 128. Nothing is
  -- taken in only where the pool of the priority is empty and memory refuses one of the two requests for a
  -- new buffer.
  pub publish-subscribe :
      (room : ℕ) (server_url : List ℕ)
      → Publishable s url p priority
      → WellFormed room s
      → message_room url p ≤ room
      → room ≤ tls_buff_size
      → s.transmit.start ≡ true
      → Short server_url url
      → ((m : Mem) × (vsoa_publish s (some url) (some p) priority
            ≡ some (e_allocate, repooled s s.transmit_pool m))
          × NoBuffer s priority)
        ⊎ ((b : Buff) × (pools : ℕ → BuffQueue) × (m : Mem) × (vsoa_publish s
                (some url)
                (some p)
                priority
              ≡ some (s_ok, taken_in s pools m b))
            × (tls_subscribe_message server_url b.bytes b.size
                ≡ some ((trim_slash server_url ++ url, p) ∷ [])))
  publish-subscribe room server_url h w fits small st short =
      elim (vsoa_publish-outcomes s url p priority h room w fits small st) [
        | inl none_left ↦ inl none_left
        | inr (b, pools, m, e, hdr, size, mode) ↦
            inr
              (b, pools, m, e, rw size (received server_url b.bytes url p short (omega arith) hdr))
      ]
