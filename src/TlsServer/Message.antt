-- ===== src/TlsServer/Message.antt =====
-- The frame that `tls_server_transmit` of 722device/server/tls_work.c builds, field by field.
use ai_coding_for_business.Common.{
  ℕ, suc, ◌+◌, ◌/◌, ◌%◌, ◌≤◌, ◌<◌, ◌≡◌, inl, refl, ◌∙◌, arith, some, List, [], ◌∷◌, ◌++◌, length,
  length-append, write, write-outside, cells, cells_congr, cells-write, cells-write_prefix,
  write-behind, u16_at, u32_at, be16, u16_at-be16, u32_at-be32,
}
use ai_coding_for_business.TlsBuff.{Buff}
use ai_coding_for_business.State.{Server}
use ai_coding_for_business.TlsServer.{
  Session, fill_message, head_stores, content_stores, send_message,
}
use ai_coding_for_business.TlsServer.Fill.{write_all, Fits, stores-Fits}

u16_lem :
    (f : ℕ → ℕ) (off n : ℕ)
    → f off ≡ n / 256 % 256
    → f (suc off) ≡ n % 256
    → u16_at f off ≡ n % 65536
u16_lem f off n a b = rw (a, b) (u16_at-be16 n)

u32_lem :
    (f : ℕ → ℕ) (off n : ℕ)
    → f off ≡ n / 16777216 % 256
    → f (suc off) ≡ n / 65536 % 256
    → f (suc (suc off)) ≡ n / 256 % 256
    → f (suc (suc (suc off))) ≡ n % 256
    → u32_at f off ≡ n % 4294967296
u32_lem f off n a b c d = rw (a, b, c, d) (u32_at-be32 n)

-- A buffer that holds the message of a session with these bytes, as tls_protocol.h lays it out: the
-- numbers are read in network byte order.
pub record IsMessage (s : Server) (session : Session) (payload : List ℕ) (b : Buff) : Type 0 where
  pub size : b.size ≡ 53 + length payload
  pub version : b.bytes 0 ≡ 0
  pub type : b.bytes 1 ≡ send_message
  pub sequence : u16_at b.bytes 6 ≡ s.sequence % 65536
  pub id : cells b.bytes 8 (length session.session_id) ≡ session.session_id
  pub id_end : b.bytes (8 + length session.session_id) ≡ 0
  pub src_addr : u32_at b.bytes 25 ≡ s.param.local_id % 4294967296
  pub src_entry : u16_at b.bytes 29 ≡ s.param.local_sub_id % 65536
  pub dst_count : u16_at b.bytes 31 ≡ 1
  pub dst_addr : u32_at b.bytes 33 ≡ session.remote_id % 4294967296
  pub dst_entry : u16_at b.bytes 37 ≡ session.remote_sub_id % 65536
  pub length_field : u16_at b.bytes 51 ≡ length payload % 65536
  pub payload_field : cells b.bytes 53 (length payload) ≡ payload

module _ (s : Server) (session : Session) (payload : List ℕ) (b : Buff) where
  abbrev id : List ℕ
  id = session.session_id

  abbrev message_stores : List (ℕ × List ℕ)
  message_stores =
      head_stores send_message s.sequence
      ++ content_stores s.param id session.remote_id session.remote_sub_id
      ++ (51, be16 (length payload)) ∷ (53, payload) ∷ []

  -- The storage once the head is written, with the id, with all but the payload, and complete.
  abbrev headed : ℕ → ℕ
  headed = write_all b.bytes (head_stores send_message s.sequence)

  abbrev named : ℕ → ℕ
  named = write headed 8 (id ++ 0 ∷ [])

  abbrev framed : ℕ → ℕ
  framed =
      write_all
        (write_all headed (content_stores s.param id session.remote_id session.remote_sub_id))
        ((51, be16 (length payload)) ∷ [])

  abbrev pub full : ℕ → ℕ
  full = write framed 53 payload

  full-below : (j : ℕ) → j < 53 → full j ≡ framed j
  full-below j h = write-outside framed 53 payload j (inl h)

  named-below : (j : ℕ) → j < 24 → framed j ≡ named j
  named-below j h = ground arith

  full-head : (j : ℕ) → j < 8 → full j ≡ headed j
  full-head j h =
      full-below j (omega arith)
      ∙ named-below j (omega arith)
      ∙ write-outside headed 8 (id ++ 0 ∷ []) j (inl h)

  id-full : length id ≤ 15 → cells full 8 (length id) ≡ id
  id-full h =
      cells_congr full named 8 (length id)
        (λ j lo hi. full-below j (omega arith) ∙ named-below j (omega arith))
      ∙ cells-write_prefix headed 8 id (0 ∷ [])

  id_end-full : length id ≤ 15 → full (8 + length id) ≡ 0
  id_end-full h =
      full-below (8 + length id) (omega arith)
      ∙ named-below (8 + length id) (omega arith)
      ∙ write-behind headed 8 id 0 []

  u16-full :
      (off n : ℕ)
      → off < 52
      → framed off ≡ n / 256 % 256
      → framed (suc off) ≡ n % 256
      → u16_at full off ≡ n % 65536
  u16-full off n h a b =
      u16_lem full off n (full-below off (omega arith) ∙ a) (full-below (suc off) (omega arith) ∙ b)

  u32-full :
      (off n : ℕ)
      → off < 50
      → framed off ≡ n / 16777216 % 256
      → framed (suc off) ≡ n / 65536 % 256
      → framed (suc (suc off)) ≡ n / 256 % 256
      → framed (suc (suc (suc off))) ≡ n % 256
      → u32_at full off ≡ n % 4294967296
  u32-full off n h a b c d =
      u32_lem full off n (full-below off (omega arith) ∙ a) (full-below (suc off) (omega arith) ∙ b)
        (full-below (suc (suc off)) (omega arith) ∙ c)
        (full-below (suc (suc (suc off))) (omega arith) ∙ d)

  -- The message fits into a buffer of that many bytes.
  message_stores-Fits :
      length id ≤ 15 → 53 + length payload ≤ b.buf_size → Fits b.buf_size message_stores
  message_stores-Fits h k = ground (arith, length-append id (0 ∷ []))

  full-IsMessage :
      length id ≤ 15
      → IsMessage s session payload (record b { bytes = full; size = 53 + length payload })
  full-IsMessage h = record {
    size = refl;
    version = full-head 0 (omega arith);
    type = full-head 1 (omega arith);
    sequence = u16_lem full 6 s.sequence (full-head 6 (omega arith)) (full-head 7 (omega arith));
    id = id-full h;
    id_end = id_end-full h;
    src_addr = u32-full 25 s.param.local_id (omega arith) refl refl refl refl;
    src_entry = u16-full 29 s.param.local_sub_id (omega arith) refl refl;
    dst_count = u16-full 31 1 (omega arith) refl refl;
    dst_addr = u32-full 33 session.remote_id (omega arith) refl refl refl refl;
    dst_entry = u16-full 37 session.remote_sub_id (omega arith) refl refl;
    length_field = u16-full 51 (length payload) (omega arith) refl refl;
    payload_field = cells-write framed 53 payload;
  }

  -- The fill succeeds, and only the storage and the size change.
  pub fill_message-IsMessage :
      length id ≤ 15
      → 53 + length payload ≤ b.buf_size
      → (fill_message s session payload b
          ≡ some (record b { bytes = full; size = 53 + length payload }))
        × IsMessage s session payload (record b { bytes = full; size = 53 + length payload })
  unfolding fill_message
  fill_message-IsMessage h k = (
    stores-Fits message_stores (record b { size = 53 + length payload }) (message_stores-Fits h k),
    full-IsMessage h,
  )
