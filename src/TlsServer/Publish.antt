-- ===== src/TlsServer/Publish.antt =====
-- The four `tls_server_vsoa_publish*` functions of 722device/server/tls_work.c, which put a message of
-- the VSOA bus into a transmit buffer, behind the structure `tls_vsoa_hdr_t` of
-- 722device/network/tls_vsoa.h: six words of 8 bytes, three addresses and three sizes by turns.
pub mod Layout
pub mod Outcomes
pub mod Frame
pub mod Session
use ai_coding_for_business.Common.{
  ℕ, ◌+◌, ◌%◌, ◌^◌, Bool, true, false, ◌&&◌, not, Option, none, some, List, [], ◌∷◌, ◌++◌, ◌==◌,
  ltb, if◌then◌else◌, length, be16, le64, TlsResult, s_ok, e_invalid_param, e_invalid_data,
}
use ai_coding_for_business.TlsBuff.{Buff}
use ai_coding_for_business.State.{Server, vsoa}
use ai_coding_for_business.TlsServer.{
  send_message, head_size, content_size, head_stores, content_stores, next_sequence, stores,
  fill_and_push, acquire_transmit_buff,
}

-- `vsoa_url_t` and `vsoa_payload_t` of the VSOA library: each pointer with its length is the bytes
-- there.
abbrev pub Url : Type 0
Url = List ℕ

pub record Payload : Type 0 where
  pub param : List ℕ
  pub content : List ℕ

-- `tls_vsoa_sesstion_t`. A null pointer is `none`.
pub record VsoaSession : Type 0 where
  pub dest_addr : ℕ
  pub dest_entry : ℕ
  pub vsoa_url : Option Url
  pub vsoa_payload : Option Payload
  pub priority : ℕ

-- `sizeof(tls_vsoa_hdr_t)`, and the sum in the source, in a U32.
abbrev pub hdr_size : ℕ
hdr_size = 48

abbrev pub payload_size : Url → Payload → ℕ
payload_size url p = (length url + length p.param + length p.content + hdr_size) % 2 ^ 32

-- The stores through a `tls_vsoa_hdr_t` at offset `base`. The null that two of the functions first store
-- in `vsoa_url` is overwritten here.
abbrev pub hdr_stores : Buff → ℕ → Url → Payload → List (ℕ × List ℕ)
hdr_stores b base url p =
    let url_at = base + 48 in
    let param_at = url_at + length url in
    let data_at = param_at + length p.param in
    (base + 8, le64 (length url))
    ∷ (base + 24, le64 (length p.param))
    ∷ (base + 40, le64 (length p.content))
    ∷ (base, le64 (b.buf + url_at))
    ∷ (url_at, url)
    ∷ (base + 16, le64 (b.buf + param_at))
    ∷ (param_at, p.param)
    ∷ (base + 32, le64 (b.buf + data_at))
    ∷ (data_at, p.content)
    ∷ []

-- `buff->size_` and `buff->transmode_` as the four functions leave them.
abbrev pub by_vsoa : ℕ → Buff → Buff
by_vsoa n b = record b { size = n; transmode = vsoa }

-- The string "session".
abbrev pub session_word : List ℕ
session_word = 115 ∷ 101 ∷ 115 ∷ 115 ∷ 105 ∷ 111 ∷ 110 ∷ []

pub fill_publish : Url → Payload → Buff → Option Buff
fill_publish url p b = stores (hdr_stores b 0 url p) (by_vsoa (payload_size url p) b)

-- `tls_server_vsoa_publish` of a server that is not null.
pub vsoa_publish : Server → Option Url → Option Payload → ℕ → Option (TlsResult × Server)
unfolding fill_publish
vsoa_publish s none payload priority = some (e_invalid_param, s)
vsoa_publish s (some url) none priority = some (e_invalid_param, s)
vsoa_publish s (some url) (some p) priority =
    if length url == 0
    then some (e_invalid_data, s)
    else if (length p.param == 0) && (length p.content == 0)
    then some (e_invalid_data, s)
    else if not s.start
    then some (e_invalid_data, s)
    else fill_and_push (acquire_transmit_buff s priority) (fill_publish url p) (λ t. t)

-- The message of `tls_server_vsoa_publish_overtls` and of `tls_server_vsoa_publish_transmit`: a frame whose
-- payload is a `tls_vsoa_hdr_t` and what follows it.
pub fill_frame : Server → (dst_addr dst_entry size : ℕ) → Url → Payload → Buff → Option Buff
fill_frame s dst_addr dst_entry size url p b =
    stores
      (head_stores send_message s.sequence
        ++ content_stores s.param session_word dst_addr dst_entry
        ++ hdr_stores b 53 url p
        ++ (51, be16 (payload_size url p)) ∷ [])
      (by_vsoa size b)

-- `tls_server_vsoa_publish_overtls`. `msg_size` is the sum of the sizes of two pointers there.
abbrev pub two_pointers : ℕ
two_pointers = 16

pub vsoa_publish_overtls : Server → Option Url → Option Payload → ℕ → Option (TlsResult × Server)
unfolding fill_frame
vsoa_publish_overtls s none payload priority = some (e_invalid_param, s)
vsoa_publish_overtls s (some url) none priority = some (e_invalid_param, s)
vsoa_publish_overtls s (some url) (some p) priority =
    let n = payload_size url p in
    if not s.start
    then some (e_invalid_data, s)
    else if ltb 1024 n
    then some (e_invalid_data, s)
    else fill_and_push (acquire_transmit_buff s priority)
        (fill_frame s 89 3001 ((two_pointers + n) % 2 ^ 32) url p) next_sequence

-- `tls_server_vsoa_publish_transmit` and `tls_server_vsoa_publish_transmit_for_722`, of a session with its
-- pointers.
pub publish_transmit_to : Server → VsoaSession → Url → Payload → Option (TlsResult × Server)
unfolding fill_frame
publish_transmit_to s session url p =
    let n = payload_size url p in
    if not s.start
    then some (e_invalid_data, s)
    else fill_and_push (acquire_transmit_buff s session.priority)
        (fill_frame s session.dest_addr session.dest_entry ((head_size + content_size + n) % 2 ^ 32)
          url p)
        next_sequence

pub publish_for_722_to : Server → VsoaSession → Url → Payload → Option (TlsResult × Server)
unfolding fill_publish
publish_for_722_to s session url p =
    if not s.start
    then some (e_invalid_data, s)
    else fill_and_push (acquire_transmit_buff s session.priority) (fill_publish url p) (λ t. t)

-- `NULL == session || NULL == session->vsoa_url_ || NULL == session->vsoa_payload_`.
pub with_session :
    Server
    → Option VsoaSession
    → (VsoaSession → Url → Payload → Option (TlsResult × Server))
    → Option (TlsResult × Server)
with_session s none send = some (e_invalid_param, s)
with_session s (some session) send = elim session.vsoa_url [
  | none ↦ some (e_invalid_param, s)
  | some url ↦ elim session.vsoa_payload [
    | none ↦ some (e_invalid_param, s)
    | some p ↦ send session url p
  ]
]

pub vsoa_publish_transmit : Server → Option VsoaSession → Option (TlsResult × Server)
unfolding with_session publish_transmit_to
vsoa_publish_transmit s session = with_session s session (publish_transmit_to s)

pub vsoa_publish_transmit_for_722 : Server → Option VsoaSession → Option (TlsResult × Server)
unfolding with_session publish_for_722_to
vsoa_publish_transmit_for_722 s session = with_session s session (publish_for_722_to s)
