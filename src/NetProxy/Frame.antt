-- ===== src/NetProxy/Frame.antt =====
-- `serialize_message` and `deserialize_message` of net_proxy_v2/common/common.c against each other.
use ai_coding_for_business.Common.{
  ℕ, ◌+◌, ◌-◌, ◌≤◌, ◌<◌, ◌≡◌, refl, sym, ap, ◌∙◌, arith, Bool, true, Option, none, some, List, [],
  ◌++◌, ◌==◌, if◌then◌else◌, length, take, take-all, take-append, drop-append, length-append,
  le_bytes, le_value,
}
use ai_coding_for_business.NetProxy.{
  Message, header_size, message_header_size, pad, strncpy_15, new_message, next_seq, create_message,
  header_bytes, message_header_bytes, payload_bytes, serialized, serialize_message, slice,
  parse_message, deserialize_message,
}
use ai_coding_for_business.NetProxy.Text.{length-strncpy_15}

-- No buffer is accepted: a number of 16 bits is never `PROTOCOL_MAGIC`.
pub deserialize_message-refuses :
    (struct storage : Bool) (bytes : List ℕ) → deserialize_message struct storage bytes ≡ none
unfolding deserialize_message
deserialize_message-refuses struct storage bytes = ground arith

-- The numbers of a message fit their fields.
pub record InRange (m : Message) : Type 0 where
  pub magic : m.magic < 65536
  pub reserved : m.reserved < 4294967296
  pub seq_num : m.seq_num < 4294967296
  pub timestamp : m.timestamp < 18446744073709551616
  pub src_ip : length m.src_ip ≡ 16

-- The message has a payload, and its lengths are those of the payload and of the frame.
pub record Whole (m : Message) (p : List ℕ) : Type 0 where
  pub payload : m.payload ≡ some p
  pub payload_len : m.payload_len ≡ length p
  pub total_len : m.total_len ≡ 36 + length p
  pub some_payload : 0 < length p

le_value-le_bytes_2 : (n : ℕ) → n < 65536 → le_value (le_bytes 2 n) ≡ n
le_value-le_bytes_2 n h = omega arith

le_value-le_bytes_4 : (n : ℕ) → n < 4294967296 → le_value (le_bytes 4 n) ≡ n
le_value-le_bytes_4 n h = omega arith

le_value-le_bytes_8 : (n : ℕ) → n < 18446744073709551616 → le_value (le_bytes 8 n) ≡ n
le_value-le_bytes_8 n h = omega arith

module _ (m : Message) (p : List ℕ) (r : InRange m) (w : Whole m p) where
  abbrev frame : List ℕ
  frame = header_bytes m ++ message_header_bytes m ++ p

  ip_read : slice 20 16 frame ≡ m.src_ip
  ip_read = take-append 16 m.src_ip p r.src_ip

  payload_read : slice 36 (length p) frame ≡ p
  payload_read =
      ap (λ l. take (length p) l) (drop-append 16 m.src_ip p r.src_ip)
      ∙ take-all (length p) p (omega arith)

  length-frame : length frame ≡ 36 + length p
  length-frame = omega (arith, length-append m.src_ip p, r.src_ip)

  payload_length : length frame - header_size - message_header_size ≡ length p
  payload_length = omega (arith, length-frame)

  payload_parsed : (parse_message frame).payload ≡ m.payload
  payload_parsed =
      ap (λ n. if n == 0 then none else some (slice 36 n frame)) payload_length
      ∙ ap (λ q. if length p == 0 then none else some q) payload_read
      ∙ ground (arith, w.payload, w.some_payload)

  -- Every field of a frame is read as it was written, behind the test of the magic number.
  pub parse-frame : parse_message frame ≡ m
  parse-frame i = record {
    magic = le_value-le_bytes_2 m.magic r.magic i;
    version = m.version;
    msg_type = m.msg_type;
    reserved = le_value-le_bytes_4 m.reserved r.reserved i;
    seq_num = le_value-le_bytes_4 m.seq_num r.seq_num i;
    timestamp = le_value-le_bytes_8 m.timestamp r.timestamp i;
    src_ip = ip_read i;
    payload = payload_parsed i;
    payload_len = (payload_length ∙ sym w.payload_len) i;
    total_len = (length-frame ∙ sym w.total_len) i;
  }

  serialize-frame :
      (size : ℕ) → m.total_len ≤ size → serialize_message m size ≡ serialized m.total_len frame
  unfolding serialize_message
  serialize-frame size fits =
      let bytes : payload_bytes m ≡ p =
        ap (λ q. elim q [ none ↦ [] | some l ↦ take m.payload_len l ]) w.payload
        ∙ take-all m.payload_len p (omega (arith, w.payload_len)) in
      ground (
        arith,
        ap length bytes,
        ap (λ l. header_bytes m ++ message_header_bytes m ++ l) bytes,
        w.total_len,
        fits,
      )

length-src_ip :
    (src_ip : Option (List ℕ))
    → length (elim src_ip [ none ↦ pad 16 [] | some s ↦ strncpy_15 s ]) ≡ 16
length-src_ip none = refl
length-src_ip (some s) = length-strncpy_15 s

-- A message that `create_message` makes is serialized into a buffer of its total length or more, and the
-- frame, read behind the test of the magic number, is that message again.
pub create-serialize_parse :
    (seq now type size : ℕ) (payload : List ℕ) (src_ip : Option (List ℕ))
    → 0 < length payload
    → now < 18446744073709551616
    → 36 + length payload ≤ size
    → (m : Message) × (seq' : ℕ) × (bytes : List ℕ) × (create_message true true seq now type
          (some payload)
          src_ip
        ≡ (some m, seq'))
      × (serialize_message m size ≡ serialized (36 + length payload) bytes)
      × (parse_message bytes ≡ m)
unfolding create_message
create-serialize_parse seq now type size payload src_ip ne clock fits =
    let m = new_message type (next_seq seq) now payload src_ip in
    let r : InRange m = record {
      magic = omega arith;
      reserved = omega arith;
      seq_num = omega arith;
      timestamp = clock;
      src_ip = length-src_ip src_ip;
    } in
    let w : Whole m payload = record {
      payload = refl;
      payload_len = refl;
      total_len = refl;
      some_payload = ne;
    } in
    (
      m,
      next_seq seq,
      header_bytes m ++ message_header_bytes m ++ payload,
      ground (arith, ne),
      serialize-frame m payload r w size fits,
      parse-frame m payload r w,
    )
