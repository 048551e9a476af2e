-- ===== src/NetProxy.antt =====
-- net_proxy_v2/common/common.c and common.h: the messages of the proxy between two networks, their
-- frames, and the test for the target network.
--
-- A C string is the list of its characters, without the byte 0 that ends it. The answers of malloc are
-- arguments, `true` where the request is granted. The structures are packed and their numbers are
-- little-endian, as on the machines that the program is built for.
pub mod Queue
pub mod Forward
pub mod Text
pub mod Frame
mod Tests
use ai_coding_for_business.Common.{
  ℕ, zero, suc, ◌+◌, ◌*◌, ◌-◌, ◌%◌, ◌^◌, Bool, true, false, not, ◌&&◌, Option, none, some, List, [],
  ◌∷◌, ◌++◌, ◌==◌, ltb, if◌then◌else◌, length, is_nil, take, drop, get_or, le_bytes, le_value,
}

-- `PROTOCOL_MAGIC`, `PROTOCOL_VERSION`, the message types, and the sizes of the two headers.
abbrev pub protocol_magic : ℕ
protocol_magic = 1448100185

abbrev pub protocol_version : ℕ
protocol_version = 1

abbrev pub type_text : ℕ
type_text = 1

abbrev pub type_tcp : ℕ
type_tcp = 5

abbrev pub header_size : ℕ
header_size = 8

abbrev pub message_header_size : ℕ
message_header_size = 28

-- `message_t`. A null payload is `none`; `src_ip` are the 16 bytes of the array.
pub record Message : Type 0 where
  pub magic : ℕ
  pub version : ℕ
  pub msg_type : ℕ
  pub reserved : ℕ
  pub seq_num : ℕ
  pub timestamp : ℕ
  pub src_ip : List ℕ
  pub payload : Option (List ℕ)
  pub payload_len : ℕ
  pub total_len : ℕ

-- The first `n` characters of a string, and bytes 0 up to `n` bytes.
abbrev pub pad : ℕ → List ℕ → List ℕ
pad zero s = []
pad (suc n) [] = 0 ∷ pad n []
pad (suc n) (c ∷ s) = c ∷ pad n s

-- A string in an array of 16: `strncpy` of 15 characters, and the byte 0 at index 15.
abbrev pub strncpy_15 : List ℕ → List ℕ
strncpy_15 s = pad 15 s ++ 0 ∷ []

-- The string that starts a list of bytes.
abbrev pub cut : List ℕ → List ℕ
cut [] = []
cut (c ∷ s) = if c == 0 then [] else c ∷ cut s

-- The string that `strncpy` of 15 characters, ended by a byte 0, makes of what lies at a place.
abbrev pub string_15 : List ℕ → List ℕ
string_15 bytes = cut (take 15 bytes)

-- `TARGET_NET`, "10.10.111".
abbrev pub target_net : List ℕ
target_net = 49 ∷ 48 ∷ 46 ∷ 49 ∷ 48 ∷ 46 ∷ 49 ∷ 49 ∷ 49 ∷ []

abbrev pub starts_with : List ℕ → List ℕ → Bool
starts_with [] s = true
starts_with (c ∷ p) [] = false
starts_with (c ∷ p) (d ∷ s) = if c == d then starts_with p s else false

-- `is_target_network`: `strncmp` of the first 9 characters.
pub is_target_network : Option (List ℕ) → Bool
is_target_network none = false
is_target_network (some ip) = starts_with target_net ip

-- The static counter `g_seq_num` after `++g_seq_num`.
abbrev pub next_seq : ℕ → ℕ
next_seq seq = (seq + 1) % 2 ^ 32

-- The message that `create_message` fills in. The field `magic` has 16 bits.
abbrev pub new_message : (type seq now : ℕ) → List ℕ → Option (List ℕ) → Message
new_message type seq now payload src_ip = record {
  magic = protocol_magic % 2 ^ 16;
  version = protocol_version;
  msg_type = type;
  reserved = 0;
  seq_num = seq;
  timestamp = now;
  src_ip = elim src_ip [ none ↦ pad 16 [] | some s ↦ strncpy_15 s ];
  payload = some payload;
  payload_len = length payload;
  total_len = header_size + message_header_size + length payload;
}

-- `create_message` at a value of the counter and of the clock, with the counter after it.
pub create_message :
    (struct storage : Bool)
    → (seq now type : ℕ) → Option (List ℕ)
    → Option (List ℕ)
    → Option Message × ℕ
create_message struct storage seq now type none src_ip = (none, seq)
create_message struct storage seq now type (some payload) src_ip =
    if is_nil payload
    then (none, seq)
    else if not struct
    then (none, seq)
    else if not storage
    then (none, next_seq seq)
    else (some (new_message type (next_seq seq) now payload src_ip), next_seq seq)

-- The bytes of `protocol_header_t` and of `message_header_t`.
abbrev pub header_bytes : Message → List ℕ
header_bytes m = le_bytes 2 m.magic ++ m.version ∷ m.msg_type ∷ le_bytes 4 m.reserved

abbrev pub message_header_bytes : Message → List ℕ
message_header_bytes m = le_bytes 4 m.seq_num ++ le_bytes 8 m.timestamp ++ m.src_ip

abbrev pub payload_bytes : Message → List ℕ
payload_bytes m = elim m.payload [ none ↦ [] | some p ↦ take m.payload_len p ]

-- What a call of `serialize_message` comes to: -1, a copy beyond the end of the buffer, or a value
-- returned and the bytes copied.
pub data Serialized : Type 0 where
  serialize_refused serialize_overruns : Serialized
  serialized : ℕ → List ℕ → Serialized

-- `serialize_message` of a message into a buffer of a size. The test is of `total_len`, and what is copied
-- are the headers and the payload.
pub serialize_message : Message → ℕ → Serialized
serialize_message m buffer_size =
    if buffer_size == 0
    then serialize_refused
    else if ltb buffer_size m.total_len
    then serialize_refused
    else if ltb buffer_size (header_size + message_header_size + length (payload_bytes m))
    then serialize_overruns
    else serialized m.total_len (header_bytes m ++ message_header_bytes m ++ payload_bytes m)

-- `n` bytes from an offset on.
abbrev pub slice : ℕ → ℕ → List ℕ → List ℕ
slice off n bytes = take n (drop off bytes)

-- The message that `deserialize_message` makes of the bytes, once their magic number has been accepted.
abbrev pub parse_message : List ℕ → Message
parse_message bytes =
    let n = length bytes - header_size - message_header_size in
    record {
      magic = le_value (slice 0 2 bytes);
      version = get_or bytes 2 0;
      msg_type = get_or bytes 3 0;
      reserved = le_value (slice 4 4 bytes);
      seq_num = le_value (slice 8 4 bytes);
      timestamp = le_value (slice 12 8 bytes);
      src_ip = slice 20 16 bytes;
      payload = if n == 0 then none else some (slice 36 n bytes);
      payload_len = n;
      total_len = length bytes;
    }

-- `deserialize_message` of a buffer that is not null. The magic number of a frame has 16 bits, and
-- `PROTOCOL_MAGIC` has more.
pub deserialize_message : (struct storage : Bool) → List ℕ → Option Message
deserialize_message struct storage bytes =
    if ltb (length bytes) (header_size + message_header_size)
    then none
    else if not (le_value (slice 0 2 bytes) % 2 ^ 16 == protocol_magic)
    then none
    else if not struct
    then none
    else if ltb (header_size + message_header_size) (length bytes) && not storage
    then none
    else some (parse_message bytes)
