-- ===== src/NetProxy/Forward.antt =====
-- net_proxy_v2/proxy_server/proxy_server.c: a call from the client becomes a queued message, the worker
-- sends it to the other proxy, and that proxy publishes what it receives.
pub mod Path
use ai_coding_for_business.Common.{
  ℕ, zero, suc, ◌+◌, ◌-◌, Bool, true, false, not, ◌||◌, ◌&&◌, Option, none, some, List, [], ◌∷◌,
  ◌++◌, ◌==◌, leb, ltb, if◌then◌else◌, length, is_nil, take, drop,
}
use ai_coding_for_business.NetProxy.{
  Message, type_text, type_tcp, header_size, message_header_size, strncpy_15, string_15,
  is_target_network, create_message, payload_bytes,
}
use ai_coding_for_business.NetProxy.Queue.{
  MsgQueue, push_done, push_refused, push_waits, msg_queue_push, got, lost, pop_null, pop_waits,
  msg_queue_pop,
}

-- A datagram or a connection's data to port 8888 of an address.
pub data Sent : Type 0 where
  by_tcp by_udp : (ip payload : List ℕ) → Sent

-- The parts of `global_config_t` that forwarding uses, with the counter of `create_message`, what has been
-- sent, and what has been published under `VSOA_TOPIC_DATA`, oldest first.
pub record Proxy : Type 0 where
  pub queue : MsgQueue
  pub seq : ℕ
  pub vsoa_enabled : Bool
  pub sent : List Sent
  pub published : List (List ℕ)

-- What a call of `vsoa_rpc_data_callback` comes to: 0, -1, or waiting for room in the queue.
pub data Returned : Type 0 where
  returns_ok returns_error blocks : Returned

-- The answers of malloc to the four requests of a call: the message, its payload, the payload with the
-- address, and the node of the queue.
pub record Granted : Type 0 where
  pub struct : Bool
  pub storage : Bool
  pub payload : Bool
  pub node : Bool

-- `LOCAL_IP_192`, "192.168.3.10".
abbrev pub local_ip_192 : List ℕ
local_ip_192 = 49 ∷ 57 ∷ 50 ∷ 46 ∷ 49 ∷ 54 ∷ 56 ∷ 46 ∷ 51 ∷ 46 ∷ 49 ∷ 48 ∷ []

-- The message with the address put before the payload; `total_len` is left as it was.
abbrev pub address_message : Message → List ℕ → List ℕ → Message
address_message m ip payload = record m {
  payload = some (strncpy_15 ip ++ payload);
  payload_len = length payload + 16;
}

-- The end of the callback: the message goes into the queue.
abbrev pub enqueue : Proxy → Message → Bool → Returned × Proxy
enqueue x m node =
    let (r, q) = msg_queue_push x.queue m node in
    (
      elim r [ push_done ↦ returns_ok | push_refused ↦ returns_error | push_waits ↦ blocks ],
      record x { queue = q },
    )

-- The callback from the test of the network on.
pub accept_call : Proxy → Granted → (now : ℕ) → (ip payload : List ℕ) → Returned × Proxy
accept_call x g now ip payload =
    let (made, seq) =
      create_message g.struct g.storage x.seq now type_text (some payload) (some local_ip_192) in
    let x' = record x { seq = seq } in
    if not (is_target_network (some ip)) then (returns_error, x) else elim made [
      | none ↦ (returns_error, x')
      | some m ↦
          if not g.payload
          then (returns_error, x')
          else enqueue x' (address_message m ip payload) g.node
    ]

-- The lengths before the address and before the payload of a call.
abbrev pub address_offset : ℕ
address_offset = header_size + message_header_size

abbrev pub payload_offset : ℕ
payload_offset = address_offset + 16

-- `vsoa_rpc_data_callback`.
pub vsoa_rpc_data_callback : Proxy → Granted → (now : ℕ) → Option (List ℕ) → Returned × Proxy
unfolding accept_call
vsoa_rpc_data_callback x g now none = (returns_error, x)
vsoa_rpc_data_callback x g now (some bytes) =
    if ltb (length bytes) payload_offset
    then (returns_error, x)
    else accept_call x g now (string_15 (drop address_offset bytes)) (drop payload_offset bytes)

-- What a `send` or `sendto` gives to the network: nothing where it fails, which the code does not look at.
abbrev pub if_taken : Option ℕ → (ℕ → Sent) → List Sent
if_taken none sending = []
if_taken (some n) sending = sending n ∷ []

-- The body of the loop of `queue_worker_thread` for one message, with the answers of the network: whether
-- a socket is opened, whether a connection is made, and how many bytes `send` or `sendto` takes, or
-- that it fails. A connection takes a part of the bytes; a datagram is taken as a whole.
pub forward : Message → (socket connected : Bool) → (took : Option ℕ) → List Sent
forward m socket connected took =
    let bytes = payload_bytes m in
    let ip = if ltb m.payload_len 16 then [] else string_15 bytes in
    if leb m.payload_len 16
    then []
    else if not socket
    then []
    else if m.msg_type == type_tcp
    then if connected then if_taken took (λ n. by_tcp ip (take n (drop 16 bytes))) else []
    else if_taken took (λ n. by_udp ip (drop 16 bytes))

-- A round of the worker that finds a message or not.
pub worker_round : Proxy → (granted socket connected : Bool) → (took : Option ℕ) → Proxy
unfolding forward
worker_round x granted socket connected took =
    let (r, q) = msg_queue_pop x.queue false granted in
    let x' = record x { queue = q } in
    elim r [
      | got m ↦ record x' { sent = x.sent ++ forward m socket connected took }
      | lost m ↦ x'
      | pop_null ↦ x'
      | pop_waits ↦ x'
    ]

-- `MAX_BUFFER_SIZE`.
abbrev pub max_buffer_size : ℕ
max_buffer_size = 65536

-- `vsoa_publish` where `vsoa_enabled` is set, which goes with a publisher that is not null.
abbrev pub publish_data : Proxy → List ℕ → Proxy
publish_data x bytes =
    if x.vsoa_enabled then record x { published = x.published ++ bytes ∷ [] } else x

-- `handle_udp_data`: what is received, cut to the buffer, or a failure.
pub handle_udp_data : Proxy → Option (List ℕ) → Proxy
handle_udp_data x none = x
handle_udp_data x (some datagram) =
    let bytes = take max_buffer_size datagram in if is_nil bytes then x else publish_data x bytes

-- `handle_tcp_data`, with the word whether the connection stays open.
pub handle_tcp_data : Proxy → Option (List ℕ) → Bool × Proxy
handle_tcp_data x none = (false, x)
handle_tcp_data x (some segment) =
    let bytes = take max_buffer_size segment in
    if is_nil bytes then (false, x) else (true, publish_data x bytes)
