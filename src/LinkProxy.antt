-- ===== src/LinkProxy.antt =====
-- 722device/network/tls_net_proxy.c: eight ring buffers by priority, the thread that sends what they hold
-- by UDP or TCP, and the threads that publish what other devices send.
--
-- A node holds the address and the length of its data, as in the source; the bytes there are read from
-- the memory when the node is sent. The calls of pthread_mutex_lock are left out: each operation on a
-- ring is one critical section.
pub mod Ring
pub mod Order
pub mod Relay
pub mod Intake
mod Tests
use ai_coding_for_business.Common.{
  put, ℕ, zero, suc, ◌+◌, ◌-◌, ◌*◌, ◌%◌, ◌^◌, Bool, true, false, not, ◌||◌, ◌&&◌, Option, none,
  some, List, [], ◌∷◌, ◌++◌, ◌==◌, ltb, leb, if◌then◌else◌, length, is_nil, take, drop, get_or,
  replicate, cells, be32,
}
use ai_coding_for_business.NetProxy.{pad, cut}

-- `NET_PROXY_QUEUE_SIZE`, `MAX_PRIORITY_LEVELS`, `PROTO_UDP`, `PROTO_TCP`, and the size of the array `url`.
abbrev pub queue_size : ℕ
queue_size = 256

abbrev pub max_priority_levels : ℕ
max_priority_levels = 8

abbrev pub proto_udp : ℕ
proto_udp = 1

abbrev pub proto_tcp : ℕ
proto_tcp = 2

abbrev pub url_size : ℕ
url_size = 256

-- `net_proxy_prio_node_t` with its `net_proxy_transmit_data_t`. `url` are the bytes of the array before
-- `url_len`, and `dest_ip` is the string in its array. `param` is never sent.
pub record Node : Type 0 where
  pub dest_ip : List ℕ
  pub dest_port : ℕ
  pub proto : ℕ
  pub url : List ℕ
  pub data_at : ℕ
  pub data_len : ℕ
  pub priority : ℕ

-- `net_proxy_prio_queue_t`.
pub record PrioQueue : Type 0 where
  pub nodes : ℕ → Node
  pub head : ℕ
  pub tail : ℕ
  pub count : ℕ

-- `net_proxy_prio_queue_init`, and its loop in `tls_net_proxy_init` on the eight queues.
abbrev pub zero_node : Node
zero_node = record {
  dest_ip = [];
  dest_port = 0;
  proto = 0;
  url = [];
  data_at = 0;
  data_len = 0;
  priority = 0;
}

abbrev pub prio_queue_init : PrioQueue
prio_queue_init = record { nodes = λ i. zero_node; head = 0; tail = 0; count = 0 }

abbrev pub init_queues : (ℕ → PrioQueue) → ℕ → PrioQueue
init_queues qs p = if ltb p max_priority_levels then prio_queue_init else qs p

-- The stores and counters of a push into a ring that has room.
abbrev pub append_node : PrioQueue → Node → PrioQueue
append_node q n = record q {
  nodes = put q.nodes q.tail n;
  tail = (q.tail + 1) % queue_size;
  count = q.count + 1;
}

-- `net_proxy_prio_queue_push`.
pub prio_queue_push : PrioQueue → Node → Bool × PrioQueue
prio_queue_push q n = if ltb q.count queue_size then (true, append_node q n) else (false, q)

-- `net_proxy_prio_queue_pop`.
pub prio_queue_pop : PrioQueue → Option Node × PrioQueue
prio_queue_pop q =
    if ltb 0 q.count
    then (some (q.nodes q.head), record q { head = (q.head + 1) % queue_size; count = q.count - 1 })
    else (none, q)

-- `memcpy` of a url that fits into the array, which is zero before; of a longer one only the length is set,
-- to 255.
abbrev pub url_bytes : List ℕ → List ℕ
url_bytes url = if ltb (length url) url_size then url else replicate 255 0

abbrev pub clamp_priority : ℕ → ℕ
clamp_priority priority = if leb max_priority_levels priority then 0 else priority

-- `tls_net_proxy_push_to_prio_queue` of arguments that are not null, on the eight queues.
pub push_to_prio_queue :
    (ℕ → PrioQueue)
    → (dest_ip : List ℕ) → (dest_port proto priority : ℕ) → (url : List ℕ) → (data_at data_len : ℕ)
    → Bool × (ℕ → PrioQueue)
unfolding prio_queue_push
push_to_prio_queue qs dest_ip dest_port proto priority url data_at data_len =
    let p = clamp_priority priority in
    let node : Node = record {
      dest_ip = take 15 dest_ip;
      dest_port = dest_port;
      proto = proto;
      url = url_bytes url;
      data_at = data_at;
      data_len = data_len;
      priority = p;
    } in
    let (ok, q) = prio_queue_push (qs p) node in (ok, put qs p q)

-- `link_map_entry_t`, and `tls_net_proxy_find_entry` on the `count` entries of the configuration.
pub record LinkEntry : Type 0 where
  pub id : ℕ
  pub dest_ip : List ℕ
  pub dest_port : ℕ

unfoldable pub find_entry : List LinkEntry → ℕ → Option LinkEntry
find_entry [] id = none
find_entry (e ∷ es) id = let rest = find_entry es id in if e.id == id then some e else rest

-- What is sent: the protocol, the address, and the bytes.
pub record Sending : Type 0 where
  pub proto : ℕ
  pub ip : List ℕ
  pub port : ℕ
  pub bytes : List ℕ

-- The buffer that `tls_net_proxy_send_tcp` and `tls_net_proxy_send_udp` fill.
abbrev pub send_buffer : List ℕ → List ℕ → List ℕ
send_buffer url bytes = be32 (length url) ++ url ++ bytes

-- What the thread finds outside: the bytes in memory, and what comes of a message that is to be sent. That is
-- `none` where the buffer, the socket or the connection is refused or times out, or `send` fails; else it is
-- the number of bytes that `send` takes.
pub record World : Type 0 where
  pub memory : ℕ → ℕ
  pub takes : Sending → Option ℕ

abbrev pub sending_of : World → Node → Sending
sending_of world n = record {
  proto = n.proto;
  ip = n.dest_ip;
  port = n.dest_port;
  bytes = send_buffer n.url (cells world.memory n.data_at n.data_len);
}

-- A datagram goes as a whole, and of what is sent by TCP the bytes that are taken; nothing is sent again.
abbrev pub taken : Sending → Option ℕ → List Sending
taken s none = []
taken s (some k) = (if s.proto == proto_tcp then record s { bytes = take k s.bytes } else s) ∷ []

-- The choice of the protocol in the thread, with `tls_net_proxy_send_tcp` and `tls_net_proxy_send_udp`: what reaches the
-- network. Nothing is sent of no data or by another protocol, and the thread goes on after a failure.
pub send_node : World → Node → List Sending
send_node world n =
    if (n.data_at == 0) || (n.data_len == 0)
    then []
    else if (n.proto == proto_tcp) || (n.proto == proto_udp)
    then taken (sending_of world n) (world.takes (sending_of world n))
    else []

-- The search of `tls_net_proxy_transmit_thread` below priority `i`: the node taken, with the queues after.
pub pop_highest : ℕ → (ℕ → PrioQueue) → Option (Node × (ℕ → PrioQueue))
unfolding prio_queue_pop
pop_highest zero qs = none
pop_highest (suc i) qs =
    let rest = pop_highest i qs in
    let (got, q) = prio_queue_pop (qs i) in elim got [ none ↦ rest | some n ↦ some (n, put qs i q) ]

-- `check_higher_priority_waiting`: `i` is one more than the priority looked at.
pub check_higher_waiting : ℕ → (ℕ → PrioQueue) → ℕ → Bool
check_higher_waiting zero qs current = false
check_higher_waiting (suc i) qs current =
    let rest = check_higher_waiting i qs current in
    if leb i current then false else if ltb 0 (qs i).count then true else rest

-- What the thread does with a node it has taken: it puts it back at the end of its queue, where that has
-- room, when a higher priority waits; else it sends it.
pub send_or_requeue : World → Node → (ℕ → PrioQueue) → List Sending × (ℕ → PrioQueue)
send_or_requeue world n qs =
    if check_higher_waiting max_priority_levels qs n.priority
    then ([], put qs n.priority (prio_queue_push (qs n.priority) n).1)
    else (send_node world n, qs)

-- The loop of the thread while it finds nodes, on fuel, with nothing pushed meanwhile: what is sent, and the
-- queues when they are empty.
pub transmit_loop : ℕ → World → (ℕ → PrioQueue) → Option (List Sending × (ℕ → PrioQueue))
transmit_loop zero world qs = none
transmit_loop (suc fuel) world qs = elim (pop_highest max_priority_levels qs) [
  | none ↦ some ([], qs)
  | some got ↦
      let (sent, qs') = send_or_requeue world got.0 got.1 in
      elim (transmit_loop fuel world qs') [
        | none ↦ none
        | some more ↦ some (sent ++ more.0, more.1)
      ]
]

-- `parse_url_payload_from_buffer` behind the reading of the length of the url: the url and the payload,
-- or -1.
pub split_url : ℕ → List ℕ → Option (List ℕ × List ℕ)
split_url url_len buffer =
    if ltb (length buffer) 4
    then none
    else if leb url_size url_len || ltb (length buffer) (4 + url_len)
    then none
    else some (take url_len (drop 4 buffer), drop (4 + url_len) buffer)

pub parse_url_payload : List ℕ → Option (List ℕ × List ℕ)
parse_url_payload buffer =
    split_url
      (get_or buffer 0 0 * 16777216
        + get_or buffer 1 0 * 65536
        + get_or buffer 2 0 * 256
        + get_or buffer 3 0)
      buffer

-- The string "/data".
abbrev pub default_topic : List ℕ
default_topic = 47 ∷ 100 ∷ 97 ∷ 116 ∷ 97 ∷ []

-- What the two listening threads publish of the bytes that `recv` brings, at most 4095: the url up to its
-- first byte 0, and the payload; bytes that cannot be parsed go under the default topic.
pub publish_bytes : List ℕ → Option (List ℕ × List ℕ)
publish_bytes bytes = if is_nil bytes then none else elim (parse_url_payload bytes) [
  | none ↦ some (default_topic, bytes)
  | some parsed ↦ some (cut parsed.0, parsed.1)
]

pub published : List ℕ → Option (List ℕ × List ℕ)
published datagram = publish_bytes (take 4095 datagram)
