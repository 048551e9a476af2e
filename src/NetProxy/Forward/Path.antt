-- ===== src/NetProxy/Forward/Path.antt =====
-- The way of a call of the client through two proxies of net_proxy_v2/proxy_server/proxy_server.c.
use ai_coding_for_business.Common.{
  ◌⊎◌, inl, inr, ℕ, ◌+◌, ◌-◌, ◌≤◌, ◌<◌, ◌≡◌, refl, ap, ◌∙◌, arith, Bool, true, false, Option, some,
  List, [], ◌∷◌, ◌++◌, length, drop, length-drop, is_nil-some, take-all, drop-append, length-append,
  is_nil,
}
use ai_coding_for_business.NetProxy.{
  Message, is_target_network, string_15, strncpy_15, create_message, payload_bytes, new_message,
  next_seq, type_text,
}
use ai_coding_for_business.NetProxy.Queue.{MsgQueue, msg_queue_pop, got}
use ai_coding_for_business.NetProxy.Queue.Single.{push-empty, pop-holding}
use ai_coding_for_business.NetProxy.Forward.{
  Proxy, Granted, by_udp, if_taken, returns_ok, returns_error, local_ip_192, address_message,
  accept_call, vsoa_rpc_data_callback, forward, worker_round, handle_udp_data, max_buffer_size,
}
use ai_coding_for_business.NetProxy.Text.{
  string_15-strncpy_15, length-strncpy_15, Text, string_15-Text, length-string_15,
}

-- Every request for memory is granted.
abbrev pub all_granted : Granted
all_granted = record { struct = true; storage = true; payload = true; node = true }

-- A message that is not for TCP and has more than an address.
forward-udp :
    (m : Message) (connected : Bool) (took : Option ℕ) (bytes : List ℕ)
    → payload_bytes m ≡ bytes
    → 16 < m.payload_len
    → m.msg_type ≡ type_text
    → forward m true connected took ≡ if_taken took (λ n. by_udp (string_15 bytes) (drop 16 bytes))
unfolding forward
forward-udp m connected took bytes e long k = ground (arith, ap string_15 e, ap (λ l. drop 16 l) e)

module _ (ip payload : List ℕ) (t : Text ip) (short : length ip ≤ 15)
    (ne : 0 < length payload) where
  -- The worker sends an addressed message by UDP, to its address and without it.
  pub forward-addressed :
      (m : Message) (connected : Bool) (took : Option ℕ)
      → m.msg_type ≡ type_text
      → forward (address_message m ip payload) true connected took
        ≡ if_taken took (λ n. by_udp ip payload)
  forward-addressed m connected took k =
      let bytes = strncpy_15 ip ++ payload in
      let long : length bytes ≡ 16 + length payload =
        omega (arith, length-append (strncpy_15 ip) payload, length-strncpy_15 ip) in
      forward-udp (address_message m ip payload) connected took bytes
        (take-all (length payload + 16) bytes (omega arith)) (omega arith) k
      ∙ ap (λ s. if_taken took (λ n. by_udp s (drop 16 bytes)))
          (string_15-strncpy_15 ip payload t short)
      ∙ ap (λ s. if_taken took (λ n. by_udp ip s))
          (drop-append 16 (strncpy_15 ip) payload (length-strncpy_15 ip))

-- A proxy whose queue is empty and takes messages.
pub record Ready (x : Proxy) : Type 0 where
  pub no_message : x.queue.msgs ≡ []
  pub no_count : x.queue.count ≡ 0
  pub some_room : 0 < x.queue.capacity
  pub open_queue : x.queue.shutdown ≡ false

-- The message of a call, as it waits in the queue.
abbrev pub call_message : Proxy → (now : ℕ) → (ip payload : List ℕ) → Message
call_message x now ip payload =
    address_message (new_message type_text (next_seq x.seq) now payload (some local_ip_192)) ip
      payload

abbrev pub queued_call : Proxy → (now : ℕ) → (ip payload : List ℕ) → Proxy
queued_call x now ip payload = record x {
  seq = next_seq x.seq;
  queue = record x.queue { msgs = call_message x now ip payload ∷ []; count = 1 };
}

accept-Ready :
    (x : Proxy) (now : ℕ) (ip payload : List ℕ)
    → Ready x
    → 0 < length payload
    → is_target_network (some ip) ≡ true
    → accept_call x all_granted now ip payload ≡ (returns_ok, queued_call x now ip payload)
unfolding accept_call create_message
accept-Ready x now ip payload r ne k = ground (
  arith,
  ne,
  push-empty x.queue (call_message x now ip payload) r.no_message r.no_count r.some_room
      r.open_queue,
)

worker-got :
    (x : Proxy) (m : Message) (q : MsgQueue) (socket connected : Bool) (took : Option ℕ)
    → msg_queue_pop x.queue false true ≡ (got m, q)
    → worker_round x true socket connected took
      ≡ record x { queue = q; sent = x.sent ++ forward m socket connected took }
unfolding worker_round
worker-got x m q socket connected took e = ground arith

worker-queued :
    (x : Proxy) (now : ℕ) (ip payload : List ℕ) (connected : Bool) (took : Option ℕ)
    → Text ip
    → length ip ≤ 15
    → 0 < length payload
    → (worker_round (queued_call x now ip payload) true true connected took).sent
      ≡ x.sent ++ if_taken took (λ n. by_udp ip payload)
worker-queued x now ip payload connected took t short ne =
    let m = call_message x now ip payload in
    let made = new_message type_text (next_seq x.seq) now payload (some local_ip_192) in
    ap (λ w. w.sent)
      (worker-got (queued_call x now ip payload) m (record x.queue { msgs = []; count = 0 }) true
        connected took (pop-holding x.queue m false))
    ∙ ap (λ l. x.sent ++ l) (forward-addressed ip payload t short ne made connected took refl)

handle-payload :
    (peer : Proxy) (payload : List ℕ)
    → 0 < length payload
    → length payload ≤ max_buffer_size
    → peer.vsoa_enabled ≡ true
    → (handle_udp_data peer (some payload)).published ≡ peer.published ++ payload ∷ []
unfolding handle_udp_data
handle-payload peer payload ne fits on =
    ground (arith, take-all max_buffer_size payload fits, is_nil-some payload ne)

-- A call with an address of the target network and a payload of at most the 65507 bytes of a datagram, into a proxy
-- whose queue is empty and takes messages, with memory and a socket: the call returns 0, and the worker
-- sends the payload to the address by UDP; only where the network refuses the datagram nothing is
-- sent, and the call has returned 0. The proxy that receives the datagram publishes the payload.
pub call-published :
    (x peer : Proxy) (now : ℕ) (bytes : List ℕ) (connected : Bool) (took : Option ℕ)
    → Ready x
    → 52 < length bytes
    → length bytes ≤ 65559
    → is_target_network (some (string_15 (drop 36 bytes))) ≡ true
    → peer.vsoa_enabled ≡ true
    → (x' : Proxy) × (vsoa_rpc_data_callback x all_granted now (some bytes) ≡ (returns_ok, x'))
      × ((worker_round x' true true connected took).sent
          ≡ x.sent ++ if_taken took (λ n. by_udp (string_15 (drop 36 bytes)) (drop 52 bytes)))
      × ((handle_udp_data peer (some (drop 52 bytes))).published
          ≡ peer.published ++ drop 52 bytes ∷ [])
unfolding vsoa_rpc_data_callback
call-published x peer now bytes connected took r long short k on =
    let ip = string_15 (drop 36 bytes) in
    let payload = drop 52 bytes in
    let size : length payload ≡ length bytes - 52 = length-drop 52 bytes in
    (
      queued_call x now ip payload,
      ground (arith, accept-Ready x now ip payload r (omega arith) k),
      worker-queued x now ip payload connected took (string_15-Text (drop 36 bytes))
          (length-string_15 (drop 36 bytes)) (omega arith),
      handle-payload peer payload (omega arith) (omega arith) on,
    )

accept-empty :
    (x : Proxy) (g : Granted) (now : ℕ) (ip payload : List ℕ)
    → is_nil payload ≡ true
    → ((accept_call x g now ip payload).0 ≡ returns_error)
      × ((accept_call x g now ip payload).1.queue ≡ x.queue)
unfolding accept_call create_message
accept-empty x g now ip payload e = (ground arith, ground arith)

accept-other_network :
    (x : Proxy) (g : Granted) (now : ℕ) (ip payload : List ℕ)
    → is_target_network (some ip) ≡ false
    → ((accept_call x g now ip payload).0 ≡ returns_error)
      × ((accept_call x g now ip payload).1.queue ≡ x.queue)
unfolding accept_call
accept-other_network x g now ip payload e = (ground arith, ground arith)

is_nil-none : (bytes : List ℕ) → length bytes ≤ 0 → is_nil bytes ≡ true
is_nil-none [] h = refl
is_nil-none (b ∷ bs) h = absurd (omega arith)

-- Whatever memory is granted, a call that is too short for an address and a payload, or whose address
-- is of another network, returns -1 and leaves the queue as it is.
pub call-refused :
    (x : Proxy) (g : Granted) (now : ℕ) (bytes : List ℕ)
    → (length bytes ≤ 52) ⊎ (is_target_network (some (string_15 (drop 36 bytes))) ≡ false)
    → ((vsoa_rpc_data_callback x g now (some bytes)).0 ≡ returns_error)
      × ((vsoa_rpc_data_callback x g now (some bytes)).1.queue ≡ x.queue)
unfolding vsoa_rpc_data_callback
call-refused x g now bytes (inl h) =
    let size : length (drop 52 bytes) ≡ length bytes - 52 = length-drop 52 bytes in
    let (a, b) =
      accept-empty x g now (string_15 (drop 36 bytes)) (drop 52 bytes)
        (is_nil-none (drop 52 bytes) (omega arith)) in
    (ground (arith, a), ground (arith, b))
call-refused x g now bytes (inr h) =
    let (a, b) = accept-other_network x g now (string_15 (drop 36 bytes)) (drop 52 bytes) h in
    (ground (arith, a), ground (arith, b))
