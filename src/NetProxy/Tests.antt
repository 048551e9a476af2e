-- ===== src/NetProxy/Tests.antt =====
-- The proxy of net_proxy_v2: runs, and the theorems at small states.
use ai_coding_for_business.Common.{
  ℕ, ◌≡◌, inr, refl, arith, true, false, none, some, List, [], ◌∷◌, ◌++◌, replicate,
}
use ai_coding_for_business.NetProxy.{
  Message, is_target_network, create_message, new_message, serialized, serialize_message,
  parse_message, deserialize_message,
}
use ai_coding_for_business.NetProxy.Frame.{deserialize_message-refuses, create-serialize_parse}
use ai_coding_for_business.NetProxy.Queue.{MsgQueue, msg_queue_push, msg_queue_pop}
use ai_coding_for_business.NetProxy.Queue.Bounded.{
  Shared, after_push, after_pop, pushes, pops, Reach, here, next, Fifo, Reach-Fifo,
}
use ai_coding_for_business.NetProxy.Forward.{
  Proxy, by_udp, returns_ok, returns_error, vsoa_rpc_data_callback, worker_round, handle_udp_data,
}
use ai_coding_for_business.NetProxy.Forward.Path.{Ready, all_granted, call-published, call-refused}

-- "10.10.111.20" and "192.168.3.7".
abbrev inside : List ℕ
inside = 49 ∷ 48 ∷ 46 ∷ 49 ∷ 48 ∷ 46 ∷ 49 ∷ 49 ∷ 49 ∷ 46 ∷ 50 ∷ 48 ∷ []

abbrev outside : List ℕ
outside = 49 ∷ 57 ∷ 50 ∷ 46 ∷ 49 ∷ 54 ∷ 56 ∷ 46 ∷ 51 ∷ 46 ∷ 55 ∷ []

inside_target : is_target_network (some inside) ≡ true
unfolding is_target_network
inside_target = refl

outside_target : is_target_network (some outside) ≡ false
unfolding is_target_network
outside_target = refl

abbrev words : List ℕ
words = 7 ∷ 8 ∷ 9 ∷ []

create-serialize_parse_example :
    (m : Message) × (seq' : ℕ) × (bytes : List ℕ) × (create_message true true 4 1000 1
        (some words)
        (some inside)
      ≡ (some m, seq'))
    × (serialize_message m 64 ≡ serialized 39 bytes)
    × (parse_message bytes ≡ m)
create-serialize_parse_example =
    create-serialize_parse 4 1000 1 64 words (some inside) (omega arith) (omega arith) (omega arith)

deserialize_message-refuses_example :
    deserialize_message true true (89 ∷ 65 ∷ replicate 50 0) ≡ none
deserialize_message-refuses_example =
    deserialize_message-refuses true true (89 ∷ 65 ∷ replicate 50 0)

abbrev message : ℕ → Message
message seq = new_message 1 seq 1000 words none

abbrev empty_queue : MsgQueue
empty_queue = record { msgs = []; count = 0; capacity = 2; shutdown = false }

abbrev start : Shared
start = record { queue = empty_queue; accepted = []; taken = [] }

start-Fifo : Fifo 2 start
start-Fifo = record { same_capacity = refl; counted = refl; bounded = omega arith; in_order = refl }

-- One message is pushed, a second one too, and the first is taken.
abbrev one : Shared
one = after_push start (message 1) (msg_queue_push start.queue (message 1) true)

abbrev two : Shared
two = after_push one (message 2) (msg_queue_push one.queue (message 2) true)

abbrev three : Shared
three = after_pop two (msg_queue_pop two.queue false true)

three_steps : Reach start three
three_steps =
    next {t = two}
      (next {t = one} (next here (pushes (message 1) true refl)) (pushes (message 2) true refl))
      (pops false true refl)

Reach-Fifo_example : Fifo 2 three
Reach-Fifo_example = Reach-Fifo 2 start three start-Fifo three_steps

abbrev proxy : Proxy
proxy = record { queue = empty_queue; seq = 0; vsoa_enabled = true; sent = []; published = [] }

proxy-Ready : Ready proxy
proxy-Ready = record {
  no_message = refl;
  no_count = refl;
  some_room = omega arith;
  open_queue = refl;
}

-- 36 bytes of headers, the address in 16 bytes, and the payload.
abbrev call : List ℕ → List ℕ
call ip = replicate 36 0 ++ ip ++ replicate 4 0 ++ words

call-published_example :
    (x' : Proxy) × (vsoa_rpc_data_callback proxy all_granted 5 (some (call inside))
      ≡ (returns_ok, x'))
    × ((worker_round x' true true true (some 3)).sent ≡ by_udp inside words ∷ [])
    × ((handle_udp_data proxy (some words)).published ≡ words ∷ [])
unfolding is_target_network
call-published_example =
    call-published proxy proxy 5 (call inside) true (some 3) proxy-Ready (omega arith) (omega arith)
      refl refl

call-refused_example :
    ((vsoa_rpc_data_callback proxy all_granted 5 (some (call outside))).0 ≡ returns_error)
    × ((vsoa_rpc_data_callback proxy all_granted 5 (some (call outside))).1.queue ≡ empty_queue)
unfolding is_target_network
call-refused_example = call-refused proxy all_granted 5 (call outside) (inr refl)
