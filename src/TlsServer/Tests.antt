-- ===== src/TlsServer/Tests.antt =====
-- The server of 722device/server/tls_work.c: runs, and the theorems at a small server.
use ai_coding_for_business.Common.{
  put, put-holds, ℕ, ◌≤◌, ◌≡◌, ◌⊎◌, refl, arith, true, false, none, some, List, [], ◌∷◌, ◌++◌,
  replicate, s_ok, e_allocate, TlsResult,
}
use ai_coding_for_business.TlsBuff.{Buff, BuffQueue, zero_buff, zero_queue}
use ai_coding_for_business.TlsBuff.Memory.{Mem}
use ai_coding_for_business.State.{Server, received, type_rx, udp, vsoa}
use ai_coding_for_business.TlsTransmit.{thread_work}
use ai_coding_for_business.AppTransmit.Callbacks.{tls_subscribe_message}
use ai_coding_for_business.AppTransmit.Callbacks.Subscription.{publish-subscribe}
use ai_coding_for_business.TlsServer.{Session, transmit, server_deactive}
use ai_coding_for_business.TlsServer.Buffers.{WellFormed, Usable, NoBuffer, AllUsable, repooled}
use ai_coding_for_business.TlsServer.Message.{IsMessage, full, fill_message-IsMessage}
use ai_coding_for_business.TlsServer.Deliver.{
  Sendable, Quiet, frame_room, queued, transmit-outcomes, transmit-Sends, transmit-drops,
}
use ai_coding_for_business.TlsServer.Receive.{receive_into, receive_round, work_poll, receive_pop}
use ai_coding_for_business.TlsServer.Running.{Round, Rounds, Rounds-WellFormed}
use ai_coding_for_business.TlsServer.Receive.Relay.{Relayed, message-received}
use ai_coding_for_business.TlsServer.Publish.{Url, Payload, vsoa_publish}
use ai_coding_for_business.TlsServer.Publish.Outcomes.{Publishable, taken_in}

-- A buffer of priority 3 for one use by UDP, or after a use by VSOA.
abbrev used : ℕ → ℕ → Buff
used size mode = record (zero_buff 50) { buf = 51; buf_size = size; priority = 3; transmode = mode }

abbrev pool_of : Buff → BuffQueue
pool_of b = record zero_queue { list_buff = b ∷ []; priority = 3 }

abbrev server_with : Buff → Server
server_with b = record {
  start = true;
  param = record {
    local_ip = 0;
    local_id = 1;
    local_sub_id = 2;
    on_register = true;
    on_receive = true;
  };
  sequence = 7;
  transmit = record {
    start = true;
    queues = λ _. [];
    current = none;
    run = true;
    evt_loop = false;
  };
  receive = record { start = true; queue = []; run = true };
  work_run = true;
  evt_work_loop = false;
  send_pool = zero_queue;
  recv_pool = zero_queue;
  transmit_pool = put (λ _. zero_queue) 3 (pool_of b);
  mem = record { fresh = 100; live = []; granted = true ∷ true ∷ []; garbage = λ _ _. 170 };
  wire = [];
  tx_output = 0;
  calls = [];
}

server_with-WellFormed :
    (room size mode : ℕ) → room ≤ size → WellFormed room (server_with (used size mode))
server_with-WellFormed room size mode h = record {
  pools = λ p k.
      put-holds (λ q pool. AllUsable room 0 q pool.list_buff) (λ _. zero_queue) 3
        (pool_of (used size mode)) p ((ground arith, h, refl, refl), tt) tt;
  queues = λ p k. tt;
  known_current = λ c e. ground arith;
  recv_pool = tt;
  received = tt;
}

abbrev session : Session
session = record { session_id = 65 ∷ 66 ∷ []; remote_id = 89; remote_sub_id = 3001; priority = 3 }

abbrev words : List ℕ
words = 10 ∷ 20 ∷ 30 ∷ []

abbrev by_udp : Server
by_udp = server_with (used 2048 udp)

abbrev by_vsoa : Server
by_vsoa = server_with (used 2048 vsoa)

sendable : (mode : ℕ) → Sendable (server_with (used 2048 mode)) session words
sendable mode = record {
  id_ends = omega arith;
  some_payload = omega arith;
  short_payload = omega arith;
  known_priority = omega arith;
  started = refl;
}

quiet : (mode : ℕ) → Quiet (server_with (used 2048 mode))
quiet mode = record { sending = refl; running = refl; nothing_waits = λ p. refl }

transmit-outcomes_example :
    ((m : Mem) × (transmit by_udp (some session) (some words)
        ≡ some (e_allocate, repooled by_udp by_udp.transmit_pool m))
      × NoBuffer by_udp 3)
    ⊎ ((b : Buff) × (pools : ℕ → BuffQueue) × (m : Mem) × (transmit by_udp
            (some session)
            (some words)
          ≡ some (s_ok, queued by_udp pools m b))
        × IsMessage by_udp session words b
        × Usable frame_room 0 3 b
        × (b.transmode ≡ udp)
        × WellFormed frame_room (queued by_udp pools m b))
transmit-outcomes_example =
    transmit-outcomes by_udp session words (server_with-WellFormed 1077 2048 udp (omega arith))
      (sendable udp) refl

transmit-Sends_example :
    ((m : Mem) × (transmit by_udp (some session) (some words)
        ≡ some (e_allocate, repooled by_udp by_udp.transmit_pool m))
      × NoBuffer by_udp 3)
    ⊎ ((b : Buff) × (s1 : Server) × (s2 : Server) × (transmit by_udp (some session) (some words)
          ≡ some (s_ok, s1))
        × (thread_work 12 (λ _. true) s1 ≡ some s2)
        × (s2.wire ≡ b ∷ [])
        × IsMessage by_udp session words b)
transmit-Sends_example =
    transmit-Sends by_udp session words 12 (λ _. true)
      (server_with-WellFormed 1077 2048 udp (omega arith)) (sendable udp) (quiet udp) refl
      (omega arith)

transmit-drops_example :
    (s1 : Server) × (s2 : Server) × (transmit by_vsoa (some session) (some words) ≡ some (s_ok, s1))
    × (thread_work 12 (λ _. true) s1 ≡ some s2)
    × (s2.wire ≡ [])
transmit-drops_example =
    transmit-drops by_vsoa session words 12 (λ _. true)
      (server_with-WellFormed 1077 2048 vsoa (omega arith)) (sendable vsoa) (quiet vsoa) refl
      (omega arith)

-- The frame of the message, in the buffer and as the service passes it on.
abbrev frame : Buff
frame = record (used 2048 udp) { bytes = full by_udp session words (used 2048 udp); size = 56 }

frame-IsMessage : IsMessage by_udp session words frame
frame-IsMessage =
    (fill_message-IsMessage by_udp session words (used 2048 udp) (omega arith) (omega arith)).1

abbrev passed_on : List ℕ
passed_on = 0 ∷ 66 ∷ replicate 49 0 ++ 0 ∷ 3 ∷ 10 ∷ 20 ∷ 30 ∷ []

frame-Relayed : Relayed frame passed_on
frame-Relayed = record {
  same_length = refl;
  recv_type = refl;
  same_bytes = λ i lo hi. ground arith;
}

abbrev receiver : Buff
receiver = record (zero_buff 60) { buf = 61; buf_size = 2048; type = type_rx }

message-received_example :
    (work_poll (receive_into by_udp receiver (some passed_on))).calls ≡ received 3 words ∷ []
message-received_example =
    message-received by_udp session words frame receiver passed_on frame-IsMessage (omega arith)
      frame-Relayed (omega arith) by_udp refl refl (omega arith)

-- The working thread finds nothing to do.
by_udp-Rounds : Rounds by_udp (work_poll by_udp)
by_udp-Rounds = Rounds.next by_udp (work_poll by_udp) Rounds.here Round.works

Rounds-WellFormed_example :
    WellFormed frame_room (work_poll by_udp)
    × ((t : Server) × (receive_round (work_poll by_udp) (some words) ≡ some t))
    × ((r : TlsResult) × (t : Server) × (transmit (work_poll by_udp) (some session) (some words)
          ≡ some (r, t)))
unfolding work_poll receive_pop server_deactive
Rounds-WellFormed_example =
    Rounds-WellFormed by_udp (work_poll by_udp) (some words) session words by_udp-Rounds
      (server_with-WellFormed 1077 2048 udp (omega arith))
      (record {
        id_ends = omega arith;
        some_payload = omega arith;
        short_payload = omega arith;
        known_priority = omega arith;
        started = refl;
      })
      refl

abbrev topic : Url
topic = 47 ∷ 97 ∷ []

abbrev load : Payload
load = record { param = 1 ∷ []; content = 2 ∷ 3 ∷ [] }

publishable : (size mode : ℕ) → Publishable (server_with (used size mode)) topic load 3
publishable size mode = record {
  some_url = omega arith;
  some_payload = omega arith;
  known_priority = omega arith;
  started = refl;
}

-- The publisher of the other device has the url "/a".
publish-subscribe_example :
    ((m : Mem) × (vsoa_publish by_udp (some topic) (some load) 3
        ≡ some (e_allocate, repooled by_udp by_udp.transmit_pool m))
      × NoBuffer by_udp 3)
    ⊎ ((b : Buff) × (pools : ℕ → BuffQueue) × (m : Mem) × (vsoa_publish by_udp
            (some topic)
            (some load)
            3
          ≡ some (s_ok, taken_in by_udp pools m b))
        × (tls_subscribe_message (47 ∷ 97 ∷ []) b.bytes b.size
            ≡ some ((47 ∷ 97 ∷ [] ++ topic, load) ∷ [])))
publish-subscribe_example =
    publish-subscribe by_udp topic load 3 1077 (47 ∷ 97 ∷ []) (publishable 2048 udp)
      (server_with-WellFormed 1077 2048 udp (omega arith)) (omega arith) (omega arith) refl
      (record {
        some_server = refl;
        server_room = omega arith;
        url_room = omega arith;
        room = omega arith;
        text = omega arith;
      })
