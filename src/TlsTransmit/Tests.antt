-- ===== src/TlsTransmit/Tests.antt =====
-- The transmitter of 722device/server/tls_transmit.c: runs, and the theorems at small states.
use ai_coding_for_business.Common.{
  put, ℕ, ◌+◌, ◌≡◌, refl, true, false, none, some, [], ◌∷◌, arith, e_invalid_data, e_notready, map,
}
use ai_coding_for_business.TlsBuff.{Buff, zero_buff, zero_queue}
use ai_coding_for_business.State.{Transmit, Server}
use ai_coding_for_business.TlsTransmit.{push, thread_poll, thread_work, handle, release_buff, xmit}
use ai_coding_for_business.TlsTransmit.Drain.{Drained, thread_work-Drained}
use ai_coding_for_business.TlsTransmit.Threads.{idle, Threads, with_transmit, Reach, Reach-trans}
use ai_coding_for_business.TlsTransmit.Steps.{push-Reach, poll-Reach}
use ai_coding_for_business.TlsTransmit.Wakeup.{no_lost_wakeup, serves_highest}

-- A message of a priority, with storage and four bytes.
abbrev message : ℕ → ℕ → Buff
message p n = record (zero_buff n) { buf = n + 1; buf_size = 16; size = 4; priority = p }

abbrev fresh : Transmit
fresh = record { start = true; queues = λ _. []; current = none; run = true; evt_loop = false }

abbrev waiting : Transmit
waiting = record fresh {
  queues = put (put (λ _. []) 2 (message 2 10 ∷ message 2 20 ∷ [])) 0 (message 0 30 ∷ []);
  current = some 2;
  evt_loop = true;
}

abbrev server_of : Transmit → Server
server_of t = record {
  start = true;
  param = record {
    local_ip = 0;
    local_id = 1;
    local_sub_id = 2;
    on_register = true;
    on_receive = true;
  };
  sequence = 0;
  transmit = t;
  receive = record { start = true; queue = []; run = true };
  work_run = true;
  evt_work_loop = false;
  send_pool = zero_queue;
  recv_pool = zero_queue;
  transmit_pool = λ _. zero_queue;
  mem = record { fresh = 100; live = []; granted = []; garbage = λ _ _. 0 };
  wire = [];
  tx_output = 0;
  calls = [];
}

abbrev threads_of : Server → Threads
threads_of s = record { server = s; inserted = λ _. 0; raised = λ _. 0; poller = idle }

push_needs_start : (push (record fresh { start = false }) (some (message 3 1))).0 ≡ e_notready
unfolding push
push_needs_start = refl

push_checks_priority : (push fresh (some (message 8 1))).0 ≡ e_invalid_data
unfolding push
push_checks_priority = refl

-- Messages of priority 2 go before the one of priority 0.
sent_in_order :
    (s : Server) × (thread_work 12 (λ _. true) (server_of waiting) ≡ some s)
    × (map (λ b. b.self) s.wire ≡ 10 ∷ 20 ∷ 30 ∷ [])
unfolding thread_work handle xmit release_buff
sent_in_order = (_, refl, refl)

thread_work-Drained_example :
    (s : Server) × (thread_work 12 (λ _. true) (server_of waiting) ≡ some s)
    × Drained (server_of waiting) s 2
thread_work-Drained_example =
    thread_work-Drained 12 (λ _. true) (server_of waiting) 2 refl refl refl (omega arith)

-- Priority 0 is served, and a push of priority 0 comes.
abbrev quiet : Threads
quiet = threads_of (server_of (record fresh { current = some 0 }))

-- The message is pushed, and the polling thread sends it and goes to sleep.
abbrev pushed : Threads
pushed = record quiet {
  server = with_transmit quiet.server (push quiet.server.transmit (some (message 0 1))).1;
}

abbrev polled : Threads
polled = record pushed { server = thread_poll pushed.server true }

pushed_polled : Reach quiet polled
unfolding push
pushed_polled =
    Reach-trans (push-Reach quiet (message 0 1) refl refl) (poll-Reach pushed true refl refl refl)

no_lost_wakeup_example : polled.server.transmit.queues 0 ≡ []
unfolding push thread_poll handle xmit release_buff
no_lost_wakeup_example =
    no_lost_wakeup quiet polled (λ p. refl, refl) pushed_polled refl (λ p. refl) (λ p. refl) 0

serves_highest_example : polled.server.transmit.queues 3 ≡ []
unfolding push thread_poll handle xmit release_buff
serves_highest_example =
    serves_highest quiet polled 0 3 (λ p. refl, refl) pushed_polled refl (omega arith) refl
