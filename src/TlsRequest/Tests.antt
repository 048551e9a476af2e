-- ===== src/TlsRequest/Tests.antt =====
-- The requests of 722device/server/tls_request.c: runs, and the theorems at a small table.
use ai_coding_for_business.Common.{
  ℕ, ◌≡◌, ◌⊎◌, refl, arith, true, false, none, some, List, [], ◌∷◌, ◌++◌, ◌==◌, if◌then◌else◌, has,
  length, write, cells, codes, u32_at,
}
use ai_coding_for_business.TlsBuff.{zero_queue}
use ai_coding_for_business.State.{Server}
use ai_coding_for_business.TlsRequest.{
  Command, Request, LinkRequest, LinkResult, initialize, push_queue, command_poll, find_loop, find,
  session_id, store_response, remove_queue, freed, link_info_finish, copy_linkinfo, no_linkinfo,
  link_info_begin, link_info_end, status_request,
}
use ai_coding_for_business.TlsRequest.Messages.{SaysRequest, status_request-says}
use ai_coding_for_business.TlsRequest.Steps.{
  WellFormed, Threads, Step, Reach, push_queue-WellFormed,
}
use ai_coding_for_business.TlsRequest.Served.{Owned, Served, Reach-Served}
use ai_coding_for_business.TlsRequest.Answer.{Meanwhile, Others}
use ai_coding_for_business.TlsRequest.Answer.Result.{
  Askable, link_info-answered, link_info-late, link_info-unanswered,
}
use ai_coding_for_business.TlsRequest.Answer.Timeout.{times_out}

abbrev server : Server
server = record {
  start = true;
  param = record {
    local_ip = 0;
    local_id = 1;
    local_sub_id = 2;
    on_register = false;
    on_receive = false;
  };
  sequence = 7;
  transmit = record {
    start = true;
    queues = λ _. [];
    current = none;
    run = true;
    evt_loop = false;
  };
  receive = record { start = true; queue = []; run = true };
  work_run = true;
  evt_work_loop = false;
  send_pool = zero_queue;
  recv_pool = zero_queue;
  transmit_pool = λ _. zero_queue;
  mem = record { fresh = 100; live = []; granted = []; garbage = λ _ _. 170 };
  wire = [];
  tx_output = 0;
  calls = [];
}

abbrev idle : Request
idle = record { waiting = []; heap = λ _. none }

idle-WellFormed : WellFormed idle
idle-WellFormed = record { distinct = tt; live = tt }

abbrev request : LinkRequest
request = record { dst_app_id = 9; dst_entity_id = 3; path_policy = 2 }

abbrev first_id : List ℕ
first_id = codes "0123456789abcdef"

abbrev other_id : List ℕ
other_id = codes "fedcba9876543210"

idle-Askable : Askable idle 50 first_id
unfolding find_loop
idle-Askable = record { formed = idle-WellFormed; free = refl; unused = refl }

abbrev waiting : Request
waiting = push_queue idle 50 (initialize first_id) 1000

-- Another client asks, with its command at 60.
abbrev both : Request
both = push_queue waiting 60 (initialize other_id) 2000

both-Meanwhile : Meanwhile 50 first_id (link_info_begin server idle 50 first_id 1000 request).2 both
unfolding push_queue link_info_begin
both-Meanwhile =
    Meanwhile.next waiting both Meanwhile.here (Others.begins 60 other_id 2000 refl refl)

-- A response with the first id, from the address 9.
abbrev response : ℕ → ℕ
response = write (λ _. 0) 8 (first_id ++ 0 ∷ 0 ∷ 0 ∷ 9 ∷ [])

source : u32_at response 24 ≡ 9
source = refl

-- A state of the threads: one command waits, and the receiver has found it for a response. Then its client leaves the
-- queue and frees it.
abbrev found : Threads
found = record { table = waiting; leaving = []; found = some (50, response) }

found-Owned : Owned found
unfolding push_queue
found-Owned = record {
  formed = push_queue-WellFormed idle 50 (initialize first_id) 1000 refl idle-WellFormed;
  distinct = tt;
  live = tt;
  apart = λ q h. cc;
  exact = λ q a b. ground arith;
}

abbrev left : Threads
left = record found { table = remove_queue waiting 50; leaving = 50 ∷ [] }

abbrev gone : Threads
gone = record found { table = freed (remove_queue waiting 50) 50; leaving = [] }

gone-Reach : Reach found gone
unfolding push_queue remove_queue link_info_finish
gone-Reach =
    Reach.next left gone (Reach.next found left Reach.here (Step.leaves 50 refl))
      (Step.frees 50 false no_linkinfo gone.table refl refl)

Reach-Served_example : Served gone
Reach-Served_example = Reach-Served found gone gone-Reach found-Owned

link_info-answered_example :
    (c : Command) × (r2 : Request) × (rest : Request) × (find both (session_id response)
      ≡ some (some 50))
    × (both.heap 50 ≡ some c)
    × ((c.result ≡ 0) ⊎ (c.result ≡ 4294967295))
    × (store_response both 50 response ≡ some r2)
    × (link_info_end r2 50 true
        ≡ some (if c.result == 0 then copy_linkinfo response else no_linkinfo, rest))
    × (has 50 rest.waiting ≡ false)
    × (rest.heap 50 ≡ none)
link_info-answered_example =
    link_info-answered server idle 50 first_id 1000 request idle-Askable both both-Meanwhile both
      response Meanwhile.here refl

link_info-late_example :
    (result : LinkResult) × (rest : Request) × (find both (session_id response) ≡ some (some 50))
    × (link_info_end both 50 false ≡ some (result, rest))
    × (store_response rest 50 response ≡ none)
link_info-late_example =
    link_info-late server idle 50 first_id 1000 request idle-Askable both both-Meanwhile response
      false refl

link_info-unanswered_example :
    (rest : Request) × (link_info_end both 50 false ≡ some (no_linkinfo, rest))
link_info-unanswered_example =
    link_info-unanswered server idle 50 first_id 1000 request idle-Askable both both-Meanwhile false
      (λ h. cc)

times_out_example :
    (r1 : Request) × (r2 : Request) × (c : Command) × (command_poll (λ _. 2001000) both ≡ some r1)
    × (command_poll (λ _. 2003000) r1 ≡ some r2)
    × (r2.heap 50 ≡ some c)
    × (c.result ≡ 4294967295)
    × (c.event ≡ true)
times_out_example =
    times_out server idle 50 first_id 1000 request idle-Askable both both-Meanwhile (λ _. 2001000)
      (λ _. 2003000) (λ k. omega arith) (λ k. omega arith)

abbrev id_bytes : ℕ → ℕ
id_bytes = write (λ _. 0) 0 first_id

status_request-says_example :
    (length (status_request server.param 7 (cells id_bytes 0 16) request) ≡ 41)
    × SaysRequest
        (write (λ _. 0) 0 (status_request server.param 7 (cells id_bytes 0 16) request))
        server.param
        7
        id_bytes
        request
status_request-says_example =
    status_request-says (λ _. 0) server.param 7 id_bytes request (omega arith)
