-- ===== src/TlsRequest.antt =====
-- 722device/server/tls_request.c: the requests for the state of the network, each a command that waits for
-- its response.
--
-- A command is an object on a heap where `none` is what is not allocated. The queue of waiting commands is the list
-- of their addresses. Each function here is what a thread does between taking the lock of the queue and
-- giving it up, or on a command that it owns or has found; a use of a command that is not allocated has
-- no outcome.
pub mod Heaps
pub mod Steps
pub mod Served
pub mod Answer
pub mod Messages
mod Tests
use ai_coding_for_business.Common.{
  ℕ, zero, suc, ◌+◌, ◌-◌, ◌*◌, ◌/◌, ◌%◌, ◌^◌, Bool, true, false, not, ◌&&◌, Option, none, some,
  List, [], ◌∷◌, ◌++◌, ◌==◌, ltb, leb, if◌then◌else◌, length, replicate, str_eq, put, write, cells,
  be16, be32, u16_at, u32_at, TlsResult, s_ok, e_timeout,
}
use ai_coding_for_business.TlsList.Remove.{erase}
use ai_coding_for_business.State.{Param, Server}
use ai_coding_for_business.TlsServer.{next_sequence}

-- `tls_command_t`, but for `cmd_seq_` and `cmd_usr_`, which are never used, and the callback, which is always
-- `tls_command_callback`. `event` is the state of `cmd_event_`.
pub record Command : Type 0 where
  pub id : List ℕ
  pub timeout : ℕ
  pub cmd_data : ℕ → ℕ
  pub data_size : ℕ
  pub result : ℕ
  pub tv_start : ℕ
  pub tv_tick : ℕ
  pub event : Bool

-- `tls_request_t`, and the commands.
pub record Request : Type 0 where
  pub waiting : List ℕ
  pub heap : ℕ → Option Command

-- `tls_command_initialize`, and the id, as `tls_request_link_info` copies it.
abbrev pub initialize : List ℕ → Command
initialize id = record {
  id = id;
  timeout = 2000000;
  cmd_data = λ _. 0;
  data_size = 0;
  result = 0;
  tv_start = 0;
  tv_tick = 0;
  event = false;
}

-- `tls_command_push_queue`.
pub push_queue : Request → (p : ℕ) → Command → (now : ℕ) → Request
push_queue r p c now = record {
  waiting = r.waiting ++ p ∷ [];
  heap = put r.heap p (some (record c { tv_start = now; tv_tick = now }));
}

-- `tls_command_remove_queue`.
pub remove_queue : Request → ℕ → Request
remove_queue r p = record r { waiting = erase p r.waiting }

-- `tls_command_call_cb`, with `tls_command_callback` as its callback. The result is a U32.
abbrev pub result_of : TlsResult → ℕ → ℕ
result_of e_timeout result = 4294967295
result_of s_ok result = 1
result_of _ result = result

abbrev pub call_cb : TlsResult → Command → Command
call_cb r c = record c { result = result_of r c.result; event = true }

-- The loop of `tls_request_command_poll`, on the commands from number `i` on; `times` are the answers of the clock.
abbrev pub due : Command → Bool
due c = leb c.timeout ((c.tv_tick + (2 ^ 64 - c.tv_start)) % 2 ^ 64)

abbrev pub poll_command : ℕ → Command → Command
poll_command now c =
    if c.result == 0 then record (if due c then call_cb e_timeout c else c) { tv_tick = now } else c

pub poll_loop : (times : ℕ → ℕ) → ℕ → List ℕ → (ℕ → Option Command) → Option (ℕ → Option Command)
poll_loop times i [] heap = some heap
poll_loop times i (p ∷ ps) heap = elim (heap p) [
  | none ↦ none
  | some c ↦ poll_loop times (suc i) ps (put heap p (some (poll_command (times i) c)))
]

pub command_poll : (times : ℕ → ℕ) → Request → Option Request
command_poll times r = elim (poll_loop times 0 r.waiting r.heap) [
  | none ↦ none
  | some heap ↦ some (record r { heap = heap })
]

-- `tls_command_find`.
pub find_loop : (ℕ → Option Command) → List ℕ → (id : List ℕ) → Option (Option ℕ)
find_loop heap [] id = some none
find_loop heap (p ∷ ps) id =
    let rest = find_loop heap ps id in
    elim (heap p) [ none ↦ none | some c ↦ if str_eq c.id id then some (some p) else rest ]

abbrev pub find : Request → (id : List ℕ) → Option (Option ℕ)
find r id = find_loop r.heap r.waiting id

abbrev pub session_id : (ℕ → ℕ) → List ℕ
session_id msg = cells msg 8 16

-- `tls_request_on_response` gives up the lock between its two parts. The first one is the search, `find` of the
-- session id; where it finds a command, the second one stores the message `msg`, of the size of
-- `tls_path_msg_t`, into it.
abbrev pub path_msg_size : ℕ
path_msg_size = 494

abbrev pub answered : Command → (ℕ → ℕ) → Command
answered c msg = record c {
  cmd_data = write c.cmd_data 0 (cells msg 0 path_msg_size);
  data_size = path_msg_size;
  event = true;
}

pub store_response : Request → (p : ℕ) → (msg : ℕ → ℕ) → Option Request
store_response r p msg = elim (r.heap p) [
  | none ↦ none
  | some c ↦ some (record r { heap = put r.heap p (some (answered c msg)) })
]

-- `app_linkinfo_request_t`, and `app_linkinfo_result_t` with the bytes of its paths.
pub record LinkRequest : Type 0 where
  pub dst_app_id : ℕ
  pub dst_entity_id : ℕ
  pub path_policy : ℕ

pub record LinkResult : Type 0 where
  pub src_app_id : ℕ
  pub src_entity_id : ℕ
  pub dst_app_id : ℕ
  pub dst_entity_id : ℕ
  pub reserve : ℕ
  pub result : ℕ
  pub pathnum : ℕ
  pub pathinfo : List ℕ

-- `tls_copy_linkinfo_toapp`.
abbrev pub copy_linkinfo : (ℕ → ℕ) → LinkResult
copy_linkinfo msg = record {
  src_app_id = u32_at msg 24;
  src_entity_id = u16_at msg 28;
  dst_app_id = u32_at msg 30;
  dst_entity_id = u16_at msg 34;
  reserve = u32_at msg 36;
  result = if msg 40 == 0 then 1 else 0;
  pathnum = msg 41;
  pathinfo = cells msg 42 452;
}

abbrev pub no_linkinfo : LinkResult
no_linkinfo = record {
  src_app_id = 0;
  src_entity_id = 0;
  dst_app_id = 0;
  dst_entity_id = 0;
  reserve = 0;
  result = 0;
  pathnum = 0;
  pathinfo = replicate 452 0;
}

-- The request message, `tls_net_status_req_msg_t`. The policy is `htons` of a U16, stored in a U8.
abbrev pub link_status_request : ℕ
link_status_request = 81

abbrev pub status_request : Param → (sequence : ℕ) → (id : List ℕ) → LinkRequest → List ℕ
status_request p sequence id q =
    (0 ∷ link_status_request ∷ 0 ∷ 0 ∷ 0 ∷ 0 ∷ be16 sequence)
    ++ (id
        ++ (be32 p.local_id
            ++ (be16 p.local_sub_id
                ++ (be32 q.dst_app_id
                    ++ (be16 q.dst_entity_id
                        ++ (q.path_policy / 256 % 256) ∷ 0 ∷ 0 ∷ 0 ∷ 0 ∷ [])))))

-- `tls_request_link_info` up to its wait: the message that it publishes, the server and the request after it.
-- `p` is the address of the new command, and `id` the 16 bytes of `tls_request_build_sessionid`.
pub link_info_begin :
    Server → Request → (p : ℕ) → (id : List ℕ) → (now : ℕ) → LinkRequest → List ℕ × Server × Request
unfolding push_queue
link_info_begin s r p id now q =
    (status_request s.param s.sequence id q, next_sequence s, push_queue r p (initialize id) now)

-- What follows when the command has been removed from the queue: `woken` is what the wait for the event returned.
abbrev pub result_for : (woken : Bool) → Command → LinkResult
result_for woken c = if woken && (c.result == 0) then copy_linkinfo c.cmd_data else no_linkinfo

abbrev pub freed : Request → ℕ → Request
freed r p = record r { heap = put r.heap p none }

pub link_info_finish : Request → (p : ℕ) → (woken : Bool) → Option (LinkResult × Request)
link_info_finish r p woken = elim (r.heap p) [
  | none ↦ none
  | some c ↦ some (result_for woken c, freed r p)
]

-- With its removal from the queue, where nothing comes between.
pub link_info_end : Request → (p : ℕ) → (woken : Bool) → Option (LinkResult × Request)
unfolding remove_queue link_info_finish
link_info_end r p woken = link_info_finish (remove_queue r p) p woken
