-- ===== src/AppTransmit/Callbacks.antt =====
-- The callbacks of 722device/app/app_transmit.c on messages: from the RPC server into the rings of
-- LinkProxy, from the subscription of the application into the transport server, and from the transport
-- service to the publisher of the application.
pub mod Delivery
pub mod Subscription
use ai_coding_for_business.Common.{
  ℕ, ◌+◌, ◌%◌, ◌^◌, Bool, true, false, ◌||◌, ◌&&◌, Option, none, some, List, [], ◌∷◌, ◌++◌, ◌==◌,
  ltb, leb, if◌then◌else◌, length, is_nil, cells, u64_at, TlsResult,
}
use ai_coding_for_business.NetProxy.{cut}
use ai_coding_for_business.State.{Server}
use ai_coding_for_business.TlsServer.Publish.{Url, Payload, VsoaSession, vsoa_publish_transmit}
use ai_coding_for_business.LinkProxy.{
  PrioQueue, LinkEntry, find_entry, push_to_prio_queue, init_queues,
}
use ai_coding_for_business.AppTransmit.{
  Destination, Parsed, undefined, refused, parsed, parse_url, slash,
}

-- The table `s_link_map_config` and the rings of `g_net_proxy`, with the counter of
-- `tls_statis_rate_tx_input` of 722device/statis/tls_statis_rate.c, and whether it is started.
pub record App : Type 0 where
  pub link_map : List LinkEntry
  pub rings : ℕ → PrioQueue
  pub counting : Bool
  pub tx_input : ℕ

abbrev pub count_input : App → ℕ → App
count_input app bytes =
    if app.counting then record app { tx_input = (app.tx_input + bytes) % 2 ^ 64 } else app

-- The table is loaded where it is empty, which also initializes the rings. `loaded` is what
-- `tls_net_proxy_load_config_json` reads, or its failure.
pub with_config : Option (List LinkEntry) → App → Option App
with_config loaded app =
    if is_nil app.link_map
    then elim loaded [
      | none ↦ none
      | some entries ↦ some (record app { link_map = entries; rings = init_queues app.rings })
    ]
    else some app

-- The search for the entry and the push. A message without data is refused by the push.
pub queue_message : App → Destination → (data_at data_len : ℕ) → App
queue_message app d data_at data_len = elim (find_entry app.link_map d.addr) [
  | none ↦ app
  | some e ↦ if data_at == 0 then app else record app {
    rings =
        (push_to_prio_queue app.rings e.dest_ip e.dest_port d.entry d.priority d.newurl data_at
          data_len).1;
  }
]

-- `api_transmit_callback_on_app_rpc_server_message` with an application.
pub rpc_message :
    Option (List LinkEntry) → App → List ℕ → (param_len data_at data_len : ℕ) → Option App
unfolding with_config queue_message
rpc_message loaded app url param_len data_at data_len =
    let counted = count_input app (param_len + data_len) in
    elim (parse_url url) [
      | undefined ↦ none
      | refused r ↦ some counted
      | parsed d ↦ elim (with_config loaded counted) [
        | none ↦ some counted
        | some app' ↦ some (queue_message app' d data_at data_len)
      ]
    ]

-- The session that the next callback makes: the structure is cleared, and the priority of the address is
-- not put into it.
abbrev pub session_for : Destination → Payload → VsoaSession
session_for d p = record {
  dest_addr = d.addr;
  dest_entry = d.entry;
  vsoa_url = some d.newurl;
  vsoa_payload = some p;
  priority = 0;
}

-- `api_transmit_callback_on_app_subscribe_message` with an application.
pub app_subscribe_message : App → Server → List ℕ → Payload → Option (App × Server)
app_subscribe_message app s url p =
    let counted = count_input app (length p.param + length p.content) in
    elim (parse_url url) [
      | undefined ↦ none
      | refused r ↦ some (counted, s)
      | parsed d ↦ elim (vsoa_publish_transmit s (some (session_for d p))) [
        | none ↦ none
        | some sent ↦ some (counted, sent.1)
      ]
    ]

-- The last character of a string that is not empty goes where it is a slash.
abbrev pub trim_slash : List ℕ → List ℕ
trim_slash [] = []
trim_slash (c ∷ s) = let rest = trim_slash s in if is_nil s && (c == slash) then [] else c ∷ rest

-- `api_transmit_callback_on_tls_subscribe_message`: what is published of the `size` bytes received. There
-- is no result where it reads beyond these bytes, writes beyond an array of 128 characters, or reads
-- before one, as it does where the publisher has no url.
pub tls_subscribe_message :
    (server_url : List ℕ) → (bytes : ℕ → ℕ) → (size : ℕ) → Option (List (Url × Payload))
tls_subscribe_message server_url bytes size =
    let url_size = u64_at bytes 8 in
    let param_size = u64_at bytes 24 in
    let data_size = u64_at bytes 40 in
    if size == 0
    then some []
    else if ltb size (48 + url_size + param_size + data_size)
    then none
    else if leb 128 url_size || is_nil server_url || leb 128 (length server_url)
    then none
    else let url = trim_slash server_url ++ cut (cells bytes 48 url_size) in
      if leb 128 (length url)
      then none
      else some (
          (
            url,
            record {
              param = cells bytes (48 + url_size) param_size;
              content = cells bytes (48 + url_size + param_size) data_size;
            },
          )
          ∷ [])
