-- ===== src/AppTransmit/Callbacks/Delivery.antt =====
-- From an RPC message of 722device/app/app_transmit.c through the rings of 722device/network/tls_net_proxy.c
-- to what the other device publishes.
use ai_coding_for_business.Common.{
  put, put-same, ℕ, zero, suc, ◌+◌, ◌%◌, ◌≤◌, ◌<◌, ◌≡◌, ◌≢◌, ◌⊎◌, inl, inr, refl, sym, ap, ◌∙◌,
  arith, false, Option, some, List, [], ◌∷◌, ◌++◌, append_assoc, ◌==◌, length, length-append,
  length-cells, is_nil, take, cells, Bool-cases,
}
use ai_coding_for_business.NetProxy.Text.{Text}
use ai_coding_for_business.LinkProxy.{
  Node, PrioQueue, LinkEntry, Sending, find_entry, push_to_prio_queue, queue_size, append_node,
  url_bytes, clamp_priority, send_buffer, World, sending_of, send_node, transmit_loop, published,
  proto_tcp, proto_udp,
}
use ai_coding_for_business.LinkProxy.Ring.{contents}
use ai_coding_for_business.LinkProxy.Order.{
  Formed, waiting, waiting-put_above, sendings, transmit_loop-sends,
}
use ai_coding_for_business.LinkProxy.Intake.{
  node_for, push_to_prio_queue-room, pushed_rings-Formed, contents-pushed,
}
use ai_coding_for_business.LinkProxy.Relay.{TakesAll, send_node-sending, published-send_buffer}
use ai_coding_for_business.AppTransmit.{Destination, parsed, path, parse_url}
use ai_coding_for_business.AppTransmit.Address.{Segments, IsNumber, value, parse_url-path}
use ai_coding_for_business.AppTransmit.Bounds.{length-path, Text-path}
use ai_coding_for_business.AppTransmit.Callbacks.{App, count_input, queue_message, rpc_message}

-- A message with an address of the table, for a proxy whose table is loaded.
record Routed (app : App) (d : Destination) (e : LinkEntry) (url : List ℕ) (data_at data_len : ℕ)
    : Type 0 where
  pub loaded : is_nil app.link_map ≡ false
  pub address : parse_url url ≡ parsed d
  pub entry : find_entry app.link_map d.addr ≡ some e
  pub some_data : data_at ≢ 0
  pub some_bytes : data_len ≢ 0

module _ (loads : Option (List LinkEntry)) (app : App) (d : Destination) (e : LinkEntry)
    (url : List ℕ) (param_len data_at data_len : ℕ) (r : Routed app d e url data_at data_len) where
  abbrev queued : App
  queued = record (count_input app (param_len + data_len)) {
    rings =
        (push_to_prio_queue app.rings e.dest_ip e.dest_port d.entry d.priority d.newurl data_at
          data_len).1;
  }

  rpc_message-queued : rpc_message loads app url param_len data_at data_len ≡ some queued
  unfolding rpc_message queue_message
  rpc_message-queued = ground (arith, r.loaded, r.address, r.entry, r.some_data)

-- A node behind the others of its ring stands somewhere among all that wait.
waiting-put :
    (i p : ℕ) (qs : ℕ → PrioQueue) (q : PrioQueue) (n : Node)
    → p < i
    → contents q ≡ contents (qs p) ++ n ∷ []
    → (xs : List Node) × (ys : List Node) × (waiting i (put qs p q) ≡ xs ++ n ∷ ys)
      × (waiting i qs ≡ xs ++ ys)
waiting-put zero p qs q n h c = absurd (omega arith)
waiting-put (suc i) p qs q n h c = elim (Bool-cases (i == p)) [
  | inl here ↦
      let same : i ≡ p = ground arith in
      (
        contents (qs p),
        waiting i qs,
        rw (same, put-same qs p q, c, waiting-put_above p p qs q (omega arith))
            (append_assoc (contents (qs p)) (n ∷ []) (waiting p qs)),
        rw same refl,
      )
  | inr other ↦
      let (xs, ys, e, e') = waiting-put i p qs q n (ground arith) c in
      (
        contents (qs i) ++ xs,
        ys,
        ground (arith, e, append_assoc (contents (qs i)) xs (n ∷ ys)),
        ground (arith, e', append_assoc (contents (qs i)) xs ys),
      )
]

sendings-append :
    (world : World) (xs ys : List Node)
    → sendings world (xs ++ ys) ≡ sendings world xs ++ sendings world ys
sendings-append world [] ys = refl
sendings-append world (n ∷ xs) ys =
    ap (λ l. send_node world n ++ l) (sendings-append world xs ys)
    ∙ sym (append_assoc (send_node world n) (sendings world xs) (sendings world ys))

-- A run of the thread on rings with the node behind the others of its ring.
module _ (fuel : ℕ) (world : World) (qs : ℕ → PrioQueue) (p : ℕ) (q : PrioQueue) (n : Node) where
  run-sends :
      p < 8
      → contents q ≡ contents (qs p) ++ n ∷ []
      → ((i : ℕ) → Formed i (put qs p q i))
      → suc (length (waiting 8 qs)) < fuel
      → TakesAll world
      → n.data_at ≢ 0
      → n.data_len ≢ 0
      → 4 + length n.url + n.data_len ≤ 4095
      → (n.proto ≡ proto_udp) ⊎ (n.proto ≡ proto_tcp)
      → (before : List Sending) × (after : List Sending) × (rest : ℕ → PrioQueue) × (transmit_loop
            fuel world
            (put qs p q)
          ≡ some (before ++ sending_of world n ∷ after, rest))
        × (sendings world (waiting 8 qs) ≡ before ++ after)
  run-sends low c formed enough all some_data some_bytes fits proto =
      let (xs, ys, e, e') = waiting-put 8 p qs q n low c in
      let (rest, run, left) = transmit_loop-sends fuel world (put qs p q) formed (
        omega (arith, ap length e, ap length e', length-append xs (n ∷ ys), length-append xs ys)) in
      let sent =
        ap (sendings world) e
        ∙ sendings-append world xs (n ∷ ys)
        ∙ ap (λ l. sendings world xs ++ (l ++ sendings world ys))
            (send_node-sending world n all some_data some_bytes fits proto) in
      (
        sendings world xs,
        sendings world ys,
        rest,
        run ∙ ap (λ l. some (l, rest)) sent,
        ap (sendings world) e' ∙ sendings-append world xs ys,
      )

-- A message by UDP or TCP, of priority below 8, whose url and data fit into a datagram of the receiver, and
-- for whose priority there is room.
record Deliverable (app : App) (d : Destination) (data_len : ℕ) : Type 0 where
  pub proto : (d.entry ≡ proto_udp) ⊎ (d.entry ≡ proto_tcp)
  pub level : d.priority < 8
  pub room : (app.rings d.priority).count < queue_size
  pub text : Text d.newurl
  pub short : length d.newurl < 128
  pub fits : 4 + length d.newurl + data_len ≤ 4095

module _ (loads : Option (List LinkEntry)) (app : App) (d : Destination) (e : LinkEntry)
    (url : List ℕ) (param_len data_at data_len : ℕ) (world : World) (fuel : ℕ) where
  rpc-sends :
      Routed app d e url data_at data_len
      → Deliverable app d data_len
      → ((p : ℕ) → Formed p (app.rings p))
      → suc (length (waiting 8 app.rings)) < fuel
      → TakesAll world
      → (app' : App) × (s : Sending) × (before : List Sending) × (after : List Sending) × (rest : ℕ
          → PrioQueue)
        × (rpc_message loads app url param_len data_at data_len ≡ some app')
        × (transmit_loop fuel world app'.rings ≡ some (before ++ s ∷ after, rest))
        × (sendings world (waiting 8 app.rings) ≡ before ++ after)
        × (s.proto ≡ d.entry)
        × (s.ip ≡ take 15 e.dest_ip)
        × (s.port ≡ e.dest_port)
        × (published s.bytes ≡ some (d.newurl, cells world.memory data_at data_len))
  rpc-sends r v formed enough all =
      let low : clamp_priority d.priority ≡ d.priority = ground (arith, v.level) in
      let ring = clamp_priority d.priority in
      let node = node_for e.dest_ip e.dest_port d.entry d.priority d.newurl data_at data_len in
      let room : (app.rings ring).count < queue_size = rw low v.room in
      let plain : url_bytes d.newurl ≡ d.newurl = ground (arith, v.short) in
      let (before, after, rest, run, old) =
        run-sends fuel world app.rings ring (append_node (app.rings ring) node) node
          (omega (arith, low, v.level))
          (contents-pushed app.rings formed e.dest_ip d.newurl e.dest_port d.entry d.priority
            data_at data_len room)
          (pushed_rings-Formed app.rings formed e.dest_ip d.newurl e.dest_port d.entry d.priority
            data_at data_len room)
          enough all r.some_data r.some_bytes (omega (arith, ap length plain, v.fits)) v.proto in
      let pushed =
        push_to_prio_queue-room app.rings formed e.dest_ip d.newurl e.dest_port d.entry d.priority
          data_at data_len room in
      let size = length-cells world.memory data_at data_len in
      (
        queued loads app d e url param_len data_at data_len r,
        sending_of world node,
        before,
        after,
        rest,
        rpc_message-queued loads app d e url param_len data_at data_len r,
        ap (λ got. transmit_loop fuel world got.1) pushed ∙ run,
        old,
        refl,
        refl,
        refl,
        ap (λ u. published (send_buffer u (cells world.memory data_at data_len))) plain
            ∙ published-send_buffer d.newurl (cells world.memory data_at data_len) v.text
                (omega (arith, v.short)) (omega (arith, size, v.fits)),
      )

abbrev pub segments : (head id proto prio : List ℕ) (topic : List (List ℕ)) → List (List ℕ)
segments head id proto prio topic = head ∷ id ∷ proto ∷ prio ∷ topic

-- A message of `data_len` bytes to /head/id/proto/prio/topic on an application whose table is loaded and has an
-- entry for the number `id`: the protocol is UDP or TCP, the priority is below 8, the numbers have decimal digits,
-- and all fits into the arrays of the parser and the datagram of the receiver.
pub record Message (app : App) (e : LinkEntry) (head id proto prio : List ℕ) (topic : List (List ℕ))
    (data_at data_len : ℕ) : Type 0 where
  pub words : Segments (segments head id proto prio topic)
  pub id_number : IsNumber id
  pub proto_number : IsNumber proto
  pub prio_number : IsNumber prio
  pub rows : length (segments head id proto prio topic) ≤ 32
  pub short : length (path (segments head id proto prio topic)) < 128
  pub known_proto : (value 0 proto ≡ proto_udp) ⊎ (value 0 proto ≡ proto_tcp)
  pub level : value 0 prio < 8
  pub loaded : is_nil app.link_map ≡ false
  pub entry : find_entry app.link_map (value 0 id) ≡ some e
  pub some_data : data_at ≢ 0
  pub some_bytes : data_len ≢ 0
  pub fits : 4 + length (path topic) + data_len ≤ 4095

kept-proto : (v : ℕ) → (v ≡ proto_udp) ⊎ (v ≡ proto_tcp) → v % 65536 ≡ v
kept-proto v (inl udp) = omega arith
kept-proto v (inr tcp) = omega arith

same-proto :
    (v : ℕ) → (v ≡ proto_udp) ⊎ (v ≡ proto_tcp) → (v % 65536 ≡ proto_udp) ⊎ (v % 65536 ≡ proto_tcp)
same-proto v (inl udp) = inl (omega arith)
same-proto v (inr tcp) = inr (omega arith)

module _ (loads : Option (List LinkEntry)) (app : App) (e : LinkEntry) (head id proto prio : List ℕ)
    (topic : List (List ℕ)) (param_len data_at data_len : ℕ) (world : World) (fuel : ℕ) where
  abbrev url : List ℕ
  url = path (segments head id proto prio topic)

  abbrev to : Destination
  to = record {
    addr = value 0 id;
    entry = value 0 proto % 65536;
    priority = value 0 prio % 256;
    newurl = path topic;
  }

  -- An RPC message to /head/id/proto/prio/topic, where the ring of its priority has room: it is queued, and the
  -- thread, with fuel for a round more than there are nodes then, sends it among the messages that
  -- waited, these in their order, where the network takes messages of at most 4095 bytes whole. It goes by
  -- its protocol to the address of the entry, and the receiver, where one read brings it the bytes sent,
  -- publishes the data as they are in memory then, under the path of the topic.
  pub rpc-delivered :
      Message app e head id proto prio topic data_at data_len
      → ((p : ℕ) → Formed p (app.rings p))
      → (app.rings (value 0 prio)).count < queue_size
      → suc (length (waiting 8 app.rings)) < fuel
      → TakesAll world
      → (app' : App) × (s : Sending) × (before : List Sending) × (after : List Sending) × (rest : ℕ
          → PrioQueue)
        × (rpc_message loads app url param_len data_at data_len ≡ some app')
        × (transmit_loop fuel world app'.rings ≡ some (before ++ s ∷ after, rest))
        × (sendings world (waiting 8 app.rings) ≡ before ++ after)
        × (s.proto ≡ value 0 proto)
        × (s.ip ≡ take 15 e.dest_ip)
        × (s.port ≡ e.dest_port)
        × (published s.bytes ≡ some (path topic, cells world.memory data_at data_len))
  rpc-delivered m formed room enough all =
      let level : value 0 prio % 256 ≡ value 0 prio = omega (arith, m.level) in
      let proto_kept : value 0 proto % 65536 ≡ value 0 proto =
        kept-proto (value 0 proto) m.known_proto in
      let routed : Routed app to e url data_at data_len = record {
        loaded = m.loaded;
        address =
            parse_url-path head id proto prio topic m.words m.id_number m.proto_number m.prio_number
              m.rows m.short;
        entry = m.entry;
        some_data = m.some_data;
        some_bytes = m.some_bytes;
      } in
      let deliverable : Deliverable app to data_len = record {
        proto = same-proto (value 0 proto) m.known_proto;
        level = omega (arith, m.level);
        room = rw level room;
        text = Text-path topic m.words.2.2.2.2;
        short =
            omega
              (arith, m.short, length-path topic, length-path (segments head id proto prio topic));
        fits = m.fits;
      } in
      let (app', s, before, after, rest, took, run, old, by, ip, port, out) =
        rpc-sends loads app to e url param_len data_at data_len world fuel routed deliverable formed
          enough all in
      (app', s, before, after, rest, took, run, old, by ∙ proto_kept, ip, port, out)
