-- ===== src/LinkProxy/Intake.antt =====
-- `tls_net_proxy_push_to_prio_queue` of 722device/network/tls_net_proxy.c on the eight rings.
use ai_coding_for_business.Common.{
  put, put-same, put-holds, subst, sym, ℕ, ◌≡◌, ◌⊎◌, inl, inr, refl, ap, ◌∙◌, true, false, List, [],
  ◌∷◌, ◌++◌, length, take, ◌<◌,
}
use ai_coding_for_business.LinkProxy.{
  Node, PrioQueue, queue_size, append_node, push_to_prio_queue, url_bytes, clamp_priority,
}
use ai_coding_for_business.LinkProxy.Ring.{
  contents, push-refines, append-WellFormed, push-room, contents-append,
}
use ai_coding_for_business.LinkProxy.Order.{Owned, Formed}

Owned-append :
    (p : ℕ) (ns : List Node) (n : Node) → Owned p ns → n.priority ≡ p → Owned p (ns ++ n ∷ [])
Owned-append p [] n o e = (e, tt)
Owned-append p (m ∷ ns) n o e = (o.0, Owned-append p ns n o.1 e)

-- The node that is pushed for the arguments.
abbrev pub node_for :
    (dest_ip : List ℕ)
    → (dest_port proto priority : ℕ) → (url : List ℕ) → (data_at data_len : ℕ) → Node
node_for dest_ip dest_port proto priority url data_at data_len = record {
  dest_ip = take 15 dest_ip;
  dest_port = dest_port;
  proto = proto;
  url = url_bytes url;
  data_at = data_at;
  data_len = data_len;
  priority = clamp_priority priority;
}

module _ (qs : ℕ → PrioQueue) (f : (p : ℕ) → Formed p (qs p)) (dest_ip url : List ℕ)
    (dest_port proto priority data_at data_len : ℕ) where
  abbrev ring : ℕ
  ring = clamp_priority priority

  abbrev node : Node
  node = node_for dest_ip dest_port proto priority url data_at data_len

  -- The rings with the node in its own.
  abbrev pub pushed_rings : ℕ → PrioQueue
  pushed_rings = put qs ring (append_node (qs ring) node)

  pub push_to_prio_queue-room :
      (qs ring).count < queue_size
      → push_to_prio_queue qs dest_ip dest_port proto priority url data_at data_len
        ≡ (true, pushed_rings)
  unfolding push_to_prio_queue
  push_to_prio_queue-room room =
      ap (λ r. (r.0, put qs ring r.1)) (push-room (qs ring) (f ring).0 node room)

  pub contents-pushed :
      (qs ring).count < queue_size
      → contents (append_node (qs ring) node) ≡ contents (qs ring) ++ node ∷ []
  contents-pushed room = contents-append (qs ring) (f ring).0 node room

  pub pushed_rings-Formed : (qs ring).count < queue_size → (p : ℕ) → Formed p (pushed_rings p)
  pushed_rings-Formed room p =
      put-holds Formed qs ring (append_node (qs ring) node) p
        (
          append-WellFormed (qs ring) (f ring).0 node room,
          subst (λ l. Owned ring l) (sym (contents-pushed room))
              (Owned-append ring (contents (qs ring)) node (f ring).1 refl),
        )
        (f p)

  -- The node goes behind those of its priority, 0 for one above 7, and the rings stay in use as they should
  -- be; or its ring holds 256 nodes, and the call reports false and changes nothing.
  push_to_prio_queue-outcomes :
      ((qs' : ℕ → PrioQueue) × (push_to_prio_queue qs dest_ip dest_port proto priority url data_at
            data_len
          ≡ (true, qs'))
        × (contents (qs' ring) ≡ contents (qs ring) ++ node ∷ [])
        × ((p : ℕ) → Formed p (qs' p)))
      ⊎ ((length (contents (qs ring)) ≡ queue_size)
          × (push_to_prio_queue qs dest_ip dest_port proto priority url data_at data_len
              ≡ (false, put qs ring (qs ring))))
  unfolding push_to_prio_queue
  push_to_prio_queue-outcomes = elim (push-refines (qs ring) (f ring).0 node) [
    | inl (room, e, c, w) ↦ inl (
      pushed_rings,
      push_to_prio_queue-room room,
      ap contents (put-same qs ring (append_node (qs ring) node)) ∙ c,
      pushed_rings-Formed room,
    )
    | inr (full, e) ↦ inr (full, ap (λ r. (r.0, put qs ring r.1)) e)
  ]
