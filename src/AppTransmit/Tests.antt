-- ===== src/AppTransmit/Tests.antt =====
-- The addresses and the callbacks of 722device/app/app_transmit.c: runs, and the theorems at small inputs.
use ai_coding_for_business.Common.{
  ℕ, ◌≡◌, inl, refl, arith, none, some, List, [], ◌∷◌, ◌++◌, codes, length, e_invalid_data,
}
use ai_coding_for_business.LinkProxy.{
  PrioQueue, LinkEntry, Sending, World, prio_queue_init, transmit_loop, published, find_entry,
}
use ai_coding_for_business.LinkProxy.Order.{Formed}
use ai_coding_for_business.AppTransmit.{atoi, tokens, undefined, refused, parsed, parse_url, true}
use ai_coding_for_business.AppTransmit.Bounds.{Outcome, parse_url-Outcome}
use ai_coding_for_business.AppTransmit.Address.{parse_url-path}
use ai_coding_for_business.AppTransmit.Callbacks.{App, rpc_message, trim_slash}
use ai_coding_for_business.AppTransmit.Callbacks.Delivery.{rpc-delivered}

words : tokens [] (codes "//toLink/7//1/") ≡ codes "toLink" ∷ codes "7" ∷ codes "1" ∷ []
words = refl

numbers :
    (atoi (codes " 42x") ≡ some 42)
    × (atoi (codes "-1") ≡ some 4294967295)
    × (atoi (codes "topic") ≡ some 0)
    × (atoi (codes "2147483648") ≡ none)
numbers = (refl, refl, refl, refl)

too_short : parse_url (codes "/toLink/7/1") ≡ refused e_invalid_data
unfolding parse_url
too_short = refl

-- 33 segments of one character.
too_many :
    parse_url (codes "/a/a/a/a/a/a/a/a/a/a/a/a/a/a/a/a/a/a/a/a/a/a/a/a/a/a/a/a/a/a/a/a/a")
    ≡ undefined
unfolding parse_url
too_many = refl

trimmed : trim_slash (codes "/app/") ≡ codes "/app"
trimmed = refl

parse_url-path_example :
    parse_url (codes "/toLink/7/1/5/a/b")
    ≡ parsed (record { addr = 7; entry = 1; priority = 5; newurl = codes "/a/b" })
parse_url-path_example =
    parse_url-path (codes "toLink") (codes "7") (codes "1") (codes "5") (codes "a" ∷ codes "b" ∷ [])
      (ground arith) (ground arith) (ground arith) (ground arith) (omega arith) (omega arith)

abbrev entry : LinkEntry
entry = record { id = 7; dest_ip = codes "10.0.0.2"; dest_port = 9000 }

abbrev app : App
app = record { link_map = entry ∷ []; rings = λ p. prio_queue_init; counting = true; tx_input = 0 }

rings-Formed : (p : ℕ) → Formed p (app.rings p)
rings-Formed p = (record { head = omega arith; count = omega arith; tail = refl }, tt)

abbrev world : World
world = record { memory = λ a. a; takes = λ s. some (length s.bytes) }

rpc-delivered_example :
    (app' : App) × (s : Sending) × (before : List Sending) × (after : List Sending) × (rest : ℕ
      → PrioQueue)
    × (rpc_message none app (codes "/toLink/7/1/5/a") 0 100 3 ≡ some app')
    × (transmit_loop 2 world app'.rings ≡ some (before ++ s ∷ after, rest))
    × ([] ≡ before ++ after)
    × (s.proto ≡ 1)
    × (s.ip ≡ codes "10.0.0.2")
    × (s.port ≡ 9000)
    × (published s.bytes ≡ some (codes "/a", 100 ∷ 101 ∷ 102 ∷ []))
unfolding find_entry
rpc-delivered_example =
    rpc-delivered none app entry (codes "toLink") (codes "7") (codes "1") (codes "5")
      (codes "a" ∷ []) 0 100 3 world 2
      (record {
        words = ground arith;
        id_number = ground arith;
        proto_number = ground arith;
        prio_number = ground arith;
        rows = omega arith;
        short = omega arith;
        known_proto = inl refl;
        level = omega arith;
        loaded = refl;
        entry = refl;
        some_data = omega arith;
        some_bytes = omega arith;
        fits = omega arith;
      })
      rings-Formed (omega arith) (omega arith) (λ s h. refl)

parse_url-Outcome_example : Outcome (codes "/toLink/7/1/5/a") (parse_url (codes "/toLink/7/1/5/a"))
parse_url-Outcome_example = parse_url-Outcome (codes "/toLink/7/1/5/a")
