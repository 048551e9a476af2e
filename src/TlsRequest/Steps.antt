-- ===== src/TlsRequest/Steps.antt =====
-- The threads of 722device/server/tls_request.c: clients that begin and end a request, the thread that looks for
-- time-outs, and the receiver of responses. In each step one of them has the lock, or works on a command
-- that it holds without it: the receiver stores into the command that it has found, and a client reads and frees
-- the command that it has removed from the queue.
use ai_coding_for_business.Common.{
  some-inj, ℕ, ◌≡◌, sym, ◌∙◌, subst, Bool, true, false, Option, none, some, List, ◌∷◌, has,
  Distinct, put, put-same,
}
use ai_coding_for_business.TlsList.Chain.{Distinct-snoc}
use ai_coding_for_business.TlsList.Remove.{erase, Distinct-erase}
use ai_coding_for_business.TlsRequest.{
  Command, Request, initialize, push_queue, remove_queue, command_poll, find, session_id,
  store_response, LinkResult, freed, link_info_finish, ℕ, List, Option,
}
use ai_coding_for_business.TlsRequest.Heaps.{
  Always, Live, Keeps, Live-Keeps, Live-put_other, has-Live, Live-append, Live-erase,
  command_poll-Keeps,
}

pub record WellFormed (r : Request) : Type 0 where
  pub distinct : Distinct r.waiting
  pub live : Live r.heap r.waiting

-- The table, the commands that their clients have removed from the queue and not yet freed, and the command
-- that the receiver has found for a message that it has not yet stored.
pub record Threads : Type 0 where
  pub table : Request
  pub leaving : List ℕ
  pub found : Option (ℕ × (ℕ → ℕ))

abbrev pub finding : (msg : ℕ → ℕ) → Option ℕ → Option (ℕ × (ℕ → ℕ))
finding msg none = none
finding msg (some p) = some (p, msg)

pub data Step (t : Threads) : Threads → Type 0 where
  begins :
      (p : ℕ) (id : List ℕ) (now : ℕ)
      → t.table.heap p ≡ none
      → Step t (record t { table = push_queue t.table p (initialize id) now })
  polls :
      (times : ℕ → ℕ) (r : Request)
      → command_poll times t.table ≡ some r
      → Step t (record t { table = r })
  finds :
      (msg : ℕ → ℕ) (o : Option ℕ)
      → t.found ≡ none
      → find t.table (session_id msg) ≡ some o
      → Step t (record t { found = finding msg o })
  stores :
      (p : ℕ) (msg : ℕ → ℕ) (r : Request)
      → t.found ≡ some (p, msg)
      → store_response t.table p msg ≡ some r
      → Step t (record t { table = r; found = none })
  leaves :
      (p : ℕ)
      → has p t.table.waiting ≡ true
      → Step t (record t { table = remove_queue t.table p; leaving = p ∷ t.leaving })
  frees :
      (p : ℕ) (woken : Bool) (result : LinkResult) (r : Request)
      → has p t.leaving ≡ true
      → link_info_finish t.table p woken ≡ some (result, r)
      → Step t (record t { table = r; leaving = erase p t.leaving })

pub data Reach (t : Threads) : Threads → Type 0 where
  here : Reach t t
  next : (u v : Threads) → Reach t u → Step u v → Reach t v

pub push_queue-WellFormed :
    (r : Request) (p : ℕ) (c : Command) (now : ℕ)
    → r.heap p ≡ none
    → WellFormed r
    → WellFormed (push_queue r p c now)
unfolding push_queue
push_queue-WellFormed r p c now e w =
    let out = has-Live r.heap p r.waiting e w.live in
    let c' = record c { tv_start = now; tv_tick = now } in
    record {
      distinct = Distinct-snoc r.waiting p w.distinct out;
      live =
          Live-append (put r.heap p (some c')) r.waiting p
            (Live-put_other r.heap p (some c') r.waiting out w.live)
            (c', put-same r.heap p (some c'));
    }

pub remove_queue-WellFormed : (r : Request) (p : ℕ) → WellFormed r → WellFormed (remove_queue r p)
unfolding remove_queue
remove_queue-WellFormed r p w = record {
  distinct = Distinct-erase p r.waiting w.distinct;
  live = Live-erase r.heap p r.waiting w.live;
}

pub freed-WellFormed :
    (r : Request) (p : ℕ) → has p r.waiting ≡ false → WellFormed r → WellFormed (freed r p)
freed-WellFormed r p out w = record {
  distinct = w.distinct;
  live = Live-put_other r.heap p none r.waiting out w.live;
}

pub Keeps-WellFormed :
    (r : Request) (heap' : ℕ → Option Command)
    → Keeps Always r.heap heap'
    → WellFormed r
    → WellFormed (record r { heap = heap' })
Keeps-WellFormed r heap' k w = record {
  distinct = w.distinct;
  live = Live-Keeps Always r.heap heap' k r.waiting w.live;
}

pub command_poll-WellFormed :
    (times : ℕ → ℕ) (r r' : Request) → command_poll times r ≡ some r' → WellFormed r → WellFormed r'
command_poll-WellFormed times r r' run w =
    let (heap', e, k) = command_poll-Keeps Always (λ now c h. h) times r w.live in
    subst WellFormed (some-inj (record r { heap = heap' }) r' (sym e ∙ run))
      (Keeps-WellFormed r heap' k w)
