-- ===== src/FileTransfer/Entries/Delivery/Files.antt =====
-- All blocks of a file, one after the other, through 722device/filetransmit/file_transmit.c.
use ai_coding_for_business.Common.{
  ℕ, suc, ◌+◌, ◌≤◌, ◌<◌, ◌≡◌, ◌≢◌, ◌⊎◌, inl, inr, refl, sym, ap, ◌∙◌, subst, arith, true, Option,
  some, List, [], ◌∷◌, ◌++◌, append-nil, append_assoc, length, length-append, TlsResult,
}
use ai_coding_for_business.TlsServer.Publish.{VsoaSession, Url}
use ai_coding_for_business.FileTransfer.{◌>>=◌, Block, Entry, Transfer, receive_file_data}
use ai_coding_for_business.FileTransfer.Blocks.{Says, message}
use ai_coding_for_business.FileTransfer.Entries.{
  Answers, path_of, new_entry, add_block, handle_next, thread_poll,
}
use ai_coding_for_business.FileTransfer.Entries.Writing.{Writable}
use ai_coding_for_business.FileTransfer.Entries.Handling.{Returns}
use ai_coding_for_business.FileTransfer.Entries.Delivery.{Active, after_poll, entry_poll-Active}
use ai_coding_for_business.FileTransfer.Entries.Delivery.Placing.{
  AllRoomy, AllRoomy-append, Ready, IsFile, with_block, placed, received, handle-first,
  handle-later,
}

-- What the system answers while a message is received and served: the storage of a new block, and the
-- answers to the entry, which can open its file and write all of a block.
pub record Round : Type 0 where
  pub garbage : ℕ → ℕ
  pub answers : ℕ → Answers

pub record Grants (r : Round) : Type 0 where
  pub taken : ℕ
  pub wrote : (r.answers 0).wrote ≡ some taken
  pub enough : 4096 ≤ taken
  pub may_open : (r.answers 0).open_write ≡ true

module _ {S : Type 0} (publish : S → VsoaSession → Option (TlsResult × S)) where
  pub serve : Round → S → Transfer → List ℕ → Option (Transfer × S)
  serve r s t bytes =
      receive_file_data true r.garbage t bytes >>= λ t1. thread_poll publish true r.answers s t1

  pub serve_all : (ℕ → Round) → ℕ → S → Transfer → List (List ℕ) → Option (Transfer × S)
  serve_all rounds i s t [] = some (t, s)
  serve_all rounds i s t (m ∷ ms) =
      serve (rounds i) s t m >>= λ got. serve_all rounds (suc i) got.1 got.0 ms

-- The blocks of a file, as `file_entry_r_file_read_data` makes them.
abbrev pub messages : (total seq : ℕ) → (name : List ℕ) → (size : ℕ) → List (List ℕ) → List (List ℕ)
messages total seq name size [] = []
messages total seq name size (c ∷ cs) =
    message total seq name size c ∷ messages total (suc seq) name size cs

abbrev pub concat : List (List ℕ) → List ℕ
concat [] = []
concat (c ∷ cs) = c ++ concat cs

abbrev pub Chunks : List (List ℕ) → Type 0
Chunks [] = Unit {0}
Chunks (c ∷ cs) = (0 < length c) × (length c ≤ 4096) × Chunks cs

-- The first `seq` blocks have come, with the bytes `done`.
abbrev Progress : Transfer → (seq : ℕ) → (name : List ℕ) → (size : ℕ) → (done : List ℕ) → Type 0
Progress t seq name size done =
    ((seq ≡ 0) × (t.entries ≡ []) × (done ≡ []))
    ⊎ ((e : Entry) × (seq ≢ 0) × Active t e [] name size done)

abbrev first_entry : Transfer → Block → Entry
first_entry t b = add_block (new_entry t.param b) b

module _ {S : Type 0} (publish : S → VsoaSession → Option (TlsResult × S)) (Holds : S → Type 0)
    (url : Url) (size : ℕ) (returns : Returns publish Holds url size) (r : Round)
    (grants : Grants r) (s : S) (t : Transfer) (total seq : ℕ) (name : List ℕ) (done chunk : List ℕ)
    (ready : Ready t name) (file : IsFile total name size) (low : seq < 4294967296)
    (some_bytes : 0 < length chunk) (mtu : length chunk ≤ 4096)
    (fits : length done + length chunk ≤ size) (ok : Holds s)
    (under : t.param.publish_url ≡ url) where
  abbrev RoundDone : Type 0
  RoundDone =
      (t' : Transfer) × (s' : S) × (serve publish r s t (message total seq name size chunk)
        ≡ some (t', s'))
      × Holds s'
      × Ready t' name
      × Progress t' (suc seq) name size (done ++ chunk)
      × (t'.param ≡ t.param)
      × (t'.disk (path_of t.param name) ≡ done ++ chunk)

  -- From the block in its entry to the end of the round.
  round-placed :
      (free : List Block) (b : Block) (e : Entry)
      → receive_file_data true r.garbage t (message total seq name size chunk)
        ≡ some (with_block t free b)
      → Says b total seq name size chunk
      → 4244 ≤ b.block_size
      → AllRoomy free
      → handle_next true (with_block t free b) ≡ some (placed t free e)
      → Active (placed t free e) e (b ∷ []) name size done
      → RoundDone
  unfolding serve thread_poll
  round-placed free b e got says big roomy run active =
      let writable : Writable (r.answers 0) b total seq name size chunk = record {
        says = says;
        room = omega (arith, big, mtu);
        some_bytes = some_bytes;
        taken = grants.taken;
        wrote = grants.wrote;
        all_taken = omega (arith, grants.enough, mtu);
        may_open = grants.may_open;
      } in
      let (e', disk', s', poll, act, content, ok') =
        entry_poll-Active publish Holds url size returns r.answers s (placed t free e) e b total seq
          name size done chunk active writable fits file.small (omega arith) ok under in
      (
        after_poll (placed t free e) b e' disk',
        s',
        rw (got, run) poll,
        ok',
        record {
          nothing_queued = refl;
          roomy = AllRoomy-append free b roomy big;
          block_room = ready.block_room;
          some_dir = ready.some_dir;
          path_room = ready.path_room;
        },
        inr (e', omega arith, act),
        refl,
        content,
      )

  round : Progress t seq name size done → RoundDone
  round (inl (first, empty, none_done)) =
      let (free, b, got, says, big, roomy) =
        received t r.garbage total seq name size chunk ready file low mtu in
      let name_of = says.of_file in
      round-placed free b (first_entry t b) got says big roomy
        (handle-first t free b total seq name size chunk file says big first empty ready.some_dir
          ready.path_room)
        (record {
          only = refl;
          named = name_of;
          sized = says.of_size;
          at_path = ap (path_of t.param) name_of;
          publishes = refl;
          waiting = refl;
          holds = inr (refl, none_done);
          counted = ap length (sym none_done);
          lasting = refl;
          reads = omega arith;
        })
  round (inr (e, later, act)) =
      let (free, b, got, says, big, roomy) =
        received t r.garbage total seq name size chunk ready file low mtu in
      round-placed free b (add_block e b) got says big roomy
        (handle-later t free b total seq name size chunk file says big e later act.only act.named)
        (record {
          only = refl;
          named = act.named;
          sized = act.sized;
          at_path = act.at_path;
          publishes = act.publishes;
          waiting = ap (λ bs. bs ++ b ∷ []) act.waiting;
          holds = act.holds;
          counted = act.counted;
          lasting = act.lasting;
          reads = act.reads;
        })

module _ {S : Type 0} (publish : S → VsoaSession → Option (TlsResult × S)) (Holds : S → Type 0)
    (url : Url) (size : ℕ) (returns : Returns publish Holds url size) (rounds : ℕ → Round)
    (grants : (i : ℕ) → Grants (rounds i)) (total : ℕ) (name : List ℕ)
    (file : IsFile total name size) where
  serve_all-writes :
      (chunks : List (List ℕ)) (i seq : ℕ) (s : S) (t : Transfer) (done : List ℕ)
      → Chunks chunks
      → seq + length chunks < 4294967296
      → length done + length (concat chunks) ≤ size
      → Holds s
      → t.param.publish_url ≡ url
      → Ready t name
      → Progress t seq name size done
      → t.disk (path_of t.param name) ≡ done
      → (t' : Transfer) × (s' : S) × (serve_all publish rounds i s t
            (messages total seq name size chunks)
          ≡ some (t', s'))
        × (t'.disk (path_of t.param name) ≡ done ++ concat chunks)
        × Holds s'
        × Ready t' name
        × Progress t' (seq + length chunks) name size (done ++ concat chunks)
  unfolding serve_all
  serve_all-writes [] i seq s t done ok few fits held under ready progress content =
      let same : done ++ [] ≡ done = append-nil done in
      let still : seq + 0 ≡ seq = omega arith in
      (
        t,
        s,
        refl,
        content ∙ sym same,
        held,
        ready,
        subst (λ d. Progress t (seq + 0) name size d) (sym same)
            (subst (λ n. Progress t n name size done) (sym still) progress),
      )
  serve_all-writes (c ∷ cs) i seq s t done (some_bytes, mtu, ok) few fits held under ready progress
        content =
      let size_of = length-append c (concat cs) in
      let (t1, s1, run, held1, ready1, progress1, param1, content1) =
        round publish Holds url size returns (rounds i) (grants i) s t total seq name done c ready
          file (omega arith) some_bytes mtu (omega (arith, size_of)) held under progress in
      let (t2, s2, rest, content2, held2, ready2, progress2) =
        serve_all-writes cs (suc i) (suc seq) s1 t1 (done ++ c) ok (omega arith)
          (omega (arith, size_of, length-append done c)) held1
          (ap (λ p. p.publish_url) param1 ∙ under) ready1 progress1
          (subst (λ p. t1.disk (path_of p name) ≡ done ++ c) (sym param1) content1) in
      let regroup : (done ++ c) ++ concat cs ≡ done ++ (c ++ concat cs) =
        append_assoc done c (concat cs) in
      let number : suc seq + length cs ≡ seq + suc (length cs) = omega arith in
      (
        t2,
        s2,
        rw run rest,
        subst (λ p. t2.disk (path_of p name) ≡ (done ++ c) ++ concat cs) param1 content2 ∙ regroup,
        held2,
        ready2,
        subst (λ d. Progress t2 (seq + suc (length cs)) name size d) regroup
            (subst (λ n. Progress t2 n name size ((done ++ c) ++ concat cs)) number progress2),
      )

  -- A file comes to a transfer without entries, its blocks in order and each served before the next one comes. The
  -- system opens the file and writes all that it is given, and reading may come at any time and bring any part of
  -- what the file has. The publisher is in a state from which it returns, with success or without, for blocks of
  -- at most the size of the file under the url of the transfer, and which it keeps. Then the thread
  -- returns from every round, and in the end the disk holds exactly the bytes of the file under its
  -- path, and the publisher is in such a state.
  pub serve_all-file :
      (chunks : List (List ℕ)) (s : S) (t : Transfer)
      → Chunks chunks
      → total ≡ length chunks
      → size ≡ length (concat chunks)
      → Holds s
      → t.param.publish_url ≡ url
      → Ready t name
      → t.entries ≡ []
      → (t' : Transfer) × (s' : S) × (serve_all publish rounds 0 s t
            (messages total 0 name size chunks)
          ≡ some (t', s'))
        × (t'.disk (path_of t.param name) ≡ concat chunks)
        × Holds s'
  unfolding serve_all
  serve_all-file [] s t ok count sum held under ready none_yet =
      absurd (omega (arith, file.some_size))
  serve_all-file (c ∷ cs) s t (some_bytes, mtu, ok) count sum held under ready none_yet =
      let size_of = length-append c (concat cs) in
      let (t1, s1, run, held1, ready1, progress1, param1, content1) =
        round publish Holds url size returns (rounds 0) (grants 0) s t total 0 name [] c ready file
          (omega arith) some_bytes mtu (omega (arith, size_of)) held under
          (inl (refl, none_yet, refl)) in
      let (t2, s2, rest, content2, held2, ready2, progress2) =
        serve_all-writes cs 1 1 s1 t1 c ok (omega (arith, file.few)) (omega (arith, size_of)) held1
          (ap (λ p. p.publish_url) param1 ∙ under) ready1 progress1
          (subst (λ p. t1.disk (path_of p name) ≡ c) (sym param1) content1) in
      (
        t2,
        s2,
        rw run rest,
        subst (λ p. t2.disk (path_of p name) ≡ c ++ concat cs) param1 content2,
        held2,
      )
