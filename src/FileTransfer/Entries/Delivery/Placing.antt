-- ===== src/FileTransfer/Entries/Delivery/Placing.antt =====
-- How a message is received and placed in its entry: 722device/filetransmit/file_transmit.c.
use ai_coding_for_business.Common.{
  str_eq_refl, ℕ, ◌≤◌, ◌<◌, ◌≡◌, ◌≢◌, inl, inr, refl, sym, ◌∙◌, subst, arith, true, false, some,
  List, [], ◌∷◌, ◌++◌, List-cases, ◌==◌, ltb, leb, length, is_nil, write, ==_ne,
}
use ai_coding_for_business.NetProxy.Text.{Text}
use ai_coding_for_business.FileTransfer.{
  flag, sequence, filename, filesize, file_block_flag, Block, Entry, Transfer, receive_file_data,
}
use ai_coding_for_business.FileTransfer.Blocks.{Says, message, length-message, message-Says}
use ai_coding_for_business.FileTransfer.Entries.{
  path_of, new_entry, add_block, add_to_named, place_block, handle_file_block, handle_next,
}
use ai_coding_for_business.FileTransfer.Entries.Writing.{}

-- Free blocks with room for a full message.
abbrev pub AllRoomy : List Block → Type 0
AllRoomy [] = Unit {0}
AllRoomy (b ∷ bs) = (4244 ≤ b.block_size) × AllRoomy bs

pub AllRoomy-append :
    (bs : List Block) (b : Block) → AllRoomy bs → 4244 ≤ b.block_size → AllRoomy (bs ++ b ∷ [])
AllRoomy-append [] b h k = (k, tt)
AllRoomy-append (c ∷ bs) b h k = (h.0, AllRoomy-append bs b h.1 k)

-- Between two messages: nothing is queued, and blocks and names have room.
pub record Ready (t : Transfer) (name : List ℕ) : Type 0 where
  pub nothing_queued : t.file_blocks ≡ []
  pub roomy : AllRoomy t.alloc_blocks
  pub block_room : 4244 ≤ t.param.block_size
  pub some_dir : is_nil t.param.file_dir ≡ false
  pub path_room : length (path_of t.param name) < 128

-- A file: its name, and the numbers of its blocks.
pub record IsFile (total : ℕ) (name : List ℕ) (size : ℕ) : Type 0 where
  pub some_name : is_nil name ≡ false
  pub text : Text name
  pub short : length name < 128
  pub some_size : 0 < size
  pub small : size < 4294967296
  pub few : total < 4294967296

-- The transfer with a block received.
abbrev pub with_block : Transfer → List Block → Block → Transfer
with_block t free b = record t { alloc_blocks = free; file_blocks = b ∷ []; evt_loop = true }

abbrev stored_in : Block → List ℕ → Block
stored_in b bytes = record b { size = length bytes; bytes = write b.bytes 0 bytes }

abbrev new_block : Transfer → (ℕ → ℕ) → Block
new_block t garbage = record { block_size = t.param.block_size; size = 0; bytes = garbage }

module _ (t : Transfer) (garbage : ℕ → ℕ) (nothing_queued : t.file_blocks ≡ []) where
  receive-new :
      (bytes : List ℕ)
      → 0 < length bytes
      → t.alloc_blocks ≡ []
      → length bytes ≤ t.param.block_size
      → receive_file_data true garbage t bytes
        ≡ some (with_block t [] (stored_in (new_block t garbage) bytes))
  unfolding receive_file_data
  receive-new [] h e fits = absurd (omega arith)
  receive-new (c ∷ s) h e fits = ground (arith, e, fits, nothing_queued)

  receive-free :
      (bytes : List ℕ) (b : Block) (bs : List Block)
      → 0 < length bytes
      → t.alloc_blocks ≡ b ∷ bs
      → length bytes ≤ b.block_size
      → receive_file_data true garbage t bytes ≡ some (with_block t bs (stored_in b bytes))
  unfolding receive_file_data
  receive-free [] b bs h e fits = absurd (omega arith)
  receive-free (c ∷ s) b bs h e fits = ground (arith, e, fits, nothing_queued)

module _ (t : Transfer) (garbage : ℕ → ℕ) (total seq : ℕ) (name : List ℕ) (size : ℕ)
    (chunk : List ℕ) where
  pub received :
      Ready t name
      → IsFile total name size
      → seq < 4294967296
      → length chunk ≤ 4096
      → (free : List Block) × (b : Block) × (receive_file_data true garbage t
            (message total seq name size chunk)
          ≡ some (with_block t free b))
        × Says b total seq name size chunk
        × (4244 ≤ b.block_size)
        × AllRoomy free
  received ready file low mtu =
      let msg = message total seq name size chunk in
      let long = length-message garbage total seq name size chunk in
      let says = λ (g : ℕ → ℕ) (room n : ℕ).
        message-Says g total seq name size chunk room n file.few low file.text file.short file.small
          (omega (arith, mtu)) in
      elim (List-cases t.alloc_blocks) [
        | inl empty ↦ (
          [],
          stored_in (new_block t garbage) msg,
          receive-new t garbage ready.nothing_queued msg (omega (arith, long)) empty
              (omega (arith, long, ready.block_room)),
          says garbage t.param.block_size (length msg),
          ready.block_room,
          tt,
        )
        | inr (b, bs, e) ↦
            let (big, roomy) : AllRoomy (b ∷ bs) = subst AllRoomy e ready.roomy in
            (
              bs,
              stored_in b msg,
              receive-free t garbage ready.nothing_queued msg b bs (omega (arith, long)) e
                  (omega (arith, long, big)),
              says b.bytes b.block_size (length msg),
              big,
              roomy,
            )
      ]

pub leb-lt : (a b : ℕ) → b < a → leb a b ≡ false
leb-lt a b h = ground arith

-- The transfer with the block in its entry.
abbrev pub placed : Transfer → List Block → Entry → Transfer
placed t free e = record t {
  alloc_blocks = free;
  file_blocks = [];
  evt_loop = true;
  entries = e ∷ [];
}

module _ (t : Transfer) (free : List Block) (b : Block) (total seq : ℕ) (name : List ℕ) (size : ℕ)
    (chunk : List ℕ) (file : IsFile total name size) (says : Says b total seq name size chunk)
    (big : 4244 ≤ b.block_size) where
  -- The tests of `handle_file_block` let the block through.
  handle-accepts : (t' : Transfer) → handle_file_block true t' b ≡ place_block true t' b
  unfolding handle_file_block
  handle-accepts t' =
      let room_test : ltb b.block_size 148 ≡ false = ground (arith, big) in
      let flag_test : (flag b == file_block_flag) ≡ true =
        subst (λ x. (x == 21920) ≡ true) (sym says.is_block) refl in
      let short_test : leb 128 (length (filename b)) ≡ false =
        subst (λ x. leb 128 (length x) ≡ false) (sym says.of_file)
          (leb-lt 128 (length name) file.short) in
      let name_test : is_nil (filename b) ≡ false =
        subst (λ x. is_nil x ≡ false) (sym says.of_file) file.some_name in
      let size_test : (filesize b == 0) ≡ false =
        subst (λ x. (x == 0) ≡ false) (sym says.of_size)
          (==_ne size 0 (omega (arith, file.some_size))) in
      rw (room_test, flag_test, short_test, name_test, size_test) refl

  pub handle-first :
      seq ≡ 0
      → t.entries ≡ []
      → is_nil t.param.file_dir ≡ false
      → length (path_of t.param name) < 128
      → handle_next true (with_block t free b)
        ≡ some (placed t free (add_block (new_entry t.param b) b))
  unfolding handle_next place_block
  handle-first first empty some_dir room =
      let number : (sequence b == 0) ≡ true =
        subst (λ x. (x == 0) ≡ true) (sym (says.number ∙ first)) refl in
      let fits : leb 128 (length (path_of t.param (filename b))) ≡ false =
        subst (λ x. leb 128 (length (path_of t.param x)) ≡ false) (sym says.of_file)
          (leb-lt 128 (length (path_of t.param name)) room) in
      handle-accepts (record t { alloc_blocks = free; file_blocks = []; evt_loop = true })
      ∙ rw (number, some_dir, fits, empty) refl

  pub handle-later :
      (e : Entry)
      → seq ≢ 0
      → t.entries ≡ e ∷ []
      → e.file_name ≡ name
      → handle_next true (with_block t free b) ≡ some (placed t free (add_block e b))
  unfolding handle_next place_block
  handle-later e later only named =
      let number : (sequence b == 0) ≡ false =
        subst (λ x. (x == 0) ≡ false) (sym says.number) (==_ne seq 0 later) in
      let found : add_to_named (filename b) b (e ∷ []) ≡ some (add_block e b ∷ []) =
        rw (says.of_file, named, str_eq_refl name) refl in
      handle-accepts (record t { alloc_blocks = free; file_blocks = []; evt_loop = true })
      ∙ rw (number, only, found) refl
