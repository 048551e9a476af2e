-- ===== src/FileTransfer/Blocks.antt =====
-- The header of a block, as it is written and as it is read: `file_block_hdr_t` of
-- 722device/filetransmit/file_block.h.
use ai_coding_for_business.Common.{
  ℕ, ◌+◌, ◌<◌, ◌≡◌, refl, sym, ap, ◌∙◌, arith, List, [], ◌∷◌, ◌++◌, append_assoc, length,
  length-append, cells, cells-write_middle, write, le_bytes, le_value, subst, append-nil,
}
use ai_coding_for_business.NetProxy.{pad, cut}
use ai_coding_for_business.NetProxy.Text.{Text, cut-pad, length-pad}
use ai_coding_for_business.FileTransfer.{
  Block, flag, count, sequence, filename, filesize, data_size, data_of, header, file_block_flag,
}

pub le_value-le32 : (n : ℕ) → n < 4294967296 → le_value (le_bytes 4 n) ≡ n
le_value-le32 n h = omega arith

-- A message for block `seq` of `total`.
abbrev pub message : (total seq : ℕ) → (name : List ℕ) → (size : ℕ) → List ℕ → List ℕ
message total seq name size chunk = header total seq name size (length chunk) ++ chunk

-- What a message says.
pub record Says (b : Block) (total seq : ℕ) (name : List ℕ) (size : ℕ) (chunk : List ℕ)
    : Type 0 where
  pub is_block : flag b ≡ file_block_flag
  pub of_total : count b ≡ total
  pub number : sequence b ≡ seq
  pub of_file : filename b ≡ name
  pub of_size : filesize b ≡ size
  pub chunk_size : data_size b ≡ length chunk
  pub bytes : data_of b ≡ chunk

module _ (f : ℕ → ℕ) (total seq : ℕ) (name : List ℕ) (size : ℕ) (chunk : List ℕ) where
  abbrev stored : ℕ → ℕ
  stored = write f 0 (message total seq name size chunk)

  abbrev before_name : List ℕ
  before_name = le_bytes 2 file_block_flag ++ (0 ∷ 0 ∷ []) ++ le_bytes 4 total ++ le_bytes 4 seq

  abbrev after_size : List ℕ
  after_size = le_bytes 4 (length chunk) ++ chunk

  -- The message from its file name on.
  parts :
      message total seq name size chunk
      ≡ before_name ++ (pad 128 name ++ (le_bytes 4 size ++ after_size))
  parts =
      ap (λ l. before_name ++ l)
        (append_assoc (pad 128 name) (le_bytes 4 size ++ le_bytes 4 (length chunk)) chunk)

  pub length-message : length (message total seq name size chunk) ≡ 148 + length chunk
  length-message = omega (
    arith,
    ap length parts,
    length-append (pad 128 name) (le_bytes 4 size ++ after_size),
    length-pad 128 name,
  )

  part :
      (xs ys zs : List ℕ)
      → message total seq name size chunk ≡ xs ++ (ys ++ zs)
      → cells stored (length xs) (length ys) ≡ ys
  part xs ys zs e =
      let start : 0 + length xs ≡ length xs = omega arith in
      subst (λ l. cells (write f 0 l) (length xs) (length ys) ≡ ys) (sym e)
        (subst (λ n. cells (write f 0 (xs ++ (ys ++ zs))) n (length ys) ≡ ys) start
          (cells-write_middle f 0 xs ys zs))

  name_part : cells stored 12 128 ≡ pad 128 name
  name_part =
      let e = part before_name (pad 128 name) (le_bytes 4 size ++ after_size) parts in
      subst (λ n. cells stored 12 n ≡ pad 128 name) (length-pad 128 name) e

  length-before : (k : List ℕ) → length (before_name ++ (pad 128 name ++ k)) ≡ 140 + length k
  length-before k = omega (arith, length-append (pad 128 name) k, length-pad 128 name)

  size_part : cells stored 140 4 ≡ le_bytes 4 size
  size_part =
      subst (λ n. cells stored n 4 ≡ le_bytes 4 size) (length-before [])
        (part (before_name ++ (pad 128 name ++ [])) (le_bytes 4 size) after_size (
          parts
          ∙ ap (λ l. before_name ++ (l ++ (le_bytes 4 size ++ after_size)))
              (sym (append-nil (pad 128 name)))))

  chunk_size_part : cells stored 144 4 ≡ le_bytes 4 (length chunk)
  chunk_size_part =
      subst (λ n. cells stored n 4 ≡ le_bytes 4 (length chunk)) (length-before (le_bytes 4 size))
        (part (before_name ++ (pad 128 name ++ le_bytes 4 size)) (le_bytes 4 (length chunk)) chunk (
          parts
          ∙ ap (λ l. before_name ++ l)
              (sym (append_assoc (pad 128 name) (le_bytes 4 size) after_size))))

  chunk_part : cells stored 148 (length chunk) ≡ chunk
  chunk_part =
      let sizes = le_bytes 4 size ++ le_bytes 4 (length chunk) in
      subst (λ n. cells stored n (length chunk) ≡ chunk) (length-before sizes)
        (part (before_name ++ (pad 128 name ++ sizes)) chunk []
          (ap (λ l. before_name ++ ((pad 128 name ++ sizes) ++ l)) (sym (append-nil chunk))))

  -- What the header of a message says is read back from the block that it was copied into: the numbers of 32
  -- bits, the name of at most 127 characters, and the data.
  pub message-Says :
      (block_size stored_size : ℕ)
      → total < 4294967296
      → seq < 4294967296
      → Text name
      → length name < 128
      → size < 4294967296
      → length chunk < 4294967296
      → Says
          (record { block_size = block_size; size = stored_size; bytes = stored })
          total
          seq
          name
          size
          chunk
  message-Says block_size stored_size h1 h2 text short h3 h4 =
      let chunk_size = ap le_value chunk_size_part ∙ le_value-le32 (length chunk) h4 in
      record {
        is_block = refl;
        of_total = le_value-le32 total h1;
        number = le_value-le32 seq h2;
        of_file = ap cut name_part ∙ cut-pad 128 name text (omega arith);
        of_size = ap le_value size_part ∙ le_value-le32 size h3;
        chunk_size = chunk_size;
        bytes = ap (λ n. cells stored 148 n) chunk_size ∙ chunk_part;
      }
