-- ===== src/Common/Bytes.antt =====
-- Storage as a function from offsets to bytes: writing and reading runs of bytes, and the integers
-- of network and of little-endian byte order.
use Prim.Native.Nat.{ℕ, zero, suc, ◌+◌, ◌*◌, ◌/◌, ◌%◌, ◌≤◌, ◌<◌}
use mathlib.Core.Path.{◌≡◌, refl, ap, ap₂, ◌∙◌}
use mathlib.Core.Logic.{◌⊎◌, inl, inr}
use mathlib.Core.List.{List, [], ◌∷◌, ◌++◌}
use native.Mathlib.Omega.{arith}
use ai_coding_for_business.Common.Tests.{◌==◌, if◌then◌else◌, ==_iff, Bool-cases}
use ai_coding_for_business.Common.Lists.{length, get_or}

-- A table with one entry changed.
abbrev pub put {ℓ} : {A : Type ℓ} → (ℕ → A) → ℕ → A → ℕ → A
put f k v q = if q == k then v else f q

pub put-same {ℓ} : {A : Type ℓ} (f : ℕ → A) (k : ℕ) (v : A) → put f k v k ≡ v
put-same f k v = ground arith

-- A predicate of the entry changed and of the entry that was there holds of the table's entry.
pub put-holds {ℓ κ} :
    {A : Type ℓ} (P : ℕ → A → Type κ) (f : ℕ → A) (k : ℕ) (v : A) (p : ℕ)
    → P k v
    → P p (f p)
    → P p (put f k v p)
put-holds P f k v p h k' = elim (Bool-cases (p == k)) [
  | inl e ↦ let same : p ≡ k = (==_iff p k).0 e in rw (same, put-same f k v) h
  | inr e ↦ rw e k'
]

abbrev pub write : (ℕ → ℕ) → ℕ → List ℕ → ℕ → ℕ
write f off [] = f
write f off (d ∷ ds) = put (write f (suc off) ds) off d

-- The `n` bytes from `off` on.
abbrev pub cells : (ℕ → ℕ) → ℕ → ℕ → List ℕ
cells f off zero = []
cells f off (suc n) = f off ∷ cells f (suc off) n

pub write-outside :
    (f : ℕ → ℕ) (off : ℕ) (ds : List ℕ) (j : ℕ)
    → (j < off) ⊎ (off + length ds ≤ j)
    → write f off ds j ≡ f j
write-outside f off [] j h = refl
write-outside f off (d ∷ ds) j (inl h) =
    ground (arith, write-outside f (suc off) ds j (inl (omega arith)))
write-outside f off (d ∷ ds) j (inr h) =
    ground (arith, write-outside f (suc off) ds j (inr (omega arith)))

pub cells_congr :
    (f g : ℕ → ℕ) (off n : ℕ)
    → ((j : ℕ) → off ≤ j → j < off + n → f j ≡ g j)
    → cells f off n ≡ cells g off n
cells_congr f g off zero h = refl
cells_congr f g off (suc n) h =
    ap₂ (λ x xs. x ∷ xs) (h off (omega arith) (omega arith))
      (cells_congr f g (suc off) n λ j a b. h j (omega arith) (omega arith))

-- What was written is read back.
pub cells-write : (f : ℕ → ℕ) (off : ℕ) (ds : List ℕ) → cells (write f off ds) off (length ds) ≡ ds
cells-write f off [] = refl
cells-write f off (d ∷ ds) =
    ap₂ (λ x xs. x ∷ xs) (ground arith)
      (cells_congr (write f off (d ∷ ds)) (write f (suc off) ds) (suc off) (length ds)
          (λ j a b. ground arith)
        ∙ cells-write f (suc off) ds)

pub cells-write_prefix :
    (f : ℕ → ℕ) (off : ℕ) (xs ys : List ℕ) → cells (write f off (xs ++ ys)) off (length xs) ≡ xs
cells-write_prefix f off [] ys = refl
cells-write_prefix f off (d ∷ xs) ys =
    ap₂ (λ x xs. x ∷ xs) (ground arith)
      (cells_congr (write f off (d ∷ xs ++ ys)) (write f (suc off) (xs ++ ys)) (suc off) (length xs)
          (λ j a b. ground arith)
        ∙ cells-write_prefix f (suc off) xs ys)

pub write-behind :
    (f : ℕ → ℕ) (off : ℕ) (xs : List ℕ) (y : ℕ) (ys : List ℕ)
    → write f off (xs ++ y ∷ ys) (off + length xs) ≡ y
write-behind f off [] y ys = ground arith
write-behind f off (d ∷ xs) y ys =
    let there : off + length (d ∷ xs) ≡ suc off + length xs = omega arith in
    rw there (ground (arith, write-behind f (suc off) xs y ys))

pub write-get_or :
    (f : ℕ → ℕ) (off : ℕ) (ds : List ℕ) (i : ℕ)
    → i < length ds
    → write f off ds (off + i) ≡ get_or ds i 0
write-get_or f off [] i h = absurd (omega arith)
write-get_or f off (d ∷ ds) zero h = ground arith
write-get_or f off (d ∷ ds) (suc i) h =
    let there : off + suc i ≡ suc off + i = omega arith in
    rw there (ground (arith, write-get_or f (suc off) ds i))

-- A run in the middle of what was written.
pub cells-write_middle :
    (f : ℕ → ℕ) (off : ℕ) (xs ys zs : List ℕ)
    → cells (write f off (xs ++ (ys ++ zs))) (off + length xs) (length ys) ≡ ys
cells-write_middle f off [] ys zs =
    let start : off + 0 ≡ off = omega arith in rw start (cells-write_prefix f off ys zs)
cells-write_middle f off (d ∷ xs) ys zs =
    let there : off + length (d ∷ xs) ≡ suc off + length xs = omega arith in
    rw there (
      cells_congr (write f off (d ∷ xs ++ (ys ++ zs))) (write f (suc off) (xs ++ (ys ++ zs)))
        (suc off + length xs) (length ys) (λ j a b. ground arith)
      ∙ cells-write_middle f (suc off) xs ys zs)

-- Runs of bytes one after the other.
pub cells-append :
    (f : ℕ → ℕ) (off m n : ℕ) → cells f off (m + n) ≡ cells f off m ++ cells f (off + m) n
cells-append f off zero n = ground arith
cells-append f off (suc m) n =
    let there : off + suc m ≡ suc off + m = omega arith in
    let more : suc m + n ≡ suc (m + n) = omega arith in
    rw (there, more) (ap (λ xs. f off ∷ xs) (cells-append f (suc off) m n))

pub length-cells : (f : ℕ → ℕ) (off n : ℕ) → length (cells f off n) ≡ n
length-cells f off zero = refl
length-cells f off (suc n) = ap suc (length-cells f (suc off) n)

-- `htons`, `htonl`, and the layout of a U64 on the machines that the program is built for.
abbrev pub be16 : ℕ → List ℕ
be16 n = n / 256 % 256 ∷ n % 256 ∷ []

abbrev pub be32 : ℕ → List ℕ
be32 n = n / 16777216 % 256 ∷ n / 65536 % 256 ∷ n / 256 % 256 ∷ n % 256 ∷ []

abbrev pub le_bytes : ℕ → ℕ → List ℕ
le_bytes zero n = []
le_bytes (suc w) n = n % 256 ∷ le_bytes w (n / 256)

abbrev pub le64 : ℕ → List ℕ
le64 n = le_bytes 8 n

-- `ntohs`, `ntohl` and a U64, read at an offset.
abbrev pub u16_at : (ℕ → ℕ) → ℕ → ℕ
u16_at f off = f off * 256 + f (suc off)

abbrev pub u32_at : (ℕ → ℕ) → ℕ → ℕ
u32_at f off =
    f off * 16777216 + f (suc off) * 65536 + f (suc (suc off)) * 256 + f (suc (suc (suc off)))

abbrev pub le_value : List ℕ → ℕ
le_value [] = 0
le_value (d ∷ ds) = d + 256 * le_value ds

abbrev pub u64_at : (ℕ → ℕ) → ℕ → ℕ
u64_at f off = le_value (cells f off 8)

pub u16_at-be16 : (n : ℕ) → n / 256 % 256 * 256 + n % 256 ≡ n % 65536
u16_at-be16 n = omega arith

pub u32_at-be32 :
    (n : ℕ)
    → n / 16777216 % 256 * 16777216 + n / 65536 % 256 * 65536 + n / 256 % 256 * 256 + n % 256
      ≡ n % 4294967296
u32_at-be32 n = omega arith

pub le_value-le64 : (n : ℕ) → le_value (le64 n) ≡ n % 18446744073709551616
le_value-le64 n = omega arith
