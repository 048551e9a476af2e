-- ===== src/TlsServer/Fill.antt =====
-- How the stores of 722device/server/tls_work.c fill a buffer, and how the buffers are acquired.
use ai_coding_for_business.Common.{
  ℕ, ◌+◌, ◌≤◌, ◌<◌, ◌≡◌, ◌⊎◌, inl, inr, refl, ◌∙◌, arith, Option, none, some, List, [], ◌∷◌, ◌++◌,
  length, write, write-outside, cells, cells_congr, cells-write, TlsResult,
}
use native.Mathlib.Decide.{dec_le}
use ai_coding_for_business.TlsBuff.{Buff}
use ai_coding_for_business.State.{Server, Transmit}
use ai_coding_for_business.TlsTransmit.{push}
use ai_coding_for_business.TlsServer.{stores, fill_and_push, push_buff}

-- What the stores make of the storage.
abbrev pub write_all : (ℕ → ℕ) → List (ℕ × List ℕ) → ℕ → ℕ
write_all f [] = f
write_all f (w ∷ ws) = write_all (write f w.0 w.1) ws

-- Every store ends within a storage of `n` bytes.
abbrev pub Fits : ℕ → List (ℕ × List ℕ) → Type 0
Fits n [] = Unit {0}
Fits n (w ∷ ws) = (w.0 + length w.1 ≤ n) × Fits n ws

pub write_all-append :
    (f : ℕ → ℕ) (us ws : List (ℕ × List ℕ)) → write_all f (us ++ ws) ≡ write_all (write_all f us) ws
write_all-append f [] ws = refl
write_all-append f (u ∷ us) ws = write_all-append (write f u.0 u.1) us ws

pub Fits-append : (n : ℕ) (us ws : List (ℕ × List ℕ)) → Fits n us → Fits n ws → Fits n (us ++ ws)
Fits-append n [] ws h k = k
Fits-append n (u ∷ us) ws h k = (h.0, Fits-append n us ws h.1 k)

-- Stores that fit have their effect.
pub stores-Fits :
    (ws : List (ℕ × List ℕ)) (b : Buff)
    → Fits b.buf_size ws
    → stores ws b ≡ some (record b { bytes = write_all b.bytes ws })
unfolding stores
stores-Fits [] b h = refl
stores-Fits (w ∷ ws) b h =
    ground (arith, stores-Fits ws (record b { bytes = write b.bytes w.0 w.1 }) h.1)

-- A place that no store reaches.
abbrev pub Untouched : ℕ → List (ℕ × List ℕ) → Type 0
Untouched j [] = Unit {0}
Untouched j (w ∷ ws) = ((j < w.0) ⊎ (w.0 + length w.1 ≤ j)) × Untouched j ws

pub write_all-Untouched :
    (f : ℕ → ℕ) (ws : List (ℕ × List ℕ)) (j : ℕ) → Untouched j ws → write_all f ws j ≡ f j
write_all-Untouched f [] j h = refl
write_all-Untouched f (w ∷ ws) j h =
    write_all-Untouched (write f w.0 w.1) ws j h.1 ∙ write-outside f w.0 w.1 j h.0

-- A buffer that has been filled is pushed.
pub fill_and_push-filled :
    (s : Server) (b b' : Buff) (fill : Buff → Option Buff) (count : Server → Server) (r : TlsResult)
    (t : Transmit)
    → fill b ≡ some b'
    → push (count s).transmit (some b') ≡ (r, t)
    → fill_and_push (some (some b, s)) fill count ≡ some (r, record (count s) { transmit = t })
unfolding fill_and_push push_buff
fill_and_push-filled s b b' fill count r t e p = rw (fill_and_push, e) (rw (push_buff, p) refl)

-- No store reaches the `n` bytes from `off` on.
abbrev pub Apart : ℕ → ℕ → List (ℕ × List ℕ) → Type 0
Apart off n [] = Unit {0}
Apart off n (w ∷ ws) = ((w.0 + length w.1 ≤ off) ⊎ (off + n ≤ w.0)) × Apart off n ws

Apart-Untouched :
    (off n j : ℕ) (ws : List (ℕ × List ℕ)) → off ≤ j → j < off + n → Apart off n ws → Untouched j ws
Apart-Untouched off n j [] lo hi h = tt
Apart-Untouched off n j (w ∷ ws) lo hi (inl a, h) =
    (inr (omega arith), Apart-Untouched off n j ws lo hi h)
Apart-Untouched off n j (w ∷ ws) lo hi (inr a, h) =
    (inl (omega arith), Apart-Untouched off n j ws lo hi h)

-- What one store wrote is read back after other stores that do not reach it.
pub cells-stored :
    (f : ℕ → ℕ) (off : ℕ) (ds : List ℕ) (ws : List (ℕ × List ℕ))
    → Apart off (length ds) ws
    → cells (write_all (write f off ds) ws) off (length ds) ≡ ds
cells-stored f off ds ws h =
    cells_congr (write_all (write f off ds) ws) (write f off ds) off (length ds) (λ j lo hi.
      write_all-Untouched (write f off ds) ws j (Apart-Untouched off (length ds) j ws lo hi h))
    ∙ cells-write f off ds

-- A store beyond the end has no outcome.
pub stores-overrun :
    (ws : List (ℕ × List ℕ)) (b : Buff) → (Fits b.buf_size ws → ⊥) → stores ws b ≡ none
unfolding stores
stores-overrun [] b h = absurd (h tt)
stores-overrun (w ∷ ws) b h = elim (dec_le (w.0 + length w.1) b.buf_size) [
  | yes fits ↦ ground (
    arith,
    stores-overrun ws (record b { bytes = write b.bytes w.0 w.1 }) (λ rest. h (fits, rest)),
  )
  | no over ↦ ground arith
]

pub fill_and_push-overrun :
    (s : Server) (b : Buff) (fill : Buff → Option Buff) (count : Server → Server)
    → fill b ≡ none
    → fill_and_push (some (some b, s)) fill count ≡ none
unfolding fill_and_push
fill_and_push-overrun s b fill count e = rw (fill_and_push, e) refl
