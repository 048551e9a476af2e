-- ===== src/NetProxy/Text.antt =====
-- Strings in arrays of fixed size, as net_proxy_v2 keeps its addresses.
use native.Mathlib.Decide.{dec_le}
use ai_coding_for_business.Common.{
  ℕ, zero, suc, ◌≤◌, ◌≡◌, ◌≢◌, refl, sym, subst, Bool, true, false, if◌then◌else◌, ap, ◌∙◌, arith,
  List, [], ◌∷◌, ◌++◌, ◌==◌, length, take, take-append, length-append, append_assoc,
}
use ai_coding_for_business.NetProxy.{pad, strncpy_15, cut, string_15}

-- A string has no byte 0.
abbrev pub Text : List ℕ → Type 0
Text [] = Unit {0}
Text (c ∷ s) = (c ≢ 0) × Text s

pub length-pad : (n : ℕ) (s : List ℕ) → length (pad n s) ≡ n
length-pad zero s = refl
length-pad (suc n) [] = ap suc (length-pad n [])
length-pad (suc n) (c ∷ s) = ap suc (length-pad n s)

pub cut-pad : (n : ℕ) (s : List ℕ) → Text s → length s ≤ n → cut (pad n s) ≡ s
cut-pad zero [] t h = refl
cut-pad zero (c ∷ s) t h = absurd (omega arith)
cut-pad (suc n) [] t h = ground arith
cut-pad (suc n) (c ∷ s) t h = ground (arith, t.0, cut-pad n s t.1 (omega arith))

pub cut-id : (s : List ℕ) → Text s → cut s ≡ s
cut-id [] t = refl
cut-id (c ∷ s) t = ground (arith, t.0, cut-id s t.1)

-- What was copied is read back, whatever follows it.
pub string_15-strncpy_15 :
    (s rest : List ℕ) → Text s → length s ≤ 15 → string_15 (strncpy_15 s ++ rest) ≡ s
string_15-strncpy_15 s rest t h =
    ap (λ l. string_15 l) (append_assoc (pad 15 s) (0 ∷ []) rest)
    ∙ ap cut (take-append 15 (pad 15 s) (0 ∷ rest) (length-pad 15 s))
    ∙ cut-pad 15 s t h

pub length-strncpy_15 : (s : List ℕ) → length (strncpy_15 s) ≡ 16
length-strncpy_15 s = omega (arith, length-append (pad 15 s) (0 ∷ []), length-pad 15 s)

pub cut-Text : (bytes : List ℕ) → Text (cut bytes)
cut-Text [] = tt
cut-Text (c ∷ s) = elim (dec_le c 0) [
  | yes z ↦
      let is_end : (c == 0) ≡ true = ground arith in
      subst (λ (b : Bool). Text (if b then [] else c ∷ cut s)) (sym is_end) tt
  | no nz ↦
      let is_char : (c == 0) ≡ false = ground arith in
      subst (λ (b : Bool). Text (if b then [] else c ∷ cut s)) (sym is_char)
        (omega arith, cut-Text s)
]

length-cut : (bytes : List ℕ) → length (cut bytes) ≤ length bytes
length-cut [] = omega arith
length-cut (c ∷ s) = ground (arith, length-cut s)

length-take : (n : ℕ) (bytes : List ℕ) → length (take n bytes) ≤ n
length-take zero bytes = omega arith
length-take (suc n) [] = omega arith
length-take (suc n) (c ∷ s) = omega (arith, length-take n s)

pub string_15-Text : (bytes : List ℕ) → Text (string_15 bytes)
string_15-Text bytes = cut-Text (take 15 bytes)

pub length-string_15 : (bytes : List ℕ) → length (string_15 bytes) ≤ 15
length-string_15 bytes = omega (arith, length-cut (take 15 bytes), length-take 15 bytes)
