-- ===== src/AppTransmit/Address.antt =====
-- What `parse_url` of 722device/app/app_transmit.c reads of an address that is written as it should be.
use ai_coding_for_business.Common.{
  ℕ, ◌+◌, ◌*◌, ◌-◌, ◌%◌, ◌≤◌, ◌<◌, ◌≡◌, ◌≢◌, refl, sym, ap, ◌∙◌, arith, false, some, List, [], ◌∷◌,
  ◌++◌, append_assoc, append-nil, ltb, leb, length, is_nil,
}
use ai_coding_for_business.NetProxy.{cut}
use ai_coding_for_business.AppTransmit.{tokens, digits, atoi, parsed, path, parse_url}

-- A character that is neither the end of a string nor a separator, and a word of such.
abbrev pub IsChar : ℕ → Type 0
IsChar c = (c ≢ 0) × (c ≢ 47)

abbrev pub Chars : List ℕ → Type 0
Chars [] = Unit {0}
Chars (c ∷ s) = IsChar c × Chars s

-- The segments of a path.
abbrev pub Segments : List (List ℕ) → Type 0
Segments [] = Unit {0}
Segments (t ∷ ts) = (is_nil t ≡ false) × Chars t × Segments ts

-- A number in decimal digits, at least one of them, and its value.
abbrev pub Digits : List ℕ → Type 0
Digits [] = Unit {0}
Digits (c ∷ s) = (48 ≤ c) × (c ≤ 57) × Digits s

abbrev pub value : ℕ → List ℕ → ℕ
value v [] = v
value v (c ∷ s) = value (v * 10 + (c - 48)) s

abbrev pub IsNumber : List ℕ → Type 0
IsNumber s = (is_nil s ≡ false) × Digits s × (value 0 s < 2147483648)

digits-value : (v : ℕ) (s : List ℕ) → Digits s → digits v s ≡ value v s
digits-value v [] d = refl
digits-value v (c ∷ s) d = ground (arith, d.0, d.1, digits-value (v * 10 + (c - 48)) s d.2)

pub atoi-value : (s : List ℕ) → IsNumber s → atoi s ≡ some (value 0 s)
atoi-value [] h = cc
atoi-value (c ∷ s) (some_left, d, small) = ground (arith, d.0, d.1, digits-value 0 (c ∷ s) d, small)

-- The word that has begun takes in the characters that follow it.
tokens_word : (s word rest : List ℕ) → Chars s → tokens word (s ++ rest) ≡ tokens (word ++ s) rest
tokens_word [] word rest h = ap (λ w. tokens w rest) (sym (append-nil word))
tokens_word (c ∷ s) word rest ((nz, ns), h) =
    ground (arith, tokens_word s (word ++ c ∷ []) rest h, append_assoc word (c ∷ []) s)

tokens_behind :
    (word : List ℕ) (ts : List (List ℕ))
    → is_nil word ≡ false
    → Segments ts
    → tokens word (path ts) ≡ word ∷ ts
tokens_behind word [] w h = ground arith
tokens_behind word (t ∷ ts) w (n, chars, h) =
    ground (arith, tokens_word t [] (path ts) chars, tokens_behind t ts n h)

pub tokens-path : (ts : List (List ℕ)) → Segments ts → tokens [] (path ts) ≡ ts
tokens-path [] h = refl
tokens-path (t ∷ ts) (n, chars, h) =
    ground (arith, tokens_word t [] (path ts) chars, tokens_behind t ts n h)

cut-Chars : (s rest : List ℕ) → Chars s → cut (s ++ rest) ≡ s ++ cut rest
cut-Chars [] rest h = refl
cut-Chars (c ∷ s) rest ((nz, ns), h) = ground (arith, cut-Chars s rest h)

cut-path : (ts : List (List ℕ)) → Segments ts → cut (path ts) ≡ path ts
cut-path [] h = refl
cut-path (t ∷ ts) (n, chars, h) = ground (arith, cut-Chars t (path ts) chars, cut-path ts h)

module _ (head id proto prio : List ℕ) (topic : List (List ℕ)) where
  abbrev address : List (List ℕ)
  address = head ∷ id ∷ proto ∷ prio ∷ topic

  -- An address /head/id/proto/prio/topic of at most 32 segments and fewer than 128 characters, whose second,
  -- third and fourth segment are decimal numbers below 2 ^ 31, is parsed to these numbers, the last
  -- two in 16 and in 8 bits, and to the path of the segments behind them.
  pub parse_url-path :
      Segments address
      → IsNumber id
      → IsNumber proto
      → IsNumber prio
      → length address ≤ 32
      → length (path address) < 128
      → parse_url (path address)
        ≡ parsed (record {
          addr = value 0 id;
          entry = value 0 proto % 65536;
          priority = value 0 prio % 256;
          newurl = path topic;
        })
  unfolding parse_url
  parse_url-path segments i p q rows short =
      let words : tokens [] (cut (path address)) ≡ address =
        ap (tokens []) (cut-path address segments) ∙ tokens-path address segments in
      let short' : leb 128 (length (path address)) ≡ false = ground arith in
      let rows' : ltb 32 (length address) ≡ false = ground arith in
      rw (short', words)
        (ground (arith, rows', atoi-value id i, atoi-value proto p, atoi-value prio q))
