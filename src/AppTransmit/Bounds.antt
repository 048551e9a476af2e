-- ===== src/AppTransmit/Bounds.antt =====
-- What `parse_url` of 722device/app/app_transmit.c returns for any url, and how large it is.
use ai_coding_for_business.Common.{
  ℕ, zero, suc, ◌+◌, ◌%◌, ◌≤◌, ◌<◌, ◌≡◌, ◌≢◌, ◌⊎◌, inl, inr, refl, arith, false, not, ◌||◌, Option,
  none, some, List, [], ◌∷◌, ◌++◌, ◌==◌, ltb, leb, if◌then◌else◌, length, is_nil, length-append,
  Bool-cases, drop, get_or, e_invalid_data,
}
use ai_coding_for_business.NetProxy.{cut}
use ai_coding_for_business.NetProxy.Text.{Text, cut-Text}
use ai_coding_for_business.AppTransmit.{
  tokens, skip_spaces, signed, atoi, Destination, Parsed, undefined, refused, parsed, path,
  destination, parse_tokens, parse_url,
}
use ai_coding_for_business.AppTransmit.Address.{Chars, Segments}

-- The characters of a path: those of its segments, and a separator before each.
abbrev pub weight : List (List ℕ) → ℕ
weight [] = 0
weight (t ∷ ts) = suc (length t) + weight ts

pub length-path : (ts : List (List ℕ)) → length (path ts) ≡ weight ts
length-path [] = refl
length-path (t ∷ ts) = omega (arith, length-append t (path ts), length-path ts)

weight-tokens : (word s : List ℕ) → weight (tokens word s) ≤ length word + length s + 1
weight-tokens [] [] = omega arith
weight-tokens (w ∷ word) [] = ground arith
weight-tokens [] (c ∷ s) = ground (arith, weight-tokens [] s, weight-tokens (c ∷ []) s)
weight-tokens (w ∷ word) (c ∷ s) = ground (
  arith,
  weight-tokens [] s,
  weight-tokens (w ∷ word ++ c ∷ []) s,
  length-append (w ∷ word) (c ∷ []),
)

Chars-append : (word : List ℕ) (c : ℕ) → Chars word → c ≢ 0 → c ≢ 47 → Chars (word ++ c ∷ [])
Chars-append [] c h nz ns = ((nz, ns), tt)
Chars-append (w ∷ word) c (h, hs) nz ns = (h, Chars-append word c hs nz ns)

tokens-Segments : (word s : List ℕ) → Chars word → Text s → Segments (tokens word s)
tokens-Segments [] [] w t = tt
tokens-Segments (d ∷ word) [] w t = (refl, w, tt)
tokens-Segments word (c ∷ s) w (nz, t) = elim (Bool-cases (c == 47)) [
  | inl is_slash ↦ rw is_slash (at_slash word w (tokens-Segments [] s tt t))
  | inr no_slash ↦
      rw no_slash (tokens-Segments (word ++ c ∷ []) s (Chars-append word c w nz (ground arith)) t)
]
  where
    at_slash :
        (word : List ℕ)
        → Chars word
        → Segments (tokens [] s)
        → Segments (if not (is_nil word) then word ∷ tokens [] s else tokens [] s)
    at_slash [] w h = h
    at_slash (d ∷ word) w h = (refl, w, h)

Text-append : (s t : List ℕ) → Chars s → Text t → Text (s ++ t)
Text-append [] t h k = k
Text-append (c ∷ s) t ((nz, ns), h) k = (nz, Text-append s t h k)

pub Text-path : (ts : List (List ℕ)) → Segments ts → Text (path ts)
Text-path [] h = tt
Text-path (t ∷ ts) (n, chars, h) = (omega arith, Text-append t (path ts) chars (Text-path ts h))

Segments-drop : (n : ℕ) (ts : List (List ℕ)) → Segments ts → Segments (drop n ts)
Segments-drop zero ts h = h
Segments-drop (suc n) [] h = tt
Segments-drop (suc n) (t ∷ ts) h = Segments-drop n ts h.2

length-word : (t : List ℕ) → is_nil t ≡ false → 1 ≤ length t
length-word [] h = cc
length-word (c ∷ t) h = omega arith

-- At least eight characters belong to the first four segments.
weight-drop :
    (ts : List (List ℕ)) → Segments ts → 4 ≤ length ts → weight (drop 4 ts) + 8 ≤ weight ts
weight-drop [] h n = absurd (omega arith)
weight-drop (a ∷ []) h n = absurd (omega arith)
weight-drop (a ∷ b ∷ []) h n = absurd (omega arith)
weight-drop (a ∷ b ∷ c ∷ []) h n = absurd (omega arith)
weight-drop (a ∷ b ∷ c ∷ d ∷ ts) h n =
    omega (
      arith,
      length-word a h.0,
      length-word b h.2.0,
      length-word c h.2.2.0,
      length-word d h.2.2.2.0,
    )

signed-bounds : (s : List ℕ) (v : ℕ) → signed s ≡ some v → v < 4294967296
signed-bounds [] v h = ground arith
signed-bounds (c ∷ s) v h = ground arith

abbrev pub words : List ℕ → List (List ℕ)
words url = tokens [] (cut url)

-- The outcomes for the bytes `url`.
pub data Outcome (url : List ℕ) : Parsed → Type 0 where
  bad_length : (length url ≡ 0) ⊎ (128 ≤ length url) → Outcome url (refused e_invalid_data)
  too_few : length (words url) < 4 → Outcome url (refused e_invalid_data)
  too_many : 32 < length (words url) → Outcome url undefined
  no_number :
      (atoi (get_or (words url) 1 []) ≡ none)
        ⊎ (atoi (get_or (words url) 2 []) ≡ none)
        ⊎ (atoi (get_or (words url) 3 []) ≡ none)
      → Outcome url undefined
  fits :
      (d : Destination)
      → d.addr < 4294967296
      → d.entry < 65536
      → d.priority < 256
      → length d.newurl + 7 ≤ length url
      → length url < 128
      → Text d.newurl
      → Outcome url (parsed d)

length-cut : (s : List ℕ) → length (cut s) ≤ length s
length-cut [] = omega arith
length-cut (c ∷ s) = ground (arith, length-cut s)

newurl-fits :
    (url : List ℕ) → 4 ≤ length (words url) → length (path (drop 4 (words url))) + 7 ≤ length url
newurl-fits url n = omega (
  arith,
  length-path (drop 4 (words url)),
  weight-drop (words url) (tokens-Segments [] (cut url) tt (cut-Text url)) n,
  weight-tokens [] (cut url),
  length-cut url,
)

destination-Outcome :
    (url : List ℕ) (a b c : Option ℕ)
    → length url < 128
    → 4 ≤ length (words url)
    → atoi (get_or (words url) 1 []) ≡ a
    → atoi (get_or (words url) 2 []) ≡ b
    → atoi (get_or (words url) 3 []) ≡ c
    → Outcome url (destination (words url) a b c)
destination-Outcome url none b c short n ea eb ec = no_number (inl ea)
destination-Outcome url (some a) none c short n ea eb ec = no_number (inr (inl eb))
destination-Outcome url (some a) (some b) none short n ea eb ec = no_number (inr (inr ec))
destination-Outcome url (some a) (some b) (some c) short n ea eb ec =
    fits
      (record {
        addr = a;
        entry = b % 65536;
        priority = c % 256;
        newurl = path (drop 4 (words url));
      })
      (signed-bounds (skip_spaces (get_or (words url) 1 [])) a ea) (omega arith) (omega arith)
      (newurl-fits url n) short
      (Text-path (drop 4 (words url))
        (Segments-drop 4 (words url) (tokens-Segments [] (cut url) tt (cut-Text url))))

-- For any url: it is refused where it is empty or longer than 127 characters or has fewer than four segments;
-- the behaviour is undefined only where it has more than 32, or one of the three numbers does not fit
-- into an int; else the numbers fit into 32, 16 and 8 bits, and the new url is a string that is at least
-- seven characters shorter than the given one, so that it fits into its array of 128.
pub parse_url-Outcome : (url : List ℕ) → Outcome url (parse_url url)
unfolding parse_url parse_tokens
parse_url-Outcome url = elim (Bool-cases ((length url == 0) || leb 128 (length url))) [
  | inl bad ↦ rw bad (bad_length (ground arith))
  | inr good ↦ rw good (elim (Bool-cases (ltb 32 (length (words url)))) [
    | inl many ↦ rw many (too_many (ground arith))
    | inr rows ↦ rw rows (elim (Bool-cases (ltb (length (words url)) 4)) [
      | inl few ↦ rw few (too_few (ground arith))
      | inr enough ↦ rw enough (
          destination-Outcome url (atoi (get_or (words url) 1 [])) (atoi (get_or (words url) 2 []))
            (atoi (get_or (words url) 3 [])) (ground arith) (ground arith) refl refl refl)
    ])
  ])
]
