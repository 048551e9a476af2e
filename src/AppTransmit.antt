-- ===== src/AppTransmit.antt =====
-- 722device/app/app_transmit.c: the addresses of messages, and what the callbacks of the application do
-- with a message.
--
-- An address is a url /toLink/<id>/<proto>/<priority>/<topic>/..., which `parse_url` reads by `strtok` and
-- `atoi`. Where the behaviour is undefined (more tokens than the array has rows, a number that no `int`
-- holds) it has no result.
pub mod Address
pub mod Bounds
pub mod Callbacks
mod Tests
use ai_coding_for_business.Common.{
  ℕ, zero, suc, ◌+◌, ◌*◌, ◌-◌, ◌%◌, ◌^◌, Bool, true, false, not, ◌&&◌, ◌||◌, Option, none, some,
  List, [], ◌∷◌, ◌++◌, ◌==◌, ltb, leb, if◌then◌else◌, length, is_nil, drop, get_or, TlsResult, s_ok,
  e_invalid_data,
}
use ai_coding_for_business.NetProxy.{cut}

abbrev pub slash : ℕ
slash = 47

-- `strtok` with the separator "/", called until it returns null: the runs of other characters. `word` is
-- the run that has begun.
abbrev pub tokens : List ℕ → List ℕ → List (List ℕ)
tokens word [] = if is_nil word then [] else word ∷ []
tokens word (c ∷ s) =
    let rest = tokens (if c == slash then [] else word ++ c ∷ []) s in
    if (c == slash) && not (is_nil word) then word ∷ rest else rest

abbrev pub is_space : ℕ → Bool
is_space c = (c == 32) || leb 9 c && leb c 13

abbrev pub is_digit : ℕ → Bool
is_digit c = leb 48 c && leb c 57

abbrev pub skip_spaces : List ℕ → List ℕ
skip_spaces [] = []
skip_spaces (c ∷ s) = let rest = skip_spaces s in if is_space c then rest else c ∷ s

-- The digits at the front, behind the value `v`.
abbrev pub digits : ℕ → List ℕ → ℕ
digits v [] = v
digits v (c ∷ s) = let rest = digits (v * 10 + (c - 48)) s in if is_digit c then rest else v

-- The bit pattern of an `int`, where it holds the number.
abbrev pub int_bits : Bool → ℕ → Option ℕ
int_bits negative v =
    if leb v (if negative then 2147483648 else 2147483647)
    then some (if negative then (4294967296 - v) % 4294967296 else v)
    else none

abbrev pub signed : List ℕ → Option ℕ
signed [] = some 0
signed (c ∷ s) = int_bits (c == 45) (digits 0 (if (c == 43) || (c == 45) then s else c ∷ s))

-- `atoi`.
abbrev pub atoi : List ℕ → Option ℕ
atoi s = signed (skip_spaces s)

-- What the parser returns through its pointers.
pub record Destination : Type 0 where
  pub addr : ℕ
  pub entry : ℕ
  pub priority : ℕ
  pub newurl : List ℕ

pub data Parsed : Type 0 where
  undefined : Parsed
  refused : TlsResult → Parsed
  parsed : Destination → Parsed

-- The loop of `strcat`.
abbrev pub path : List (List ℕ) → List ℕ
path [] = []
path (t ∷ ts) = (slash ∷ t) ++ path ts

-- `urlbuf[32][128]`, `NEED_TOPIC_COUNT`.
abbrev pub row_count : ℕ
row_count = 32

abbrev pub need_topic_count : ℕ
need_topic_count = 4

-- The parser behind the loop of `strtok`. The numbers are stored in a U32, a U16 and a U8.
abbrev pub destination : List (List ℕ) → Option ℕ → Option ℕ → Option ℕ → Parsed
destination ts (some addr) (some entry) (some priority) = parsed (record {
  addr = addr;
  entry = entry % 65536;
  priority = priority % 256;
  newurl = path (drop need_topic_count ts);
})
destination ts _ _ _ = undefined

pub parse_tokens : List (List ℕ) → Parsed
parse_tokens ts =
    if ltb row_count (length ts)
    then undefined
    else if ltb (length ts) need_topic_count
    then refused e_invalid_data
    else destination ts (atoi (get_or ts 1 [])) (atoi (get_or ts 2 [])) (atoi (get_or ts 3 []))

-- `api_transmit_app_rpc_server_parse_url`, with no pointer null: `url` are the `url_len` bytes of the url.
pub parse_url : List ℕ → Parsed
unfolding parse_tokens
parse_url url =
    if (length url == 0) || leb 128 (length url)
    then refused e_invalid_data
    else parse_tokens (tokens [] (cut url))
