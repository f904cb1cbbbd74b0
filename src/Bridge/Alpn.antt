-- ===== src/Bridge/Alpn.antt =====
-- src/aiopquic/_binding/c/callback.h, the protocol names: the parser of the configured list and the
-- choice of a server among the names that a client offers. A C string is the list of its characters
-- before the NUL, a buffer with its length is the list of its bytes.
pub mod Parse
pub mod Select
use aiopquic.Base.{
  ℕ, zero, suc, ◌+◌, Bool, true, false, not, ◌&&◌, ◌||◌, Option, none, some, List, [], ◌∷◌, ltb,
  ◌==◌, if◌then◌else◌, length,
}

abbrev pub space : ℕ
space = 32

abbrev pub tab : ℕ
tab = 9

abbrev pub comma : ℕ
comma = 44

abbrev pub quote : ℕ
quote = 34

abbrev pub is_separator : ℕ → Bool
is_separator c = (c == space) || (c == tab) || (c == comma)

unfoldable pub skip : List ℕ → List ℕ
skip [] = []
skip (c ∷ p) = let rest = skip p in if is_separator c then rest else c ∷ p

abbrev pub keeps : ℕ → ℕ → ℕ → Bool
keeps outsz n c = not (c == quote) && ltb (n + 1) outsz

abbrev pub put_front : Bool → ℕ → List ℕ → List ℕ
put_front keep c tok = if keep then c ∷ tok else tok

-- The second loop of the parser, `n` characters being stored: what it stores more, and the cursor.
unfoldable pub read_token : ℕ → ℕ → List ℕ → List ℕ × List ℕ
read_token outsz n [] = ([], [])
read_token outsz n (c ∷ p) =
    let (tok, rest) = read_token outsz (if keeps outsz n c then n + 1 else n) p in
    if is_separator c then ([], c ∷ p) else (put_front (keeps outsz n c) c tok, rest)

unfoldable pub next_token : ℕ → List ℕ → List ℕ × List ℕ
next_token outsz cursor = read_token outsz 0 (skip cursor)

abbrev pub token_size : ℕ
token_size = 256

abbrev pub with_token : List ℕ → Option (List (List ℕ)) → Option (List (List ℕ))
with_token tok none = none
with_token tok (some names) = some (tok ∷ names)

-- The loop over the tokens: `cap` more may come, `n` were copied before. `none` is a copy that malloc
-- refuses, `ok n` being whether it grants the copy of token `n`.
unfoldable pub tokens : (ℕ → Bool) → ℕ → ℕ → List ℕ → Option (List (List ℕ))
tokens ok zero n cursor = some []
tokens ok (suc cap) n cursor =
    let (tok, rest) = next_token token_size cursor in
    let more = tokens ok cap (n + 1) rest in
    if length tok == 0 then some [] else if not (ok n) then none else with_token tok more

abbrev pub or_empty : Option (List (List ℕ)) → List (List ℕ)
or_empty none = []
or_empty (some names) = names

-- The new list of the context, which takes the place of any former; no csv is NULL.
unfoldable pub set_alpn_list : Bool → (ℕ → Bool) → Option (List ℕ) → List (List ℕ)
set_alpn_list array_ok ok none = []
set_alpn_list array_ok ok (some csv) =
    if (length csv == 0) || not array_ok then [] else or_empty (tokens ok (length csv + 1) 0 csv)

-- Equal lengths and `memcmp`.
unfoldable pub same_bytes : List ℕ → List ℕ → Bool
same_bytes [] [] = true
same_bytes [] (y ∷ ys) = false
same_bytes (x ∷ xs) [] = false
same_bytes (x ∷ xs) (y ∷ ys) = let rest = same_bytes xs ys in (x == y) && rest

-- The inner loop: the index of a name in the client's list, from index `i` on.
unfoldable pub offered : List ℕ → List (List ℕ) → ℕ → Option ℕ
offered name [] i = none
offered name (x ∷ list) i =
    let more = offered name list (i + 1) in if same_bytes x name then some i else more

abbrev pub pick : Option ℕ → ℕ → ℕ
pick none more = more
pick (some i) more = i

unfoldable pub select : List (List ℕ) → List (List ℕ) → ℕ
select [] list = length list
select (name ∷ names) list = pick (offered name list 0) (select names list)

-- `bridge` is the allowlist of the context, none without a context; a context without one has no name.
unfoldable pub alpn_select_cb : Option (List (List ℕ)) → List (List ℕ) → ℕ
alpn_select_cb none list = length list
alpn_select_cb (some names) list = select names list
