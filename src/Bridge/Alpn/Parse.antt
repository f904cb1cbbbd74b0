-- ===== src/Bridge/Alpn/Parse.antt =====
-- `aiopquic_ctx_set_alpn_list`: the bound on its loop cuts nothing, and it reads back a list of names.
use aiopquic.Base.{
  ℕ, zero, suc, ◌+◌, ◌<◌, ◌≤◌, ◌≡◌, refl, ap, ◌∙◌, arith, Bool, true, false, not, Bool-cases, ◌&&◌,
  ◌||◌, ◌==◌, if◌then◌else◌, inl, inr, none, some, List, [], ◌∷◌, ◌++◌, length, length-append,
}
use aiopquic.Bridge.Alpn.{
  comma, quote, is_separator, keeps, put_front, skip, read_token, next_token, token_size,
  with_token, tokens, or_empty, set_alpn_list,
}

put_front-length :
    (keep : Bool) (c : ℕ) (tok : List ℕ) → length (put_front keep c tok) ≤ length tok + 1
put_front-length true c tok = omega arith
put_front-length false c tok = omega arith

-- What is read, kept or not, is no longer in the rest.
read_token-length :
    (outsz n : ℕ) (p : List ℕ)
    → length (read_token outsz n p).0 + length (read_token outsz n p).1 ≤ length p
unfolding read_token
read_token-length outsz n [] = omega arith
read_token-length outsz n (c ∷ p) =
    let rest = read_token-length outsz (if keeps outsz n c then n + 1 else n) p in
    elim (Bool-cases (is_separator c)) [
      | inl sep ↦ rw sep (omega arith)
      | inr other ↦ rw other (omega (arith, rest, put_front-length (keeps outsz n c) c _))
    ]

pub skip-length : (p : List ℕ) → length (skip p) ≤ length p
unfolding skip
skip-length [] = omega arith
skip-length (c ∷ p) = elim (Bool-cases (is_separator c)) [
  | inl sep ↦ rw sep (omega (arith, skip-length p))
  | inr other ↦ rw other (omega arith)
]

-- A token takes characters from the cursor.
next_token-length :
    (cursor : List ℕ)
    → length (next_token token_size cursor).0 + length (next_token token_size cursor).1
      ≤ length cursor
unfolding next_token
next_token-length cursor =
    omega (arith, read_token-length token_size 0 (skip cursor), skip-length cursor)

-- With more room than characters, the bound on the number of names does not matter: the loop ends at
-- the end of the names, not at the bound that the code puts on their number.
pub tokens-cap :
    (ok : ℕ → Bool) (cap cap' n : ℕ) (cursor : List ℕ)
    → length cursor < cap
    → length cursor < cap'
    → tokens ok cap n cursor ≡ tokens ok cap' n cursor
unfolding tokens
tokens-cap ok zero cap' n cursor h h' = absurd (omega arith)
tokens-cap ok (suc cap) zero n cursor h h' = absurd (omega arith)
tokens-cap ok (suc cap) (suc cap') n cursor h h' =
    let shorter = next_token-length cursor in
    let tok = (next_token token_size cursor).0 in
    let rest = (next_token token_size cursor).1 in
    elim (Bool-cases (length tok == 0)) [
      | inl stops ↦ rw stops refl
      | inr goes_on ↦
          let some_char : 0 < length tok = ground (arith, goes_on) in
          ap
            (λ m.
              if length tok == 0 then some [] else if not (ok n) then none else with_token tok m)
            (tokens-cap ok cap cap' (n + 1) rest (omega (arith, shorter, some_char, h))
              (omega (arith, shorter, some_char, h')))
    ]

-- A character that is neither a separator nor a quote.
abbrev pub is_plain : ℕ → Bool
is_plain c = not (is_separator c) && not (c == quote)

abbrev pub all_plain : List ℕ → Bool
all_plain [] = true
all_plain (c ∷ x) = let rest = all_plain x in is_plain c && rest

-- A name that a protocol may have here: plain characters, and as many as a token holds.
abbrev pub IsName : List ℕ → Type 0
IsName x = (0 < length x) × (length x < token_size) × (all_plain x ≡ true)

abbrev pub AllNames : List (List ℕ) → Type 0
AllNames [] = Unit
AllNames (x ∷ names) = IsName x × AllNames names

-- The names with commas between them.
abbrev pub after_comma : List (List ℕ) → List ℕ
after_comma [] = []
after_comma (x ∷ names) = comma ∷ (x ++ after_comma names)

abbrev pub join : List (List ℕ) → List ℕ
join [] = []
join (x ∷ names) = x ++ after_comma names

read_token-join :
    (n : ℕ) (x : List ℕ) (names : List (List ℕ))
    → n + length x < token_size
    → all_plain x ≡ true
    → read_token token_size n (x ++ after_comma names) ≡ (x, after_comma names)
unfolding read_token
read_token-join n [] [] h plain = refl
read_token-join n [] (y ∷ names) h plain = refl
read_token-join n (c ∷ x) names h plain =
    let rest = read_token-join (n + 1) x names (omega (arith, h)) (ground (arith, plain)) in
    let kept : keeps token_size n c ≡ true = ground (arith, plain, h) in
    let no_sep : is_separator c ≡ false = ground (arith, plain) in rw (no_sep, kept, rest) refl

skip-plain : (c : ℕ) (p : List ℕ) → is_plain c ≡ true → skip (c ∷ p) ≡ c ∷ p
unfolding skip
skip-plain c p plain = let no_sep : is_separator c ≡ false = ground (arith, plain) in rw no_sep refl

-- The next token of a list that starts with a name is that name.
next_token-join :
    (x : List ℕ) (names : List (List ℕ))
    → IsName x
    → next_token token_size (x ++ after_comma names) ≡ (x, after_comma names)
unfolding next_token
next_token-join [] names (some_char, h, plain) = absurd (omega (arith, some_char))
next_token-join (c ∷ x) names (some_char, h, plain) =
    rw (skip-plain c (x ++ after_comma names) (ground (arith, plain)))
      (read_token-join 0 (c ∷ x) names (omega (arith, h)) plain)

-- A comma before the names makes no difference.
next_token-comma :
    (names : List (List ℕ))
    → next_token token_size (after_comma names) ≡ next_token token_size (join names)
unfolding next_token skip
next_token-comma [] = refl
next_token-comma (x ∷ names) = refl

tokens-comma :
    (ok : ℕ → Bool) (cap n : ℕ) (names : List (List ℕ))
    → tokens ok cap n (after_comma names) ≡ tokens ok cap n (join names)
unfolding tokens
tokens-comma ok zero n names = refl
tokens-comma ok (suc cap) n names = rw (next_token-comma names) refl

tokens-join :
    (ok : ℕ → Bool) (cap n : ℕ) (names : List (List ℕ))
    → ((i : ℕ) → ok i ≡ true)
    → AllNames names
    → length names < cap
    → tokens ok cap n (join names) ≡ some names
unfolding tokens
tokens-join ok zero n names granted all h = absurd (omega arith)
tokens-join ok (suc cap) n [] granted all h = unfold next_token skip read_token in refl
tokens-join ok (suc cap) n (x ∷ names) granted all h =
    let rest =
      tokens-comma ok cap (n + 1) names
      ∙ tokens-join ok cap (n + 1) names granted all.1 (omega (arith, h)) in
    let goes_on : (length x == 0) ≡ false = ground (arith, all.0.0) in
    rw (next_token-join x names all.0, goes_on, granted n, rest) refl

length-after_comma : (names : List (List ℕ)) → length names ≤ length (after_comma names)
length-after_comma [] = omega arith
length-after_comma (x ∷ names) =
    omega (arith, length-append x (after_comma names), length-after_comma names)

length-join : (names : List (List ℕ)) → AllNames names → length names ≤ length (join names)
length-join [] all = omega arith
length-join (x ∷ names) all =
    omega (arith, length-append x (after_comma names), length-after_comma names, all.0.0)

-- The names that are configured as a list with commas between them, each of plain characters and of 1
-- to 255 of them, are the names of the context in that order, where malloc grants the memory.
pub set_alpn_list-join :
    (ok : ℕ → Bool) (names : List (List ℕ))
    → ((i : ℕ) → ok i ≡ true)
    → AllNames names
    → set_alpn_list true ok (some (join names)) ≡ names
unfolding set_alpn_list
set_alpn_list-join ok [] granted all = refl
set_alpn_list-join ok ([] ∷ names) granted all = absurd (omega (arith, all.0.0))
set_alpn_list-join ok ((c ∷ x) ∷ names) granted all =
    let given : (suc (length (x ++ after_comma names)) == 0 || false) ≡ false = ground arith in
    rw given (
      ap or_empty (
        tokens-join ok (length (join ((c ∷ x) ∷ names)) + 1) 0 ((c ∷ x) ∷ names) granted all
          (omega (arith, length-join ((c ∷ x) ∷ names) all))))
