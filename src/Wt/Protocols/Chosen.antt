-- ===== src/Wt/Protocols/Chosen.antt =====
-- The name that the server chooses: the first of the client's that is configured, in whatever order these are.
use mathlib.Core.Bool.{Bool-set}
use mathlib.Core.Logic.Or
use mathlib.Core.List.{Mem, mem-cons, mem-cons_of_mem, not-mem-nil}
use aiopquic.Base.{
  ◌↔◌, ℕ, zero, suc, ◌≤◌, ◌<◌, ◌≡◌, refl, sym, ap, ◌∙◌, arith, Bool, true, false, not, ◌&&◌, ◌||◌,
  Bool-cases, inl, inr, Option, none, some, List, [], ◌∷◌, ◌++◌, leb, ◌==◌, if◌then◌else◌, length,
}
use aiopquic.Bridge.Alpn.{comma, is_separator, skip, same_bytes}
use aiopquic.Bridge.Alpn.Select.{same_bytes-eq, same_bytes_refl}
use aiopquic.Bridge.Alpn.Parse.{skip-length}
use aiopquic.Wt.Protocols.{
  from_byte, item_of, item_at, list_next, items_in, items, Selection, no_match, none_offered,
  selected, offers_any, has_item, name_size, select_from, select_protocol,
}

from_byte-length : (stop : ℕ) (p : List ℕ) → length (from_byte stop p) ≤ length p
unfolding from_byte
from_byte-length stop [] = omega arith
from_byte-length stop (c ∷ p) = elim (Bool-cases (c == stop)) [
  | inl here ↦ rw here (omega arith)
  | inr later ↦ rw later (omega (arith, from_byte-length stop p))
]

skip-head : (p : List ℕ) (c : ℕ) (q : List ℕ) → skip p ≡ c ∷ q → is_separator c ≡ false
unfolding skip
skip-head [] c q e = cc (e)
skip-head (d ∷ p) c q e = by_test (is_separator d) (λ g. skip-head p c q g) refl e
  where
    by_test :
        (b : Bool)
        → (skip p ≡ c ∷ q → is_separator c ≡ false)
        → is_separator d ≡ b
        → (if b then skip p else d ∷ p) ≡ c ∷ q
        → is_separator c ≡ false
    by_test true later f g = later g
    by_test false later f g = cc (f, g)

shorter :
    (c : ℕ) (p : List ℕ) → is_separator c ≡ false → length (from_byte comma (c ∷ p)) ≤ length p
unfolding from_byte
shorter c p e =
    let no_comma : (c == comma) ≡ false = ground (arith, e) in
    rw no_comma (from_byte-length comma p)

-- With more steps than there are bytes, their number does not matter: the items are the same.
pub items_in-enough :
    (n m : ℕ) (text : List ℕ)
    → length text < n
    → length text < m
    → items_in n text ≡ items_in m text
unfolding items_in list_next
items_in-enough zero m text h k = absurd (omega (arith, h))
items_in-enough (suc n) zero text h k = absurd (omega (arith, k))
items_in-enough (suc n) (suc m) text h k = by_rest (skip text) (λ t. items_in-enough n m t) refl
  where
    by_rest :
        (rest : List ℕ)
        → ((t : List ℕ) → length t < n → length t < m → items_in n t ≡ items_in m t)
        → skip text ≡ rest
        → elim (item_at rest) [ none ↦ [] | some (item, more) ↦ item ∷ items_in n more ]
          ≡ elim (item_at rest) [ none ↦ [] | some (item, more) ↦ item ∷ items_in m more ]
    by_rest [] same e = refl
    by_rest (c ∷ p) same e =
        let less = shorter c p (skip-head text c p e) in
        let total : length (c ∷ p) ≤ length text = omega (arith, skip-length text, ap length e) in
        ap (λ l. item_of (c ∷ p) ∷ l)
          (same (from_byte comma (c ∷ p)) (omega (arith, less, total, h))
            (omega (arith, less, total, k)))

select_from-order :
    (is_set : List ℕ → Bool) (os : List (List ℕ)) (s t : List (List ℕ))
    → ((o : List ℕ) → has_item o s ≡ has_item o t)
    → select_from is_set os s ≡ select_from is_set os t
unfolding select_from
select_from-order is_set [] s t same = refl
select_from-order is_set (o ∷ os) s t same = rw (same o, select_from-order is_set os s t same) refl

-- The inner loop finds what is in the configured list.
has_item-Mem : (o : List ℕ) (s : List (List ℕ)) → has_item o s ≡ true → Mem o s
unfolding has_item
has_item-Mem o [] e = absurd (cc (e))
has_item-Mem o (sv ∷ s) e = elim (Bool-cases (same_bytes o sv)) [
  | inl same ↦ let here : o ≡ sv = same_bytes-eq o sv same in mem-cons.1 (Or.inl here)
  | inr other ↦
      let later : has_item o s ≡ true = ground (arith, other, e) in
      mem-cons_of_mem sv (has_item-Mem o s later)
]

Mem-has_item : (o : List ℕ) (s : List (List ℕ)) → Mem o s → has_item o s ≡ true
unfolding has_item
Mem-has_item o [] m = absurd (not-mem-nil m)
Mem-has_item o (sv ∷ s) m =
    Or.elim (Bool-set (has_item o (sv ∷ s)) true) (mem-cons.0 m) here
      (λ l. later (Mem-has_item o s l))
  where
    here : o ≡ sv → has_item o (sv ∷ s) ≡ true
    here e =
        let same : same_bytes o sv ≡ true = ap (same_bytes o) (sym e) ∙ same_bytes_refl o in
        rw same refl

    later : has_item o s ≡ true → has_item o (sv ∷ s) ≡ true
    later f = ground (arith, f)

has_item-same :
    (s t : List (List ℕ))
    → ((o : List ℕ) → Mem o s ↔ Mem o t)
    → (o : List ℕ) → has_item o s ≡ has_item o t
has_item-same s t same o =
    by_tests (has_item o s) (has_item o t) (λ e. Mem-has_item o t ((same o).0 (has_item-Mem o s e)))
      (λ e. Mem-has_item o s ((same o).1 (has_item-Mem o t e)))
  where
    by_tests : (a b : Bool) → (a ≡ true → b ≡ true) → (b ≡ true → a ≡ true) → a ≡ b
    by_tests true b f g = sym (f refl)
    by_tests false true f g = g refl
    by_tests false false f g = refl

-- Two configured lists that name the same protocols, in whatever order and however often, come to the same
-- choice.
pub select_protocol-order :
    (is_set : List ℕ → Bool) (offer : Option (List ℕ)) (supported other : List ℕ)
    → ((o : List ℕ) → Mem o (items supported) ↔ Mem o (items other))
    → select_protocol is_set offer supported ≡ select_protocol is_set offer other
unfolding select_protocol
select_protocol-order is_set none supported other same = refl
select_protocol-order is_set (some offer) supported other same =
    let found = has_item-same (items supported) (items other) same in
    rw (select_from-order is_set (items offer) (items supported) (items other) found) refl

-- Names that the choice passes over: empty, not configured, or too long.
abbrev pub passed_over : List (List ℕ) → List (List ℕ) → Bool
passed_over s [] = true
passed_over s (o ∷ os) =
    ((length o == 0) || not (has_item o s) || leb name_size (length o)) && passed_over s os

-- The client's list up to the name that is chosen.
abbrev pub IsFirst : (List ℕ → Bool) → List (List ℕ) → List (List ℕ) → List ℕ → Type 0
IsFirst is_set os s name =
    (before : List (List ℕ)) × (after : List (List ℕ)) × (os ≡ before ++ (name ∷ after))
    × (passed_over s before ≡ true)
    × (has_item name s ≡ true)
    × (length name < name_size)
    × (is_set name ≡ true)

name_of : Selection → List ℕ
name_of none_offered = []
name_of no_match = []
name_of (selected name) = name

select_from-IsFirst :
    (is_set : List ℕ → Bool) (os s : List (List ℕ)) (name : List ℕ)
    → select_from is_set os s ≡ selected name
    → IsFirst is_set os s name
unfolding select_from
select_from-IsFirst is_set [] s name e = absurd (cc (e))
select_from-IsFirst is_set (o ∷ os) s name e =
    by_tests (length o == 0) (has_item o s) (leb name_size (length o)) (is_set o)
      (λ f. select_from-IsFirst is_set os s name f) refl refl refl refl e
  where
    past :
        ((length o == 0) || not (has_item o s) || leb name_size (length o)) ≡ true
        → IsFirst is_set os s name
        → IsFirst is_set (o ∷ os) s name
    past over (before, after, split, passed, has, short, set) =
        (o ∷ before, after, ap (λ l. o ∷ l) split, ground (arith, over, passed), has, short, set)

    by_tests :
        (empty has long set : Bool)
        → (select_from is_set os s ≡ selected name → IsFirst is_set os s name)
        → (length o == 0) ≡ empty
        → has_item o s ≡ has
        → leb name_size (length o) ≡ long
        → is_set o ≡ set
        → (let more = select_from is_set os s in
            if empty
            then more
            else if has
            then (if long then more else if set then selected o else no_match)
            else more)
          ≡ selected name
        → IsFirst is_set (o ∷ os) s name
    by_tests true has long set more e1 e2 e3 e4 f = past (ground (arith, e1)) (more f)
    by_tests false false long set more e1 e2 e3 e4 f = past (ground (arith, e2)) (more f)
    by_tests false true true set more e1 e2 e3 e4 f = past (ground (arith, e3)) (more f)
    by_tests false true false false more e1 e2 e3 e4 f = absurd (cc (f))
    by_tests false true false true more e1 e2 e3 e4 f =
        let same : o ≡ name = unfold name_of in ap name_of f in
        let short : length o < name_size = ground (arith, e3) in
        (
          [],
          os,
          ap (λ n. n ∷ os) same,
          refl,
          ap (λ n. has_item n s) (sym same) ∙ e2,
          omega (arith, ap length same, short),
          ap is_set (sym same) ∙ e4,
        )

-- A name that is chosen stands in the client's list, is configured, shorter than the bound, and taken by
-- picowt, and every name before it is empty, not configured or too long.
pub select_protocol-IsFirst :
    (is_set : List ℕ → Bool) (offer supported name : List ℕ)
    → select_protocol is_set (some offer) supported ≡ selected name
    → IsFirst is_set (items offer) (items supported) name
unfolding select_protocol
select_protocol-IsFirst is_set offer supported name e = by_any (offers_any (items offer)) e
  where
    by_any :
        (any : Bool)
        → (if not any then none_offered else select_from is_set (items offer) (items supported))
          ≡ selected name
        → IsFirst is_set (items offer) (items supported) name
    by_any true f = select_from-IsFirst is_set (items offer) (items supported) name f
    by_any false f = absurd (cc (f))
