-- ===== src/Bridge/Alpn/Select.antt =====
-- `aiopquic_alpn_select_cb`: the server's preference decides.
use aiopquic.Base.{
  ℕ, zero, suc, ◌+◌, ◌<◌, ◌≡◌, ◌≢◌, refl, ap, ap₂, sym, subst, ◌∙◌, arith, true, false, Bool-cases,
  inl, inr, Option, none, some, List, [], ◌∷◌, ◌++◌, ◌==◌, length, get_or,
}
use aiopquic.Bridge.Alpn.{same_bytes, offered, pick, select, or_empty, alpn_select_cb}

-- No client name is this one.
abbrev pub Missing : List (List ℕ) → List ℕ → Type 0
Missing list name = (i : ℕ) → i < length list → get_or list i [] ≢ name

abbrev pub AllMissing : List (List ℕ) → List (List ℕ) → Type 0
AllMissing list [] = Unit
AllMissing list (name ∷ names) = Missing list name × AllMissing list names

-- What the server chooses: nothing it knows, or the first place of a name before which, in the
-- server's order, it knows none that the client offers.
pub data Choice (names list : List (List ℕ)) : ℕ → Type 0 where
  no_overlap : AllMissing list names → Choice names list (length list)
  chosen :
      (before : List (List ℕ)) (name : List ℕ) (after : List (List ℕ)) (i : ℕ)
      → names ≡ before ++ name ∷ after
      → AllMissing list before
      → i < length list
      → get_or list i [] ≡ name
      → ((j : ℕ) → j < i → get_or list j [] ≢ name)
      → Choice names list i

true-ne_false : true ≢ false
true-ne_false e = cc (e)

pub same_bytes-eq : (xs ys : List ℕ) → same_bytes xs ys ≡ true → xs ≡ ys
unfolding same_bytes
same_bytes-eq [] [] e = refl
same_bytes-eq [] (y ∷ ys) e = absurd (cc (e))
same_bytes-eq (x ∷ xs) [] e = absurd (cc (e))
same_bytes-eq (x ∷ xs) (y ∷ ys) e =
    let first : x ≡ y = ground (arith, e) in
    let rest : same_bytes xs ys ≡ true = ground (arith, e) in
    ap₂ (λ a l. a ∷ l) first (same_bytes-eq xs ys rest)

pub same_bytes_refl : (xs : List ℕ) → same_bytes xs xs ≡ true
unfolding same_bytes
same_bytes_refl [] = refl
same_bytes_refl (x ∷ xs) =
    let same : (x == x) ≡ true = ground arith in rw (same, same_bytes_refl xs) refl

-- What the inner loop finds.
pub data Found (list : List (List ℕ)) (name : List ℕ) (base : ℕ) : Option ℕ → Type 0 where
  nowhere : Missing list name → Found list name base none
  first :
      (i : ℕ)
      → i < length list
      → get_or list i [] ≡ name
      → ((j : ℕ) → j < i → get_or list j [] ≢ name)
      → Found list name base (some (base + i))

-- One more name before the list, which is another one.
found_later :
    (x name : List ℕ) (list : List (List ℕ)) (base : ℕ) {o : Option ℕ}
    → x ≢ name
    → Found list name (base + 1) o
    → Found (x ∷ list) name base o
found_later x name list base other (Found.nowhere missing) = Found.nowhere none_at
  where
    none_at : Missing (x ∷ list) name
    none_at zero h = other
    none_at (suc i) h = missing i (omega (arith, h))
found_later x name list base other (Found.first i h e before) =
    let place : base + suc i ≡ base + 1 + i = omega arith in
    subst (λ k. Found (x ∷ list) name base (some k)) place
      (Found.first (suc i) (omega (arith, h)) e none_before)
  where
    none_before : (j : ℕ) → j < suc i → get_or (x ∷ list) j [] ≢ name
    none_before zero l = other
    none_before (suc j) l = before j (omega (arith, l))

pub offered-Found :
    (name : List ℕ) (list : List (List ℕ)) (base : ℕ)
    → Found list name base (offered name list base)
unfolding offered
offered-Found name [] base = Found.nowhere (λ i h. absurd (omega (arith, h)))
offered-Found name (x ∷ list) base = elim (Bool-cases (same_bytes x name)) [
  | inl same ↦
      let place : base + 0 ≡ base = omega arith in
      rw same (
        subst (λ k. Found (x ∷ list) name base (some k)) place
          (Found.first 0 (omega arith) (same_bytes-eq x name same)
            (λ j l. absurd (omega (arith, l)))))
  | inr other ↦ rw other (
      found_later x name list base
        (λ e.
          true-ne_false (sym (same_bytes_refl name) ∙ ap (λ y. same_bytes y name) (sym e) ∙ other))
        (offered-Found name list (base + 1)))
]

-- A name more at the front of the server's list, which no client name is.
Choice-later :
    (name : List ℕ) (names list : List (List ℕ)) {i : ℕ}
    → Missing list name
    → Choice names list i
    → Choice (name ∷ names) list i
Choice-later name names list missing (Choice.no_overlap all) = Choice.no_overlap (missing, all)
Choice-later name names list missing (Choice.chosen before x after i e all h at_i earliest) =
    Choice.chosen (name ∷ before) x after i (ap (λ l. name ∷ l) e) (missing, all) h at_i earliest

select-Choice : (names list : List (List ℕ)) → Choice names list (select names list)
unfolding select
select-Choice [] list = Choice.no_overlap tt
select-Choice (name ∷ names) list = by_place (offered-Found name list 0) (select-Choice names list)
  where
    by_place :
        {o : Option ℕ} {r : ℕ}
        → Found list name 0 o
        → Choice names list r
        → Choice (name ∷ names) list (pick o r)
    by_place (Found.nowhere missing) rest = Choice-later name names list missing rest
    by_place (Found.first i h at_i before) rest =
        let place : i ≡ 0 + i = omega arith in
        subst (λ k. Choice (name ∷ names) list k) place
          (Choice.chosen [] name names i refl tt h at_i before)

-- The choice of a server: the client's number of names, which rejects, exactly if it has no name that
-- the client offers, or no context; else the first place in the client's list of the first name, in
-- the server's order, that the client offers.
pub alpn_select_cb_lem :
    (bridge : Option (List (List ℕ))) (list : List (List ℕ))
    → Choice (or_empty bridge) list (alpn_select_cb bridge list)
unfolding alpn_select_cb
alpn_select_cb_lem none list = Choice.no_overlap tt
alpn_select_cb_lem (some names) list = select-Choice names list
