-- ===== src/DgramTable/Placing.antt =====
-- The walk of put: where it puts a new connection, and that a later walk finds it there.
use aiopquic.Base.{
  ℕ, zero, suc, ◌<◌, ◌≡◌, ◌≢◌, refl, ap, sym, subst, ◌∙◌, arith, true, Option, none, some, List,
  length, set, ◌==◌, ℕ_discrete,
}
use aiopquic.DgramTable.{
  Slot, tombstone, next, key, Walk, found, absent, lost, walk, Place, registered, reuse, fresh,
  nowhere, place_at, note, scan,
}
use aiopquic.DgramTable.Probe.{
  ne-==, mine, empty, taken, sees, walk_mine, walk_empty, walk_taken, key-set_self, key-set_ne,
  absent-ne,
}

-- The steps of the walk of put.
module _ (slots : List Slot) (mask cnx n i : ℕ) (tomb : Option ℕ) where
  scan_mine : key slots i ≡ cnx → scan slots mask cnx (suc n) i tomb ≡ registered
  unfolding scan
  scan_mine e = let test : (key slots i == cnx) ≡ true = ground (arith, e) in rw test

  scan_empty :
      key slots i ≢ cnx → key slots i ≡ 0 → scan slots mask cnx (suc n) i tomb ≡ place_at tomb i
  unfolding scan
  scan_empty other e =
      let test : (key slots i == 0) ≡ true = ground (arith, e) in rw (ne-== _ _ other, test)

  scan_taken :
      key slots i ≢ cnx
      → key slots i ≢ 0
      → scan slots mask cnx (suc n) i tomb
        ≡ scan slots mask cnx n (next mask i) (note tomb (key slots i) i)
  unfolding scan
  scan_taken other full = rw (ne-== _ _ other, ne-== _ _ full)

-- The place that a walk's end gives once a tombstone was passed.
abbrev place_of : ℕ → Walk → Place
place_of tomb (found q) = registered
place_of tomb (absent q) = reuse tomb
place_of tomb lost = nowhere

scan-some :
    (slots : List Slot) (mask cnx n i tomb : ℕ)
    → scan slots mask cnx n i (some tomb) ≡ place_of tomb (walk slots mask cnx n i)
scan-some slots mask cnx zero i tomb = unfold scan walk in refl
scan-some slots mask cnx (suc n) i tomb = elim (sees cnx (key slots i)) [
  | mine x ↦
      scan_mine slots mask cnx n i (some tomb) x
      ∙ ap (place_of tomb) (sym (walk_mine slots mask cnx n i x))
  | empty other x ↦
      scan_empty slots mask cnx n i (some tomb) other x
      ∙ ap (place_of tomb) (sym (walk_empty slots mask cnx n i other x))
  | taken other full ↦
      scan_taken slots mask cnx n i (some tomb) other full
      ∙ scan-some slots mask cnx n (next mask i) tomb
      ∙ ap (place_of tomb) (sym (walk_taken slots mask cnx n i other full))
]

-- What put's walk has to do with get's: where a new connection goes, a walk for it finds it.
pub data Placed (slots : List Slot) (mask cnx n i : ℕ) : Place → Walk → Type 0 where
  old : (q : ℕ) → Placed slots mask cnx n i registered (found q)
  new : (q : ℕ) → Placed slots mask cnx n i (fresh q) (absent q)
  over :
      (t q : ℕ)
      → key slots t ≡ tombstone
      → ((s : Slot) → s.cnx ≡ cnx → t < length slots → walk (set slots t s) mask cnx n i ≡ found t)
      → Placed slots mask cnx n i (reuse t) (absent q)
  stuck : Placed slots mask cnx n i nowhere lost

pub lost-ne_absent : (q : ℕ) → lost ≢ absent q
lost-ne_absent q e = cc (e)

pub absent-inj : {i q : ℕ} → absent i ≡ absent q → i ≡ q
absent-inj e = cc (e)

-- Writing the connection into the empty slot where a walk for it stops makes the walk find it.
pub walk-set_fresh :
    (slots : List Slot) (mask cnx q : ℕ) (s : Slot) (n i : ℕ)
    → q < length slots
    → s.cnx ≡ cnx
    → key slots q ≡ 0
    → walk slots mask cnx n i ≡ absent q
    → walk (set slots q s) mask cnx n i ≡ found q
walk-set_fresh slots mask cnx q s zero i inside same hole e =
    absurd (lost-ne_absent q (unfold walk in e))
walk-set_fresh slots mask cnx q s (suc n) i inside same hole e = elim (sees cnx (key slots i)) [
  | mine x ↦ absurd (absent-ne q i (sym e ∙ walk_mine slots mask cnx n i x))
  | empty other x ↦
      let at_q : i ≡ q = absent-inj (sym (walk_empty slots mask cnx n i other x) ∙ e) in
      walk_mine (set slots q s) mask cnx n i
        (ap (key (set slots q s)) at_q ∙ key-set_self slots q s inside ∙ same)
      ∙ ap found at_q
  | taken other full ↦
      let same_key = key-set_ne slots q s inside i (λ p. full (ap (key slots) (sym p) ∙ hole)) in
      walk_taken (set slots q s) mask cnx n i (subst (λ c. c ≢ cnx) (sym same_key) other)
        (subst (λ c. c ≢ 0) (sym same_key) full)
      ∙ walk-set_fresh slots mask cnx q s n (next mask i) inside same hole
          (sym (walk_taken slots mask cnx n i other full) ∙ e)
]

-- One step more before a walk.
Placed-later :
    (slots : List Slot) (mask cnx n i : ℕ) {p : Place} {w : Walk}
    → key slots i ≢ cnx
    → key slots i ≢ 0
    → key slots i ≢ tombstone
    → Placed slots mask cnx n (next mask i) p w
    → Placed slots mask cnx (suc n) i p w
Placed-later slots mask cnx n i other full no_tomb (Placed.old q) = Placed.old q
Placed-later slots mask cnx n i other full no_tomb (Placed.new q) = Placed.new q
Placed-later slots mask cnx n i other full no_tomb Placed.stuck = Placed.stuck
Placed-later slots mask cnx n i other full no_tomb (Placed.over t q tomb finds) =
    Placed.over t q tomb (λ s same inside.
      let same_key = key-set_ne slots t s inside i (λ p. no_tomb (ap (key slots) (sym p) ∙ tomb)) in
      walk_taken (set slots t s) mask cnx n i (subst (λ c. c ≢ cnx) (sym same_key) other)
        (subst (λ c. c ≢ 0) (sym same_key) full)
      ∙ finds s same inside)

Placed-over :
    (slots : List Slot) (mask cnx n i : ℕ) (w : Walk)
    → key slots i ≡ tombstone
    → Placed slots mask cnx (suc n) i (place_of i w) w
Placed-over slots mask cnx n i (found q) tomb = Placed.old q
Placed-over slots mask cnx n i lost tomb = Placed.stuck
Placed-over slots mask cnx n i (absent q) tomb =
    Placed.over i q tomb (λ s same inside.
      walk_mine (set slots i s) mask cnx n i (key-set_self slots i s inside ∙ same))

pub scan-Placed :
    (slots : List Slot) (mask cnx n i : ℕ)
    → Placed slots mask cnx n i (scan slots mask cnx n i none) (walk slots mask cnx n i)
scan-Placed slots mask cnx zero i = unfold scan walk in Placed.stuck
scan-Placed slots mask cnx (suc n) i =
    let rest = scan-Placed slots mask cnx n (next mask i) in
    elim (sees cnx (key slots i)) [
      | mine x ↦
          rw (scan_mine slots mask cnx n i none x, walk_mine slots mask cnx n i x) (Placed.old i)
      | empty other x ↦
          rw (scan_empty slots mask cnx n i none other x, walk_empty slots mask cnx n i other x)
            (Placed.new i)
      | taken other full ↦ elim (ℕ_discrete (key slots i) tombstone) [
        | yes tomb ↦
            let noted : note none (key slots i) i ≡ some i = rw (is_tomb tomb) in
            rw
              (
                scan_taken slots mask cnx n i none other full,
                noted,
                scan-some slots mask cnx n (next mask i) i,
                walk_taken slots mask cnx n i other full,
              )
              (Placed-over slots mask cnx n i (walk slots mask cnx n (next mask i)) tomb)
        | no no_tomb ↦
            let noted : note none (key slots i) i ≡ none = rw (ne-== _ _ no_tomb) in
            rw
              (
                scan_taken slots mask cnx n i none other full,
                noted,
                walk_taken slots mask cnx n i other full,
              )
              (Placed-later slots mask cnx n i other full no_tomb rest)
      ]
    ]
  where
    is_tomb : key slots i ≡ tombstone → (key slots i == tombstone) ≡ true
    is_tomb e = ground (arith, e)
