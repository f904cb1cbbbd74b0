-- ===== src/DgramTable/Laws.antt =====
-- What entering and burying a connection do to the entries of the others.
use aiopquic.Base.{
  ℕ, ◌≤◌, ◌<◌, ◌≡◌, ◌≢◌, ap, sym, subst, ◌∙◌, arith, inl, inr, none, some, List, length, length-set,
  set, get_or-set_self, get_or-set_ne, ℕ_discrete,
}
use aiopquic.Base.Pow2.{IsPow2-bounds}
use aiopquic.DgramTable.{
  Slot, no_slot, tombstone, Table, home, key, found, absent, walk, done, get, entered, buried,
}
use aiopquic.DgramTable.Probe.{key-set_self, key-set_ne, walk-set_found, absent-ne}
use aiopquic.DgramTable.Valid.{
  IsValid, Reaches, Has, tally-set, if_used, if_live, occupied, living-le-occupied, get-Has,
  get_ends, get_same,
}

found-inj : {i q : ℕ} → found i ≡ found q → i ≡ q
found-inj e = cc (e)

-- Slots that differ at `j`, where they hold no other live connection.
module _ (slots : List Slot) (j : ℕ) (s : Slot) (inside : j < length slots) where
  pub Has-set_to : (cnx db : ℕ) → key slots j ≢ cnx → Has slots cnx db → Has (set slots j s) cnx db
  Has-set_to cnx db other (q, below, e) = (
    q,
    omega (arith, below, length-set slots j s),
    get_or-set_ne slots j q s no_slot (λ p. other (ap (key slots) p ∙ ap (λ x. x.cnx) e)) ∙ e,
  )

  pub Has-set_from : (cnx db : ℕ) → s.cnx ≢ cnx → Has (set slots j s) cnx db → Has slots cnx db
  Has-set_from cnx db other (q, below, e) = (
    q,
    omega (arith, below, length-set slots j s),
    sym (get_or-set_ne slots j q s no_slot apart) ∙ e,
  )
    where
      apart : j ≢ q
      apart p =
          other
            (sym (key-set_self slots j s inside) ∙ ap (key (set slots j s)) p ∙ ap (λ x. x.cnx) e)

-- Slots with one more connection, in a slot that held none and where a walk for it comes to.
pub Reaches-set :
    (cap mask : ℕ) (slots : List Slot) (i : ℕ) (s : Slot)
    → Reaches slots cap mask
    → i < length slots
    → 1 < s.cnx
    → key slots i ≤ 1
    → ((q : ℕ) → q < cap → 1 < key slots q → key slots q ≢ s.cnx)
    → walk (set slots i s) mask s.cnx cap (home mask s.cnx) ≡ found i
    → Reaches (set slots i s) cap mask
Reaches-set cap mask slots i s r inside live free another finds q h l = elim (ℕ_discrete i q) [
  | yes same ↦
      let k : key (set slots i s) q ≡ s.cnx =
        ap (key (set slots i s)) (sym same) ∙ key-set_self slots i s inside in
      subst (λ x. walk (set slots i s) mask x cap (home mask x) ≡ found q) (sym k)
        (finds ∙ ap found same)
  | no apart ↦
      let k : key (set slots i s) q ≡ key slots q = key-set_ne slots i s inside q apart in
      let l' : 1 < key slots q = omega (arith, k, l) in
      subst (λ x. walk (set slots i s) mask x cap (home mask x) ≡ found q) (sym k)
        (walk-set_found slots mask (key slots q) i s inside (λ e. another q h l' (sym e))
          (λ e. absurd (omega (arith, live, e))) (λ e. absurd (omega (arith, free, e, l'))) cap
          (home mask (key slots q)) q (r q h l'))
]

-- A connection entered in a slot that held none, where a walk for it comes to.
module _ {t : Table} (v : IsValid t) (cnx db i used : ℕ) (live : 1 < cnx)
    (inside : i < length t.slots) (free : key t.slots i ≤ 1) where
  abbrev s : Slot
  s = record { cnx = cnx; db = db }

  abbrev pub t' : Table
  t' = entered t cnx db i used

  pub entered-IsValid :
      (p : ℕ)
      → walk t.slots t.mask cnx t.cap (home t.mask cnx) ≡ absent p
      → walk t'.slots t.mask cnx t.cap (home t.mask cnx) ≡ found i
      → used ≡ occupied t'.slots
      → used < t.cap
      → IsValid t'
  entered-IsValid p missing finds count room = record {
    pow2 = v.pow2;
    masked = v.masked;
    storage = length-set t.slots i s ∙ v.storage;
    reaches = Reaches-set t.cap t.mask t.slots i s v.reaches inside live free another finds;
    used_count = count;
    live_count = omega (
      arith,
      tally-set if_live t.slots i s inside,
      dead,
      alive,
      v.live_count,
      v.used_count,
      living-le-occupied t.slots,
      v.roomy,
      IsPow2-bounds v.pow2,
    );
    roomy = room;
  }
    where
      another : (q : ℕ) → q < t.cap → 1 < key t.slots q → key t.slots q ≢ cnx
      another q h l e = absent-ne p q (
          sym missing
          ∙ subst (λ x. walk t.slots t.mask x t.cap (home t.mask x) ≡ found q) e (v.reaches q h l))

      dead : if_live (key t.slots i) ≡ 0
      dead = ground (arith, free)

      alive : if_live cnx ≡ 1
      alive = ground (arith, live)

  pub entered-get : IsValid t' → get t' cnx ≡ done (some db)
  entered-get v' =
      get-Has v' live (
        i,
        omega (arith, inside, length-set t.slots i s),
        get_or-set_self t.slots i s no_slot inside,
      )

  pub entered-others : IsValid t' → (k : ℕ) → 1 < k → k ≢ cnx → get t' k ≡ get t k
  entered-others v' k l other =
      get_same v v' k l
        (λ d. Has-set_to t.slots i s inside k d (λ e. absurd (omega (arith, free, e, l))))
        (λ d. Has-set_from t.slots i s inside k d (λ e. other (sym e)))

-- A live connection buried.
module _ {t : Table} (v : IsValid t) (i : ℕ) (inside : i < length t.slots)
    (live : 1 < key t.slots i) where
  abbrev grave : Slot
  grave = record { cnx = tombstone; db = 0 }

  abbrev pub b : Table
  b = buried t i

  -- No other slot has the connection.
  pub same_place : (q : ℕ) → q < t.cap → 1 < key t.slots q → key t.slots i ≡ key t.slots q → i ≡ q
  same_place q h l e = found-inj (
      sym (v.reaches i (omega (arith, inside, v.storage)) live)
      ∙ subst (λ x. walk t.slots t.mask x t.cap (home t.mask x) ≡ found q) (sym e)
          (v.reaches q h l))

  apart : (q : ℕ) → 1 < key b.slots q → i ≢ q
  apart q l same =
      absurd (omega (arith, l, ap (key b.slots) (sym same) ∙ key-set_self t.slots i grave inside))

  pub buried-IsValid : IsValid b
  buried-IsValid = record {
    pow2 = v.pow2;
    masked = v.masked;
    storage = length-set t.slots i grave ∙ v.storage;
    reaches = λ q h l. reach q h l;
    used_count = omega (arith, tally-set if_used t.slots i grave inside, before_used, v.used_count);
    live_count = omega (
      arith,
      tally-set if_live t.slots i grave inside,
      before_live,
      v.live_count,
      v.used_count,
      living-le-occupied t.slots,
      v.roomy,
      IsPow2-bounds v.pow2,
    );
    roomy = v.roomy;
  }
    where
      before_used : if_used (key t.slots i) ≡ 1
      before_used = ground (arith, live)

      before_live : if_live (key t.slots i) ≡ 1
      before_live = ground (arith, live)

      reach :
          (q : ℕ)
          → q < t.cap
          → 1 < key b.slots q
          → walk b.slots t.mask (key b.slots q) t.cap (home t.mask (key b.slots q)) ≡ found q
      reach q h l =
          let k : key b.slots q ≡ key t.slots q = key-set_ne t.slots i grave inside q (apart q l) in
          let l' : 1 < key t.slots q = omega (arith, k, l) in
          subst (λ x. walk b.slots t.mask x t.cap (home t.mask x) ≡ found q) (sym k)
            (walk-set_found t.slots t.mask (key t.slots q) i grave inside
              (λ e. absurd (omega (arith, l', e))) (λ e. absurd (omega (arith, e)))
              (λ e. apart q l (same_place q h l' e)) t.cap (home t.mask (key t.slots q)) q
              (v.reaches q h l'))

  gone : (db : ℕ) → ¬ Has b.slots (key t.slots i) db
  gone db (q, below, e) =
      let here : key b.slots q ≡ key t.slots i = ap (λ x. x.cnx) e in
      let l : 1 < key b.slots q = omega (arith, here, live) in
      let kept : key b.slots q ≡ key t.slots q = key-set_ne t.slots i grave inside q (apart q l) in
      apart q l (
        same_place q (omega (arith, below, length-set t.slots i grave, v.storage))
          (omega (arith, l, kept)) (sym here ∙ kept))

  pub buried-get : get b (key t.slots i) ≡ done none
  buried-get = elim (get_ends buried-IsValid (key t.slots i)) [
    | inl none_left ↦ none_left
    | inr (db, e, held) ↦ absurd (gone db held)
  ]

  pub buried-others : (k : ℕ) → 1 < k → k ≢ key t.slots i → get b k ≡ get t k
  buried-others k l other =
      get_same v buried-IsValid k l
        (λ d. Has-set_to t.slots i grave inside k d (λ e. other (sym e)))
        (λ d. Has-set_from t.slots i grave inside k d (λ e. absurd (omega (arith, e, l))))
