-- ===== src/Bridge/Releases/Owed.antt =====
-- What becomes of a datagram ring's release: it is posted or owed, and what is owed is waited for.
use aiopquic.Base.{
  ℕ, zero, suc, ◌≤◌, ◌<◌, ◌≡◌, refl, sym, ap, ◌∙◌, arith, Bool, true, false, Bool-cases, ◌⊎◌, inl,
  inr, Option, none, some, List, [], ◌∷◌, ◌++◌, append_assoc, leb, ltb, ◌==◌, length, take, drop,
  length-drop, take-append-drop, leb→le, ltb→lt,
}
use aiopquic.Bridge.Drain.{arm_drain_pending, above}
use aiopquic.Bridge.Releases.{
  Release, Owing, releases, worker_pops, release_post, post_owed, arm_on, flush_rounds,
  release_flush,
}

releases-append : (xs ys : List (Option Release)) → releases (xs ++ ys) ≡ releases xs ++ releases ys
releases-append [] ys = refl
releases-append (none ∷ xs) ys = releases-append xs ys
releases-append (some r ∷ xs) ys = ap (λ l. r ∷ l) (releases-append xs ys)

-- The releases posted so far, in order.
abbrev pub posted : Owing → List Release
posted x = releases (x.taken ++ x.entries)

-- What the two threads leave alone.
pub record Alike (x y : Owing) : Type 0 where
  pub capacity : y.capacity ≡ x.capacity
  pub low_water : y.signal.low_water ≡ x.signal.low_water
  pub owed_cap : y.owed_cap ≡ x.owed_cap

pub pops-posted : (k : ℕ) (x : Owing) → posted (worker_pops k x) ≡ posted x
unfolding worker_pops
pops-posted k x = ap releases (
    append_assoc x.taken (take k x.entries) (drop k x.entries)
    ∙ ap (λ l. x.taken ++ l) (take-append-drop k x.entries))

pub post-posted :
    (x : Owing) (r : Release)
    → leb x.capacity (length x.entries) ≡ false
    → posted (release_post x r).1 ≡ posted x ++ (r ∷ [])
unfolding release_post
post-posted x r room = rw room (
    ap releases (sym (append_assoc x.taken x.entries (some r ∷ [])))
    ∙ releases-append (x.taken ++ x.entries) (some r ∷ []))

-- What the inner loop does.
record Posts (rs : List Release) (x : Owing) (out : List Release × ℕ × Owing) : Type 0 where
  order : posted out.2 ++ out.0 ≡ posted x ++ rs
  fewer : length out.0 ≤ length rs
  room : length x.entries < x.capacity → 0 < length rs → length out.0 < length rs
  alike : Alike x out.2

post_owed-Posts :
    (pops : ℕ → ℕ) (j : ℕ) (rs : List Release) (x : Owing) → Posts rs x (post_owed pops j rs x)
unfolding post_owed worker_pops release_post
post_owed-Posts pops j [] x = record {
  order = refl;
  fewer = omega arith;
  room = λ some_room some_owed. absurd (omega (arith, some_owed));
  alike = record { capacity = refl; low_water = refl; owed_cap = refl };
}
post_owed-Posts pops j (r ∷ rs) x = elim (Bool-cases (leb z.capacity (length z.entries))) [
  | inl full ↦
      rw (full, release_post)
        (record {
          order = ap (λ l. l ++ (r ∷ rs)) (pops-posted (pops j) x);
          fewer = omega arith;
          room = λ some_room some_owed. absurd (omega (arith, some_room, popped, leb→le _ _ full));
          alike = record { capacity = refl; low_water = refl; owed_cap = refl };
        })
  | inr some_room ↦
      let v = post_owed-Posts pops (suc j) rs (release_post z r).1 in
      let capacity : (release_post z r).1.capacity ≡ x.capacity =
        rw (some_room, release_post) refl in
      let low_water : (release_post z r).1.signal.low_water ≡ x.signal.low_water =
        rw (some_room, release_post) refl in
      let owed_cap : (release_post z r).1.owed_cap ≡ x.owed_cap =
        rw (some_room, release_post) refl in
      let ok : (release_post z r).0 ≡ true = rw (some_room, release_post) refl in
      rw ok (record {
        order =
            v.order
            ∙ ap (λ l. l ++ rs)
                (post-posted z r some_room ∙ ap (λ l. l ++ (r ∷ [])) (pops-posted (pops j) x))
            ∙ append_assoc (posted x) (r ∷ []) rs;
        fewer = omega (arith, v.fewer);
        room = λ was_room some_owed. omega (arith, v.fewer);
        alike = record {
          capacity = v.alike.capacity ∙ capacity;
          low_water = v.alike.low_water ∙ low_water;
          owed_cap = v.alike.owed_cap ∙ owed_cap;
        };
      })
]
  where
    z : Owing
    z = worker_pops (pops j) x

    popped : length z.entries ≤ length x.entries
    popped = omega (arith, length-drop (pops j) x.entries)

-- What a flush leaves: the releases posted and those owed are the same in the same order, and if any is
-- still owed, the signal is armed and the ring above low water; no more are owed than before.
pub record Flushed (x y : Owing) : Type 0 where
  pub order : posted y ++ y.owed ≡ posted x ++ x.owed
  pub waits :
      (y.owed ≡ []) ⊎ ((y.signal.drain_pending ≡ true) × (y.signal.low_water < length y.entries))
  pub fewer : length y.owed ≤ length x.owed
  pub alike : Alike x y

-- Rounds that are enough: more than there are releases owed, or as many once there is room.
abbrev Enough : ℕ → Owing → Type 0
Enough n x =
    (length x.owed < n)
    ⊎ ((length x.owed ≤ n) × (0 < length x.owed) × (length x.entries < x.capacity))

none_left {ℓ} : {A : Type ℓ} (xs : List A) → (length xs == 0) ≡ true → xs ≡ []
none_left [] e = refl
none_left (x ∷ xs) e = absurd (ground (arith, e))

ltb→ge : (a b : ℕ) → ltb a b ≡ false → b ≤ a
ltb→ge a b h = ground arith

-- What a round leaves for the next, where it does not wait.
abbrev round : (ℕ → ℕ) → ℕ → Owing → List Release × ℕ × Owing
round pops j x = post_owed pops j x.owed x

abbrev armed_after : (ℕ → ℕ) → ℕ → List Release × ℕ × Owing → Bool × Owing
armed_after pops now (rest, j, y) = arm_on now (worker_pops (pops j) (record y { owed = rest }))

-- The arm after a round.
record Arms (x : Owing) (rest : List Release) (out : Bool × Owing) : Type 0 where
  order : posted out.1 ++ out.1.owed ≡ posted x ++ x.owed
  owed : out.1.owed ≡ rest
  waits :
      out.0 ≡ true
      → (out.1.signal.drain_pending ≡ true) × (out.1.signal.low_water < length out.1.entries)
  goes_on : out.0 ≡ false → length out.1.entries ≤ out.1.signal.low_water
  alike : Alike x out.1

armed_after-Arms :
    (pops : ℕ → ℕ) (now j : ℕ) (x : Owing)
    → Arms x (round pops j x).0 (armed_after pops now (round pops j x))
unfolding arm_on arm_drain_pending above worker_pops
armed_after-Arms pops now j x =
    let v = post_owed-Posts pops j x.owed x in
    let (rest, j', y) = round pops j x in
    let z = worker_pops (pops j') (record y { owed = rest }) in
    record {
      order = ap (λ l. l ++ rest) (pops-posted (pops j') (record y { owed = rest })) ∙ v.order;
      owed = refl;
      waits = λ up. (refl, ltb→lt z.signal.low_water (length z.entries) up);
      goes_on = λ down. ltb→ge z.signal.low_water (length z.entries) down;
      alike = record {
        capacity = v.alike.capacity;
        low_water = v.alike.low_water;
        owed_cap = v.alike.owed_cap;
      };
    }

Alike-trans : (x y z : Owing) → Alike x y → Alike y z → Alike x z
Alike-trans x y z a b = record {
  capacity = b.capacity ∙ a.capacity;
  low_water = b.low_water ∙ a.low_water;
  owed_cap = b.owed_cap ∙ a.owed_cap;
}

flush_rounds-Flushed :
    (pops : ℕ → ℕ) (now n j : ℕ) (x : Owing)
    → x.signal.low_water < x.capacity
    → Enough n x
    → (y : Owing) × (flush_rounds pops now n j x ≡ some y) × Flushed x y
unfolding flush_rounds
flush_rounds-Flushed pops now zero j x low (inl more) = absurd (omega (arith, more))
flush_rounds-Flushed pops now zero j x low (inr (some_more, owes, room)) =
    absurd (omega (arith, some_more, owes))
flush_rounds-Flushed pops now (suc n) j x low enough =
    let (rest, j', y) = round pops j x in
    let y' : Owing = record y { owed = rest } in
    let z = (armed_after pops now (round pops j x)).1 in
    let v = post_owed-Posts pops j x.owed x in
    let a = armed_after-Arms pops now j x in
    elim (Bool-cases (length rest == 0)) [
      | inl none_owed ↦ (
        y',
        rw none_owed refl,
        record {
          order = v.order;
          waits = inl (none_left rest none_owed);
          fewer = v.fewer;
          alike = record {
            capacity = v.alike.capacity;
            low_water = v.alike.low_water;
            owed_cap = v.alike.owed_cap;
          };
        },
      )
      | inr some_owed ↦ elim (Bool-cases (armed_after pops now (round pops j x)).0) [
        | inl wait ↦ (
          z,
          rw (some_owed, wait) refl,
          record {
            order = a.order;
            waits = inr (a.waits wait);
            fewer = omega (arith, ap length a.owed, v.fewer);
            alike = a.alike;
          },
        )
        | inr no_wait ↦
            let left : length z.owed ≡ length rest = ap length a.owed in
            let owes : 0 < length rest = ground (arith, some_owed) in
            let fewer : length rest ≤ n = by_enough enough v in
            let (end, done, f) =
              flush_rounds-Flushed pops now n (suc j') z
                (omega (arith, low, a.alike.capacity, a.alike.low_water))
                (inr (
                  omega (arith, left, fewer),
                  omega (arith, left, owes),
                  omega (arith, low, a.goes_on no_wait, a.alike.capacity, a.alike.low_water),
                )) in
            (
              end,
              rw (some_owed, no_wait) done,
              record {
                order = f.order ∙ a.order;
                waits = f.waits;
                fewer = omega (arith, f.fewer, left, v.fewer);
                alike = Alike-trans x z end a.alike f.alike;
              },
            )
      ]
    ]
  where
    by_enough : Enough (suc n) x → Posts x.owed x (round pops j x) → length (round pops j x).0 ≤ n
    by_enough (inl more) v = omega (arith, more, v.fewer)
    by_enough (inr (some_more, owes, room)) v = omega (arith, some_more, v.room room owes)

-- A flush with a worker that runs, whatever entries it takes meanwhile, where low water is below the
-- ring's capacity: one round more than there are releases owed is enough; no release is lost, doubled
-- or overtaken; and where any is still owed, the signal is armed and the ring above low water, so that
-- the worker starts the next flush.
pub release_flush-Flushed :
    (pops : ℕ → ℕ) (now j : ℕ) (x : Owing)
    → x.signal.low_water < x.capacity
    → (y : Owing) × (release_flush pops now j x ≡ some y) × Flushed x y
unfolding release_flush
release_flush-Flushed pops now j x low =
    flush_rounds-Flushed pops now (suc (length x.owed)) j x low (inl (omega arith))
