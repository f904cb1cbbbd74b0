-- ===== src/DgramTable/Remove.antt =====
-- `aiopquic_dgram_table_remove_ring`: it ends, and removes the connection when it holds that ring.
use aiopquic.Base.{
  ℕ, ◌+◌, ◌<◌, ◌≡◌, ◌≢◌, refl, ap, sym, ◌∙◌, arith, true, false, not, ◌&&◌, ◌||◌, ◌==◌, ◌⊎◌, inl,
  inr, none, some, length, get_or, sub32,
}
use aiopquic.Base.Pow2.{IsPow2-bounds}
use aiopquic.DgramBuf.{DgramBuf, unref}
use aiopquic.DgramTable.{
  no_slot, Table, Rings, put_at, unref_at, home, key, Walk, found, walk, done, with_ring, buried,
  bury, remove_ring, get, ring_at,
}
use aiopquic.DgramTable.Probe.{Ends}
use aiopquic.DgramTable.Valid.{IsValid, living-le-occupied, if_live, tally-set, get-eq, ends}
use aiopquic.DgramTable.Rehash.{live_one}
use aiopquic.DgramTable.Laws.{buried-IsValid, buried-get, buried-others}

-- The test of the ring asked for.
asked_for :
    (only d x : ℕ) → x ≡ d → (only ≡ 0) ⊎ (only ≡ d) → (not (only == 0) && not (x == only)) ≡ false
asked_for only d x e (inl any) = ground (arith, any)
asked_for only d x e (inr same) = let here : x ≡ only = e ∙ sym same in ground (arith, here)

other_ring :
    (only d x : ℕ) → x ≡ d → only ≢ 0 → d ≢ only → (not (only == 0) && not (x == only)) ≡ true
other_ring only d x e asked other =
    let apart : x ≢ only = λ y. other (sym e ∙ y) in ground (arith, asked, apart)

-- A live entry is where the walk for it ends.
module _ {t : Table} (v : IsValid t) (cnx : ℕ) (live : 1 < cnx) where
  remove_ring-eq :
      (w : Rings) (only : ℕ)
      → remove_ring t w cnx only ≡ bury t w only (walk t.slots t.mask cnx t.cap (home t.mask cnx))
  unfolding remove_ring
  remove_ring-eq w only =
      let go : ((t.cap == 0) || (cnx == 0)) ≡ false =
        ground (arith, (IsPow2-bounds v.pow2).0, live) in
      rw go refl

  place :
      (d : ℕ)
      → get t cnx ≡ done (some d)
      → (q : ℕ) × (walk t.slots t.mask cnx t.cap (home t.mask cnx) ≡ found q)
        × (q < t.cap)
        × (key t.slots q ≡ cnx)
        × ((get_or t.slots q no_slot).db ≡ d)
  place d e = by_end (ends v cnx) refl (sym (get-eq v cnx) ∙ e)
    where
      same_ring : {a b : ℕ} → done (some a) ≡ done (some b) → a ≡ b
      same_ring e = cc (e)

      no_ring : done none ≢ done (some d)
      no_ring e = cc (e)

      by_end :
          {x : Walk}
          → Ends t.slots t.cap cnx x
          → walk t.slots t.mask cnx t.cap (home t.mask cnx) ≡ x
          → ring_at t.slots x ≡ done (some d)
          → (q : ℕ) × (walk t.slots t.mask cnx t.cap (home t.mask cnx) ≡ found q)
            × (q < t.cap)
            × (key t.slots q ≡ cnx)
            × ((get_or t.slots q no_slot).db ≡ d)
      by_end (Ends.hit q h k) walks g = (q, walks, h, k, same_ring g)
      by_end (Ends.miss q h k) walks g = absurd (no_ring g)

-- For a connection that a valid table holds with a ring that is there, and no ring asked for or that
-- one: remove_ring returns; the connection has no ring any more, one reference on the ring is
-- dropped, the table is valid with one entry less, and every other connection keeps what it had.
pub remove_ring_lem :
    (t : Table) (w : Rings) (cnx only d : ℕ) (ring : DgramBuf)
    → IsValid t
    → 1 < cnx
    → get t cnx ≡ done (some d)
    → w.at d ≡ some ring
    → (only ≡ 0) ⊎ (only ≡ d)
    → (t' : Table) × (w' : Rings) × (remove_ring t w cnx only ≡ done (t', w'))
      × (unref_at w d ≡ some w')
      × IsValid t'
      × (t'.live + 1 ≡ t.live)
      × (get t' cnx ≡ done none)
      × ((k : ℕ) → 1 < k → k ≢ cnx → get t' k ≡ get t k)
remove_ring_lem t w cnx only d ring v live held there asked =
    let (q, walks, h, k, e) = place v cnx live d held in
    let inside : q < length t.slots = omega (arith, h, v.storage) in
    let l : 1 < key t.slots q = omega (arith, live, k) in
    let (w', dropped) = drops in
    (
      buried t q,
      w',
      remove_ring-eq v cnx live w only
          ∙ ap (bury t w only) walks
          ∙ buries q e
          ∙ ap (with_ring (buried t q)) dropped,
      dropped,
      buried-IsValid v q inside l,
      fewer q inside l,
      sym (ap (λ x. get (buried t q) x) k) ∙ buried-get v q inside l,
      λ x lx other. buried-others v q inside l x lx (λ y. other (y ∙ k)),
    )
  where
    drops : (w' : Rings) × (unref_at w d ≡ some w')
    drops =
        let (left, alive) = unref ring w.alive in
        (put_at w d left alive, unfold unref_at in rw (there, unref_at) refl)

    buries :
        (q : ℕ)
        → (get_or t.slots q no_slot).db ≡ d
        → bury t w only (found q) ≡ with_ring (buried t q) (unref_at w d)
    buries q e =
        let go : (not (only == 0) && not ((get_or t.slots q no_slot).db == only)) ≡ false =
          asked_for only d _ e asked in
        rw (go, e) refl

    fewer : (q : ℕ) → q < length t.slots → 1 < key t.slots q → sub32 t.live 1 + 1 ≡ t.live
    fewer q inside l = omega (
      arith,
      tally-set if_live t.slots q no_slot inside,
      live_one l,
      v.live_count,
      living-le-occupied t.slots,
      v.used_count,
      v.roomy,
      IsPow2-bounds v.pow2,
    )

-- For a connection that a valid table does not hold, or holds with another ring than the one asked
-- for, remove_ring changes nothing.
pub remove_ring_kept :
    (t : Table) (w : Rings) (cnx only : ℕ)
    → IsValid t
    → 1 < cnx
    → (get t cnx ≡ done none) ⊎ ((d : ℕ) × (get t cnx ≡ done (some d)) × (only ≢ 0) × (d ≢ only))
    → remove_ring t w cnx only ≡ done (t, w)
remove_ring_kept t w cnx only v live (inr (d, held, asked, other)) =
    let (q, walks, h, k, e) = place v cnx live d held in
    remove_ring-eq v cnx live w only
    ∙ ap (bury t w only) walks
    ∙ spared q (other_ring only d _ e asked other)
  where
    spared :
        (q : ℕ)
        → (not (only == 0) && not ((get_or t.slots q no_slot).db == only)) ≡ true
        → bury t w only (found q) ≡ done (t, w)
    spared q go = rw go refl
remove_ring_kept t w cnx only v live (inl none_held) =
    remove_ring-eq v cnx live w only ∙ by_end (ends v cnx) (sym (get-eq v cnx) ∙ none_held)
  where
    some_ring : {d : ℕ} → done (some d) ≢ done none
    some_ring e = cc (e)

    by_end :
        {x : Walk}
        → Ends t.slots t.cap cnx x
        → ring_at t.slots x ≡ done none
        → bury t w only x ≡ done (t, w)
    by_end (Ends.hit q h k) g = absurd (some_ring g)
    by_end (Ends.miss q h k) g = refl
