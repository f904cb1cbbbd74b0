-- ===== src/Bridge/Reasons/Lent.antt =====
-- `aiopquic_close_reason_hold` and `_drop`: a text that was lent stays where it is, and as it is, until
-- the connection that it was lent for is dropped.
use aiopquic.Base.{
  ℕ, ◌≡◌, ◌≢◌, ◌<◌, refl, ap, sym, subst, ◌∙◌, arith, true, false, Bool-cases, inl, inr, Option,
  none, some, List, [], ◌∷◌, ◌++◌, take, ◌==◌, ℕ_discrete,
}
use aiopquic.Bridge.Reasons.{Reason, reason_of, new_reason, lend, hold, drop_reason, text_at}
use aiopquic.Bridge.Reasons.Apart.{
  Op, lending, closing, step, run, IsFresh, AllFresh, StaysOpen, Apart, none-ne_some, run-Apart,
}

-- The first reason of the connection is at `p`, no block before it is.
data Lent (cnx p : ℕ) (text : List ℕ) : List Reason → Type 0 where
  first :
      (r : Reason) (reasons : List Reason)
      → r.cnx ≡ cnx
      → r.addr ≡ p
      → r.text ≡ text
      → Lent cnx p text (r ∷ reasons)
  later :
      (r : Reason) (reasons : List Reason)
      → r.cnx ≢ cnx
      → r.addr ≢ p
      → Lent cnx p text reasons
      → Lent cnx p text (r ∷ reasons)

some-inj : {a b : ℕ} → some a ≡ some b → a ≡ b
some-inj e = cc (e)

same-== : (a b : ℕ) → a ≡ b → (a == b) ≡ true
same-== a b e = ground (arith, e)

ne-== : (a b : ℕ) → a ≢ b → (a == b) ≡ false
ne-== a b e = ground (arith, e)

Lent-text_at :
    {cnx p : ℕ} {text : List ℕ} {reasons : List Reason}
    → Lent cnx p text reasons
    → text_at reasons p ≡ some text
unfolding text_at
Lent-text_at {p = p} (Lent.first r reasons c a t) = rw (same-== r.addr p a) (ap (λ x. some x) t)
Lent-text_at {p = p} (Lent.later r reasons c a l) = rw (ne-== r.addr p a) (Lent-text_at l)

Lent-reason_of :
    {cnx p : ℕ} {text : List ℕ} {reasons : List Reason}
    → Lent cnx p text reasons
    → reason_of reasons cnx ≡ some p
unfolding reason_of
Lent-reason_of {cnx} (Lent.first r reasons c a t) = rw (same-== r.cnx cnx c) (ap (λ x. some x) a)
Lent-reason_of {cnx} (Lent.later r reasons c a l) = rw (ne-== r.cnx cnx c) (Lent-reason_of l)

hold-some :
    (block : Option ℕ) (reasons : List Reason) (cnx : ℕ) (bytes : List ℕ) (len : ℕ)
    → 0 < len
    → hold block reasons cnx (some bytes) len
      ≡ lend (reason_of reasons cnx) block reasons cnx bytes len
unfolding hold
hold-some block reasons cnx bytes len h =
    let given : (len == 0) ≡ false = ground (arith, h) in rw given refl

reason_of-Lent :
    (reasons : List Reason) (cnx p : ℕ)
    → Apart reasons
    → reason_of reasons cnx ≡ some p
    → (text : List ℕ) × Lent cnx p text reasons
unfolding reason_of
reason_of-Lent [] cnx p apart e = absurd (none-ne_some p e)
reason_of-Lent (r ∷ reasons) cnx p apart e = elim (ℕ_discrete r.cnx cnx) [
  | yes same ↦
      (r.text, Lent.first r reasons same (some-inj (rw (same-== r.cnx cnx same) at e)) refl)
  | no other ↦
      let (text, l) = reason_of-Lent reasons cnx p apart.1 (rw (ne-== r.cnx cnx other) at e) in
      (
        text,
        Lent.later r reasons other
            (λ at_p. none-ne_some text (sym apart.0 ∙ ap (text_at reasons) at_p ∙ Lent-text_at l))
            l,
      )
]

drop-Lent :
    {cnx p : ℕ} {text : List ℕ} {reasons : List Reason} (other : ℕ)
    → other ≢ cnx
    → Lent cnx p text reasons
    → Lent cnx p text (drop_reason reasons other)
unfolding drop_reason
drop-Lent other ne (Lent.first r reasons c a t) =
    rw (ne-== r.cnx other (λ e. ne (sym e ∙ c))) (Lent.first r (drop_reason reasons other) c a t)
drop-Lent other ne (Lent.later r reasons c a l) = elim (Bool-cases (r.cnx == other)) [
  | inl gone ↦ rw gone l
  | inr stays ↦ rw stays (Lent.later r (drop_reason reasons other) c a (drop-Lent other ne l))
]

lend-Lent :
    {cnx p : ℕ} {text : List ℕ} {reasons : List Reason} (block o : Option ℕ) (other : ℕ)
    (bytes : List ℕ) (len : ℕ)
    → reason_of reasons other ≡ o
    → IsFresh reasons block
    → Lent cnx p text reasons
    → Lent cnx p text (lend o block reasons other bytes len).1
lend-Lent block (some held) other bytes len e fresh l = l
lend-Lent none none other bytes len e fresh l = l
lend-Lent {cnx} {p} {text} {reasons} (some addr) none other bytes len e fresh l =
    Lent.later (new_reason addr other bytes len) reasons
      (λ same. none-ne_some p (sym e ∙ ap (reason_of reasons) same ∙ Lent-reason_of l))
      (λ same. none-ne_some text (sym fresh ∙ ap (text_at reasons) same ∙ Lent-text_at l)) l

hold-Lent :
    {cnx p : ℕ} {text : List ℕ} {reasons : List Reason} (block : Option ℕ) (other : ℕ)
    (bytes : Option (List ℕ)) (len : ℕ)
    → IsFresh reasons block
    → Lent cnx p text reasons
    → Lent cnx p text (hold block reasons other bytes len).1
unfolding hold
hold-Lent block other none len fresh l = l
hold-Lent {reasons = reasons} block other (some bytes) len fresh l = elim (Bool-cases (len == 0)) [
  | inl empty ↦ rw empty l
  | inr given ↦ rw given (lend-Lent block (reason_of reasons other) other bytes len refl fresh l)
]

run-Lent :
    {cnx p : ℕ} {text : List ℕ} (reasons : List Reason) (ops : List Op)
    → AllFresh reasons ops
    → StaysOpen cnx ops
    → Lent cnx p text reasons
    → Lent cnx p text (run reasons ops)
run-Lent reasons [] fresh open_still l = l
run-Lent reasons (lending block other bytes len ∷ ops) fresh open_still l =
    run-Lent (step reasons (lending block other bytes len)) ops fresh.1 open_still.1
      (hold-Lent block other bytes len fresh.0 l)
run-Lent reasons (closing other ∷ ops) fresh open_still l =
    run-Lent (drop_reason reasons other) ops fresh.1 open_still.1 (drop-Lent other open_still.0 l)

-- What hold lends: the reason that the connection has, or a new one with the bytes given and a NUL.
lend-gives :
    (block o : Option ℕ) (reasons : List Reason) (cnx p : ℕ) (bytes : List ℕ) (len : ℕ)
    → Apart reasons
    → reason_of reasons cnx ≡ o
    → (lend o block reasons cnx bytes len).0 ≡ some p
    → (text : List ℕ) × Lent cnx p text (lend o block reasons cnx bytes len).1
      × (o ≡ none → text ≡ take len bytes ++ 0 ∷ [])
lend-gives block (some held) reasons cnx p bytes len apart e given =
    let (text, l) = reason_of-Lent reasons cnx p apart (e ∙ given) in
    (text, l, λ x. absurd (none-ne_some held (sym x)))
lend-gives none none reasons cnx p bytes len apart e given = absurd (none-ne_some p given)
lend-gives (some addr) none reasons cnx p bytes len apart e given = (
  take len bytes ++ 0 ∷ [],
  Lent.first (new_reason addr cnx bytes len) reasons refl (some-inj given) refl,
  λ x. refl,
)

-- Whatever came before, from no reason on: if hold lends a pointer, it points to a text, which is the
-- bytes given and a NUL if the connection had no reason; and whatever is held and dropped after it,
-- while the connection itself is not dropped, it points to that text still and is what is lent for the
-- connection again. Malloc answers no block that is in use.
pub lent_text :
    (before : List Op) (block : Option ℕ) (cnx p : ℕ) (bytes : List ℕ) (len : ℕ) (after : List Op)
    → AllFresh [] before
    → 0 < len
    → IsFresh (run [] before) block
    → (hold block (run [] before) cnx (some bytes) len).0 ≡ some p
    → AllFresh (hold block (run [] before) cnx (some bytes) len).1 after
    → StaysOpen cnx after
    → (text : List ℕ) × (reason_of (run [] before) cnx ≡ none → text ≡ take len bytes ++ 0 ∷ [])
      × (text_at (run (hold block (run [] before) cnx (some bytes) len).1 after) p ≡ some text)
      × (reason_of (run (hold block (run [] before) cnx (some bytes) len).1 after) cnx ≡ some p)
lent_text before block cnx p bytes len after fresh some_len new given fresh_after open_still =
    let there = run [] before in
    let apart : Apart there = run-Apart [] before fresh tt in
    let same = hold-some block there cnx bytes len some_len in
    let (text, l, is_new) =
      lend-gives block (reason_of there cnx) there cnx p bytes len apart refl
        (sym (ap (λ x. x.0) same) ∙ given) in
    let l' =
      run-Lent _ after fresh_after open_still (subst (λ x. Lent cnx p text x.1) (sym same) l) in
    (text, is_new, Lent-text_at l', Lent-reason_of l')
