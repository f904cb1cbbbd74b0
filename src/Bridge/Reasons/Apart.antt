-- ===== src/Bridge/Reasons/Apart.antt =====
-- Any sequence of calls of `aiopquic_close_reason_hold` and `_drop`: the blocks stay apart.
use aiopquic.Base.{
  ℕ, ◌≡◌, ◌≢◌, refl, sym, Bool-cases, inl, inr, Option, none, some, List, [], ◌∷◌, ◌==◌,
}
use aiopquic.Bridge.Reasons.{Reason, reason_of, lend, hold, drop_reason, text_at}

-- A call of hold, with malloc's answer to it, or of drop.
pub data Op : Type 0 where
  lending : Option ℕ → ℕ → Option (List ℕ) → ℕ → Op
  closing : ℕ → Op

abbrev pub step : List Reason → Op → List Reason
step reasons (lending block cnx bytes len) = (hold block reasons cnx bytes len).1
step reasons (closing cnx) = drop_reason reasons cnx

abbrev pub run : List Reason → List Op → List Reason
run reasons [] = reasons
run reasons (op ∷ ops) = run (step reasons op) ops

-- What malloc answers is no block that is there.
abbrev pub IsFresh : List Reason → Option ℕ → Type 0
IsFresh reasons none = Unit
IsFresh reasons (some addr) = text_at reasons addr ≡ none

abbrev pub OpFresh : List Reason → Op → Type 0
OpFresh reasons (lending block cnx bytes len) = IsFresh reasons block
OpFresh reasons (closing cnx) = Unit

abbrev pub AllFresh : List Reason → List Op → Type 0
AllFresh reasons [] = Unit
AllFresh reasons (op ∷ ops) = OpFresh reasons op × AllFresh (step reasons op) ops

-- The connection is not dropped.
abbrev pub OpOpen : ℕ → Op → Type 0
OpOpen cnx (lending block other bytes len) = Unit
OpOpen cnx (closing other) = other ≢ cnx

abbrev pub StaysOpen : ℕ → List Op → Type 0
StaysOpen cnx [] = Unit
StaysOpen cnx (op ∷ ops) = OpOpen cnx op × StaysOpen cnx ops

-- The blocks have addresses apart.
abbrev pub Apart : List Reason → Type 0
Apart [] = Unit
Apart (r ∷ reasons) = (text_at reasons r.addr ≡ none) × Apart reasons

pub none-ne_some : {A : Type 0} (a : A) → none ≢ some a
none-ne_some a e = cc (e)

drop-missing :
    (reasons : List Reason) (cnx addr : ℕ)
    → text_at reasons addr ≡ none
    → text_at (drop_reason reasons cnx) addr ≡ none
unfolding drop_reason text_at
drop-missing [] cnx addr e = refl
drop-missing (r ∷ reasons) cnx addr e = elim (Bool-cases (r.addr == addr)) [
  | inl here ↦ absurd (none-ne_some r.text (sym (rw here at e)))
  | inr apart ↦ elim (Bool-cases (r.cnx == cnx)) [
    | inl gone ↦ rw gone (rw apart at e)
    | inr stays ↦ rw (stays, apart) (drop-missing reasons cnx addr (rw apart at e))
  ]
]

drop-Apart : (reasons : List Reason) (cnx : ℕ) → Apart reasons → Apart (drop_reason reasons cnx)
unfolding drop_reason
drop-Apart [] cnx apart = tt
drop-Apart (r ∷ reasons) cnx apart = elim (Bool-cases (r.cnx == cnx)) [
  | inl gone ↦ rw gone apart.1
  | inr stays ↦ rw stays (drop-missing reasons cnx r.addr apart.0, drop-Apart reasons cnx apart.1)
]

lend-Apart :
    (block o : Option ℕ) (reasons : List Reason) (cnx : ℕ) (bytes : List ℕ) (len : ℕ)
    → IsFresh reasons block
    → Apart reasons
    → Apart (lend o block reasons cnx bytes len).1
lend-Apart block (some held) reasons cnx bytes len fresh apart = apart
lend-Apart none none reasons cnx bytes len fresh apart = apart
lend-Apart (some addr) none reasons cnx bytes len fresh apart = (fresh, apart)

hold-Apart :
    (block : Option ℕ) (reasons : List Reason) (cnx : ℕ) (bytes : Option (List ℕ)) (len : ℕ)
    → IsFresh reasons block
    → Apart reasons
    → Apart (hold block reasons cnx bytes len).1
unfolding hold
hold-Apart block reasons cnx none len fresh apart = apart
hold-Apart block reasons cnx (some bytes) len fresh apart = elim (Bool-cases (len == 0)) [
  | inl empty ↦ rw empty apart
  | inr given ↦
      rw given (lend-Apart block (reason_of reasons cnx) reasons cnx bytes len fresh apart)
]

-- The addresses stay apart.
pub run-Apart :
    (reasons : List Reason) (ops : List Op)
    → AllFresh reasons ops
    → Apart reasons
    → Apart (run reasons ops)
run-Apart reasons [] fresh apart = apart
run-Apart reasons (lending block cnx bytes len ∷ ops) fresh apart =
    run-Apart (step reasons (lending block cnx bytes len)) ops fresh.1
      (hold-Apart block reasons cnx bytes len fresh.0 apart)
run-Apart reasons (closing cnx ∷ ops) fresh apart =
    run-Apart (drop_reason reasons cnx) ops fresh.1 (drop-Apart reasons cnx apart)
