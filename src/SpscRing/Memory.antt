-- ===== src/SpscRing/Memory.antt =====
-- The heap that the rings' payloads live on: addresses with what was allocated there.
use aiopquic.Base.{
  ℕ, suc, ◌+◌, ◌≡◌, refl, arith, Option, none, some, List, [], ◌∷◌, ◌==◌, if◌then◌else◌, ◌<◌,
  Bool-cases, inl, inr,
}

pub record Heap : Type 0 where
  pub next : ℕ
  pub blocks : List (ℕ × List ℕ)

-- A fresh address, never 0.
unfoldable pub malloc : Heap → List ℕ → ℕ × Heap
malloc h bytes = (suc h.next, record { next = suc h.next; blocks = (suc h.next, bytes) ∷ h.blocks })

unfoldable pub remove : ℕ → List (ℕ × List ℕ) → Option (List (ℕ × List ℕ))
remove p [] = none
remove p ((q, bytes) ∷ rest) =
    let more = remove p rest in
    if q == p then some rest else elim more [ none ↦ none | some left ↦ some ((q, bytes) ∷ left) ]

-- `none` is a fault: the address is not allocated.
unfoldable pub free : Heap → ℕ → Option Heap
unfolding remove
free h p = elim (remove p h.blocks) [ none ↦ none | some left ↦ some (record h { blocks = left }) ]

unfoldable pub lookup : ℕ → List (ℕ × List ℕ) → Option (List ℕ)
lookup p [] = none
lookup p ((q, bytes) ∷ rest) = if q == p then some bytes else lookup p rest

-- How many blocks stand at an address.
unfoldable pub at : ℕ → List (ℕ × List ℕ) → ℕ
at p [] = 0
at p ((q, bytes) ∷ rest) = if q == p then suc (at p rest) else at p rest

abbrev pub one_if : ℕ → ℕ → ℕ
one_if p q = if q == p then 1 else 0

pub at-malloc :
    (p : ℕ) (h : Heap) (bytes : List ℕ)
    → let (q, h') = malloc h bytes in at p h'.blocks ≡ at p h.blocks + one_if p q
unfolding at malloc
at-malloc p h bytes = ground arith

pub lookup-malloc :
    (h : Heap) (bytes : List ℕ) → let (p, h') = malloc h bytes in lookup p h'.blocks ≡ some bytes
unfolding lookup malloc
lookup-malloc h bytes = ground arith

at-remove :
    (p : ℕ) (blocks : List (ℕ × List ℕ))
    → 0 < at p blocks
    → (left : List (ℕ × List ℕ)) × (remove p blocks ≡ some left)
      × ((q : ℕ) → at q blocks ≡ at q left + one_if q p)
unfolding remove at
at-remove p [] h = absurd (omega arith)
at-remove p ((q, bytes) ∷ rest) h = elim (Bool-cases (q == p)) [
  | inl here ↦ rw here (rest, refl, λ x. ground (arith, here))
  | inr other ↦
      let (left, e, same) = at-remove p rest (ground (arith, other)) in
      rw (other, e) ((q, bytes) ∷ left, refl, λ x. ground (arith, same x))
]

-- What is allocated can be freed, and that takes just one block at that address.
pub at-free :
    (p : ℕ) (h : Heap)
    → 0 < at p h.blocks
    → (h' : Heap) × (free h p ≡ some h') × ((q : ℕ) → at q h.blocks ≡ at q h'.blocks + one_if q p)
unfolding free
at-free p h live =
    let (left, e, same) = at-remove p h.blocks live in
    (record h { blocks = left }, rw (e, free), same)
