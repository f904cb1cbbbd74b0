-- ===== src/Base/Circular.antt =====
-- A byte array used as a circle, under positions that only grow: position `p` stands at index
-- `p % cap`. Copies of blocks that may go round the end, against copies of single elements.
use Prim.Native.Nat.{ℕ, zero, suc, ◌+◌, ◌-◌, ◌%◌, ◌≤◌, ◌<◌}
use mathlib.Core.Path.{◌≡◌, refl, sym, ap, ap₂, ◌∙◌}
use mathlib.Core.Logic.{◌≢◌}
use mathlib.Core.List.{List, [], ◌∷◌, ◌++◌, append-nil, append_assoc}
use native.Mathlib.Nat.{
  mod-add-mod, mod-eq_of_lt, mod_self, add-zero, div-add-mod, mod-lt, le_refl, add-mod_right,
}
use native.Mathlib.Decide.{dec_lt}
use native.Mathlib.Omega.{arith}
use aiopquic.Base.Tests.{ltb, if◌then◌else◌, lt→ltb, le→ltb}
use aiopquic.Base.Lists.{length, get_or, set, take, drop}
use aiopquic.Base.Lists.{length-set, length-take, length-drop, get_or-set_self, get_or-set_ne}
use aiopquic.Base.Lists.{take-suc-drop, take-append-drop, take_all}

module _ {ℓ} {A : Type ℓ} where
  -- memcpy(dst + off, src, |src|), an element at a time. What would go past the end is not written.
  unfoldable pub memcpy : List A → ℕ → List A → List A
  memcpy dst off [] = dst
  memcpy dst off (x ∷ xs) = memcpy (set dst off x) (off + 1) xs

  -- The two copies of a write at index `off`, where `room` elements are left before the end.
  unfoldable pub write_wrapped : List A → ℕ → ℕ → List A → List A
  write_wrapped buf room off src =
      let n = length src in
      let first = if ltb n room then n else room in
      let once = memcpy buf off (take first src) in
      if ltb first n then memcpy once 0 (drop first src) else once

  -- The two copies of a read of `n` elements from index `off`.
  unfoldable pub read_wrapped : List A → ℕ → ℕ → ℕ → List A
  read_wrapped buf room off n =
      let first = if ltb n room then n else room in
      let once = take first (drop off buf) in
      if ltb first n then once ++ take (n - first) buf else once

suc_mod : (cap p : ℕ) → p % cap + 1 < cap → (p + 1) % cap ≡ p % cap + 1
suc_mod cap p h = sym (mod-add-mod p cap 1) ∙ mod-eq_of_lt h

wrap_mod : (cap p n : ℕ) → p % cap + n ≡ cap → (p + n) % cap ≡ 0
wrap_mod cap p n h = sym (mod-add-mod p cap n) ∙ ap (λ t. t % cap) h ∙ mod_self cap

-- Positions less than one round apart have different indices.
mod-ne : (cap p q : ℕ) → p < q → q < p + cap → p % cap ≢ q % cap
mod-ne cap p q lo hi e = grind (arith, div-add-mod p cap, div-add-mod q cap)

-- The specification of both: an element at a time, each at its own position.
module _ {ℓ} {A : Type ℓ} (d : A) (cap : ℕ) where
  unfoldable pub window : List A → ℕ → ℕ → List A
  window buf p zero = []
  window buf p (suc n) = get_or buf (p % cap) d ∷ window buf (p + 1) n

  unfoldable pub write_each : List A → ℕ → List A → List A
  write_each buf p [] = buf
  write_each buf p (x ∷ xs) = write_each (set buf (p % cap) x) (p + 1) xs

  pub length-window : (buf : List A) (p n : ℕ) → length (window buf p n) ≡ n
  unfolding window
  length-window buf p zero = refl
  length-window buf p (suc n) = ap suc (length-window buf (p + 1) n)

  pub length-write_each :
      (buf : List A) (p : ℕ) (xs : List A) → length (write_each buf p xs) ≡ length buf
  unfolding write_each
  length-write_each buf p [] = refl
  length-write_each buf p (x ∷ xs) =
      length-write_each (set buf (p % cap) x) (p + 1) xs ∙ length-set buf (p % cap) x

  pub window-add :
      (buf : List A) (p m n : ℕ) → window buf p (m + n) ≡ window buf p m ++ window buf (p + m) n
  unfolding window
  window-add buf p zero n = ap₂ (λ a b. window buf a b) (omega arith) (omega arith)
  window-add buf p (suc m) n =
      ap (window buf p) e
      ∙ ap (λ l. get_or buf (p % cap) d ∷ l) (window-add buf (p + 1) m n)
      ∙ ap (λ q. get_or buf (p % cap) d ∷ (window buf (p + 1) m ++ window buf q n)) (omega arith)
    where
      e : suc m + n ≡ suc (m + n)
      e = omega arith

  pub write_each-append :
      (buf : List A) (p : ℕ) (xs ys : List A)
      → write_each buf p (xs ++ ys) ≡ write_each (write_each buf p xs) (p + length xs) ys
  unfolding write_each
  write_each-append buf p [] ys = rw add-zero
  write_each-append buf p (x ∷ xs) ys =
      write_each-append (set buf (p % cap) x) (p + 1) xs ys
      ∙ ap (λ q. write_each (write_each (set buf (p % cap) x) (p + 1) xs) q ys) (omega arith)

  -- A block that does not go round is copied as by single elements.
  pub memcpy-eq-write_each :
      (buf : List A) (off p : ℕ) (src : List A)
      → off ≡ p % cap
      → off + length src ≤ cap
      → memcpy buf off src ≡ write_each buf p src
  unfolding memcpy write_each
  memcpy-eq-write_each buf off p [] e h = refl
  memcpy-eq-write_each buf off p (x ∷ []) e h = rw e
  memcpy-eq-write_each buf off p (x ∷ y ∷ r) e h =
      memcpy-eq-write_each (set buf off x) (off + 1) (p + 1) (y ∷ r)
        (ap (λ t. t + 1) e ∙ sym (suc_mod cap p (omega arith))) (omega arith)
      ∙ rw e refl

  pub take-eq-window :
      (buf : List A) (off p n : ℕ)
      → off ≡ p % cap
      → off + n ≤ cap
      → cap ≡ length buf
      → take n (drop off buf) ≡ window buf p n
  unfolding window
  take-eq-window buf off p zero e h l = refl
  take-eq-window buf off p (suc zero) e h l = take-suc-drop 0 off buf d (omega arith) ∙ rw e
  take-eq-window buf off p (suc (suc n)) e h l =
      take-suc-drop (suc n) off buf d (omega arith)
      ∙ ap₂ (λ t r. get_or buf t d ∷ r) e
          (ap (λ t. take (suc n) (drop t buf)) {x = suc off} (omega arith)
            ∙ take-eq-window buf (off + 1) (p + 1) (suc n)
                (ap (λ t. t + 1) e ∙ sym (suc_mod cap p (omega arith))) (omega arith) l)

  write_twice :
      (buf : List A) (p f : ℕ) (src : List A)
      → p % cap + f ≡ cap
      → f ≤ length src
      → length src ≤ cap
      → memcpy (memcpy buf (p % cap) (take f src)) 0 (drop f src) ≡ write_each buf p src
  write_twice buf p f src e lo hi =
      ap (λ b. memcpy b 0 (drop f src))
        (memcpy-eq-write_each buf (p % cap) p (take f src) refl (omega (arith, length-take f src)))
      ∙ memcpy-eq-write_each (write_each buf p (take f src)) 0 (p + f) (drop f src)
          (sym (wrap_mod cap p f e)) (omega (arith, length-drop f src))
      ∙ ap (λ q. write_each (write_each buf p (take f src)) q (drop f src))
          (omega (arith, length-take f src))
      ∙ sym (write_each-append buf p (take f src) (drop f src))
      ∙ ap (write_each buf p) (take-append-drop f src)

  -- The two copies of a write store what single elements would.
  pub write_wrapped-eq-write_each :
      (buf : List A) (p : ℕ) (src : List A)
      → 0 < cap
      → length src ≤ cap
      → write_wrapped buf (cap - p % cap) (p % cap) src ≡ write_each buf p src
  unfolding write_wrapped
  write_wrapped-eq-write_each buf p src pos h = elim (dec_lt (length src) (cap - p % cap)) [
    | yes lt ↦
        rw (lt→ltb _ _ lt, le→ltb (length src) (length src) (le_refl _))
          (rw (take_all (length src) src (le_refl _))
            (memcpy-eq-write_each buf (p % cap) p src refl (omega arith)))
    | no ge ↦ rw (le→ltb (length src) (cap - p % cap) (omega arith)) (short ge)
  ]
    where
      f : ℕ
      f = cap - p % cap

      in_range : p % cap < cap
      in_range = mod-lt p pos

      short :
          ¬ (length src < f)
          → (if ltb f (length src)
              then memcpy (memcpy buf (p % cap) (take f src)) 0 (drop f src)
              else memcpy buf (p % cap) (take f src))
            ≡ write_each buf p src
      short ge = elim (dec_lt f (length src)) [
        | yes lt ↦ rw (lt→ltb _ _ lt) (write_twice buf p f src (omega arith) (omega arith) h)
        | no eq ↦
            rw (le→ltb f (length src) (omega arith), take_all f src (omega arith))
              (memcpy-eq-write_each buf (p % cap) p src refl (omega arith))
      ]

  read_twice :
      (buf : List A) (p f n : ℕ)
      → p % cap + f ≡ cap
      → f ≤ n
      → n ≤ cap
      → cap ≡ length buf
      → take f (drop (p % cap) buf) ++ take (n - f) buf ≡ window buf p n
  read_twice buf p f n e lo hi l =
      ap₂ ◌++◌ (take-eq-window buf (p % cap) p f refl (omega arith) l)
        (take-eq-window buf 0 (p + f) (n - f) (sym (wrap_mod cap p f e)) (omega arith) l)
      ∙ sym (window-add buf p f (n - f))
      ∙ ap (window buf p) (omega arith)

  pub read_wrapped-eq-window :
      (buf : List A) (p n : ℕ)
      → 0 < cap
      → n ≤ cap
      → cap ≡ length buf
      → read_wrapped buf (cap - p % cap) (p % cap) n ≡ window buf p n
  unfolding read_wrapped
  read_wrapped-eq-window buf p n pos h l = elim (dec_lt n (cap - p % cap)) [
    | yes lt ↦
        rw (lt→ltb _ _ lt, le→ltb n n (le_refl _))
          (take-eq-window buf (p % cap) p n refl (omega arith) l)
    | no ge ↦ rw (le→ltb n (cap - p % cap) (omega arith)) (short ge)
  ]
    where
      f : ℕ
      f = cap - p % cap

      in_range : p % cap < cap
      in_range = mod-lt p pos

      short :
          ¬ (n < f)
          → (if ltb f n
              then take f (drop (p % cap) buf) ++ take (n - f) buf
              else take f (drop (p % cap) buf))
            ≡ window buf p n
      short ge = elim (dec_lt f n) [
        | yes lt ↦ rw (lt→ltb _ _ lt) (read_twice buf p f n (omega arith) (omega arith) h l)
        | no eq ↦ rw (le→ltb f n (omega arith)) (
            take-eq-window buf (p % cap) p f refl (omega arith) l ∙ ap (window buf p) (omega arith))
      ]

  pub window-set_other :
      (buf : List A) (h n q : ℕ) (x : A)
      → h + n ≤ q
      → q < h + cap
      → window (set buf (q % cap) x) h n ≡ window buf h n
  unfolding window
  window-set_other buf h zero q x lo hi = refl
  window-set_other buf h (suc n) q x lo hi =
      ap₂ ◌∷◌
        (get_or-set_ne buf (q % cap) (h % cap) x d (λ e. mod-ne cap h q (omega arith) hi (sym e)))
        (window-set_other buf (h + 1) n q x (omega arith) (omega arith))

  window-set_self :
      (buf : List A) (h n : ℕ) (x : A)
      → cap ≤ length buf
      → n < cap
      → window (set buf ((h + n) % cap) x) h (n + 1) ≡ window buf h n ++ (x ∷ [])
  unfolding window
  window-set_self buf h n x l lt =
      window-add (set buf ((h + n) % cap) x) h n 1
      ∙ ap₂ ◌++◌ (window-set_other buf h n (h + n) x (omega arith) (omega arith)) (
          ap (λ t. t ∷ [])
            (get_or-set_self buf ((h + n) % cap) x d
              (omega (arith, mod-lt (h + n) {m = cap} (omega arith)))))

  -- Elements written behind a window, within one round of its start, extend it.
  pub window-write_each :
      (buf : List A) (h n : ℕ) (src : List A)
      → cap ≤ length buf
      → n + length src ≤ cap
      → window (write_each buf (h + n) src) h (n + length src) ≡ window buf h n ++ src
  unfolding write_each
  window-write_each buf h n [] l lt = ap (window buf h) (omega arith) ∙ sym (append-nil _)
  window-write_each buf h n (x ∷ xs) l lt =
      ap₂ (λ q k. window (write_each b q xs) h k) (omega arith) (omega arith)
      ∙ window-write_each b h (n + 1) xs (omega (arith, length-set buf ((h + n) % cap) x))
          (omega arith)
      ∙ ap (λ w. w ++ xs) (window-set_self buf h n x l (omega arith))
      ∙ append_assoc (window buf h n) (x ∷ []) xs
    where
      b : List A
      b = set buf ((h + n) % cap) x

  -- Elements written behind a window, within one round of its start, leave it as it was.
  pub window-write_each_before :
      (buf : List A) (h n p : ℕ) (src : List A)
      → h + n ≤ p
      → p + length src ≤ h + cap
      → window (write_each buf p src) h n ≡ window buf h n
  unfolding write_each
  window-write_each_before buf h n p [] lo hi = refl
  window-write_each_before buf h n p (x ∷ xs) lo hi =
      window-write_each_before (set buf (p % cap) x) h n (p + 1) xs (omega arith) (omega arith)
      ∙ window-set_other buf h n p x lo (omega arith)

  -- The elements written stand where they were written.
  pub window-write_each_at :
      (buf : List A) (p : ℕ) (src : List A)
      → cap ≤ length buf
      → length src ≤ cap
      → window (write_each buf p src) p (length src) ≡ src
  window-write_each_at buf p src l h =
      ap₂ (λ q k. window (write_each buf q src) p k) (omega arith) (omega arith)
      ∙ window-write_each buf p 0 src l (omega arith)
      ∙ unfold window in refl

  -- An element written just before a window of less than a round leaves it as it was.
  pub window-set_behind :
      (buf : List A) (h n : ℕ) (x : A)
      → n < cap
      → window (set buf (h % cap) x) (h + 1) n ≡ window buf (h + 1) n
  window-set_behind buf h n x lt =
      ap (λ i. window (set buf i x) (h + 1) n) (sym (add-mod_right h cap))
      ∙ window-set_other buf (h + 1) n (h + cap) x (omega arith) (omega arith)

  -- One element written behind a window extends it.
  pub window-set_end :
      (buf : List A) (h t : ℕ) (x : A)
      → cap ≤ length buf
      → h ≤ t
      → t < h + cap
      → window (set buf (t % cap) x) h (t + 1 - h) ≡ window buf h (t - h) ++ (x ∷ [])
  window-set_end buf h t x l lo hi =
      ap₂ (λ p k. window (set buf (p % cap) x) h k) e (omega arith)
      ∙ window-set_self buf h (t - h) x l (omega arith)
    where
      e : t ≡ h + (t - h)
      e = omega arith
