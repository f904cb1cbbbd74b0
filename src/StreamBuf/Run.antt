-- ===== src/StreamBuf/Run.antt =====
-- The byte ring over any sequence of pushes and pops: what goes in and comes out, and the hashes.
use aiopquic.Base.{
  ℕ, ◌+◌, ◌^◌, ◌<◌, ◌≡◌, refl, sym, ap, ap₂, ◌∙◌, arith, true, List, [], ◌∷◌, ◌++◌, append-nil,
  append_assoc, length, take, drop, u32, take-append-drop, bit_xor, ◌*◌,
}
use aiopquic.StreamBuf.{StreamBuf, fnv1a_step, fnv1a_prime, push, pop}
use aiopquic.StreamBuf.Valid.{IsValid, contents}
use aiopquic.StreamBuf.Push.{push-eq-append, push_lem}
use aiopquic.StreamBuf.Pop.{pop-eq-consume, pop_lem}

-- What a client asks of the ring.
pub data Op : Type 0 where
  put : List ℕ → Op
  get : ℕ → Op

-- What a sequence of calls did: the bytes accepted, the bytes delivered, and the ring left behind.
pub record Trace : Type 0 where
  pub accepted : List ℕ
  pub delivered : List ℕ
  pub final : StreamBuf

unfoldable pub run : StreamBuf → List Op → Trace
run sb [] = record { accepted = []; delivered = []; final = sb }
run sb (put bytes ∷ ops) =
    let (n, sb') = push sb bytes in
    let t = run sb' ops in record t { accepted = take n bytes ++ t.accepted }
run sb (get max_bytes ∷ ops) =
    let (n, out, sb') = pop sb max_bytes in
    let t = run sb' ops in record t { delivered = out ++ t.delivered }

-- The bytes that a sequence offers.
abbrev pub offered : List Op → ℕ
offered [] = 0
offered (put bytes ∷ ops) = length bytes + offered ops
offered (get max_bytes ∷ ops) = offered ops

abbrev pub Short : List Op → Type 0
Short [] = Unit
Short (put bytes ∷ ops) = (length bytes < 2 ^ 32) × Short ops
Short (get max_bytes ∷ ops) = Short ops

-- From a valid ring, any sequence of pushes and pops delivers the bytes that the ring held and then
-- those that it accepted, in order: what was delivered and what is left make up just these. The
-- ring stays valid. Each push is of less than 2^32 bytes and all fit the 64-bit positions.
pub run_fifo :
    (ops : List Op) {sb : StreamBuf}
    → IsValid sb
    → Short ops
    → sb.tail + offered ops < 2 ^ 64
    → let t = run sb ops in
      (t.delivered ++ contents t.final ≡ contents sb ++ t.accepted) × IsValid t.final
unfolding run
run_fifo [] v s w = (sym (append-nil _), v)
run_fifo (put bytes ∷ ops) {sb} v s w =
    let (n, sb') = push sb bytes in
    let p = push_lem bytes v s.0 (omega (arith, w)) in
    let t = run sb' ops in
    let (fifo, valid) = run_fifo ops p.3 s.1 (omega (arith, p.0, p.2, w)) in
    (
      fifo ∙ ap (λ c. c ++ t.accepted) p.1 ∙ append_assoc (contents sb) (take n bytes) t.accepted,
      valid,
    )
run_fifo (get max_bytes ∷ ops) {sb} v s w =
    let (n, out, sb') = pop sb max_bytes in
    let p = pop_lem max_bytes v in
    let t = run sb' ops in
    let (fifo, valid) = run_fifo ops p.4 s (omega (arith, p.3, w)) in
    (
      append_assoc out t.delivered (contents t.final)
          ∙ ap (λ c. out ++ c) fifo
          ∙ sym (append_assoc out (contents sb') t.accepted)
          ∙ ap (λ c. c ++ t.accepted) (whole n out (contents sb') (contents sb) p.1 p.2),
      valid,
    )
  where
    whole :
        (n : ℕ) (out rest all : List ℕ) → out ≡ take n all → rest ≡ drop n all → out ++ rest ≡ all
    whole n out rest all e f = rw (e, f) (take-append-drop n all)

fnv1a_step-append :
    (h : ℕ) (xs ys : List ℕ) → fnv1a_step h (xs ++ ys) ≡ fnv1a_step (fnv1a_step h xs) ys
unfolding fnv1a_step
fnv1a_step-append h [] ys = refl
fnv1a_step-append h (x ∷ xs) ys = fnv1a_step-append (u32 (bit_xor h x * fnv1a_prime)) xs ys

push_hashes :
    {sb : StreamBuf} (bytes : List ℕ)
    → IsValid sb
    → length bytes < 2 ^ 32
    → sb.tail + length bytes < 2 ^ 64
    → sb.hash_enabled ≡ true
    → let (n, sb') = push sb bytes in
      (sb'.push_hash ≡ fnv1a_step sb.push_hash (take n bytes))
      × (sb'.pop_hash ≡ sb.pop_hash)
      × (sb'.hash_enabled ≡ true)
push_hashes bytes v short word e = rw (push-eq-append bytes v short word, e) (refl, refl, refl)

pop_hashes :
    {sb : StreamBuf} (max_bytes : ℕ)
    → IsValid sb
    → sb.hash_enabled ≡ true
    → let (n, out, sb') = pop sb max_bytes in
      (sb'.push_hash ≡ sb.push_hash)
      × (sb'.pop_hash ≡ fnv1a_step sb.pop_hash out)
      × (sb'.hash_enabled ≡ true)
pop_hashes max_bytes v e = rw (pop-eq-consume max_bytes v, e) (refl, refl, refl)

chain :
    {a b : ℕ} (h : ℕ) (xs ys : List ℕ)
    → a ≡ fnv1a_step b ys
    → b ≡ fnv1a_step h xs
    → a ≡ fnv1a_step h (xs ++ ys)
chain h xs ys e f = e ∙ rw f (sym (fnv1a_step-append h xs ys))

-- With the hashes on, each is the running FNV-1a of the bytes that went through its side, from
-- where it stood. The conditions are those of `run_fifo`.
pub run_hashes :
    (ops : List Op) {sb : StreamBuf}
    → IsValid sb
    → Short ops
    → sb.tail + offered ops < 2 ^ 64
    → sb.hash_enabled ≡ true
    → let t = run sb ops in
      (t.final.push_hash ≡ fnv1a_step sb.push_hash t.accepted)
      × (t.final.pop_hash ≡ fnv1a_step sb.pop_hash t.delivered)
unfolding run
run_hashes [] v s w e = unfold fnv1a_step in (refl, refl)
run_hashes (put bytes ∷ ops) {sb} v s w e =
    let (n, sb') = push sb bytes in
    let p = push_lem bytes v s.0 (omega (arith, w)) in
    let h = push_hashes bytes v s.0 (omega (arith, w)) e in
    let (pushed, popped) = run_hashes ops p.3 s.1 (omega (arith, p.0, p.2, w)) h.2 in
    let t = run sb' ops in
    (
      chain sb.push_hash (take n bytes) t.accepted pushed h.0,
      popped ∙ ap (λ k. fnv1a_step k t.delivered) h.1,
    )
run_hashes (get max_bytes ∷ ops) {sb} v s w e =
    let (n, out, sb') = pop sb max_bytes in
    let p = pop_lem max_bytes v in
    let h = pop_hashes max_bytes v e in
    let (pushed, popped) = run_hashes ops p.4 s (omega (arith, p.3, w)) h.2 in
    let t = run sb' ops in
    (pushed ∙ ap (λ k. fnv1a_step k t.accepted) h.0, chain sb.pop_hash out t.delivered popped h.1)

-- The byte-conservation check: on an empty valid ring with the hashes on and equal, the two hashes
-- are equal again whenever a sequence of pushes and pops has left the ring empty.
pub drained_hashes :
    (ops : List Op) {sb : StreamBuf}
    → IsValid sb
    → Short ops
    → sb.tail + offered ops < 2 ^ 64
    → sb.hash_enabled ≡ true
    → sb.push_hash ≡ sb.pop_hash
    → contents sb ≡ []
    → contents (run sb ops).final ≡ []
    → (run sb ops).final.push_hash ≡ (run sb ops).final.pop_hash
drained_hashes ops {sb} v s w e same empty drained =
    let t = run sb ops in
    let h = run_hashes ops v s w e in h.0 ∙ ap₂ fnv1a_step same (sym through) ∙ sym h.1
  where
    through : (run sb ops).delivered ≡ (run sb ops).accepted
    through =
        sym (append-nil _)
        ∙ ap (λ c. (run sb ops).delivered ++ c) (sym drained)
        ∙ (run_fifo ops v s w).0
        ∙ ap (λ c. c ++ (run sb ops).accepted) empty
