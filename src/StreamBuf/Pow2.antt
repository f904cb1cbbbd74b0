-- ===== src/StreamBuf/Pow2.antt =====
-- `aiopquic_ceil_pow2_u32`: the least power of two that is not below the request, up to 2^31; and
-- what `create` makes of it.
use native.Mathlib.Nat.{pow-suc, pow-le-pow_right, one-le-pow, le_refl}
use aiopquic.Base.{
  ℕ, zero, suc, ◌-◌, ◌/◌, ◌^◌, ◌≤◌, ◌<◌, bit_and, ◌≡◌, refl, ◌≢◌, arith, true, false, Bool-cases,
  inl, inr, Option, some, List, [], Option-cases, length, leb, ◌==◌, if◌then◌else◌, sub32,
  ℕ_discrete, dec_lt, ==_iff,
}
use aiopquic.Base.Bits.{pow2_of_and_pred, and_pred_of_pow2}
use aiopquic.Base.Pow2.{IsPow2, IsPow2-bounds}
use aiopquic.StreamBuf.{StreamBuf, bit_length, ceil_pow2_u32, create, hash_gate, fnv1a_init}
use aiopquic.Base.Circular.{window}
use aiopquic.StreamBuf.Valid.{IsValid, contents}

bit_length-zero : (f : ℕ) → bit_length f 0 ≡ 0
unfolding bit_length
bit_length-zero zero = refl
bit_length-zero (suc f) = refl

-- A positive number of at most `f` digits lies between the two powers of its length.
bit_length_bounds :
    (f n : ℕ)
    → 0 < n
    → n < 2 ^ f
    → (k : ℕ) × (bit_length f n ≡ suc k) × (2 ^ k ≤ n) × (n < 2 ^ suc k) × (k < f)
unfolding bit_length
bit_length_bounds zero n p h = absurd (omega arith)
bit_length_bounds (suc f) n p h = elim (ℕ_discrete (n / 2) 0) [
  | yes one ↦
      let e : n ≡ 1 = omega arith in
      (0, rw e (omega (arith, bit_length-zero f)), omega arith, omega arith, omega arith)
  | no more ↦
      let (k, e, lo, hi, lt) =
        bit_length_bounds f (n / 2) (omega arith) (omega (arith, pow-suc 2 f)) in
      (
        suc k,
        ground (arith, e),
        omega (arith, pow-suc 2 k),
        omega (arith, pow-suc 2 (suc k)),
        omega arith,
      )
]

pow_le : (a b : ℕ) → a ≤ b → 2 ^ a ≤ 2 ^ b
pow_le a b h = pow-le-pow_right {n = 2} (omega arith) {i = a} {j = b} h

le_of_pow_le : (a b : ℕ) → 2 ^ a < 2 ^ suc b → a ≤ b
le_of_pow_le a b h = elim (dec_lt b a) [
  | yes lt ↦ absurd (omega (arith, pow_le (suc b) a lt))
  | no ge ↦ omega arith
]

ne_pow : (n j : ℕ) → (bit_and n (n - 1) == 0) ≡ false → n ≢ 2 ^ j
ne_pow n j t e = ground (arith, and_pred_of_pow2 j)

-- What is left of the code for a number that is no power of two.
ceil_other :
    (n : ℕ)
    → 0 < n
    → n < 2 ^ 32
    → (bit_and n (n - 1) == 0) ≡ false
    → (k : ℕ) × (ceil_pow2_u32 n ≡ (if leb 32 (suc k) then 2 ^ 31 else 2 ^ suc k))
      × (2 ^ k ≤ n)
      × (n < 2 ^ suc k)
      × (k < 32)
unfolding ceil_pow2_u32
ceil_other n p h t =
    let (k, e, lo, hi, lt) = bit_length_bounds 32 n p h in
    let bits : 32 - (32 - bit_length 32 n) ≡ suc k = omega (arith, e) in
    let some_n : (n == 0) ≡ false = ground arith in (k, rw (some_n, t, bits), lo, hi, lt)

ceil_power : (n : ℕ) → 0 < n → (bit_and n (n - 1) == 0) ≡ true → ceil_pow2_u32 n ≡ n
unfolding ceil_pow2_u32
ceil_power n p t = ground arith

record Ceil (n c : ℕ) : Type 0 where
  pow2 : IsPow2 c
  enough : n ≤ 2 ^ 31 → n ≤ c
  least : (j : ℕ) → n ≤ 2 ^ j → c ≤ 2 ^ j
  capped : 2 ^ 31 < n → c ≡ 2 ^ 31

module _ (n k : ℕ) (other : (bit_and n (n - 1) == 0) ≡ false) (lo : 2 ^ k ≤ n)
    (hi : n < 2 ^ suc k) where
  next_least : (j : ℕ) → n ≤ 2 ^ j → 2 ^ suc k ≤ 2 ^ j
  next_least j q = elim (dec_lt k j) [
    | yes lt ↦ pow_le (suc k) j lt
    | no ge ↦ absurd (omega (arith, pow_le j k (omega arith), ne_pow n j other))
  ]

  Ceil-below : k < 31 → Ceil n (2 ^ suc k)
  Ceil-below lt = record {
    pow2 = (suc k, lt, refl);
    enough = λ q. omega arith;
    least = next_least;
    capped = λ q. absurd (omega (arith, pow_le (suc k) 31 lt));
  }

  Ceil-top : k ≡ 31 → Ceil n (2 ^ 31)
  Ceil-top e = record {
    pow2 = (31, omega arith, refl);
    enough = λ q. q;
    least = λ j q.
        omega (arith, next_least j q, pow_le 31 k (omega arith), pow_le k (suc k) (omega arith));
    capped = λ q. refl;
  }

ceil_pow2_u32-Ceil_other :
    (n : ℕ) → 0 < n → n < 2 ^ 32 → (bit_and n (n - 1) == 0) ≡ false → Ceil n (ceil_pow2_u32 n)
ceil_pow2_u32-Ceil_other n p h t =
    let (k, e, lo, hi, lt) = ceil_other n p h t in
    elim (dec_lt k 31) [
      | yes below ↦
          let no_cap : leb 32 (suc k) ≡ false = ground arith in
          rw (e, no_cap) (Ceil-below n k t lo hi below)
      | no top ↦
          let cap : leb 32 (suc k) ≡ true = ground arith in
          rw (e, cap) (Ceil-top n k t lo hi (omega arith))
    ]

ceil_pow2_u32-Ceil_power :
    (n : ℕ) → 0 < n → n < 2 ^ 32 → (bit_and n (n - 1) == 0) ≡ true → Ceil n (ceil_pow2_u32 n)
ceil_pow2_u32-Ceil_power n p h t =
    let (k, e) = pow2_of_and_pred n p ((==_iff _ _).0 t) in
    let small : k ≤ 31 = le_of_pow_le k 31 (omega (arith, e)) in
    rw (ceil_power n p t) (record {
      pow2 = (k, small, e);
      enough = λ q. le_refl n;
      least = λ j q. q;
      capped = λ q. absurd (omega (arith, e, pow_le k 31 small));
    })

ceil_pow2_u32-Ceil_zero : Ceil 0 (ceil_pow2_u32 0)
unfolding ceil_pow2_u32
ceil_pow2_u32-Ceil_zero = record {
  pow2 = (0, omega arith, refl);
  enough = λ q. omega arith;
  least = λ j q. one-le-pow j 2 (omega arith);
  capped = λ q. absurd (omega arith);
}

-- For a 32-bit request the result is a power of two of at most 2^31. A request up to 2^31 gets the
-- least power of two that is no less; a greater one gets 2^31.
pub ceil_pow2_u32_cases :
    (n : ℕ)
    → n < 2 ^ 32
    → let c = ceil_pow2_u32 n in
      IsPow2 c
      × (n ≤ 2 ^ 31 → n ≤ c)
      × ((j : ℕ) → n ≤ 2 ^ j → c ≤ 2 ^ j)
      × (2 ^ 31 < n → c ≡ 2 ^ 31)
ceil_pow2_u32_cases n h =
    let r : Ceil n (ceil_pow2_u32 n) = all in (r.pow2, r.enough, r.least, r.capped)
  where
    all : Ceil n (ceil_pow2_u32 n)
    all = elim (ℕ_discrete n 0) [
      | yes e ↦ rw e ceil_pow2_u32-Ceil_zero
      | no ne ↦ elim (Bool-cases (bit_and n (n - 1) == 0)) [
        | inl t ↦ ceil_pow2_u32-Ceil_power n (omega arith) h t
        | inr t ↦ ceil_pow2_u32-Ceil_other n (omega arith) h t
      ]
    ]

abbrev fresh : Option (List ℕ) → ℕ → List ℕ → StreamBuf
fresh env capacity bytes = record {
  buf = bytes;
  capacity = capacity;
  mask = sub32 capacity 1;
  tail = 0;
  head = 0;
  fin_pending = false;
  hash_enabled = hash_gate env;
  push_hash = fnv1a_init;
  pop_hash = fnv1a_init;
}

fresh-IsValid :
    (env : Option (List ℕ)) (capacity : ℕ) (bytes : List ℕ)
    → IsPow2 capacity
    → length bytes ≡ capacity
    → IsValid (fresh env capacity bytes)
fresh-IsValid env capacity bytes w sized = record {
  pow2 = w;
  masked = omega (arith, IsPow2-bounds w);
  storage = sized;
  order = omega arith;
  room = omega arith;
  word = omega arith;
}

-- For a request of at most 2^31 the result is the least power of two that is no less: a power of two,
-- no less than the request, and no more than any power of two that is no less than the request.
pub ceil_pow2_u32_least :
    (n j : ℕ) → n ≤ 2 ^ 31 → n ≤ 2 ^ j → let c = ceil_pow2_u32 n in IsPow2 c × (n ≤ c) × (c ≤ 2 ^ j)
ceil_pow2_u32_least n j small below =
    let (w, enough, least, capped) = ceil_pow2_u32_cases n (omega arith) in
    (w, enough small, least j below)

-- What `create` returns, the allocations made, is a valid ring that holds nothing, of the capacity
-- asked for rounded up to a power of two, with its hashes at their start.
pub create_lem :
    (block : ℕ → Option (List ℕ)) (env : Option (List ℕ)) (requested : ℕ) {sb : StreamBuf}
    → ((size : ℕ) (bytes : List ℕ) → block size ≡ some bytes → length bytes ≡ size)
    → requested < 2 ^ 32
    → create true block env requested ≡ some sb
    → IsValid sb
      × (contents sb ≡ [])
      × (sb.capacity ≡ ceil_pow2_u32 requested)
      × (sb.push_hash ≡ fnv1a_init)
      × (sb.pop_hash ≡ fnv1a_init)
unfolding create
create_lem block env requested {sb} sized h e =
    let (w, enough, least, capped) = ceil_pow2_u32_cases requested h in
    let (pos, hi) = IsPow2-bounds w in
    elim (Option-cases (block (ceil_pow2_u32 requested))) [
      | inl failed ↦ ground arith
      | inr (bytes, got) ↦
          let made : sb ≡ fresh env (ceil_pow2_u32 requested) bytes = ground (arith, pos, got) in
          rw made (
            fresh-IsValid env (ceil_pow2_u32 requested) bytes w (sized _ bytes got),
            unfold window in refl,
            refl,
            refl,
            refl,
          )
    ]
