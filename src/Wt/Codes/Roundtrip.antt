-- ===== src/Wt/Codes/Roundtrip.antt =====
-- `aiopquic_wt_code_to_h3` and `aiopquic_wt_code_from_h3`: they are inverse to each other.
use aiopquic.Base.{
  ℕ, ◌+◌, ◌-◌, ◌/◌, ◌%◌, ◌^◌, ◌≤◌, ◌<◌, ◌≡◌, ◌≢◌, refl, ap, ◌∙◌, arith, true, false, Bool-cases,
  inl, inr, sub64,
}
use aiopquic.Wt.Codes.{
  wt_app_error_first, wt_app_error_last, wt_code_to_h3, carries_no_code, wt_code_from_h3,
}

small_code :
    (code : ℕ) → code ≤ 0xffffffff → wt_code_to_h3 code ≡ wt_app_error_first + code + code / 0x1e
unfolding wt_code_to_h3
small_code code h = ground (arith, h)

app_code :
    (h : ℕ)
    → h < 2 ^ 64
    → carries_no_code h ≡ false
    → wt_code_from_h3 h ≡ h - wt_app_error_first - (h - wt_app_error_first) / 0x1f
unfolding wt_code_from_h3
app_code h word code =
    let inside : wt_app_error_first ≤ h = ground (arith, code) in
    rw code (omega (arith, inside, word))

no_code : (h : ℕ) → carries_no_code h ≡ true → wt_code_from_h3 h ≡ h
unfolding wt_code_from_h3
no_code h outside = rw outside refl

big_code : (code : ℕ) → 0xffffffff < code → wt_code_to_h3 code ≡ code
unfolding wt_code_to_h3
big_code code big = ground (arith, big)

-- An application code of 32 bits travels as a code of the range that is not reserved, and is read back.
pub code_from_h3-code_to_h3 :
    (code : ℕ)
    → code ≤ 0xffffffff
    → (wt_code_from_h3 (wt_code_to_h3 code) ≡ code)
      × (wt_app_error_first ≤ wt_code_to_h3 code)
      × (wt_code_to_h3 code ≤ wt_app_error_last)
      × ((wt_code_to_h3 code - 0x21) % 0x1f ≢ 0)
code_from_h3-code_to_h3 code h =
    let e = small_code code h in
    let inside : carries_no_code (wt_code_to_h3 code) ≡ false = rw e (ground (arith, h)) in
    (
      app_code (wt_code_to_h3 code) (omega (arith, e, h)) inside ∙ omega (arith, e, h),
      omega (arith, e, h),
      omega (arith, e, h),
      λ x. omega (arith, e, h, x),
    )

-- A code that the peer sent above 32 bits, in the range or not, is sent on unchanged.
pub code_to_h3-code_from_h3 :
    (h : ℕ) → 0xffffffff < h → h < 2 ^ 64 → wt_code_to_h3 (wt_code_from_h3 h) ≡ h
code_to_h3-code_from_h3 h big word = elim (Bool-cases (carries_no_code h)) [
  | inl outside ↦ ap wt_code_to_h3 (no_code h outside) ∙ big_code h big
  | inr inside ↦
      let e = app_code h word inside in
      let low : wt_app_error_first ≤ h = ground (arith, inside) in
      let high : h ≤ wt_app_error_last = ground (arith, inside) in
      let kept : (sub64 h 0x21) % 0x1f ≢ 0 = ground (arith, inside) in
      let small : wt_code_from_h3 h ≤ 0xffffffff = omega (arith, e, low, high, kept) in
      small_code (wt_code_from_h3 h) small ∙ omega (arith, e, low, high, kept)
]
