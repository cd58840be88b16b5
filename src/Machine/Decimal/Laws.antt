-- ===== src/Machine/Decimal/Laws.antt =====
-- A decimal print consists of digits and spells its number.
use fuse_using_memcached.Prelude.{
  ℕ, zero, suc, ◌+◌, ◌-◌, ◌*◌, ◌/◌, ◌%◌, ◌^◌, ◌≤◌, ◌<◌, ◌≡◌, sym, [], ◌∷◌, ◌∙◌, ap, arith, inl, inr,
  Bool-cases, ◌==◌, Bytes, All, length,
}
use fuse_using_memcached.Machine.Decimal.{digits, decimal, sprintf_d}
use native.Mathlib.Nat.{pow-suc}

abbrev pub IsDigit : ℕ → Type 0
IsDigit c = (b'0' ≤ c) × (c ≤ b'9')

-- The number that digits spell behind `n`.
abbrev pub value : ℕ → Bytes → ℕ
value n [] = n
value n (c ∷ s) = value (n * 10 + (c - b'0')) s

digits-IsDigit : (f n : ℕ) (out : Bytes) → All IsDigit out → All IsDigit (digits f n out)
unfolding digits
digits-IsDigit zero n out h = h
digits-IsDigit (suc f) n out h = elim (Bool-cases (n / 10 == 0)) [
  | inl e ↦ rw e (omega arith, h)
  | inr e ↦ rw e (digits-IsDigit f (n / 10) _ (omega arith, h))
]

value-digits :
    (f n : ℕ) (out : Bytes) → n < 10 ^ suc f → value 0 (digits (suc f) n out) ≡ value n out
unfolding digits
value-digits zero n out h = ground arith
value-digits (suc f) n out h = elim (Bool-cases (n / 10 == 0)) [
  | inl e ↦ rw e (ground arith)
  | inr e ↦ rw e (
      value-digits f (n / 10) ((b'0' + n % 10) ∷ out) (omega (arith, pow-suc 10 (suc f)))
      ∙ ap (λ m. value m out) (omega arith))
]

length-digits : (f n : ℕ) (out : Bytes) → length (digits f n out) ≤ f + length out
unfolding digits
length-digits zero n out = omega arith
length-digits (suc f) n out = ground (arith, length-digits f (n / 10) ((b'0' + n % 10) ∷ out))

pub decimal-IsDigit : (n : ℕ) → All IsDigit (decimal n)
unfolding decimal
decimal-IsDigit n = digits-IsDigit 10 n [] tt

-- A print spells the number that it was made from.
pub value-decimal : (n : ℕ) → n < 10 ^ 10 → value 0 (decimal n) ≡ n
unfolding decimal
value-decimal n h = value-digits 9 n [] h

pub length-decimal : (n : ℕ) → length (decimal n) ≤ 10
unfolding decimal
length-decimal n = omega (arith, length-digits 10 n [])

pub decimal-injective : (m n : ℕ) → m < 10 ^ 10 → n < 10 ^ 10 → decimal m ≡ decimal n → m ≡ n
decimal-injective m n hm hn e = sym (value-decimal m hm) ∙ ap (value 0) e ∙ value-decimal n hn

-- Up to 2 ^ 31 an `int` prints as its pattern.
pub sprintf_d-decimal : (w : ℕ) → w < 2 ^ 31 → sprintf_d w ≡ decimal w
unfolding sprintf_d
sprintf_d-decimal w h = ground arith

lt-digits : (f n : ℕ) (out : Bytes) → length out < length (digits (suc f) n out)
unfolding digits
lt-digits zero n out = ground arith
lt-digits (suc f) n out = ground (arith, lt-digits f (n / 10) ((b'0' + n % 10) ∷ out))

pub decimal_pos : (n : ℕ) → 0 < length (decimal n)
unfolding decimal
decimal_pos n = lt-digits 9 n []
