-- ===== src/Machine/Decimal.antt =====
-- `sprintf("%d")`: the decimal print of an `int`. Its proofs are in the child.
pub mod Laws
use fuse_using_memcached.Prelude.{
  ℕ, zero, suc, ◌+◌, ◌-◌, ◌/◌, ◌%◌, ◌^◌, ◌≡◌, refl, [], ◌∷◌, ltb, ◌==◌, if◌then◌else◌, Bytes, codes,
}
use fuse_using_memcached.Machine.Word.{is_negative, neg}

-- The digits of `n` in front of `out`; the fuel counts the digits written.
unfoldable pub digits : ℕ → ℕ → Bytes → Bytes
digits zero n out = out
digits (suc fuel) n out =
    let rest = digits fuel (n / 10) ((b'0' + n % 10) ∷ out) in
    if n / 10 == 0 then (b'0' + n % 10) ∷ out else rest

-- Ten digits are enough for 32 bits.
unfoldable pub decimal : ℕ → Bytes
unfolding digits
decimal n = digits 10 n []

unfoldable pub sprintf_d : ℕ → Bytes
sprintf_d w = if is_negative w then b'-' ∷ decimal (neg w) else decimal w

sprintf_d-of_1024 : sprintf_d 1024 ≡ codes "1024"
unfolding sprintf_d decimal
sprintf_d-of_1024 = refl

sprintf_d-of_minus_one : sprintf_d (neg 1) ≡ codes "-1"
unfolding sprintf_d decimal
sprintf_d-of_minus_one = refl
