-- ===== src/Machine/Word.antt =====
-- An `int` is its bit pattern, a number below 2 ^ 32, stored as four bytes, the lowest first.
use fuse_using_memcached.Prelude.{
  ℕ, ◌+◌, ◌-◌, ◌*◌, ◌/◌, ◌%◌, ◌^◌, ◌<◌, ◌≡◌, [], ◌∷◌, Bool, arith, ltb, leb, if◌then◌else◌, Bytes,
}

-- -n as an `int`.
abbrev pub neg : ℕ → ℕ
neg n = 2 ^ 32 - n

abbrev pub int_add : ℕ → ℕ → ℕ
int_add a b = (a + b) % 2 ^ 32

abbrev pub int_sub : ℕ → ℕ → ℕ
int_sub a b = (a + 2 ^ 32 - b) % 2 ^ 32

abbrev pub is_negative : ℕ → Bool
is_negative w = leb (2 ^ 31) w

-- An `int` as a 64-bit number, such as an `off_t`.
abbrev pub sign_extend : ℕ → ℕ
sign_extend w = if is_negative w then w + (2 ^ 64 - 2 ^ 32) else w

-- a < b for `int`s: adding 2 ^ 31 to both turns the signed order into the order of the patterns.
abbrev pub int_ltb : ℕ → ℕ → Bool
int_ltb a b = ltb ((a + 2 ^ 31) % 2 ^ 32) ((b + 2 ^ 31) % 2 ^ 32)

abbrev pub int_leb : ℕ → ℕ → Bool
int_leb a b = leb ((a + 2 ^ 31) % 2 ^ 32) ((b + 2 ^ 31) % 2 ^ 32)

-- The bytes of an `int`, and the `int` of four bytes.
abbrev pub int_bytes : ℕ → Bytes
int_bytes w = w % 256 ∷ (w / 256) % 256 ∷ (w / 65536) % 256 ∷ (w / 16777216) % 256 ∷ []

abbrev pub int_of : ℕ → ℕ → ℕ → ℕ → ℕ
int_of a b c d = a + 256 * b + 65536 * c + 16777216 * d

pub int_of-int_bytes :
    (w : ℕ)
    → w < 2 ^ 32
    → int_of (w % 256) ((w / 256) % 256) ((w / 65536) % 256) ((w / 16777216) % 256) ≡ w
int_of-int_bytes w h = omega arith
