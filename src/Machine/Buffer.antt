-- ===== src/Machine/Buffer.antt =====
-- C memory: a block of bytes with its size. What was never written is part of its content. An
-- access that depends on data is checked against the size where the programs make it.
pub mod Laws
pub mod Parts
use fuse_using_memcached.Prelude.{
  ℕ, zero, suc, ◌+◌, ◌-◌, ◌≤◌, ◌<◌, Bool, true, false, ◌&&◌, [], ◌∷◌, ltb, leb, ◌==◌, if◌then◌else◌,
  Option, none, some, Bytes, length, get_or,
}
use fuse_using_memcached.Machine.Word.{int_of, int_bytes}

pub record Buffer : Type 0 where
  pub size : ℕ
  pub at : ℕ → ℕ

-- `malloc(n)`, or a local array, over memory that holds `junk`.
abbrev pub block : ℕ → (ℕ → ℕ) → Buffer
block n junk = record { size = n; at = junk }

abbrev pub within : ℕ → ℕ → ℕ → Bool
within off n i = leb off i && ltb i (off + n)

-- `memcpy(b + off, bytes, n)`
abbrev pub store : ℕ → Bytes → Buffer → Buffer
store off bytes b = record b {
  at = λ i. if within off (length bytes) i then get_or bytes (i - off) 0 else b.at i;
}

-- `n` bytes from `b + off`
unfoldable pub load : ℕ → ℕ → Buffer → Bytes
load off zero b = []
load off (suc n) b = b.at off ∷ load (suc off) n b

-- `*(int *)(b + off)`
abbrev pub load_int : ℕ → Buffer → ℕ
load_int off b = int_of (b.at off) (b.at (off + 1)) (b.at (off + 2)) (b.at (off + 3))

abbrev pub store_int : ℕ → ℕ → Buffer → Buffer
store_int off w b = store off (int_bytes w) b

-- The string that an array holds: its bytes up to the first zero byte.
unfoldable pub c_string : Bytes → Bytes
c_string [] = []
c_string (c ∷ s) = if c == 0 then [] else c ∷ c_string s
