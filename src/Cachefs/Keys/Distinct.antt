-- ===== src/Cachefs/Keys/Distinct.antt =====
-- The keys of the program never collide: each tells what it is the key of.
use fuse_using_memcached.Prelude.{
  ℕ, ◌^◌, ◌<◌, ◌≡◌, ◌≢◌, refl, ap, ap₂, ◌∙◌, sym, [], ◌∷◌, ◌++◌, false, ◌==◌, if◌then◌else◌, Bytes,
  codes, same, same_iff, length, get_or, All, arith, ne→==, Bool-cases, inl, inr,
}
use fuse_using_memcached.Machine.Decimal.{decimal}
use fuse_using_memcached.Machine.Decimal.Laws.{
  IsDigit, value, decimal-IsDigit, value-decimal, sprintf_d-decimal, decimal_pos,
}
use fuse_using_memcached.Cachefs.Keys.{child_key, data_key, xattr_key}
use fuse_using_memcached.Cachefs.Keys.Laws.{IsPath}

-- What the program keeps under a key.
pub data Name : Type 0 where
  header_of : Bytes → Name
  child_of data_of xattr_of : ℕ → Bytes → Name
  stats : Name

unfoldable pub key_of : Name → Bytes
key_of (header_of p) = p
key_of (child_of i p) = child_key i p
key_of (data_of i p) = data_key i p
key_of (xattr_of i p) = xattr_key i p
key_of stats = codes "stats"

abbrev pub IsName : Name → Type 0
IsName (header_of p) = IsPath p
IsName (child_of i p) = (i < 2 ^ 31) × IsPath p
IsName (data_of i p) = (i < 2 ^ 31) × IsPath p
IsName (xattr_of i p) = (i < 2 ^ 31) × IsPath p
IsName stats = Unit {0}

before_slash : Bytes → Bytes
before_slash [] = []
before_slash (c ∷ s) = if c == b'/' then [] else c ∷ before_slash s

from_slash : Bytes → Bytes
from_slash [] = []
from_slash (c ∷ s) = if c == b'/' then c ∷ s else from_slash s

before_slash-digits :
    (d p : Bytes) → All IsDigit d → get_or p 0 0 ≡ b'/' → before_slash (d ++ p) ≡ d
unfolding before_slash
before_slash-digits [] [] h e = refl
before_slash-digits [] (c ∷ p) h e = ground arith
before_slash-digits (c ∷ d) p (h, hs) e =
    rw (ne→== c b'/' (omega arith)) (ap (◌∷◌ c) (before_slash-digits d p hs e))

from_slash-digits : (d p : Bytes) → All IsDigit d → get_or p 0 0 ≡ b'/' → from_slash (d ++ p) ≡ p
unfolding from_slash
from_slash-digits [] [] h e = refl
from_slash-digits [] (c ∷ p) h e = ground arith
from_slash-digits (c ∷ d) p (h, hs) e = rw (ne→== c b'/' (omega arith)) (from_slash-digits d p hs e)

-- The number and the path that a key spells.
number_in : Bytes → ℕ
number_in s = value 0 (before_slash s)

module _ (i : ℕ) (p : Bytes) (small : i < 2 ^ 31) (h : IsPath p) where
  number_in-child_key : number_in (child_key i p) ≡ i
  unfolding number_in child_key
  number_in-child_key =
      rw (sprintf_d-decimal i small, before_slash-digits (decimal i) p (decimal-IsDigit i) h.rooted)
        (value-decimal i (omega arith))

  from_slash-child_key : from_slash (child_key i p) ≡ p
  unfolding child_key
  from_slash-child_key =
      rw (sprintf_d-decimal i small) (from_slash-digits (decimal i) p (decimal-IsDigit i) h.rooted)

child_key-split : (i : ℕ) (p : Bytes) → i < 2 ^ 31 → child_key i p ≡ decimal i ++ p
unfolding child_key
child_key-split i p small = rw (sprintf_d-decimal i small)

-- What a key is the key of, from its first byte, its number and its path.
pub name_of : Bytes → Name
name_of [] = stats
name_of (c ∷ s) =
    if c == b'/'
    then header_of (c ∷ s)
    else if c == b'&'
    then data_of (number_in s) (from_slash s)
    else if c == b'$'
    then xattr_of (number_in s) (from_slash s)
    else if c == b's'
    then stats
    else child_of (number_in (c ∷ s)) (from_slash (c ∷ s))

name_of-child :
    (d p : Bytes)
    → All IsDigit d
    → 0 < length d
    → name_of (d ++ p) ≡ child_of (number_in (d ++ p)) (from_slash (d ++ p))
unfolding name_of
name_of-child [] p h k = absurd (omega arith)
name_of-child (c ∷ d) p (h, hs) k = ground arith

name_of-data_key :
    (i : ℕ) (p : Bytes) → i < 2 ^ 31 → IsPath p → name_of (data_key i p) ≡ data_of i p
unfolding name_of data_key child_key
name_of-data_key i p k h = ap₂ data_of (number_in-child_key i p k h) (from_slash-child_key i p k h)

name_of-xattr_key :
    (i : ℕ) (p : Bytes) → i < 2 ^ 31 → IsPath p → name_of (xattr_key i p) ≡ xattr_of i p
unfolding name_of xattr_key child_key
name_of-xattr_key i p k h =
    ap₂ xattr_of (number_in-child_key i p k h) (from_slash-child_key i p k h)

-- The name is read back from its key.
pub name_of-key_of : (n : Name) → IsName n → name_of (key_of n) ≡ n
unfolding name_of key_of
name_of-key_of (header_of []) h = absurd (omega (arith, h.rooted))
name_of-key_of (header_of (c ∷ p)) h = let e = h.rooted in ground arith
name_of-key_of (child_of i p) (k, h) = rw (child_key-split i p k) (
    name_of-child (decimal i) p (decimal-IsDigit i) (decimal_pos i)
    ∙ rw (← child_key-split i p k)
        (ap₂ child_of (number_in-child_key i p k h) (from_slash-child_key i p k h)))
name_of-key_of (data_of i p) (k, h) = name_of-data_key i p k h
name_of-key_of (xattr_of i p) (k, h) = name_of-xattr_key i p k h
name_of-key_of stats h = refl

-- Two keys are equal only if they are the keys of the same thing.
pub key_of-injective : (a b : Name) → IsName a → IsName b → key_of a ≡ key_of b → a ≡ b
key_of-injective a b ha hb e = sym (name_of-key_of a ha) ∙ ap name_of e ∙ name_of-key_of b hb

abbrev pub kind : Name → ℕ
kind (header_of p) = 0
kind (child_of i p) = 1
kind (data_of i p) = 2
kind (xattr_of i p) = 3
kind stats = 4

pub same-ne : (xs ys : Bytes) → xs ≢ ys → same xs ys ≡ false
same-ne xs ys h = elim (Bool-cases (same xs ys)) [
  | inl e ↦ absurd (h ((same_iff xs ys).0 e))
  | inr e ↦ e
]

module _ (i : ℕ) {p q : Bytes} (small : i < 2 ^ 31) (hp : IsPath p) (hq : IsPath q) where
  pub child_key-path : same (child_key i p) q ≡ false
  unfolding key_of
  child_key-path = same-ne _ _ λ e.
      absurd
        (omega (arith, ap kind (key_of-injective (child_of i p) (header_of q) (small, hp) hq e)))

  pub path-child_key : same q (child_key i p) ≡ false
  unfolding key_of
  path-child_key = same-ne _ _ λ e.
      absurd
        (omega (arith, ap kind (key_of-injective (header_of q) (child_of i p) hq (small, hp) e)))

abbrev index : Name → ℕ
index (header_of p) = 0
index (child_of i p) = i
index (data_of i p) = i
index (xattr_of i p) = i
index stats = 0

module _ {i j : ℕ} {p q : Bytes} (si : i < 2 ^ 31) (sj : j < 2 ^ 31) (hp : IsPath p)
    (hq : IsPath q) where
  pub child_key-child_key : i ≢ j → same (child_key i p) (child_key j q) ≡ false
  unfolding key_of
  child_key-child_key ne =
      same-ne _ _
        λ e. ne (ap index (key_of-injective (child_of i p) (child_of j q) (si, hp) (sj, hq) e))

  pub data_key-data_key : i ≢ j → same (data_key i p) (data_key j q) ≡ false
  unfolding key_of
  data_key-data_key ne =
      same-ne _ _
        λ e. ne (ap index (key_of-injective (data_of i p) (data_of j q) (si, hp) (sj, hq) e))

module _ (i : ℕ) {p q : Bytes} (small : i < 2 ^ 31) (hp : IsPath p) (hq : IsPath q) where
  pub data_key-path : same (data_key i p) q ≡ false
  unfolding key_of
  data_key-path = same-ne _ _ λ e.
      absurd
        (omega (arith, ap kind (key_of-injective (data_of i p) (header_of q) (small, hp) hq e)))

  pub path-data_key : same q (data_key i p) ≡ false
  unfolding key_of
  path-data_key = same-ne _ _ λ e.
      absurd
        (omega (arith, ap kind (key_of-injective (header_of q) (data_of i p) hq (small, hp) e)))

-- Things of different kinds have different keys.
pub key_of-ne_kind :
    (a b : Name) → IsName a → IsName b → kind a ≢ kind b → same (key_of a) (key_of b) ≡ false
key_of-ne_kind a b ha hb ne =
    same-ne (key_of a) (key_of b) (λ e. ne (ap kind (key_of-injective a b ha hb e)))
