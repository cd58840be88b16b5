-- ===== src/Cachefs/Keys/Laws.antt =====
-- Which keys memcached takes, and where the parent of a path is.
use fuse_using_memcached.Prelude.{
  ℕ, zero, suc, ◌^◌, ◌≤◌, ◌<◌, ◌≡◌, ap, inl, inr, [], ◌∷◌, false, some, Bytes, same, same_iff,
  length, get_or, All, All-append, arith, max, length-append, length-take, Bool-cases,
}
use fuse_using_memcached.Machine.Decimal.{decimal}
use fuse_using_memcached.Machine.Decimal.Laws.{
  IsDigit, decimal-IsDigit, length-decimal, sprintf_d-decimal,
}
use fuse_using_memcached.Memcache.Server.{IsKey, IsKeyByte}
use fuse_using_memcached.Cachefs.Keys.{root, child_key, data_key, xattr_key, parent_loop, parent_of}

-- A path that the fixed arrays of the program have room for, with every prefix that it gets.
pub record IsPath (p : Bytes) : Type 0 where
  pub rooted : get_or p 0 0 ≡ b'/'
  pub short : length p ≤ 238
  pub plain : All IsKeyByte p

pub IsPath-IsKey : {p : Bytes} → IsPath p → IsKey p
IsPath-IsKey {p} h = record {
  filled = nonempty p h.rooted;
  short = omega (arith, h.short);
  plain = h.plain;
}
  where
    nonempty : (q : Bytes) → get_or q 0 0 ≡ b'/' → 0 < length q
    nonempty [] e = absurd (omega arith)
    nonempty (c ∷ q) e = omega arith

digit_plain : (s : Bytes) → All IsDigit s → All IsKeyByte s
digit_plain [] h = tt
digit_plain (c ∷ s) (h, hs) = ((omega arith, omega arith), digit_plain s hs)

module _ (i : ℕ) {p : Bytes} (small : i < 2 ^ 31) (h : IsPath p) where
  pub length-child_key : length (child_key i p) ≤ 248
  unfolding child_key
  length-child_key =
      let short = h.short in
      rw (sprintf_d-decimal i small) (omega (arith, length-append (decimal i) p, length-decimal i))

  pub child_key-IsKey : IsKey (child_key i p)
  unfolding child_key
  child_key-IsKey = record {
    filled =
        let full = (IsPath-IsKey h).filled in
        rw (sprintf_d-decimal i small) (omega (arith, length-append (decimal i) p));
    short = omega (arith, length-child_key);
    plain =
        rw (sprintf_d-decimal i small) (
          All-append IsKeyByte (decimal i) p (digit_plain (decimal i) (decimal-IsDigit i)) h.plain);
  }

  pub length-data_key : length (data_key i p) ≤ 249
  unfolding data_key child_key
  length-data_key = omega (arith, length-child_key)

  pub data_key-IsKey : IsKey (data_key i p)
  unfolding data_key child_key
  data_key-IsKey = record {
    filled = omega arith;
    short = omega (arith, length-child_key);
    plain = ((omega arith, omega arith), child_key-IsKey.plain);
  }

  pub length-xattr_key : length (xattr_key i p) ≤ 249
  unfolding xattr_key child_key
  length-xattr_key = omega (arith, length-child_key)

  pub xattr_key-IsKey : IsKey (xattr_key i p)
  unfolding xattr_key child_key
  xattr_key-IsKey = record {
    filled = omega arith;
    short = omega (arith, length-child_key);
    plain = ((omega arith, omega arith), child_key-IsKey.plain);
  }

parent_loop-length :
    (len : ℕ) (path p : Bytes) → parent_loop len path ≡ some p → length p ≤ max 1 len
unfolding parent_loop
parent_loop-length zero path p e = ground (arith, length-take 1 path)
parent_loop-length (suc len) path p e =
    ground (arith, length-take (suc len) path, parent_loop-length len path p)

-- Every path but the root is longer than its parent.
pub parent_of-lt :
    (path p : Bytes) → same path root ≡ false → parent_of path ≡ some p → length p < length path
unfolding parent_of
parent_of-lt [] p h e = cc
parent_of-lt (c ∷ []) p h e = ground (arith, same_iff (c ∷ []) root)
parent_of-lt (c ∷ d ∷ path) p h e =
    ground (arith, parent_loop-length (suc (length path)) (c ∷ d ∷ path) p)

pub ne_parent :
    (path p : Bytes) → same path root ≡ false → parent_of path ≡ some p → same path p ≡ false
ne_parent path p h e = elim (Bool-cases (same path p)) [
  | inl eq ↦ absurd (omega (arith, parent_of-lt path p h e, ap length ((same_iff path p).0 eq)))
  | inr ne ↦ ne
]
