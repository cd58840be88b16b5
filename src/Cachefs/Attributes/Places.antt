-- ===== src/Cachefs/Attributes/Places.antt =====
-- The list of attributes of cachedfs/main.c, when one place gets another attribute and the last is dropped.
use fuse_using_memcached.Prelude.{
  ℕ, zero, suc, ◌+◌, ◌≤◌, ◌<◌, ◌≡◌, ◌≢◌, [], ◌∷◌, ◌++◌, Option, some, Bytes, List, same, length,
  set, arith, Bool-cases, inl, inr,
}
use fuse_using_memcached.Memcache.Server.{Memcached}
use fuse_using_memcached.Cachefs.Keys.{xattr_key}
use fuse_using_memcached.Cachefs.Attributes.Stored.{Xattr}
use fuse_using_memcached.Cachefs.Attributes.Listed.{HasXattr, Held, HasXattr-agree, Held-agree}
use fuse_using_memcached.Cachefs.Attributes.Finding.{find_first}

same_place :
    (i j : ℕ) (x y : Xattr) → ◌≡◌ {A = Option (ℕ × Xattr)} (some (i, x)) (some (j, y)) → i ≡ j
same_place i j x y e = cc

pub find_first-bounds :
    (i j : ℕ) (name : Bytes) (x : Xattr) (xs : List Xattr)
    → find_first i name xs ≡ some (j, x)
    → (i ≤ j) × (j < i + length xs)
find_first-bounds i j name x [] e = cc
find_first-bounds i j name x (y ∷ ys) e = elim (Bool-cases (same name y.name)) [
  | inl t ↦ (let here = same_place i j y x (rw t at e) in (omega arith, omega arith))
  | inr t ↦
      (let (lo, hi) = find_first-bounds (suc i) j name x ys (rw t at e) in
        (omega arith, omega arith))
]

module _ (m : Memcached) (s t : m.State) (path : Bytes) where
  open m use {view}

  pub Held-first : (i : ℕ) (xs ys : List Xattr) → Held m s path i (xs ++ ys) → Held m s path i xs
  Held-first i [] ys h = tt
  Held-first i (x ∷ xs) ys (hx, h) = (hx, Held-first (suc i) xs ys h)

  pub Held-last :
      (i : ℕ) (xs : List Xattr) (x : Xattr)
      → Held m s path i (xs ++ (x ∷ []))
      → HasXattr m s path (i + length xs) x
  Held-last i [] x (hx, h) = let e : i + 0 ≡ i = omega arith in rw e hx
  Held-last i (y ∷ xs) x (hy, h) =
      let e : i + suc (length xs) ≡ suc i + length xs = omega arith in
      rw e (Held-last (suc i) xs x h)

  -- The other places stay.
  pub Held-set :
      (i k : ℕ) (xs : List Xattr) (x : Xattr)
      → ((j : ℕ)
          → i ≤ j
          → j < i + length xs
          → j ≢ i + k
          → view t (xattr_key j path) ≡ view s (xattr_key j path))
      → (k < length xs → HasXattr m t path (i + k) x)
      → Held m s path i xs
      → Held m t path i (set xs k x)
  Held-set i k [] x others placed h = tt
  Held-set i zero (y ∷ xs) x others placed (hy, h) =
      let e : i + 0 ≡ i = omega arith in
      (
        rw e at (placed (omega arith)),
        Held-agree m s t path (suc i) xs
            (λ j lo hi. others j (omega arith) (omega arith) (λ e. absurd (omega arith))) h,
      )
  Held-set i (suc k) (y ∷ xs) x others placed (hy, h) =
      let e : i + suc k ≡ suc i + k = omega arith in
      (
        HasXattr-agree m s t path i y
            (others i (omega arith) (omega arith) (λ e. absurd (omega arith))) hy,
        Held-set (suc i) k xs x
            (λ j lo hi ne. others j (omega arith) (omega arith) (λ e. absurd (ne (omega arith))))
            (λ lt. rw e at (placed (omega arith))) h,
      )
