-- ===== src/Prelude/Slices.antt =====
-- Slices of lists: `take` and `drop` after one another.
use Prim.Native.Nat.{ℕ, zero, suc, ◌+◌, ◌-◌, ◌≤◌, ◌<◌, min}
use mathlib.Core.Path.{◌≡◌, refl, ap, ◌∙◌, sym}
use mathlib.Core.Logic.{inl, inr}
use mathlib.Core.List.{List, [], ◌∷◌, ◌++◌}
use native.Mathlib.Omega.{arith}
use fuse_using_memcached.Prelude.Tests.{leb, Bool-cases, ◌==◌, if◌then◌else◌}
use fuse_using_memcached.Prelude.Lists.{
  set, get_or-set, get_or-append_at, get_or-append_left, length, get_or, take, drop, take-all,
}

module _ {ℓ} {A : Type ℓ} where
  pub drop-nil : (n : ℕ) → drop {A = A} n [] ≡ []
  drop-nil zero = refl
  drop-nil (suc n) = refl

  pub take-nil : (n : ℕ) → take {A = A} n [] ≡ []
  take-nil zero = refl
  take-nil (suc n) = refl

  pub take-min : (k : ℕ) (xs : List A) → take (min (length xs) k) xs ≡ take k xs
  take-min k xs = elim (Bool-cases (leb (length xs) k)) [
    | inl e ↦
        let le : length xs ≤ k = ground arith in
        take-all (min (length xs) k) xs (omega arith) ∙ sym (take-all k xs le)
    | inr e ↦ let lt : k < length xs = ground arith in ap (λ j. take j xs) (omega arith)
  ]

  pub drop-drop : (a b : ℕ) (xs : List A) → drop a (drop b xs) ≡ drop (b + a) xs
  drop-drop a zero xs = ap (λ j. drop j xs) (omega arith)
  drop-drop a (suc b) [] = drop-nil a ∙ sym (drop-nil (suc b + a))
  drop-drop a (suc b) (x ∷ xs) =
      drop-drop a b xs
      ∙ ap (λ j. drop j (x ∷ xs)) (let e : suc (b + a) ≡ suc b + a = omega arith in e)

  pub drop-cons :
      (k : ℕ) (xs : List A) (d : A) → k < length xs → drop k xs ≡ get_or xs k d ∷ drop (suc k) xs
  drop-cons k [] d h = absurd (omega arith)
  drop-cons zero (x ∷ xs) d h = refl
  drop-cons (suc k) (x ∷ xs) d h = drop-cons k xs d (omega arith)

  take-take : (a k : ℕ) (xs : List A) → a ≤ k → take a (take k xs) ≡ take a xs
  take-take zero k xs h = refl
  take-take (suc a) zero xs h = absurd (omega arith)
  take-take (suc a) (suc k) [] h = refl
  take-take (suc a) (suc k) (x ∷ xs) h = ap (◌∷◌ x) (take-take a k xs (omega arith))

  pub take-drop-take :
      (a o k : ℕ) (xs : List A) → o + a ≤ k → take a (drop o (take k xs)) ≡ take a (drop o xs)
  take-drop-take a zero k xs h = take-take a k xs (omega arith)
  take-drop-take a (suc o) zero xs h = absurd (omega arith)
  take-drop-take a (suc o) (suc k) [] h = refl
  take-drop-take a (suc o) (suc k) (x ∷ xs) h = take-drop-take a o k xs (omega arith)

  pub take-more :
      (a n : ℕ) (xs : List A) → a ≤ n → take a xs ++ take (n - a) (drop a xs) ≡ take n xs
  take-more zero n xs h = ap (λ j. take j xs) (omega arith)
  take-more (suc a) zero xs h = absurd (omega arith)
  take-more (suc a) (suc n) [] h = take-nil (suc n - suc a)
  take-more (suc a) (suc n) (x ∷ xs) h =
      ap (◌∷◌ x)
        (ap (λ j. take a xs ++ take j (drop a xs)) (omega arith) ∙ take-more a n xs (omega arith))

  -- The last element put in the place `k`: where an element stood before.
  pub get_or-set_last :
      (front : List A) (last : A) (k i : ℕ) (d : A)
      → i < length front
      → get_or (set front k last) i d
        ≡ get_or (front ++ (last ∷ [])) (if i == k then length front else i) d
  get_or-set_last front last k i d lt =
      get_or-set front k last i d lt ∙ elim (Bool-cases (i == k)) [
        | inl e ↦ rw e (sym (get_or-append_at front last [] d))
        | inr e ↦ rw e (sym (get_or-append_left front (last ∷ []) i d lt))
      ]
