-- ===== src/Prelude/Splice.antt =====
-- Bytes written over a part of a list, from an offset on, and equality of lists by their places.
use Prim.Native.Nat.{ℕ, zero, suc, ◌+◌, ◌-◌, ◌≤◌, ◌<◌, max}
use mathlib.Core.Path.{◌≡◌, refl, sym, ap, ap₂, ◌∙◌}
use mathlib.Core.Logic.{◌⊎◌, inl, inr}
use mathlib.Core.List.{[], ◌∷◌, ◌++◌, append-nil}
use fuse_using_memcached.Prelude.Slices.{drop-nil}
use native.Mathlib.Omega.{arith}
use fuse_using_memcached.Prelude.Tests.{
  ltb, if◌then◌else◌, Bool-cases, lt→ltb, le→ltb_false, ltb→lt, ltb_false→le,
}
use fuse_using_memcached.Prelude.Lists.{
  Bytes, length, get_or, take, drop, length-take, length-drop, length-append, take-append-drop,
  get_or-append_left,
}

pub list_ext :
    (xs ys : Bytes)
    → length xs ≡ length ys
    → ((i : ℕ) → i < length xs → get_or xs i 0 ≡ get_or ys i 0)
    → xs ≡ ys
list_ext [] [] e h = refl
list_ext [] (y ∷ ys) e h = absurd (omega arith)
list_ext (x ∷ xs) [] e h = absurd (omega arith)
list_ext (x ∷ xs) (y ∷ ys) e h =
    ap₂ ◌∷◌ (h 0 (omega arith)) (list_ext xs ys (omega arith) (λ i lt. h (suc i) (omega arith)))

pub get_or-take :
    (n : ℕ) (xs : Bytes) (i : ℕ) → get_or (take n xs) i 0 ≡ (if ltb i n then get_or xs i 0 else 0)
get_or-take zero xs i = ground arith
get_or-take (suc n) [] i = ground arith
get_or-take (suc n) (x ∷ xs) zero = ground arith
get_or-take (suc n) (x ∷ xs) (suc i) = ground (arith, get_or-take n xs i)

pub get_or-drop : (n : ℕ) (xs : Bytes) (i : ℕ) → get_or (drop n xs) i 0 ≡ get_or xs (n + i) 0
get_or-drop zero xs i = ap (λ j. get_or xs j 0) (omega arith)
get_or-drop (suc n) [] i = refl
get_or-drop (suc n) (x ∷ xs) i =
    let e : suc n + i ≡ suc (n + i) = omega arith in
    get_or-drop n xs i ∙ ap (λ j. get_or (x ∷ xs) j 0) (sym e)

pub get_or-append :
    (xs ys : Bytes) (i : ℕ)
    → get_or (xs ++ ys) i 0
      ≡ (if ltb i (length xs) then get_or xs i 0 else get_or ys (i - length xs) 0)
get_or-append [] ys i =
    let e : i - 0 ≡ i = omega arith in rw (le→ltb_false i 0 (omega arith), e) refl
get_or-append (x ∷ xs) ys zero = ground arith
get_or-append (x ∷ xs) ys (suc i) = ground (arith, get_or-append xs ys i)

unfoldable pub splice : (offset : ℕ) (bytes xs : Bytes) → Bytes
splice offset bytes xs = take offset xs ++ (bytes ++ drop (offset + length bytes) xs)

module _ (o : ℕ) (c xs : Bytes) (inside : o ≤ length xs) where
  pub length-splice : length (splice o c xs) ≡ max (length xs) (o + length c)
  unfolding splice
  length-splice = omega (
    arith,
    length-append (take o xs) (c ++ drop (o + length c) xs),
    length-append c (drop (o + length c) xs),
    length-take o xs,
    length-drop (o + length c) xs,
  )

  pub splice_before : (i : ℕ) → i < o → get_or (splice o c xs) i 0 ≡ get_or xs i 0
  unfolding splice
  splice_before i lt =
      let front = length-take o xs in
      get_or-append (take o xs) (c ++ drop (o + length c) xs) i
      ∙ rw (lt→ltb i (length (take o xs)) (omega arith), get_or-take o xs i, lt→ltb i o lt) refl

  pub splice_in :
      (i : ℕ) → o ≤ i → i < o + length c → get_or (splice o c xs) i 0 ≡ get_or c (i - o) 0
  unfolding splice
  splice_in i lo hi =
      let front : length (take o xs) ≡ o = omega (arith, length-take o xs) in
      get_or-append (take o xs) (c ++ drop (o + length c) xs) i
      ∙ rw (front, le→ltb_false i o lo)
          (get_or-append c (drop (o + length c) xs) (i - o)
            ∙ rw (lt→ltb (i - o) (length c) (omega arith)) refl)

  pub splice_behind : (i : ℕ) → o + length c ≤ i → get_or (splice o c xs) i 0 ≡ get_or xs i 0
  unfolding splice
  splice_behind i le =
      let front : length (take o xs) ≡ o = omega (arith, length-take o xs) in
      get_or-append (take o xs) (c ++ drop (o + length c) xs) i
      ∙ rw (front, le→ltb_false i o (omega arith))
          (get_or-append c (drop (o + length c) xs) (i - o)
            ∙ rw (le→ltb_false (i - o) (length c) (omega arith)) (
                get_or-drop (o + length c) xs (i - o - length c)
                ∙ ap (λ j. get_or xs j 0) (omega arith)))

pub position : (lo n i : ℕ) → (i < lo) ⊎ (((lo ≤ i) × (i < lo + n)) ⊎ (lo + n ≤ i))
position lo n i = elim (Bool-cases (ltb i lo)) [
  | inl e ↦ inl (ltb→lt i lo e)
  | inr e ↦ elim (Bool-cases (ltb i (lo + n))) [
    | inl f ↦ inr (inl (ltb_false→le i lo e, ltb→lt i (lo + n) f))
    | inr f ↦ inr (inr (ltb_false→le i (lo + n) f))
  ]
]

pub splice-nil : (o : ℕ) (xs : Bytes) → splice o [] xs ≡ xs
unfolding splice
splice-nil o xs =
    let e : o + 0 ≡ o = omega arith in ap (λ j. take o xs ++ drop j xs) e ∙ take-append-drop o xs

pub splice-empty : (o : ℕ) (c xs : Bytes) → o ≡ 0 → length xs ≡ 0 → splice o c xs ≡ c
unfolding splice
splice-empty zero c [] e h = ap (λ t. c ++ t) (drop-nil (0 + length c)) ∙ append-nil c
splice-empty zero c (x ∷ xs) e h = absurd (omega arith)
splice-empty (suc o) c xs e h = absurd (omega arith)

-- One write behind another is one write.
pub splice-append :
    (o : ℕ) (a b xs : Bytes)
    → o ≤ length xs
    → splice (o + length a) b (splice o a xs) ≡ splice o (a ++ b) xs
splice-append o a b xs inside =
    let ys = splice o a xs in
    let first = length-splice o a xs inside in
    let both = length-append a b in
    let fits : o + length a ≤ length ys = omega arith in
    let size = length-splice (o + length a) b ys fits in
    let whole = length-splice o (a ++ b) xs inside in
    list_ext (splice (o + length a) b ys) (splice o (a ++ b) xs) (omega arith) (λ i lt.
      elim (position o (length a) i) [
        | inl before ↦
            splice_before (o + length a) b ys fits i (omega arith)
            ∙ splice_before o a xs inside i before
            ∙ sym (splice_before o (a ++ b) xs inside i before)
        | inr (inl (lo, hi)) ↦
            splice_before (o + length a) b ys fits i hi
            ∙ splice_in o a xs inside i lo hi
            ∙ sym (get_or-append_left a b (i - o) 0 (omega arith))
            ∙ sym (splice_in o (a ++ b) xs inside i lo (omega arith))
        | inr (inr behind) ↦ elim (position (o + length a) (length b) i) [
          | inl before ↦ absurd (omega arith)
          | inr (inl (lo, hi)) ↦
              let shifted : i - (o + length a) ≡ i - o - length a = omega arith in
              splice_in (o + length a) b ys fits i lo hi
              ∙ ap (λ j. get_or b j 0) shifted
              ∙ sym (
                  get_or-append a b (i - o)
                  ∙ rw (le→ltb_false (i - o) (length a) (omega arith)) refl)
              ∙ sym (splice_in o (a ++ b) xs inside i (omega arith) (omega arith))
          | inr (inr far) ↦
              splice_behind (o + length a) b ys fits i far
              ∙ splice_behind o a xs inside i behind
              ∙ sym (splice_behind o (a ++ b) xs inside i (omega arith))
        ]
      ])
