-- ===== src/Cachefs/Refinement/Names.antt =====
-- The names of a directory as a set, when one is added and when one is removed.
use fuse_using_memcached.Prelude.{
  ℕ, zero, suc, ◌+◌, ◌≤◌, ◌<◌, ◌≡◌, ◌≢◌, refl, ap, ◌∙◌, sym, [], ◌∷◌, ◌++◌, Bool, true, false, not,
  ◌&&◌, ◌||◌, List, Bytes, same, same_iff, same_refl, length, get_or, set, arith, length-append,
  length-set, get_or-set_last, Bool-cases, inl, inr, if◌then◌else◌, ◌==◌,
}

unfoldable pub contains : List Bytes → Bytes → Bool
contains [] x = false
contains (n ∷ ns) x = same n x || contains ns x

-- A name that a list contains stands somewhere in it.
pub place_of :
    (ns : List Bytes) (x : Bytes)
    → contains ns x ≡ true
    → (i : ℕ) × (i < length ns) × (get_or ns i [] ≡ x)
unfolding contains
place_of [] x h = cc
place_of (n ∷ ns) x h = elim (Bool-cases (same n x)) [
  | inl e ↦ (0, omega arith, (same_iff n x).0 e)
  | inr e ↦ let (i, lt, at) = place_of ns x (rw e at h) in (suc i, omega arith, at)
]

pub contains-get_or :
    (ns : List Bytes) (x : Bytes) (i : ℕ)
    → i < length ns
    → get_or ns i [] ≡ x
    → contains ns x ≡ true
unfolding contains
contains-get_or [] x i h e = absurd (omega arith)
contains-get_or (n ∷ ns) x zero h e = rw e (rw (same_refl x) refl)
contains-get_or (n ∷ ns) x (suc i) h e = elim (Bool-cases (same n x)) [
  | inl k ↦ rw k refl
  | inr k ↦ rw k (contains-get_or ns x i (omega arith) e)
]

pub contains-append :
    (ns : List Bytes) (n x : Bytes) → contains (ns ++ (n ∷ [])) x ≡ (same n x || contains ns x)
unfolding contains
contains-append [] n x = refl
contains-append (k ∷ ns) n x = ground (arith, contains-append ns n x)

Bool-ext : (a b : Bool) → (a ≡ true → b ≡ true) → (b ≡ true → a ≡ true) → a ≡ b
Bool-ext true b f g = sym (f refl)
Bool-ext false true f g = g refl
Bool-ext false false f g = refl

-- A list with no name twice, of which one is taken out and the last one put in its place.
module _ (front : List Bytes) (last : Bytes)
    (distinct : (i j : ℕ)
      → i < length (front ++ (last ∷ []))
      → j < length (front ++ (last ∷ []))
      → get_or (front ++ (last ∷ [])) i [] ≡ get_or (front ++ (last ∷ [])) j []
      → i ≡ j)
    (k : ℕ) (k_in : k ≤ length front) where
  size_lem : length (front ++ (last ∷ [])) ≡ length front + 1
  size_lem = length-append front (last ∷ [])

  kept :
      (x : Bytes)
      → contains (set front k last) x ≡ true
      → (not (same (get_or (front ++ (last ∷ [])) k []) x) && contains (front ++ (last ∷ [])) x)
        ≡ true
  kept x h =
      let (i, i_in, at) = place_of (set front k last) x h in
      let size = length-set front k last in
      let i_left : i < length front = omega (arith, size) in
      let j = if i == k then length front else i in
      let j_in : j < length (front ++ (last ∷ [])) = ground (arith, size_lem) in
      let at_j : get_or (front ++ (last ∷ [])) j [] ≡ x =
        sym (get_or-set_last front last k i [] i_left) ∙ at in
      elim (Bool-cases (same (get_or (front ++ (last ∷ [])) k []) x)) [
        | inl e ↦
            let j_is_k : j ≡ k =
              distinct j k j_in (omega (arith, size_lem)) (at_j ∙ sym ((same_iff _ x).0 e)) in
            absurd (ground arith)
        | inr e ↦ rw e (contains-get_or (front ++ (last ∷ [])) x j j_in at_j)
      ]

  back :
      (x : Bytes)
      → (not (same (get_or (front ++ (last ∷ [])) k []) x) && contains (front ++ (last ∷ [])) x)
        ≡ true
      → contains (set front k last) x ≡ true
  back x h = elim (Bool-cases (same (get_or (front ++ (last ∷ [])) k []) x)) [
    | inl e ↦ cc
    | inr e ↦
        let (j, j_in, at) = place_of (front ++ (last ∷ [])) x (rw e at h) in
        let other : j ≢ k = λ c.
          let found =
            (same_iff (get_or (front ++ (last ∷ [])) k []) x).1
              (ap (λ q. get_or (front ++ (last ∷ [])) q []) (sym c) ∙ at) in
          cc in
        let i = if j == length front then k else j in
        let i_in : i < length front = ground (arith, size_lem) in
        let same_place : (if i == k then length front else i) ≡ j = ground (arith, size_lem) in
        contains-get_or (set front k last) x i (omega (arith, length-set front k last)) (
          get_or-set_last front last k i [] i_in
          ∙ ap (λ q. get_or (front ++ (last ∷ [])) q []) same_place
          ∙ at)
  ]

  pub contains-set_last :
      (x : Bytes)
      → contains (set front k last) x
        ≡ (not (same (get_or (front ++ (last ∷ [])) k []) x) && contains (front ++ (last ∷ [])) x)
  contains-set_last x = Bool-ext _ _ (kept x) (back x)

pub snoc_view :
    (ns : List Bytes)
    → 0 < length ns
    → (front : List Bytes) × (last : Bytes) × (ns ≡ front ++ (last ∷ []))
snoc_view [] h = absurd (omega arith)
snoc_view (n ∷ []) h = ([], n, refl)
snoc_view (n ∷ k ∷ ns) h =
    let (front, last, e) = snoc_view (k ∷ ns) (omega arith) in (n ∷ front, last, ap (◌∷◌ n) e)
