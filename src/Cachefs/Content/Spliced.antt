-- ===== src/Cachefs/Content/Spliced.antt =====
-- The parts of a file's bytes in its buckets, when a part of one bucket is written over.
use fuse_using_memcached.Prelude.{
  ℕ, ◌+◌, ◌-◌, ◌*◌, ◌≤◌, ◌<◌, ◌≡◌, ◌≢◌, ap, ◌∙◌, sym, inl, inr, Bytes, length, get_or, drop, arith,
  lt→ltb, list_ext, get_or-take, get_or-drop, splice, length-splice, splice_before, splice_in,
  splice_behind, position,
}
use fuse_using_memcached.Cachefs.Content.Files.{part, length-part}

get_or-part :
    (q : ℕ) (xs : Bytes) (j : ℕ) → j < 1024 → get_or (part q xs) j 0 ≡ get_or xs (1024 * q + j) 0
get_or-part q xs j lt =
    get_or-take 1024 (drop (1024 * q) xs) j ∙ rw (lt→ltb j 1024 lt) (get_or-drop (1024 * q) xs j)

-- The bytes `c`, written at `o` in the bucket `q`.
module _ (q o : ℕ) (c xs : Bytes) (inside : o ≤ length xs) (low : 1024 * q ≤ o)
    (high : o + length c ≤ 1024 * q + 1024) where
  pub part-splice_other :
      (i : ℕ) → i ≢ q → 1024 * i < length (splice o c xs) → part i (splice o c xs) ≡ part i xs
  part-splice_other i ne lt =
      let ys = splice o c xs in
      let size = length-splice o c xs inside in
      let new = length-part i ys in
      let old = length-part i xs in
      let same_length : length (part i ys) ≡ length (part i xs) = omega arith in
      list_ext (part i ys) (part i xs) same_length (λ j less.
        get_or-part i ys j (omega arith)
        ∙ elim (position o (length c) (1024 * i + j)) [
          | inl before ↦ splice_before o c xs inside (1024 * i + j) before
          | inr (inl (lo, hi)) ↦ absurd (ne (omega arith))
          | inr (inr behind) ↦ splice_behind o c xs inside (1024 * i + j) behind
        ]
        ∙ sym (get_or-part i xs j (omega arith)))

  pub start_inside : o - 1024 * q ≤ length (part q xs)
  start_inside = let old = length-part q xs in omega arith

  pub part-splice_here : part q (splice o c xs) ≡ splice (o - 1024 * q) c (part q xs)
  part-splice_here =
      let ys = splice o c xs in
      let p = part q xs in
      let start = o - 1024 * q in
      let size = length-splice o c xs inside in
      let new = length-part q ys in
      let old = length-part q xs in
      let made = length-splice start c p start_inside in
      list_ext (part q ys) (splice start c p) (omega arith) (λ j less.
        get_or-part q ys j (omega arith) ∙ elim (position start (length c) j) [
          | inl before ↦
              splice_before o c xs inside (1024 * q + j) (omega arith)
              ∙ sym (get_or-part q xs j (omega arith))
              ∙ sym (splice_before start c p start_inside j before)
          | inr (inl (lo, hi)) ↦
              let shifted : 1024 * q + j - o ≡ j - start = omega arith in
              splice_in o c xs inside (1024 * q + j) (omega arith) (omega arith)
              ∙ ap (λ k. get_or c k 0) shifted
              ∙ sym (splice_in start c p start_inside j lo hi)
          | inr (inr behind) ↦
              splice_behind o c xs inside (1024 * q + j) (omega arith)
              ∙ sym (get_or-part q xs j (omega arith))
              ∙ sym (splice_behind start c p start_inside j behind)
        ])
