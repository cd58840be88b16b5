-- ===== src/Malloc/Realloc.antt =====
-- mm_realloc of malloc-master/mm_alloc.c in place.
use fuse_using_memcached.Prelude.{
  ℕ, suc, ◌+◌, ◌-◌, ◌≤◌, ◌<◌, ◌≡◌, refl, ap, ap₂, ◌∙◌, Bool, true, ◌&&◌, not, leb, ltb, ◌==◌, some,
  arith, ne→==, ==_refl, le→ltb_false, lt→leb_false, Bool-cases, inl, inr,
}
use fuse_using_memcached.Malloc.Store.{
  Memory, copy, store_below, store_above, load-agree, load-store, load_small, bytes, zeros,
  bytes-zeros,
}
use fuse_using_memcached.Malloc.Outcome.{taken-zero, with_metadata_lem, mm_malloc-walk}
use fuse_using_memcached.Malloc.{
  Heap, sizeof_metadata, prev_of, next_of, free_of, size_of, set_free, is_free, take_block,
  take_last, walk, mm_malloc, merge_prev, merge_next, mm_free, memcpy, copy_old, mm_realloc,
}

free-single :
    (a : ℕ) (h : Heap)
    → prev_of a h ≡ 0
    → next_of a h ≡ 0
    → mm_free (a + sizeof_metadata) h ≡ set_free a 1 h
unfolding mm_free
free-single a h no_prev no_next =
    let back : a + 24 - 24 ≡ a = omega arith in
    let merged : merge_prev a h ≡ (a, h) = rw (merge_prev, no_prev) refl in
    let alone : merge_next a h ≡ h = rw (merge_next, no_next) refl in
    rw (ne→== (a + 24) 0 (λ e. absurd (omega arith)), back, merged, alone) refl

copy-same : (p n : ℕ) (m : Memory) (x : ℕ) → p ≤ x → copy p p n m x ≡ m x
unfolding copy
copy-same p n m x h =
    let back : p + (x - p) ≡ x = omega arith in
    elim (Bool-cases (leb p x && ltb x (p + n))) [ inl e ↦ rw (e, back) refl | inr e ↦ rw e refl ]

copied-same :
    (p size : ℕ) (h : Heap)
    → 0 < p
    → 0 < size
    → copy_old p size (some (p, h)) ≡ some (p, record h { memory = copy p p size h.memory })
unfolding copy_old memcpy
copied-same p size h positive some_size =
    rw
      (
        copy_old,
        memcpy,
        ne→== p 0 (λ e. absurd (omega arith)),
        lt→leb_false (p + size) p (omega arith),
        ==_refl p,
      )
      refl

module _ (grants : ℕ → ℕ → Bool) where
  malloc-single :
      (fuel a size : ℕ) (h : Heap)
      → 0 < a
      → 0 < size
      → h.start_of_mem ≡ some a
      → next_of a h ≡ 0
      → size_of a h ≡ size
      → mm_malloc grants (suc fuel) size (set_free a 1 h)
        ≡ some (a + sizeof_metadata, take_block size a (set_free a 1 h))
  unfolding walk take_last
  malloc-single fuel a size h positive some_size started no_next same_size =
      let g = set_free a 1 h in
      let next : next_of a g ≡ 0 =
        load-agree 8 (a + 8) g.memory h.memory
          (λ x lo hi. store_below 4 (a + 16) 1 h.memory x (omega arith))
        ∙ no_next in
      let same : size_of a g ≡ size =
        load-agree 4 (a + 20) g.memory h.memory
          (λ x lo hi. store_above 4 (a + 16) 1 h.memory x (omega arith))
        ∙ same_size in
      let free : free_of a g ≡ 1 = load-store 4 (a + 16) 1 h.memory (omega arith) in
      let last : (is_free a g && (next_of a g == 0)) ≡ true =
        ap₂ (λ n f. not (f == 0) && (n == 0)) next free in
      let taken : take_last grants size a g ≡ (a + sizeof_metadata, take_block size a g) =
        rw
          (
            take_last,
            ap (λ n. ltb n size) same ∙ le→ltb_false size size (omega arith),
            with_metadata_lem size (omega (arith, load_small (a + 20) h.memory)),
            ap (leb (size + 24)) same ∙ lt→leb_false (size + 24) size (omega arith),
          )
          refl in
      mm_malloc-walk grants (suc fuel) size a g some_size started
      ∙ rw (walk, ne→== a 0 (λ e. absurd (omega arith)), last) (ap some taken)

  -- mm_realloc of the only block to the size that it has gives the same block, but filled with zeros: what it
  -- held is lost.
  pub mm_realloc-lost :
      (fuel a size : ℕ) (h : Heap)
      → 0 < a
      → 0 < size
      → h.start_of_mem ≡ some a
      → prev_of a h ≡ 0
      → next_of a h ≡ 0
      → size_of a h ≡ size
      → (left : Heap) × (mm_realloc grants (suc fuel) (a + sizeof_metadata) size h
          ≡ some (a + sizeof_metadata, left))
        × (bytes size (a + sizeof_metadata) left.memory ≡ zeros size)
  unfolding mm_realloc
  mm_realloc-lost fuel a size h positive some_size started no_prev no_next same_size =
      let taken = take_block size a (set_free a 1 h) in
      let malloc = malloc-single fuel a size h positive some_size started no_next same_size in
      let back : a + 24 - 24 ≡ a = omega arith in
      let old_size : size_of (a + 24 - 24) h ≡ size = ap (λ b. size_of b h) back ∙ same_size in
      let left = record taken { memory = copy (a + 24) (a + 24) size taken.memory } in
      (
        left,
        rw
            (
              mm_realloc,
              ne→== size 0 (λ e. absurd (omega arith)),
              ne→== (a + 24) 0 (λ e. absurd (omega arith)),
            )
            (ap₂ (λ old o. copy_old (a + 24) old o) old_size
                (ap (mm_malloc grants (suc fuel) size) (free-single a h no_prev no_next) ∙ malloc)
              ∙ copied-same (a + 24) size taken (omega arith) some_size),
        bytes-zeros size (a + 24) left.memory (λ x lo hi.
            copy-same (a + 24) size taken.memory x lo ∙ taken-zero size a (set_free a 1 h) x lo hi),
      )
