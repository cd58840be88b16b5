-- ===== src/Malloc/First.antt =====
-- The first call of mm_malloc in malloc-master/mm_alloc.c.
use fuse_using_memcached.Prelude.{
  ℕ, ◌+◌, ◌<◌, ◌^◌, ◌≡◌, refl, ap, ◌∙◌, Bool, true, arith, [], ◌∷◌, ◌⊎◌, inl, inr, Bool-cases,
  Option, some, none, ne→==,
}
use fuse_using_memcached.Malloc.Fields.{new_block-HasFields}
use fuse_using_memcached.Malloc.Blocks.{IsBlocks}
use fuse_using_memcached.Malloc.Outcome.{with_metadata_lem}
use fuse_using_memcached.Malloc.Steps.{sbrk_granted, sbrk_refused}
use fuse_using_memcached.Malloc.{
  Heap, sizeof_metadata, set_prev, new_block, first_block, walk, mm_malloc,
}

-- The heap behind a first call for which the break may move.
abbrev pub first_heap : (size : ℕ) → Heap → Heap
first_heap size h = new_block h.brk size (
    set_prev h.brk 0 (record {
      start_of_mem = some h.brk;
      brk = h.brk + (size + sizeof_metadata);
      memory = h.memory;
    }))

first_heap-IsBlocks :
    (size : ℕ) (h : Heap)
    → size < 2 ^ 32
    → 0 < h.brk
    → h.brk + (size + sizeof_metadata) < 2 ^ 64
    → IsBlocks (first_heap size h) (record { at = h.brk; size = size; free = 0 } ∷ [])
unfolding new_block
first_heap-IsBlocks size h small positive bound = (
  record {
    positive = positive;
    fields = new_block-HasFields h.brk size _ small;
    within = omega arith;
    addressed = bound;
    small = small;
  },
  tt,
)

module _ (grants : ℕ → ℕ → Bool)
    (bounded : (brk n : ℕ) → grants brk n ≡ true → brk + n < 2 ^ 64) where
  -- The first call of mm_malloc, for 1 to 2 ^ 32 - 1 bytes, needs no round of the loop. If the break stays an
  -- address, it gives a null pointer and leaves everything as it was, or it gives the bytes of a block at the
  -- old break, and then the heap holds this block alone and starts with it.
  pub mm_malloc-first :
      (fuel size : ℕ) (h : Heap)
      → 0 < size
      → size < 2 ^ 32
      → 0 < h.brk
      → h.start_of_mem ≡ none
      → (r : ℕ × Heap) × (mm_malloc grants fuel size h ≡ some r)
        × ((r ≡ (0, h))
            ⊎ ((r.0 ≡ h.brk + sizeof_metadata)
                × IsBlocks r.1 (record { at = h.brk; size = size; free = 0 } ∷ [])
                × (r.1.start_of_mem ≡ some h.brk)))
  unfolding mm_malloc first_block new_block
  mm_malloc-first fuel size h some_size small positive unstarted =
      let wrapped = with_metadata_lem size (omega arith) in
      let begun : mm_malloc grants fuel size h ≡ some (first_block grants size h) =
        rw (mm_malloc, ne→== size 0 (λ e. absurd (omega arith)))
          (ap
            (λ (o : Option ℕ). elim o [
              | none ↦ some (first_block grants size h)
              | some first ↦ walk grants fuel size 0 first h
            ])
            unstarted) in
      elim (Bool-cases (grants h.brk (size + 24))) [
        | inl e ↦ (
          (h.brk + sizeof_metadata, first_heap size h),
          begun ∙ rw (first_block, wrapped, sbrk_granted grants (size + 24) h e (omega arith)) refl,
          inr (refl, first_heap-IsBlocks size h small positive (bounded h.brk (size + 24) e), refl),
        )
        | inr e ↦ (
          (0, h),
          begun ∙ rw (first_block, wrapped, sbrk_refused grants (size + 24) h e) refl,
          inl refl,
        )
      ]
