-- ===== src/Malloc/Walk.antt =====
-- The loop of mm_malloc in malloc-master/mm_alloc.c takes the first block that fits.
use fuse_using_memcached.Prelude.{
  ℕ, zero, suc, ◌+◌, ◌-◌, ◌<◌, ◌^◌, ◌≡◌, refl, ap, ap₂, ◌∙◌, sym, Bool, true, false, ◌&&◌, not, leb,
  ltb, ◌==◌, arith, List, [], ◌∷◌, length, ◌⊎◌, inl, inr, Bool-cases, some, ltb→lt, leb→le,
  lt→leb_false, ne→==,
}
use fuse_using_memcached.Malloc.Outcome.{mm_malloc-walk, with_metadata_lem}
use fuse_using_memcached.Malloc.Blocks.{
  Block, start_of, IsBlock, IsBlocks, place, place-append, place-last, place-middle, place-pass,
  place-start, place-limit, HasFields-agree,
}
use fuse_using_memcached.Malloc.FirstFit.{Found, take-Found, split_last-Found, take_middle-Found}
use fuse_using_memcached.Malloc.{
  Heap, sizeof_metadata, next_of, size_of, is_free, sbrk, take_middle, take_last, append_block,
  walk, mm_malloc,
}
use fuse_using_memcached.Malloc.Steps.{
  append-Found, sbrk_granted, sbrk_refused, walk-end, walk-last, walk-fits, walk-pass, le_of,
  and_right, and_no,
}

-- The break stays an address.
module _ (grants : ℕ → ℕ → Bool) (bounded : (brk n : ℕ) → grants brk n ≡ true → brk + n < 2 ^ 64)
    (size : ℕ) (small : size < 2 ^ 32) where
  -- Either a null pointer and the heap as it was, or what first fit says.
  abbrev Placed : Block → List Block → Heap → ℕ × Heap → Type 0
  Placed b bs h r = (r ≡ (0, h)) ⊎ Found b.at h (place size h.brk b bs) r

  take_last-Placed :
      (b : Block) (h : Heap)
      → IsBlock h 0 h.brk b
      → (b.free == 0) ≡ false
      → Placed b [] h (take_last grants size b.at h)
  unfolding take_last
  take_last-Placed b h one taken =
      let same = ap (λ n. ltb n size) one.fields.size_is in
      let w = one.within in
      rw (place-last size h.brk b taken) (elim (Bool-cases (ltb b.size size)) [
        | inl e ↦
            let less = ltb→lt b.size size e in
            let no_room = lt→leb_false (size + 24) b.size (omega arith) in
            let asked = ap (λ n. sbrk grants (size - n) h) one.fields.size_is in
            elim (Bool-cases (grants h.brk (size - b.size))) [
              | inl yes_ ↦
                  rw
                    (
                      take_last,
                      same ∙ e,
                      asked ∙ sbrk_granted grants (size - b.size) h yes_ (omega arith),
                    )
                    (inr (
                      take-Found size b h (record h { brk = h.brk + (size - b.size) }) one.positive
                        small one.fields.next_is (omega arith) (bounded h.brk (size - b.size) yes_)
                        no_room refl (λ x lt. refl)))
              | inr no_ ↦
                  rw (take_last, same ∙ e, asked ∙ sbrk_refused grants (size - b.size) h no_)
                    (inl refl)
            ]
        | inr e ↦
            let more = le_of size b.size e in
            let wrapped = with_metadata_lem size (omega arith) in
            let fits = ap (leb (size + 24)) one.fields.size_is in
            elim (Bool-cases (leb (size + 24) b.size)) [
              | inl room ↦
                  rw (take_last, same ∙ e, wrapped, fits ∙ room)
                    (inr (split_last-Found size b h one room))
              | inr room ↦
                  rw (take_last, same ∙ e, wrapped, fits ∙ room)
                    (inr (
                      take-Found size b h h one.positive small one.fields.next_is (omega arith)
                        one.addressed room refl (λ x lt. refl)))
            ]
      ])

  append-Placed :
      (b : Block) (h : Heap)
      → IsBlock h 0 h.brk b
      → (b.free == 0) ≡ true
      → Placed b [] h (append_block grants size b.at h)
  unfolding append_block
  append-Placed b h one used =
      let wrapped = with_metadata_lem size (omega arith) in
      rw (place-append size h.brk b used) (elim (Bool-cases (grants h.brk (size + 24))) [
        | inl e ↦
            rw (append_block, wrapped, sbrk_granted grants (size + 24) h e (omega arith))
              (inr (append-Found size b h one small (bounded h.brk (size + 24) e)))
        | inr e ↦ rw (append_block, wrapped, sbrk_refused grants (size + 24) h e) (inl refl)
      ])

  -- What is placed behind a block leaves it as it is.
  behind :
      (b c : Block) (bs : List Block) (h : Heap) (r : ℕ × Heap)
      → IsBlock h c.at c.at b
      → Found c.at h (place size h.brk c bs) r
      → Found b.at h ((place size h.brk c bs).0, b ∷ (place size h.brk c bs).1) r
  behind b c bs h r one f =
      let w = one.within in
      record {
        address = f.address;
        blocks = (
          record {
            positive = one.positive;
            fields = rw (place-start size h.brk c bs) (
                HasFields-agree h r.1 b.at c.at b.free b.size (λ x lo hi. f.below x (omega arith))
                  one.fields);
            within = rw (place-limit size h.brk r.1.brk c bs) w;
            addressed = rw (place-limit size h.brk r.1.brk c bs) one.addressed;
            small = one.small;
          },
          f.blocks,
        );
        same_start = f.same_start;
        below = λ x lt. f.below x (omega arith);
      }

  first-Placed :
      (fuel last : ℕ) (b : Block) (bs : List Block) (h : Heap)
      → IsBlocks h (b ∷ bs)
      → length bs + 1 < fuel
      → (r : ℕ × Heap) × (walk grants fuel size last b.at h ≡ some r) × Placed b bs h r
  first-Placed zero last b bs h all lt = absurd (omega arith)
  first-Placed (suc zero) last b bs h all lt = absurd (omega arith)
  first-Placed (suc (suc fuel)) last b [] h (one, rest) lt =
      let p = one.positive in
      let nonzero = ne→== b.at 0 (λ e. absurd (omega arith)) in
      let free = ap (λ f. not (f == 0)) one.fields.free_is in
      elim (Bool-cases (b.free == 0)) [
        | inl used ↦
            let no = free ∙ ap not used in
            (
              append_block grants size b.at h,
              walk-pass grants (suc fuel) size last b.at h nonzero
                    (ap (λ f. f && (next_of b.at h == 0)) no)
                    (ap (λ f. f && leb size (size_of b.at h)) no)
                  ∙ ap (λ n. walk grants (suc fuel) size b.at n h) one.fields.next_is
                  ∙ walk-end grants fuel size b.at h,
              append-Placed b h one used,
            )
        | inr taken ↦ (
          take_last grants size b.at h,
          walk-last grants (suc fuel) size last b.at h nonzero
              (ap₂ (λ f n. f && (n == 0)) (free ∙ ap not taken) one.fields.next_is),
          take_last-Placed b h one taken,
        )
      ]
  first-Placed (suc (suc fuel)) last b (c ∷ bs) h (one, rest) lt =
      let p = one.positive in
      let w = one.within in
      let nonzero = ne→== b.at 0 (λ e. absurd (omega arith)) in
      let inside =
        and_no (is_free b.at h) (next_of b.at h == 0)
          (ap (λ n. n == 0) one.fields.next_is ∙ ne→== c.at 0 (λ e. absurd (omega arith))) in
      let same = ap₂ (λ f n. not (f == 0) && leb size n) one.fields.free_is one.fields.size_is in
      elim (Bool-cases (not (b.free == 0) && leb size b.size)) [
        | inl e ↦ (
          (b.at + sizeof_metadata, take_middle size b.at h),
          walk-fits grants (suc fuel) size last b.at h nonzero inside (same ∙ e),
          inr (
              rw (place-middle size h.brk b c bs e) (
                take_middle-Found size b c bs h (one, rest)
                  (leb→le size b.size (and_right _ _ e)))),
        )
        | inr e ↦
            let found = first-Placed (suc fuel) b.at c bs h rest (omega arith) in
            (
              found.0,
              walk-pass grants (suc fuel) size last b.at h nonzero inside (same ∙ e)
                  ∙ ap (λ n. walk grants (suc fuel) size b.at n h) one.fields.next_is
                  ∙ found.1,
              elim found.2 [
                | inl unchanged ↦ inl unchanged
                | inr f ↦ inr (rw (place-pass size h.brk b c bs e) (behind b c bs h found.0 one f))
              ],
            )
      ]

  -- If a heap holds a list of blocks, in the order of their addresses and without overlaps, and the break stays
  -- an address, mm_malloc of 1 to 2 ^ 32 - 1 bytes ends after a round for each block and one more. It gives a
  -- null pointer and leaves everything as it was, or the bytes of the block that first fit chooses, and then
  -- the heap holds the blocks that first fit leaves, from the same start.
  pub mm_malloc-place :
      (fuel : ℕ) (b : Block) (bs : List Block) (h : Heap)
      → 0 < size
      → IsBlocks h (b ∷ bs)
      → h.start_of_mem ≡ some b.at
      → length bs + 1 < fuel
      → (r : ℕ × Heap) × (mm_malloc grants fuel size h ≡ some r)
        × ((r ≡ (0, h))
            ⊎ ((r.0 ≡ (place size h.brk b bs).0 + sizeof_metadata)
                × IsBlocks r.1 (place size h.brk b bs).1
                × (r.1.start_of_mem ≡ some (start_of (place size h.brk b bs).1))))
  mm_malloc-place fuel b bs h positive all started lt =
      let found = first-Placed fuel 0 b bs h all lt in
      (
        found.0,
        mm_malloc-walk grants fuel size b.at h positive started ∙ found.1,
        elim found.2 [
          | inl unchanged ↦ inl unchanged
          | inr f ↦ inr (
            f.address,
            f.blocks,
            f.same_start ∙ started ∙ ap some (sym (place-start size h.brk b bs)),
          )
        ],
      )
