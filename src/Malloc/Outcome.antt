-- ===== src/Malloc/Outcome.antt =====
-- What mm_malloc of malloc-master/mm_alloc.c gives, on every branch.
use mathlib.Core.Bool.{false≢true}
use mathlib.Core.Option.{none-ne-some}
use fuse_using_memcached.Prelude.{
  ℕ, zero, suc, ◌+◌, ◌-◌, ◌≤◌, ◌<◌, ◌^◌, ◌≡◌, ◌≢◌, refl, ap, ◌∙◌, sym, Bool, true, false, ◌&&◌, leb,
  ltb, ◌==◌, if◌then◌else◌, none, some, arith, Bool-cases, Option-cases, inl, inr, ◌⊎◌, ==_iff,
  ne→==, ==→ne, leb→le,
}
use fuse_using_memcached.Malloc.Store.{
  store_below, store_above, load-agree, bytes, zeros, bytes-zeros, clear_inside, clear_below,
}
use fuse_using_memcached.Malloc.{
  Heap, sizeof_metadata, next_of, size_of, set_next, set_prev, distance, with_metadata, is_free,
  sbrk, new_block, split_last, take_block, split_middle, take_middle, first_block, take_last,
  append_block, walk, mm_malloc,
}

-- No wrap-around for sizes of the program.
pub with_metadata_lem :
    (size : ℕ) → size + sizeof_metadata < 2 ^ 64 → with_metadata size ≡ size + 24
unfolding with_metadata
with_metadata_lem size small = omega arith

-- A null pointer and the heap as it was, where the break may not move by some increment, or a block
-- of zeros.
abbrev pub Outcome : (grants : ℕ → ℕ → Bool) → ℕ → Heap → ℕ × Heap → Type 0
Outcome grants size h r =
    ((r ≡ (0, h)) × (n : ℕ) × (grants h.brk n ≡ false))
    ⊎ ((sizeof_metadata ≤ r.0) × (bytes size r.0 r.1.memory ≡ zeros size))

-- A list of so many blocks, each at an address behind the last one's metadata.
abbrev pub IsChain : Heap → (n cur : ℕ) → Type 0
IsChain h zero cur = cur ≡ 0
IsChain h (suc n) cur =
    (0 < cur)
    × (next_of cur h < 2 ^ 64)
    × ((next_of cur h ≡ 0) ⊎ (cur + sizeof_metadata ≤ next_of cur h))
    × IsChain h n (next_of cur h)

new_block-zeros :
    (a size : ℕ) (h : Heap)
    → bytes size (a + sizeof_metadata) (new_block a size h).memory ≡ zeros size
unfolding new_block
new_block-zeros a size h =
    bytes-zeros size (a + 24) _ (λ x lo hi. clear_inside (a + 24) size _ x lo hi)

pub taken-zero :
    (size cur : ℕ) (h : Heap) (x : ℕ)
    → cur + sizeof_metadata ≤ x
    → x < cur + sizeof_metadata + size
    → (take_block size cur h).memory x ≡ 0
unfolding take_block
taken-zero size cur h x lo hi = clear_inside (cur + 24) size _ x lo hi

take_block-zeros :
    (size cur : ℕ) (h : Heap)
    → bytes size (cur + sizeof_metadata) (take_block size cur h).memory ≡ zeros size
unfolding take_block
take_block-zeros size cur h =
    bytes-zeros size (cur + 24) _ (λ x lo hi. clear_inside (cur + 24) size _ x lo hi)

take_block-next : (size cur : ℕ) (h : Heap) → next_of cur (take_block size cur h) ≡ next_of cur h
unfolding take_block
take_block-next size cur h = load-agree 8 (cur + 8) _ h.memory (λ x lo hi.
    clear_below (cur + 24) size _ x (omega arith)
    ∙ store_below 4 (cur + 16) 0 _ x (omega arith)
    ∙ store_below 4 (cur + 20) size h.memory x (omega arith))

-- The split of a block that is followed by another one leaves the bytes in front of the new block.
split_middle-keeps :
    (size cur : ℕ) (h : Heap)
    → (next_of cur h ≢ 0)
    → cur + sizeof_metadata + size + sizeof_metadata ≤ next_of cur h
    → (x : ℕ) → cur + sizeof_metadata ≤ x
    → x < cur + sizeof_metadata + size
    → (split_middle size cur h).memory x ≡ h.memory x
unfolding split_middle
split_middle-keeps size cur h some_next room x lo hi = rw (ne→== (next_of cur h) 0 some_next) (
    store_below 4 (cur + 24 + size + 20) _ _ x (omega arith)
    ∙ store_below 4 (cur + 24 + size + 16) 1 _ x (omega arith)
    ∙ store_below 8 (next_of cur h) _ _ x (omega arith)
    ∙ store_below 8 (cur + 24 + size + 8) _ _ x (omega arith)
    ∙ store_below 8 (cur + 24 + size) cur _ x (omega arith)
    ∙ store_above 8 (cur + 8) _ h.memory x (omega arith))

room_behind :
    (size cur next : ℕ)
    → next < 2 ^ 64
    → cur + sizeof_metadata ≤ next
    → size + sizeof_metadata ≤ distance (distance next cur) sizeof_metadata
    → cur + sizeof_metadata + size + sizeof_metadata ≤ next
room_behind size cur next small apart h = omega arith

take_middle-zeros :
    (size cur : ℕ) (h : Heap)
    → size + sizeof_metadata < 2 ^ 64
    → (next_of cur h ≢ 0)
    → next_of cur h < 2 ^ 64
    → cur + sizeof_metadata ≤ next_of cur h
    → bytes size (cur + sizeof_metadata) (take_middle size cur h).memory ≡ zeros size
unfolding take_middle
take_middle-zeros size cur h fits some_next small apart =
    let wrapped = with_metadata_lem size fits in
    let taken = take_block size cur h in
    let same_next = take_block-next size cur h in
    elim (Bool-cases (leb (size + 24) (distance (distance (next_of cur taken) cur) 24))) [
      | inl e ↦
          rw (take_middle, wrapped, e)
            (bytes-zeros size (cur + 24) _ (λ x lo hi.
              split_middle-keeps size cur taken (λ z. some_next (sym same_next ∙ z))
                (room_behind size cur (next_of cur taken) (rw same_next small) (rw same_next apart)
                  (leb→le _ _ e))
                x lo hi
              ∙ taken-zero size cur h x lo hi))
      | inr e ↦ rw (take_middle, wrapped, e) (take_block-zeros size cur h)
    ]

and_false : (a b c : Bool) → (a && b) ≡ false → (a && c) ≡ true → b ≡ false
and_false true b c e f = e
and_false false b c e f = absurd (false≢true f)

module _ (grants : ℕ → ℕ → Bool) where
  sbrk-none : (n : ℕ) (h : Heap) → sbrk grants n h ≡ none → grants h.brk n ≡ false
  unfolding sbrk
  sbrk-none n h e = elim (Bool-cases (grants h.brk n)) [
    | inl yes_ ↦ absurd (none-ne-some _ (sym (rw (sbrk, yes_) at e)))
    | inr no_ ↦ no_
  ]

  first_block-Outcome : (size : ℕ) (h : Heap) → Outcome grants size h (first_block grants size h)
  unfolding first_block
  first_block-Outcome size h = elim (Option-cases (sbrk grants (with_metadata size) h)) [
    | inl e ↦ rw (first_block, e) (inl (refl, with_metadata size, sbrk-none _ h e))
    | inr (grown, e) ↦
        rw (first_block, e)
          (inr (
            omega arith,
            new_block-zeros h.brk size
                (set_prev h.brk 0 (record grown { start_of_mem = some h.brk })),
          ))
  ]

  append_block-Outcome :
      (size last : ℕ) (h : Heap) → Outcome grants size h (append_block grants size last h)
  unfolding append_block
  append_block-Outcome size last h = elim (Option-cases (sbrk grants (with_metadata size) h)) [
    | inl e ↦ rw (append_block, e) (inl (refl, with_metadata size, sbrk-none _ h e))
    | inr (grown, e) ↦
        rw (append_block, e)
          (inr (
            omega arith,
            new_block-zeros h.brk size (set_next last h.brk (set_prev h.brk last grown)),
          ))
  ]

  take_last-Outcome :
      (size cur : ℕ) (h : Heap) → Outcome grants size h (take_last grants size cur h)
  unfolding take_last
  take_last-Outcome size cur h = elim (Bool-cases (ltb (size_of cur h) size)) [
    | inl less ↦ elim (Option-cases (sbrk grants (size - size_of cur h) h)) [
      | inl e ↦ rw (take_last, less, e) (inl (refl, size - size_of cur h, sbrk-none _ h e))
      | inr (grown, e) ↦
          rw (take_last, less, e) (inr (omega arith, take_block-zeros size cur grown))
    ]
    | inr e ↦
        rw (take_last, e)
          (inr (
            omega arith,
            take_block-zeros size cur
                (if leb (with_metadata size) (size_of cur h) then split_last size cur h else h),
          ))
  ]

  walk-ends :
      (n fuel size last cur : ℕ) (h : Heap)
      → size + sizeof_metadata < 2 ^ 64
      → IsChain h n cur
      → n < fuel
      → (r : ℕ × Heap) × (walk grants fuel size last cur h ≡ some r) × Outcome grants size h r
  unfolding walk
  walk-ends n zero size last cur h fits c lt = absurd (omega arith)
  walk-ends zero (suc fuel) size last cur h fits c lt = (
    append_block grants size last h,
    rw (walk, (==_iff cur 0).1 c) refl,
    append_block-Outcome size last h,
  )
  walk-ends (suc n) (suc fuel) size last cur h fits (positive, small, apart, rest) lt =
      let nonzero = ne→== cur 0 (λ e. absurd (omega arith)) in
      elim (Bool-cases (is_free cur h && (next_of cur h == 0))) [
        | inl e ↦
            (take_last grants size cur h, rw (walk, nonzero, e) refl, take_last-Outcome size cur h)
        | inr e ↦ elim (Bool-cases (is_free cur h && leb size (size_of cur h))) [
          | inl f ↦
              let some_next =
                ==→ne (next_of cur h) 0
                  (and_false (is_free cur h) (next_of cur h == 0) (leb size (size_of cur h)) e f) in
              (
                (cur + sizeof_metadata, take_middle size cur h),
                rw (walk, nonzero, e, f) refl,
                inr (
                  omega arith,
                  take_middle-zeros size cur h fits some_next small
                      (elim apart [ inl z ↦ absurd (some_next z) | inr a ↦ a ]),
                ),
              )
          | inr f ↦
              let found = walk-ends n fuel size cur (next_of cur h) h fits rest (omega arith) in
              (found.0, rw (walk, nonzero, e, f) found.1, found.2)
        ]
      ]

  pub mm_malloc-walk :
      (fuel size first : ℕ) (h : Heap)
      → 0 < size
      → h.start_of_mem ≡ some first
      → mm_malloc grants fuel size h ≡ walk grants fuel size 0 first h
  unfolding mm_malloc
  mm_malloc-walk fuel size first h positive started =
      rw (mm_malloc, ne→== size 0 (λ e. absurd (omega arith)))
        (ap
          (λ o. elim o [
            | none ↦ some (first_block grants size h)
            | some f ↦ walk grants fuel size 0 f h
          ])
          started)

  -- mm_malloc of a size other than 0 and below 2 ^ 63 - 24 ends after a round for each block and one more, if
  -- each block's next one stands behind its metadata or is none, and gives either a null pointer, with
  -- everything as it was, and that only if sbrk refuses some increment, or a block of that many zeros.
  pub mm_malloc-Outcome :
      (n fuel size first : ℕ) (h : Heap)
      → 0 < size
      → size + sizeof_metadata < 2 ^ 63
      → h.start_of_mem ≡ some first
      → IsChain h n first
      → n < fuel
      → (r : ℕ × Heap) × (mm_malloc grants fuel size h ≡ some r) × Outcome grants size h r
  mm_malloc-Outcome n fuel size first h positive small started c lt =
      let found = walk-ends n fuel size 0 first h (omega arith) c lt in
      (found.0, mm_malloc-walk fuel size first h positive started ∙ found.1, found.2)
