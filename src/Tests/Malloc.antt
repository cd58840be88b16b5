-- ===== src/Tests/Malloc.antt =====
-- The allocator at small heaps.
use fuse_using_memcached.Prelude.{
  ℕ, ◌+◌, ◌^◌, ◌<◌, ◌≡◌, refl, Bool, true, some, none, arith, inl, inr, ltb, ltb→lt, List, [], ◌∷◌,
  ◌⊎◌,
}
use fuse_using_memcached.Malloc.Store.{Memory, store, load, clear, bytes, zeros}
use fuse_using_memcached.Malloc.{
  Heap, sbrk, with_metadata, new_block, first_block, prev_of, mm_malloc, mm_free, mm_realloc,
}
use fuse_using_memcached.Malloc.Outcome.{Outcome, IsChain, mm_malloc-Outcome}
use fuse_using_memcached.Malloc.Realloc.{mm_realloc-lost}
use fuse_using_memcached.Malloc.Blocks.{Block, IsBlocks, place}
use fuse_using_memcached.Malloc.Walk.{mm_malloc-place}
use fuse_using_memcached.Malloc.Free.{release, free_first}
use fuse_using_memcached.Malloc.Free.Release.{mm_free-release}
use fuse_using_memcached.Malloc.Free.Stale.{mm_free-stale}
use fuse_using_memcached.Malloc.First.{mm_malloc-first}

abbrev always : ℕ → ℕ → Bool
always b n = true

-- A break at 1000, and memory in which every byte is 7.
abbrev fresh : Heap
fresh = record { start_of_mem = none; brk = 1000; memory = λ x. 7 }

one_block : Heap
unfolding first_block sbrk with_metadata new_block store clear
one_block = (first_block always 8 fresh).1

-- The heap behind the first allocation, of eight bytes.
one_block-IsChain : IsChain one_block 1 1000
unfolding one_block load store clear
one_block-IsChain = (omega arith, omega arith, inl refl, refl)

mm_malloc-Outcome_example :
    (r : ℕ × Heap) × (mm_malloc always 2 16 one_block ≡ some r) × Outcome always 16 one_block r
unfolding one_block
mm_malloc-Outcome_example =
    mm_malloc-Outcome always 1 2 16 1000 one_block (omega arith) (omega arith) refl
      one_block-IsChain (omega arith)

mm_realloc-lost_example :
    (left : Heap) × (mm_realloc always 1 1024 8 one_block ≡ some (1024, left))
    × (bytes 8 1024 left.memory ≡ zeros 8)
unfolding one_block load store clear
mm_realloc-lost_example =
    mm_realloc-lost always 0 1000 8 one_block (omega arith) (omega arith) refl refl refl refl

-- A heap with a block of 8 bytes in use, a free one of 40 and one of 8 in use.
abbrev three_blocks : List Block
three_blocks =
    record { at = 1000; size = 8; free = 0 }
    ∷ record { at = 1032; size = 40; free = 1 }
    ∷ record { at = 1096; size = 8; free = 0 }
    ∷ []

write_block : (at next size free : ℕ) → Memory → Memory
unfolding store
write_block at next size free m =
    store 8 (at + 8) next (store 4 (at + 16) free (store 4 (at + 20) size m))

abbrev three_heap : Heap
three_heap = record {
  start_of_mem = some 1000;
  brk = 1128;
  memory = write_block 1000 1032 8 0 (write_block 1032 1096 40 1 (write_block 1096 0 8 0 (λ x. 0)));
}

-- The break stays below 2 ^ 63.
abbrev below_half : ℕ → ℕ → Bool
below_half b n = ltb (b + n) (2 ^ 63)

below_half_bound : (b n : ℕ) → below_half b n ≡ true → b + n < 2 ^ 64
below_half_bound b n e = let lt = ltb→lt (b + n) (2 ^ 63) e in omega arith

three_heap-IsBlocks : IsBlocks three_heap three_blocks
unfolding write_block store load
three_heap-IsBlocks = (
  record {
    positive = omega arith;
    fields = record { next_is = refl; free_is = refl; size_is = refl };
    within = omega arith;
    addressed = omega arith;
    small = omega arith;
  },
  (
    record {
      positive = omega arith;
      fields = record { next_is = refl; free_is = refl; size_is = refl };
      within = omega arith;
      addressed = omega arith;
      small = omega arith;
    },
    (
      record {
        positive = omega arith;
        fields = record { next_is = refl; free_is = refl; size_is = refl };
        within = omega arith;
        addressed = omega arith;
        small = omega arith;
      },
      tt,
    ),
  ),
)

-- Ten bytes come from the free block, which is split.
mm_malloc-place_example :
    (r : ℕ × Heap) × (mm_malloc below_half 4 10 three_heap ≡ some r)
    × ((r ≡ (0, three_heap))
        ⊎ ((r.0 ≡ 1056)
            × IsBlocks r.1 (
                record { at = 1000; size = 8; free = 0 }
                ∷ record { at = 1032; size = 10; free = 0 }
                ∷ record { at = 1066; size = 6; free = 1 }
                ∷ record { at = 1096; size = 8; free = 0 }
                ∷ [])
            × (r.1.start_of_mem ≡ some 1000)))
unfolding place
mm_malloc-place_example =
    mm_malloc-place below_half below_half_bound 10 (omega arith) 4
      (record { at = 1000; size = 8; free = 0 })
      (record { at = 1032; size = 40; free = 1 } ∷ record { at = 1096; size = 8; free = 0 } ∷ [])
      three_heap (omega arith) three_heap-IsBlocks refl (omega arith)

mm_malloc-first_example :
    (r : ℕ × Heap) × (mm_malloc below_half 0 8 fresh ≡ some r)
    × ((r ≡ (0, fresh))
        ⊎ ((r.0 ≡ 1024)
            × IsBlocks r.1 (record { at = 1000; size = 8; free = 0 } ∷ [])
            × (r.1.start_of_mem ≡ some 1000)))
mm_malloc-first_example =
    mm_malloc-first below_half below_half_bound 0 8 fresh (omega arith) (omega arith) (omega arith)
      refl

-- A block in use behind a free one.
abbrev free_blocks : List Block
free_blocks =
    record { at = 1000; size = 8; free = 1 }
    ∷ record { at = 1032; size = 40; free = 0 }
    ∷ record { at = 1096; size = 8; free = 0 }
    ∷ []

abbrev link : (at prev : ℕ) → Memory → Memory
link at prev m = store 8 at prev m

abbrev free_heap : Heap
free_heap = record {
  start_of_mem = some 1000;
  brk = 1128;
  memory = link 1000 0 (
      link 1032 1000 (
        link 1096 1032 (
          write_block 1000 1032 8 1
            (write_block 1032 1096 40 0 (write_block 1096 0 8 0 (λ x. 0))))));
}

free_heap-IsBlocks : IsBlocks free_heap free_blocks
unfolding write_block store load
free_heap-IsBlocks = (
  record {
    positive = omega arith;
    fields = record { next_is = refl; free_is = refl; size_is = refl };
    within = omega arith;
    addressed = omega arith;
    small = omega arith;
  },
  (
    record {
      positive = omega arith;
      fields = record { next_is = refl; free_is = refl; size_is = refl };
      within = omega arith;
      addressed = omega arith;
      small = omega arith;
    },
    (
      record {
        positive = omega arith;
        fields = record { next_is = refl; free_is = refl; size_is = refl };
        within = omega arith;
        addressed = omega arith;
        small = omega arith;
      },
      tt,
    ),
  ),
)

prev_1032 : prev_of 1032 free_heap ≡ 1000
unfolding write_block store load
prev_1032 = refl

prev_1096 : prev_of 1096 free_heap ≡ 1032
unfolding write_block store load
prev_1096 = refl

-- The two first blocks are merged.
mm_free-release_example :
    IsBlocks
      (mm_free 1056 free_heap)
      (record { at = 1000; size = 72; free = 1 } ∷ record { at = 1096; size = 8; free = 0 } ∷ [])
    × (◌≡◌ {A = ℕ} 1000 1000)
    × ((mm_free 1056 free_heap).brk ≡ 1128)
    × ((mm_free 1056 free_heap).start_of_mem ≡ some 1000)
unfolding release free_first
mm_free-release_example =
    mm_free-release 1032 free_heap (record { at = 1000; size = 8; free = 1 })
      (record { at = 1032; size = 40; free = 0 } ∷ record { at = 1096; size = 8; free = 0 } ∷ [])
      free_heap-IsBlocks (omega arith) (inr (inl (refl, prev_1032)))

-- The last block's `prev` is where no block is any more.
stale_prev : prev_of 1096 (mm_free 1056 free_heap) ≡ 1032
stale_prev =
    (mm_free-stale free_heap (record { at = 1000; size = 8; free = 1 })
      (record { at = 1032; size = 40; free = 0 }) (record { at = 1096; size = 8; free = 0 }) []
      free_heap-IsBlocks (omega arith) (omega arith) refl prev_1032 prev_1096).1
