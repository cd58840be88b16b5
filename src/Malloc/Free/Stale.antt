-- ===== src/Malloc/Free/Stale.antt =====
-- The `prev` that mm_free of malloc-master/mm_alloc.c does not keep.
use fuse_using_memcached.Prelude.{
  ◌+◌, ◌<◌, ◌^◌, ◌≡◌, ◌≢◌, refl, ◌∙◌, List, ◌∷◌, arith, ne→==, ==_refl, ==_iff,
}
use fuse_using_memcached.Malloc.Store.{load_over}
use fuse_using_memcached.Malloc.Blocks.{Block, IsBlocks}
use fuse_using_memcached.Malloc.Free.{join, mark, free_first, release}
use fuse_using_memcached.Malloc.Free.Merged.{joined, join-Released, merge_prev-joined}
use fuse_using_memcached.Malloc.{Heap, sizeof_metadata, prev_of, mm_free}
use fuse_using_memcached.Malloc.Free.Release.{freed}
use fuse_using_memcached.Malloc.Free.First.{merge_next-closed}

module _ (h : Heap) (b c d : Block) (ds : List Block) (all : IsBlocks h (b ∷ c ∷ d ∷ ds))
    (small : h.brk < b.at + 2 ^ 32) where
  -- mm_free of a block between a free one and one in use merges it with the one in front, but leaves the `prev` of
  -- the one behind as it is: it points to where no block of the list stands any more.
  pub mm_free-stale :
      b.free ≢ 0
      → d.free ≡ 0
      → prev_of c.at h ≡ b.at
      → prev_of d.at h ≡ c.at
      → (release c.at b (c ∷ d ∷ ds) ≡ mark (join b c) ∷ d ∷ ds)
        × (prev_of d.at (mm_free (c.at + sizeof_metadata) h) ≡ c.at)
  unfolding release free_first
  mm_free-stale open_block used back stale =
      let within = all.0.within in
      let next_within = all.1.0.within in
      let open_test = ne→== b.free 0 open_block in
      let used_test = (==_iff d.free 0).1 used in
      (
        rw
            (
              release,
              ne→== b.at c.at (λ e. absurd (omega arith)),
              ==_refl c.at,
              open_test,
              used_test,
            )
            refl,
        rw
            (
              freed c.at h,
              merge_prev-joined h b c (d ∷ ds) all small back open_test,
              merge_next-closed (joined h b c (d ∷ ds) all small) (join b c) d ds
                  (join-Released h b c (d ∷ ds) all small).blocks used_test,
            )
            (load_over 8 d.at 4 (b.at + 16) 1 _ (omega arith)
              ∙ load_over 8 d.at 8 (b.at + 8) d.at _ (omega arith)
              ∙ load_over 8 d.at 4 (b.at + 20) _ h.memory (omega arith)
              ∙ stale),
      )
