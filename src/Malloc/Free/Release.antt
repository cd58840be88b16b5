-- ===== src/Malloc/Free/Release.antt =====
-- mm_free of malloc-master/mm_alloc.c refines `release` on the list of blocks.
use fuse_using_memcached.Prelude.{
  ℕ, ◌+◌, ◌-◌, ◌≤◌, ◌<◌, ◌^◌, ◌≡◌, refl, ap, ◌∙◌, sym, Bool, true, false, ◌&&◌, not, ◌==◌, List, [],
  ◌∷◌, arith, ne→==, ==_iff, Bool-cases, inl, inr,
}
use fuse_using_memcached.Malloc.Blocks.{Block, start_of, IsBlocks, HasFields-agree}
use fuse_using_memcached.Malloc.Free.{join, free_first, release, IsLinked}
use fuse_using_memcached.Malloc.Free.Merged.{
  Released, Released-trans, joined, join-Released, merge_prev-joined,
}
use fuse_using_memcached.Malloc.{
  Heap, sizeof_metadata, prev_of, free_of, set_free, is_free, merge_prev, merge_next, mm_free,
}
use fuse_using_memcached.Malloc.Free.First.{free_first-Released}

both_true : {a b : Bool} → (a && not b) ≡ true → (a ≡ true) × (b ≡ false)
both_true {a} {b} e = ground arith

linked_above :
    (h : Heap) (at prev : ℕ) (bs : List Block)
    → IsBlocks h bs
    → IsLinked h at prev bs
    → start_of bs ≤ at
linked_above h at prev [] all l = absurd l
linked_above h at prev (b ∷ []) all (inr l) = absurd l
linked_above h at prev (b ∷ bs) all (inl (e, back)) = omega arith
linked_above h at prev (b ∷ c ∷ cs) all (inr l) =
    let within = all.0.within in let le = linked_above h at b.at (c ∷ cs) all.1 l in omega arith

module _ (at : ℕ) (h : Heap) where
  pub freed :
      mm_free (at + sizeof_metadata) h
      ≡ set_free (merge_prev at h).0 1 (merge_next (merge_prev at h).0 (merge_prev at h).1)
  unfolding mm_free
  freed =
      let back : at + 24 - 24 ≡ at = omega arith in
      rw (ne→== (at + 24) 0 (λ e. absurd (omega arith)), back) refl

  -- The block at the head of the list, when nothing in front of it is free.
  head-Released :
      (prev : ℕ) (b : Block) (bs : List Block)
      → IsBlocks h (b ∷ bs)
      → h.brk < b.at + 2 ^ 32
      → b.at ≡ at
      → prev_of at h ≡ prev
      → (not (prev == 0) && is_free prev h) ≡ false
      → Released h (mm_free (at + sizeof_metadata) h) b.at (free_first b bs)
  unfolding merge_prev
  head-Released prev b bs all small here back alone =
      let same : merge_prev at h ≡ (b.at, h) =
        rw (merge_prev, back, alone) (ap (λ x. (x, h)) (sym here)) in
      rw (freed, same) (free_first-Released h b bs all small)

  -- The block behind the head, when the head is free.
  join-free-Released :
      (b c : Block) (cs : List Block)
      → IsBlocks h (b ∷ c ∷ cs)
      → h.brk < b.at + 2 ^ 32
      → c.at ≡ at
      → prev_of at h ≡ b.at
      → (b.free == 0) ≡ false
      → Released h (mm_free (at + sizeof_metadata) h) b.at (free_first (join b c) cs)
  join-free-Released b c cs all small here back open_block =
      let r = join-Released h b c cs all small in
      let same : merge_prev at h ≡ (b.at, joined h b c cs all small) =
        ap (λ x. merge_prev x h) (sym here)
        ∙ merge_prev-joined h b c cs all small (rw (← here) at back) open_block in
      rw (freed, same)
        (Released-trans r
          (free_first-Released (joined h b c cs all small) (join b c) cs r.blocks small))

  -- A block in front of the change.
  pass-Released :
      {h' : Heap} {after : List Block} (b c : Block) (cs : List Block)
      → IsBlocks h (b ∷ c ∷ cs)
      → Released h h' c.at after
      → Released h h' b.at (b ∷ after)
  pass-Released {h'} {after} b c cs all r =
      let (one, rest) = all in
      let within = one.within in
      let end = r.limit_is in
      record {
        blocks = (
          record {
            positive = one.positive;
            fields = rw r.start_is (
                HasFields-agree h h' b.at c.at b.free b.size (λ x lo hi. r.below x (omega arith))
                  one.fields);
            within = omega arith;
            addressed = rw end one.addressed;
            small = one.small;
          },
          r.blocks,
        );
        start_is = refl;
        limit_is = refl;
        below = λ x lt. r.below x (omega arith);
        brk_is = r.brk_is;
        started = r.started;
      }

  linked_here :
      (prev : ℕ) (c : Block) (cs : List Block)
      → IsBlocks h (c ∷ cs)
      → IsLinked h at prev (c ∷ cs)
      → c.at ≡ at
      → prev_of at h ≡ prev
  linked_here prev c cs all (inl (e, back)) here = back
  linked_here prev c [] all (inr l) here = absurd l
  linked_here prev c (d ∷ ds) all (inr l) here =
      let within = all.0.within in
      let le = linked_above h at c.at (d ∷ ds) all.1 l in absurd (omega arith)

  closed_front :
      (prev free : ℕ) (here : Bool)
      → free_of prev h ≡ free
      → here ≡ true
      → (here && not (free == 0)) ≡ false
      → (not (prev == 0) && is_free prev h) ≡ false
  closed_front prev free here free_is e closed = ground arith

  release-Released :
      (prev : ℕ) (b : Block) (bs : List Block)
      → IsBlocks h (b ∷ bs)
      → h.brk < b.at + 2 ^ 32
      → IsLinked h at prev (b ∷ bs)
      → (b.at ≡ at → (not (prev == 0) && is_free prev h) ≡ false)
      → Released h (mm_free (at + sizeof_metadata) h) b.at (release at b bs)
  unfolding release
  release-Released prev b [] all small (inl (e, back)) alone =
      head-Released prev b [] all small e back (alone e)
  release-Released prev b [] all small (inr l) alone = absurd l
  release-Released prev b (c ∷ cs) all small (inl (e, back)) alone =
      rw (release, (==_iff b.at at).1 e) (head-Released prev b (c ∷ cs) all small e back (alone e))
  release-Released prev b (c ∷ cs) all small (inr l) alone =
      let within = all.0.within in
      let le = linked_above h at b.at (c ∷ cs) all.1 l in
      let apart = ne→== b.at at (λ e. absurd (omega arith)) in
      elim (Bool-cases ((c.at == at) && not (b.free == 0))) [
        | inl e ↦
            let (here, open_block) = both_true e in
            let same_at = (==_iff c.at at).0 here in
            rw (release, apart, e)
              (join-free-Released b c cs all small same_at (linked_here b.at c cs all.1 l same_at)
                open_block)
        | inr e ↦
            rw (release, apart, e)
              (pass-Released b c cs all (
                release-Released b.at c cs all.1 (omega arith) l (λ same_at.
                  closed_front b.at b.free (c.at == at) all.0.fields.free_is
                    ((==_iff c.at at).1 same_at) e)))
      ]

-- mm_free of a block that the heap's list holds, whose `prev` is the block in front of it, on a heap of less than
-- 4 GiB, refines `release`: the heap then holds the list in which the block is free and one with its free
-- neighbours. The break and the first block's address stay.
pub mm_free-release :
    (at : ℕ) (h : Heap) (b : Block) (bs : List Block)
    → IsBlocks h (b ∷ bs)
    → h.brk < b.at + 2 ^ 32
    → IsLinked h at 0 (b ∷ bs)
    → IsBlocks (mm_free (at + sizeof_metadata) h) (release at b bs)
      × (start_of (release at b bs) ≡ b.at)
      × ((mm_free (at + sizeof_metadata) h).brk ≡ h.brk)
      × ((mm_free (at + sizeof_metadata) h).start_of_mem ≡ h.start_of_mem)
mm_free-release at h b bs all small l =
    let r = release-Released at h 0 b bs all small l (λ e. refl) in
    (r.blocks, r.start_is, r.brk_is, r.started)
