-- ===== src/Malloc/Free/First.antt =====
-- mm_free of malloc-master/mm_alloc.c: the first block is freed, with the one behind it.
use fuse_using_memcached.Prelude.{
  ◌+◌, ◌<◌, ◌^◌, ◌≡◌, refl, true, ◌==◌, List, [], ◌∷◌, arith, ne→==, Bool-cases, inl, inr,
}
use fuse_using_memcached.Malloc.Store.{store_below, store_above}
use fuse_using_memcached.Malloc.Blocks.{Block, IsBlocks, HasFields-agree}
use fuse_using_memcached.Malloc.Free.{join, free_first}
use fuse_using_memcached.Malloc.Free.Merged.{
  Released, Released-trans, first-Released, mark-Released, joined, linked, join-Released,
  merge_next-linked,
}
use fuse_using_memcached.Malloc.{Heap, set_prev, set_free, merge_next}

-- The block behind the one that was taken in gets a new `prev`.
linked-Released :
    (h : Heap) (b c : Block) (cs : List Block) (all : IsBlocks h (b ∷ c ∷ cs))
    (small : h.brk < b.at + 2 ^ 32)
    → Released h (linked h b c cs all small) b.at (join b c ∷ cs)
linked-Released h b c [] all small = join-Released h b c [] all small
linked-Released h b c (d ∷ ds) all small =
    let g = joined h b c (d ∷ ds) all small in
    let r = join-Released h b c (d ∷ ds) all small in
    let (one, rest) = r.blocks in
    let within = one.within in
    let positive = rest.0.positive in
    Released-trans r (
      rw (ne→== d.at 0 (λ e. absurd (omega arith))) (
        first-Released g (set_prev d.at b.at g) (join b c) (d ∷ ds) one.positive one.within
          one.addressed one.small rest refl refl
          (HasFields-agree g (set_prev d.at b.at g) b.at d.at b.free _
            (λ x lo hi. store_below 8 d.at b.at g.memory x (omega arith)) one.fields)
          (λ x le. store_above 8 d.at b.at g.memory x le)
          (λ x lt. store_below 8 d.at b.at g.memory x (omega arith))))

pub merge_next-closed :
    (h : Heap) (b c : Block) (cs : List Block)
    → IsBlocks h (b ∷ c ∷ cs)
    → (c.free == 0) ≡ true
    → merge_next b.at h ≡ h
unfolding merge_next
merge_next-closed h b c cs all e =
    let positive = all.1.0.positive in
    rw
      (
        merge_next,
        all.0.fields.next_is,
        all.1.0.fields.free_is,
        ne→== c.at 0 (λ z. absurd (omega arith)),
        e,
      )
      refl

-- The first block is freed, with the one behind it.
pub free_first-Released :
    (h : Heap) (b : Block) (bs : List Block)
    → IsBlocks h (b ∷ bs)
    → h.brk < b.at + 2 ^ 32
    → Released h (set_free b.at 1 (merge_next b.at h)) b.at (free_first b bs)
unfolding free_first merge_next
free_first-Released h b [] all small =
    let alone : merge_next b.at h ≡ h = rw (merge_next, all.0.fields.next_is) refl in
    rw alone (mark-Released h b [] all)
free_first-Released h b (c ∷ cs) all small = elim (Bool-cases (c.free == 0)) [
  | inl e ↦
      let alone = merge_next-closed h b c cs all e in rw (alone, e) (mark-Released h b (c ∷ cs) all)
  | inr e ↦
      let r = linked-Released h b c cs all small in
      rw (merge_next-linked h b c cs all small e, e)
        (Released-trans r (mark-Released (linked h b c cs all small) (join b c) cs r.blocks))
]
