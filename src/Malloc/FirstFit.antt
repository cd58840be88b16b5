-- ===== src/Malloc/FirstFit.antt =====
-- mm_malloc of malloc-master/mm_alloc.c on a list of blocks.
use fuse_using_memcached.Prelude.{
  ℕ, ◌+◌, ◌-◌, ◌≤◌, ◌<◌, ◌^◌, ◌≡◌, refl, ap, ◌∙◌, true, false, leb, ◌==◌, arith, List, ◌∷◌, ◌++◌,
  inl, inr, Bool-cases, leb→le,
}
use fuse_using_memcached.Malloc.Fields.{
  HasFields, take_block-HasFields, take_block_below, take_block_above, split_last-HasFields,
  split_last-next, split_last_below,
}
use fuse_using_memcached.Malloc.Middle.{
  split_middle-HasFields, split_middle-front, split_middle_below, split_middle_above,
}
use fuse_using_memcached.Malloc.Outcome.{with_metadata_lem}
use fuse_using_memcached.Malloc.Blocks.{
  Block, IsBlock, IsBlocks, fit_last, fit_middle, HasFields-agree, IsBlocks-agree,
}
use fuse_using_memcached.Malloc.{
  Heap, sizeof_metadata, next_of, distance, split_last, take_block, split_middle, take_middle,
}

-- The result is the block at the placed address, the heap holds the placed blocks, and nothing in front of an
-- address has changed.
pub record Found (from : ℕ) (h : Heap) (placed : ℕ × List Block) (r : ℕ × Heap) : Type 0 where
  pub address : r.0 ≡ placed.0 + sizeof_metadata
  pub blocks : IsBlocks r.1 placed.1
  pub same_start : r.1.start_of_mem ≡ h.start_of_mem
  pub below : (x : ℕ) → x < from → r.1.memory x ≡ h.memory x

taken-IsBlock :
    (size end at next : ℕ) (h : Heap)
    → 0 < at
    → size < 2 ^ 32
    → next_of at h ≡ next
    → at + sizeof_metadata + size ≤ end
    → end < 2 ^ 64
    → IsBlock (take_block size at h) next end (record { at = at; size = size; free = 0 })
taken-IsBlock size end at next h positive small e within addressed = record {
  positive = positive;
  fields = take_block-HasFields size at next h small e;
  within = within;
  addressed = addressed;
  small = small;
}

-- The last block, if it has enough bytes or got them.
pub take-Found :
    (size : ℕ) (b : Block) (h g : Heap)
    → 0 < b.at
    → size < 2 ^ 32
    → next_of b.at g ≡ 0
    → b.at + sizeof_metadata + size ≤ g.brk
    → g.brk < 2 ^ 64
    → leb (size + sizeof_metadata) b.size ≡ false
    → g.start_of_mem ≡ h.start_of_mem
    → ((x : ℕ) → x < b.at → g.memory x ≡ h.memory x)
    → Found b.at h (b.at, fit_last size b) (b.at + sizeof_metadata, take_block size b.at g)
unfolding take_block
take-Found size b h g positive small next within addressed no_room started below = record {
  address = refl;
  blocks = rw no_room (taken-IsBlock size g.brk b.at 0 g positive small next within addressed, tt);
  same_start = started;
  below = λ x lt. take_block_below size b.at g x (omega arith) ∙ below x lt;
}

pub split_last-Found :
    (size : ℕ) (b : Block) (h : Heap)
    → IsBlock h 0 h.brk b
    → leb (size + sizeof_metadata) b.size ≡ true
    → Found b.at h
        (b.at, fit_last size b)
        (b.at + sizeof_metadata, take_block size b.at (split_last size b.at h))
unfolding take_block split_last
split_last-Found size b h one room =
    let enough = leb→le (size + sizeof_metadata) b.size room in
    let w = one.within in
    let a = one.addressed in
    let s = one.small in
    let p = one.positive in
    let g = split_last size b.at h in
    let n = b.at + 24 + size in
    record {
      address = refl;
      blocks = rw room (
        taken-IsBlock size n b.at n g p (omega arith) (split_last-next size b.at h (omega arith))
            (omega arith) (omega arith),
        (
          record {
            positive = omega arith;
            fields =
                HasFields-agree g (take_block size b.at g) n 0 1 (b.size - size - 24)
                  (λ x lo hi. take_block_above size b.at g x (omega arith))
                  (split_last-HasFields size b.at b.size h one.fields.size_is s);
            within = omega arith;
            addressed = a;
            small = omega arith;
          },
          tt,
        ),
      );
      same_start = refl;
      below =
          λ x lt. take_block_below size b.at g x (omega arith) ∙ split_last_below size b.at h x lt;
    }

taken-next :
    (size : ℕ) (b : Block) (next end : ℕ) (h : Heap)
    → IsBlock h next end b
    → size < 2 ^ 32
    → HasFields (take_block size b.at h) b.at next 0 size
taken-next size b next end h one small =
    take_block-HasFields size b.at next h small one.fields.next_is

middle_whole-Found :
    (size : ℕ) (b c : Block) (bs : List Block) (h : Heap)
    → IsBlocks h (b ∷ c ∷ bs)
    → size ≤ b.size
    → leb (size + sizeof_metadata) (c.at - b.at - sizeof_metadata) ≡ false
    → Found b.at h
        (b.at, fit_middle size c.at b ++ (c ∷ bs))
        (b.at + sizeof_metadata, take_block size b.at h)
unfolding take_block
middle_whole-Found size b c bs h (one, rest) enough no_room =
    let w = one.within in
    let s = one.small in
    record {
      address = refl;
      blocks = rw no_room (
        taken-IsBlock size c.at b.at c.at h one.positive (omega arith) one.fields.next_is
            (omega arith) one.addressed,
        IsBlocks-agree h (take_block size b.at h) (c ∷ bs) refl
            (λ x lo. take_block_above size b.at h x (omega arith)) rest,
      );
      same_start = refl;
      below = λ x lt. take_block_below size b.at h x (omega arith);
    }

split_middle-brk : (size cur : ℕ) (h : Heap) → (split_middle size cur h).brk ≡ h.brk
unfolding split_middle
split_middle-brk size cur h = elim (Bool-cases (next_of cur h == 0)) [
  | inl e ↦ rw (split_middle, e) refl
  | inr e ↦ rw (split_middle, e) refl
]

split_middle-start :
    (size cur : ℕ) (h : Heap) → (split_middle size cur h).start_of_mem ≡ h.start_of_mem
unfolding split_middle
split_middle-start size cur h = elim (Bool-cases (next_of cur h == 0)) [
  | inl e ↦ rw (split_middle, e) refl
  | inr e ↦ rw (split_middle, e) refl
]

middle_split-Found :
    (size : ℕ) (b c : Block) (bs : List Block) (h : Heap)
    → IsBlocks h (b ∷ c ∷ bs)
    → size ≤ b.size
    → leb (size + sizeof_metadata) (c.at - b.at - sizeof_metadata) ≡ true
    → Found b.at h
        (b.at, fit_middle size c.at b ++ (c ∷ bs))
        (b.at + sizeof_metadata, split_middle size b.at (take_block size b.at h))
unfolding take_block split_middle
middle_split-Found size b c bs h (one, rest) enough room =
    let fits = leb→le (size + sizeof_metadata) (c.at - b.at - sizeof_metadata) room in
    let w = one.within in
    let s = one.small in
    let p = one.positive in
    let a = one.addressed in
    let g = take_block size b.at h in
    let f = taken-next size b c.at c.at h one (omega arith) in
    let n = b.at + 24 + size in
    let apart : n + 24 ≤ c.at = omega arith in
    record {
      address = refl;
      blocks = rw room (
        record {
          positive = p;
          fields = split_middle-front size b.at c.at g f.next_is a apart 0 size f.free_is f.size_is;
          within = omega arith;
          addressed = omega arith;
          small = omega arith;
        },
        (
          record {
            positive = omega arith;
            fields = split_middle-HasFields size b.at c.at g f.next_is a apart;
            within = omega arith;
            addressed = a;
            small = omega arith;
          },
          IsBlocks-agree h (split_middle size b.at g) (c ∷ bs) (split_middle-brk size b.at g)
              (λ x lo.
                split_middle_above size b.at c.at g f.next_is a apart x lo
                ∙ take_block_above size b.at h x (omega arith))
              rest,
        ),
      );
      same_start = split_middle-start size b.at g;
      below = λ x lt.
          split_middle_below size b.at c.at g f.next_is a apart x lt
          ∙ take_block_below size b.at h x (omega arith);
    }

pub take_middle-Found :
    (size : ℕ) (b c : Block) (bs : List Block) (h : Heap)
    → IsBlocks h (b ∷ c ∷ bs)
    → size ≤ b.size
    → Found b.at h
        (b.at, fit_middle size c.at b ++ (c ∷ bs))
        (b.at + sizeof_metadata, take_middle size b.at h)
unfolding take_middle
take_middle-Found size b c bs h (one, rest) enough =
    let w = one.within in
    let s = one.small in
    let a = one.addressed in
    let f = taken-next size b c.at c.at h one (omega arith) in
    let wrapped = with_metadata_lem size (omega arith) in
    let between : distance (distance c.at b.at) 24 ≡ c.at - b.at - 24 = omega arith in
    let same =
      ap (λ n. leb (size + 24) (distance (distance n b.at) 24)) f.next_is
      ∙ ap (leb (size + 24)) between in
    elim (Bool-cases (leb (size + 24) (c.at - b.at - 24))) [
      | inl e ↦
          rw (take_middle, wrapped, same ∙ e)
            (middle_split-Found size b c bs h (one, rest) enough e)
      | inr e ↦
          rw (take_middle, wrapped, same ∙ e)
            (middle_whole-Found size b c bs h (one, rest) enough e)
    ]
