-- ===== src/Malloc/Free/Merged.antt =====
-- What the merges of mm_free in malloc-master/mm_alloc.c leave in the metadata.
use fuse_using_memcached.Prelude.{
  ℕ, ◌+◌, ◌≤◌, ◌<◌, ◌^◌, ◌≡◌, refl, ap, ◌∙◌, false, ◌==◌, if◌then◌else◌, List, [], ◌∷◌, arith,
  ne→==,
}
use fuse_using_memcached.Malloc.Store.{store_below, store_above, load-store, load_under, load_over}
use fuse_using_memcached.Malloc.Fields.{HasFields}
use fuse_using_memcached.Malloc.Blocks.{Block, start_of, limit, IsBlocks, IsBlocks-agree}
use fuse_using_memcached.Malloc.Free.{join, mark}
use fuse_using_memcached.Malloc.{
  Heap, sizeof_metadata, prev_of, next_of, free_of, set_prev, set_next, set_free, set_size,
  merge_prev, merge_next,
}

module _ (a : ℕ) (h : Heap) where
  -- A block that grows to `v` bytes, with the next block at `n`.
  abbrev pub grown : (n v : ℕ) → Heap
  grown n v = set_next a n (set_size a v h)

  pub grown-HasFields :
      (n v free : ℕ)
      → n < 2 ^ 64
      → v < 2 ^ 32
      → free_of a h ≡ free
      → HasFields (grown n v) a n free v
  grown-HasFields n v free n_small v_small free_is = record {
    next_is = load-store 8 (a + 8) n _ (omega arith);
    free_is =
        load_over 4 (a + 16) 8 (a + 8) n _ (omega arith)
        ∙ load_under 4 (a + 16) 4 (a + 20) v h.memory (omega arith)
        ∙ free_is;
    size_is =
        load_over 4 (a + 20) 8 (a + 8) n _ (omega arith)
        ∙ load-store 4 (a + 20) v h.memory (omega arith);
  }

  pub grown_below : (n v x : ℕ) → x < a + 8 → (grown n v).memory x ≡ h.memory x
  grown_below n v x lt =
      store_below 8 (a + 8) n _ x (omega arith) ∙ store_below 4 (a + 20) v h.memory x (omega arith)

  pub grown_above : (n v x : ℕ) → a + sizeof_metadata ≤ x → (grown n v).memory x ≡ h.memory x
  grown_above n v x le =
      store_above 8 (a + 8) n _ x (omega arith) ∙ store_above 4 (a + 20) v h.memory x (omega arith)

  pub freed-HasFields :
      (n free size : ℕ) → HasFields h a n free size → HasFields (set_free a 1 h) a n 1 size
  freed-HasFields n free size f = record {
    next_is = load_under 8 (a + 8) 4 (a + 16) 1 h.memory (omega arith) ∙ f.next_is;
    free_is = load-store 4 (a + 16) 1 h.memory (omega arith);
    size_is = load_over 4 (a + 20) 4 (a + 16) 1 h.memory (omega arith) ∙ f.size_is;
  }

start_limit : (end : ℕ) (bs : List Block) → start_of bs ≤ limit end bs
start_limit end [] = omega arith
start_limit end (b ∷ bs) = omega arith

pub limit_below : (h : Heap) (bs : List Block) → IsBlocks h bs → limit h.brk bs ≤ h.brk
limit_below h [] all = omega arith
limit_below h (b ∷ bs) (one, rest) =
    let w = one.within in let r = limit_below h bs rest in omega arith

-- The heap `h'` holds `after` where `h` held blocks from `start` on, and is as it was in front of them.
pub record Released (h h' : Heap) (start : ℕ) (after : List Block) : Type 0 where
  pub blocks : IsBlocks h' after
  pub start_is : start_of after ≡ start
  pub limit_is : limit h'.brk after ≡ start
  pub below : (x : ℕ) → x < start → h'.memory x ≡ h.memory x
  pub brk_is : h'.brk ≡ h.brk
  pub started : h'.start_of_mem ≡ h.start_of_mem

pub Released-trans :
    {h h₁ h₂ : Heap} {start : ℕ} {after after₂ : List Block}
    → Released h h₁ start after
    → Released h₁ h₂ start after₂
    → Released h h₂ start after₂
Released-trans r r₂ = record {
  blocks = r₂.blocks;
  start_is = r₂.start_is;
  limit_is = r₂.limit_is;
  below = λ x lt. r₂.below x lt ∙ r.below x lt;
  brk_is = r₂.brk_is ∙ r.brk_is;
  started = r₂.started ∙ r.started;
}

-- Blocks whose metadata stays, but for the `prev` of the first.
IsBlocks-behind :
    (h h' : Heap) (bs : List Block)
    → h'.brk ≡ h.brk
    → ((x : ℕ) → limit h.brk bs + 8 ≤ x → h'.memory x ≡ h.memory x)
    → IsBlocks h bs
    → IsBlocks h' bs
IsBlocks-behind h h' [] e same all = tt
IsBlocks-behind h h' (b ∷ bs) e same all = IsBlocks-agree h h' (b ∷ bs) e same all

-- A change to the metadata of the first block.
module _ (h h' : Heap) (b : Block) (bs : List Block) where
  pub first-Released :
      0 < b.at
      → b.at + sizeof_metadata + b.size ≤ limit h.brk bs
      → limit h.brk bs < 2 ^ 64
      → b.size < 2 ^ 32
      → IsBlocks h bs
      → h'.brk ≡ h.brk
      → h'.start_of_mem ≡ h.start_of_mem
      → HasFields h' b.at (start_of bs) b.free b.size
      → ((x : ℕ) → limit h.brk bs + 8 ≤ x → h'.memory x ≡ h.memory x)
      → ((x : ℕ) → x < b.at → h'.memory x ≡ h.memory x)
      → Released h h' b.at (b ∷ bs)
  first-Released positive within addressed small rest brk_is started fields above below =
      let same_limit : limit h'.brk bs ≡ limit h.brk bs = ap (λ k. limit k bs) brk_is in
      record {
        blocks = (
          record {
            positive = positive;
            fields = fields;
            within = omega arith;
            addressed = omega arith;
            small = small;
          },
          IsBlocks-behind h h' bs brk_is above rest,
        );
        start_is = refl;
        limit_is = refl;
        below = below;
        brk_is = brk_is;
        started = started;
      }

module _ (h : Heap) (b : Block) where
  -- The first block is marked.
  pub mark-Released :
      (bs : List Block) → IsBlocks h (b ∷ bs) → Released h (set_free b.at 1 h) b.at (mark b ∷ bs)
  mark-Released bs (one, rest) =
      let within = one.within in
      first-Released h (set_free b.at 1 h) (mark b) bs one.positive one.within one.addressed
        one.small rest refl refl (freed-HasFields b.at h (start_of bs) b.free b.size one.fields)
        (λ x le. store_above 4 (b.at + 16) 1 h.memory x (omega arith))
        (λ x lt. store_below 4 (b.at + 16) 1 h.memory x (omega arith))

  module _ (c : Block) (cs : List Block) (all : IsBlocks h (b ∷ c ∷ cs))
      (small : h.brk < b.at + 2 ^ 32) where
    abbrev pub joined : Heap
    joined = grown b.at h (start_of cs) (b.size + (c.size + sizeof_metadata))

    join_within : b.at + sizeof_metadata + (b.size + (c.size + sizeof_metadata)) ≤ limit h.brk cs
    join_within = let w = all.0.within in let v = all.1.0.within in omega arith

    start_small : start_of cs < 2 ^ 64
    start_small = let le = start_limit h.brk cs in let top = all.1.0.addressed in omega arith

    -- The `next` of the block that is taken in, after the size is set.
    next_joined : next_of c.at (set_size b.at (b.size + (c.size + sizeof_metadata)) h) ≡ start_of cs
    next_joined =
        let within = all.0.within in
        load_over 8 (c.at + 8) 4 (b.at + 20) _ h.memory (omega arith) ∙ all.1.0.fields.next_is

    -- The first block takes in the one behind it.
    pub join-Released : Released h joined b.at (join b c ∷ cs)
    join-Released =
        let within = join_within in
        let top = limit_below h cs all.1.1 in
        first-Released h joined (join b c) cs all.0.positive join_within all.1.0.addressed
          (omega arith) all.1.1 refl refl
          (grown-HasFields b.at h (start_of cs) (b.size + (c.size + sizeof_metadata)) b.free
            start_small (omega arith) all.0.fields.free_is)
          (λ x le. grown_above b.at h (start_of cs) _ x (omega arith))
          (λ x lt. grown_below b.at h (start_of cs) _ x (omega arith))

    pub merge_prev-joined :
        prev_of c.at h ≡ b.at → (b.free == 0) ≡ false → merge_prev c.at h ≡ (b.at, joined)
    unfolding merge_prev
    merge_prev-joined back open_block =
        let positive = all.0.positive in
        rw
          (
            merge_prev,
            back,
            all.0.fields.free_is,
            ne→== b.at 0 (λ e. absurd (omega arith)),
            open_block,
            all.0.fields.size_is,
            all.1.0.fields.size_is,
            next_joined,
          )
          refl

    abbrev pub linked : Heap
    linked = if start_of cs == 0 then joined else set_prev (start_of cs) b.at joined

    pub merge_next-linked : (c.free == 0) ≡ false → merge_next b.at h ≡ linked
    unfolding merge_next
    merge_next-linked open_block =
        let positive = all.1.0.positive in
        rw
          (
            merge_next,
            all.0.fields.next_is,
            all.1.0.fields.free_is,
            ne→== c.at 0 (λ e. absurd (omega arith)),
            open_block,
            all.0.fields.size_is,
            all.1.0.fields.size_is,
            next_joined,
          )
          refl
