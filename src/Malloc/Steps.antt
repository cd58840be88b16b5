-- ===== src/Malloc/Steps.antt =====
-- The steps of mm_malloc's loop in malloc-master/mm_alloc.c, and the block that it adds.
use mathlib.Core.Bool.{false≢true}
use fuse_using_memcached.Prelude.{
  ℕ, suc, ◌+◌, ◌≤◌, ◌<◌, ◌^◌, ◌≡◌, refl, ◌∙◌, Bool, true, false, ◌&&◌, leb, ltb, ◌==◌, arith, [],
  ◌∷◌, some, none, lt→ltb,
}
use fuse_using_memcached.Malloc.Store.{load-store, load_under, load_over, store_below}
use fuse_using_memcached.Malloc.Fields.{HasFields, new_block-HasFields, new_block_below}
use fuse_using_memcached.Malloc.Blocks.{Block, IsBlock, HasFields-agree}
use fuse_using_memcached.Malloc.FirstFit.{Found}
use fuse_using_memcached.Malloc.{
  Heap, sizeof_metadata, next_of, size_of, is_free, set_next, set_prev, sbrk, new_block,
  take_middle, take_last, append_block, walk,
}

pub append-Found :
    (size : ℕ) (b : Block) (h : Heap)
    → IsBlock h 0 h.brk b
    → size < 2 ^ 32
    → h.brk + (size + sizeof_metadata) < 2 ^ 64
    → Found b.at h
        (h.brk, b ∷ record { at = h.brk; size = size; free = 0 } ∷ [])
        (
          h.brk + sizeof_metadata,
          new_block h.brk size (
              set_next b.at h.brk
                (set_prev h.brk b.at (record h { brk = h.brk + (size + sizeof_metadata) }))),
        )
unfolding new_block
append-Found size b h one small bound =
    let w = one.within in
    let p = one.positive in
    let g =
      set_next b.at h.brk
        (set_prev h.brk b.at (record h { brk = h.brk + (size + sizeof_metadata) })) in
    let linked : HasFields g b.at h.brk b.free b.size = record {
      next_is = load-store 8 (b.at + 8) h.brk _ one.addressed;
      free_is =
          load_over 4 (b.at + 16) 8 (b.at + 8) h.brk _ (omega arith)
          ∙ load_under 4 (b.at + 16) 8 h.brk b.at _ (omega arith)
          ∙ one.fields.free_is;
      size_is =
          load_over 4 (b.at + 20) 8 (b.at + 8) h.brk _ (omega arith)
          ∙ load_under 4 (b.at + 20) 8 h.brk b.at _ (omega arith)
          ∙ one.fields.size_is;
    } in
    record {
      address = refl;
      blocks = (
        record {
          positive = p;
          fields =
              HasFields-agree g (new_block h.brk size g) b.at h.brk b.free b.size
                (λ x lo hi. new_block_below h.brk size g x (omega arith)) linked;
          within = w;
          addressed = one.addressed;
          small = one.small;
        },
        (
          record {
            positive = omega arith;
            fields = new_block-HasFields h.brk size g small;
            within = omega arith;
            addressed = bound;
            small = small;
          },
          tt,
        ),
      );
      same_start = refl;
      below = λ x lt.
          new_block_below h.brk size g x (omega arith)
          ∙ store_below 8 (b.at + 8) h.brk _ x (omega arith)
          ∙ store_below 8 h.brk b.at _ x (omega arith);
    }

module _ (grants : ℕ → ℕ → Bool) where
  pub sbrk_granted :
      (n : ℕ) (h : Heap)
      → grants h.brk n ≡ true
      → n < 2 ^ 63
      → sbrk grants n h ≡ some (record h { brk = h.brk + n })
  unfolding sbrk
  sbrk_granted n h e small = rw (sbrk, e, lt→ltb n (2 ^ 63) small) refl

  pub sbrk_refused : (n : ℕ) (h : Heap) → grants h.brk n ≡ false → sbrk grants n h ≡ none
  unfolding sbrk
  sbrk_refused n h e = rw (sbrk, e) refl

  pub walk-end :
      (fuel size last : ℕ) (h : Heap)
      → walk grants (suc fuel) size last 0 h ≡ some (append_block grants size last h)
  unfolding walk
  walk-end fuel size last h = refl

  pub walk-last :
      (fuel size last cur : ℕ) (h : Heap)
      → (cur == 0) ≡ false
      → (is_free cur h && (next_of cur h == 0)) ≡ true
      → walk grants (suc fuel) size last cur h ≡ some (take_last grants size cur h)
  unfolding walk
  walk-last fuel size last cur h e f = rw (walk, e, f) refl

  pub walk-fits :
      (fuel size last cur : ℕ) (h : Heap)
      → (cur == 0) ≡ false
      → (is_free cur h && (next_of cur h == 0)) ≡ false
      → (is_free cur h && leb size (size_of cur h)) ≡ true
      → walk grants (suc fuel) size last cur h
        ≡ some (cur + sizeof_metadata, take_middle size cur h)
  unfolding walk
  walk-fits fuel size last cur h e f g = rw (walk, e, f, g) refl

  pub walk-pass :
      (fuel size last cur : ℕ) (h : Heap)
      → (cur == 0) ≡ false
      → (is_free cur h && (next_of cur h == 0)) ≡ false
      → (is_free cur h && leb size (size_of cur h)) ≡ false
      → walk grants (suc fuel) size last cur h ≡ walk grants fuel size cur (next_of cur h) h
  unfolding walk
  walk-pass fuel size last cur h e f g = rw (walk, e, f, g) refl

pub le_of : (a b : ℕ) → ltb b a ≡ false → a ≤ b
le_of a b h = ground arith

pub and_right : (a b : Bool) → (a && b) ≡ true → b ≡ true
and_right true b e = e
and_right false b e = absurd (false≢true e)

pub and_no : (a b : Bool) → b ≡ false → (a && b) ≡ false
and_no true b e = e
and_no false b e = refl
