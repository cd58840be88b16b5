-- ===== src/Malloc/Fields.antt =====
-- What mm_malloc's steps leave in the fields that it reads.
use fuse_using_memcached.Prelude.{ℕ, ◌+◌, ◌-◌, ◌≤◌, ◌<◌, ◌^◌, ◌≡◌, ap, ◌∙◌, arith}
use fuse_using_memcached.Malloc.Store.{
  store, load, store_below, store_above, load-store, load_under, load_over, load-clear, clear_below,
  clear_above,
}
use fuse_using_memcached.Malloc.{
  Heap, sizeof_metadata, next_of, free_of, size_of, new_block, split_last, take_block,
}

-- The fields of a block.
pub record HasFields (h : Heap) (a next free size : ℕ) : Type 0 where
  pub next_is : next_of a h ≡ next
  pub free_is : free_of a h ≡ free
  pub size_is : size_of a h ≡ size

pub take_block-HasFields :
    (size cur next : ℕ) (h : Heap)
    → size < 2 ^ 32
    → next_of cur h ≡ next
    → HasFields (take_block size cur h) cur next 0 size
unfolding take_block
take_block-HasFields size cur next h small e = record {
  next_is =
      load-clear 8 (cur + 8) (cur + 24) size _ (omega arith)
      ∙ load_under 8 (cur + 8) 4 (cur + 16) 0 _ (omega arith)
      ∙ load_under 8 (cur + 8) 4 (cur + 20) size _ (omega arith)
      ∙ e;
  free_is =
      load-clear 4 (cur + 16) (cur + 24) size _ (omega arith)
      ∙ load-store 4 (cur + 16) 0 _ (omega arith);
  size_is =
      load-clear 4 (cur + 20) (cur + 24) size _ (omega arith)
      ∙ load_over 4 (cur + 20) 4 (cur + 16) 0 _ (omega arith)
      ∙ load-store 4 (cur + 20) size _ (omega arith);
}

pub take_block_below :
    (size cur : ℕ) (h : Heap) (x : ℕ) → x < cur + 16 → (take_block size cur h).memory x ≡ h.memory x
unfolding take_block
take_block_below size cur h x lt =
    clear_below (cur + 24) size _ x (omega arith)
    ∙ store_below 4 (cur + 16) 0 _ x (omega arith)
    ∙ store_below 4 (cur + 20) size _ x (omega arith)

pub take_block_above :
    (size cur : ℕ) (h : Heap) (x : ℕ)
    → cur + sizeof_metadata + size ≤ x
    → (take_block size cur h).memory x ≡ h.memory x
unfolding take_block
take_block_above size cur h x le =
    clear_above (cur + 24) size _ x (omega arith)
    ∙ store_above 4 (cur + 16) 0 _ x (omega arith)
    ∙ store_above 4 (cur + 20) size _ x (omega arith)

pub new_block-HasFields :
    (a size : ℕ) (h : Heap) → size < 2 ^ 32 → HasFields (new_block a size h) a 0 0 size
unfolding new_block
new_block-HasFields a size h small = record {
  next_is =
      load-clear 8 (a + 8) (a + 24) size _ (omega arith)
      ∙ load_under 8 (a + 8) 4 (a + 20) size _ (omega arith)
      ∙ load_under 8 (a + 8) 4 (a + 16) 0 _ (omega arith)
      ∙ load-store 8 (a + 8) 0 _ (omega arith);
  free_is =
      load-clear 4 (a + 16) (a + 24) size _ (omega arith)
      ∙ load_under 4 (a + 16) 4 (a + 20) size _ (omega arith)
      ∙ load-store 4 (a + 16) 0 _ (omega arith);
  size_is =
      load-clear 4 (a + 20) (a + 24) size _ (omega arith)
      ∙ load-store 4 (a + 20) size _ (omega arith);
}

pub new_block_below :
    (a size : ℕ) (h : Heap) (x : ℕ) → x < a → (new_block a size h).memory x ≡ h.memory x
unfolding new_block
new_block_below a size h x lt =
    clear_below (a + 24) size _ x (omega arith)
    ∙ store_below 4 (a + 20) size _ x (omega arith)
    ∙ store_below 4 (a + 16) 0 _ x (omega arith)
    ∙ store_below 8 (a + 8) 0 _ x (omega arith)

-- The block behind one that is split at the end of the list.
pub split_last-HasFields :
    (size cur old : ℕ) (h : Heap)
    → size_of cur h ≡ old
    → old < 2 ^ 32
    → HasFields
        (split_last size cur h)
        (cur + sizeof_metadata + size)
        0
        1
        (old - size - sizeof_metadata)
unfolding split_last
split_last-HasFields size cur old h e small =
    let b = cur + 24 + size in
    let old_size : load 4 (cur + 20) (store 8 b cur (store 8 (cur + 8) b h.memory)) ≡ old =
      load_under 4 (cur + 20) 8 b cur _ (omega arith)
      ∙ load_over 4 (cur + 20) 8 (cur + 8) b _ (omega arith)
      ∙ e in
    record {
      next_is =
          load_under 8 (b + 8) 4 (b + 16) 1 _ (omega arith)
          ∙ load-store 8 (b + 8) 0 _ (omega arith);
      free_is = load-store 4 (b + 16) 1 _ (omega arith);
      size_is =
          load_over 4 (b + 20) 4 (b + 16) 1 _ (omega arith)
          ∙ load_over 4 (b + 20) 8 (b + 8) 0 _ (omega arith)
          ∙ load-store 4 (b + 20) _ _ (omega (arith, old_size))
          ∙ ap (λ n. n - size - 24) old_size;
    }

pub split_last-next :
    (size cur : ℕ) (h : Heap)
    → cur + sizeof_metadata + size < 2 ^ 64
    → next_of cur (split_last size cur h) ≡ cur + sizeof_metadata + size
unfolding split_last
split_last-next size cur h small =
    let b = cur + 24 + size in
    load_under 8 (cur + 8) 4 (b + 16) 1 _ (omega arith)
    ∙ load_under 8 (cur + 8) 8 (b + 8) 0 _ (omega arith)
    ∙ load_under 8 (cur + 8) 4 (b + 20) _ _ (omega arith)
    ∙ load_under 8 (cur + 8) 8 b cur _ (omega arith)
    ∙ load-store 8 (cur + 8) b _ (omega arith)

pub split_last_below :
    (size cur : ℕ) (h : Heap) (x : ℕ) → x < cur → (split_last size cur h).memory x ≡ h.memory x
unfolding split_last
split_last_below size cur h x lt =
    let b = cur + 24 + size in
    store_below 4 (b + 16) 1 _ x (omega arith)
    ∙ store_below 8 (b + 8) 0 _ x (omega arith)
    ∙ store_below 4 (b + 20) _ _ x (omega arith)
    ∙ store_below 8 b cur _ x (omega arith)
    ∙ store_below 8 (cur + 8) b _ x (omega arith)
