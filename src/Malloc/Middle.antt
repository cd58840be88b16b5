-- ===== src/Malloc/Middle.antt =====
-- What the split of a block inside the list leaves in the fields that mm_malloc reads.
use fuse_using_memcached.Prelude.{ℕ, ◌+◌, ◌-◌, ◌≤◌, ◌<◌, ◌^◌, ◌%◌, ◌≡◌, refl, ap, ◌∙◌, arith, ne→==}
use fuse_using_memcached.Malloc.Store.{
  store, load, store_below, store_above, load-store, load-store_int, load_under, load_over,
}
use fuse_using_memcached.Malloc.Fields.{HasFields}
use fuse_using_memcached.Malloc.{
  Heap, sizeof_metadata, next_of, free_of, size_of, distance, split_middle,
}

module _ (size cur next : ℕ) (h : Heap) (next_is : next_of cur h ≡ next)
    (next_small : next < 2 ^ 64)
    (room : cur + sizeof_metadata + size + sizeof_metadata ≤ next) where
  split_memory : (split_middle size cur h).memory ≡ (
      let b = cur + sizeof_metadata + size in
      store 4 (b + 20) (next - b - sizeof_metadata) (
        store 4
          (b + 16)
          1
          (store 8 next b (store 8 (b + 8) next (store 8 b cur (store 8 (cur + 8) b h.memory))))))
  unfolding split_middle
  split_memory =
      let b = cur + 24 + size in
      let m = store 8 (b + 8) next (store 8 b cur (store 8 (cur + 8) b h.memory)) in
      let link : load 8 (b + 8) (store 4 (b + 16) 1 (store 8 next b m)) ≡ next =
        load_under 8 (b + 8) 4 (b + 16) 1 _ (omega arith)
        ∙ load_under 8 (b + 8) 8 next b m (omega arith)
        ∙ load-store 8 (b + 8) next _ (omega arith) in
      let left : distance (distance next b) 24 ≡ next - b - 24 = omega arith in
      rw (next_is, ne→== next 0 (λ e. absurd (omega arith)), link, left) refl

  pub split_middle-HasFields :
      HasFields
        (split_middle size cur h)
        (cur + sizeof_metadata + size)
        next
        1
        ((next - (cur + sizeof_metadata + size) - sizeof_metadata) % 2 ^ 32)
  split_middle-HasFields =
      let b = cur + 24 + size in
      record {
        next_is =
            ap (load 8 (b + 8)) split_memory
            ∙ load_under 8 (b + 8) 4 (b + 20) _ _ (omega arith)
            ∙ load_under 8 (b + 8) 4 (b + 16) 1 _ (omega arith)
            ∙ load_under 8 (b + 8) 8 next b _ (omega arith)
            ∙ load-store 8 (b + 8) next _ (omega arith);
        free_is =
            ap (load 4 (b + 16)) split_memory
            ∙ load_under 4 (b + 16) 4 (b + 20) _ _ (omega arith)
            ∙ load-store 4 (b + 16) 1 _ (omega arith);
        size_is = ap (load 4 (b + 20)) split_memory ∙ load-store_int (b + 20) _ _;
      }

  -- The block that is split keeps its other fields.
  pub split_middle-front :
      (free old : ℕ)
      → free_of cur h ≡ free
      → size_of cur h ≡ old
      → HasFields (split_middle size cur h) cur (cur + sizeof_metadata + size) free old
  split_middle-front free old free_is size_is =
      let b = cur + 24 + size in
      record {
        next_is =
            ap (load 8 (cur + 8)) split_memory
            ∙ load_under 8 (cur + 8) 4 (b + 20) _ _ (omega arith)
            ∙ load_under 8 (cur + 8) 4 (b + 16) 1 _ (omega arith)
            ∙ load_under 8 (cur + 8) 8 next b _ (omega arith)
            ∙ load_under 8 (cur + 8) 8 (b + 8) next _ (omega arith)
            ∙ load_under 8 (cur + 8) 8 b cur _ (omega arith)
            ∙ load-store 8 (cur + 8) b _ (omega arith);
        free_is = kept (cur + 16) (omega arith) (omega arith) ∙ free_is;
        size_is = kept (cur + 20) (omega arith) (omega arith) ∙ size_is;
      }
    where
      kept :
          (a : ℕ)
          → cur + 16 ≤ a
          → a + 4 ≤ cur + sizeof_metadata
          → load 4 a (split_middle size cur h).memory ≡ load 4 a h.memory
      kept a lo hi =
          let b = cur + 24 + size in
          ap (load 4 a) split_memory
          ∙ load_under 4 a 4 (b + 20) _ _ (omega arith)
          ∙ load_under 4 a 4 (b + 16) 1 _ (omega arith)
          ∙ load_under 4 a 8 next b _ (omega arith)
          ∙ load_under 4 a 8 (b + 8) next _ (omega arith)
          ∙ load_under 4 a 8 b cur _ (omega arith)
          ∙ load_over 4 a 8 (cur + 8) b _ (omega arith)

  pub split_middle_below : (x : ℕ) → x < cur → (split_middle size cur h).memory x ≡ h.memory x
  split_middle_below x lt =
      let b = cur + 24 + size in
      ap (λ m. m x) split_memory
      ∙ store_below 4 (b + 20) _ _ x (omega arith)
      ∙ store_below 4 (b + 16) 1 _ x (omega arith)
      ∙ store_below 8 next b _ x (omega arith)
      ∙ store_below 8 (b + 8) next _ x (omega arith)
      ∙ store_below 8 b cur _ x (omega arith)
      ∙ store_below 8 (cur + 8) b _ x (omega arith)

  -- Behind the new block only the next one's `prev` changes.
  pub split_middle_above : (x : ℕ) → next + 8 ≤ x → (split_middle size cur h).memory x ≡ h.memory x
  split_middle_above x le =
      let b = cur + 24 + size in
      ap (λ m. m x) split_memory
      ∙ store_above 4 (b + 20) _ _ x (omega arith)
      ∙ store_above 4 (b + 16) 1 _ x (omega arith)
      ∙ store_above 8 next b _ x (omega arith)
      ∙ store_above 8 (b + 8) next _ x (omega arith)
      ∙ store_above 8 b cur _ x (omega arith)
      ∙ store_above 8 (cur + 8) b _ x (omega arith)
