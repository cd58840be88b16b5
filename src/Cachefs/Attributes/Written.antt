-- ===== src/Cachefs/Attributes/Written.antt =====
-- The bytes that `hello_setxattr` of cachedfs/main.c stores for an attribute.
use fuse_using_memcached.Prelude.{
  ℕ, ◌+◌, ◌*◌, ◌≡◌, refl, ap, ap₂, ◌∙◌, [], ◌∷◌, ◌++◌, Bytes, length, get_or, arith, length-append,
  get_or-append_left,
}
use fuse_using_memcached.Machine.Word.{int_bytes}
use fuse_using_memcached.Machine.Buffer.{Buffer, block, store, store_int, load}
use fuse_using_memcached.Machine.Buffer.Laws.{
  load-congr, load-list, load-append, load-store, at-store_in, at-store_before,
}
use fuse_using_memcached.Cachefs.Layout.{is_dir_at, data_len_at, parent_index_at}
use fuse_using_memcached.Cachefs.Attributes.{xattr_block}
use fuse_using_memcached.Cachefs.Attributes.Stored.{Xattr, xattr_head, xattr_cell, xattr_size}

-- The fields that are leftover memory, or read by no operation.
abbrev pub left_mid : (ℕ → ℕ) → ℕ → Bytes
left_mid junk size = int_bytes 2 ++ (int_bytes size ++ (junk 12 ∷ junk 13 ∷ junk 14 ∷ junk 15 ∷ []))

abbrev pub left_pad : (ℕ → ℕ) → Bytes
left_pad junk = junk 20 ∷ junk 21 ∷ junk 22 ∷ junk 23 ∷ []

module _ (junk : ℕ → ℕ) (index : ℕ) (x : Xattr) where
  abbrev n : ℕ
  n = length x.name

  abbrev v : ℕ
  v = length x.value

  abbrev b₁ : Buffer
  b₁ =
      let len = 4 + 2 * 4 + 20 + n + v in
      store_int parent_index_at index
        (store_int is_dir_at 2 (store_int data_len_at v (store_int 0 len (block len junk))))

  abbrev b₂ : Buffer
  b₂ = store_int 24 n b₁

  abbrev b₃ : Buffer
  b₃ = store (4 + 20 + 4) (x.name ++ (0 ∷ [])) b₂

  abbrev b₄ : Buffer
  b₄ = store_int (24 + 4 + n) v b₃

  abbrev b₅ : Buffer
  b₅ = store (24 + 2 * 4 + n) x.value b₄

  load-head :
      load 0 24 b₅ ≡ xattr_head (left_mid junk v) (left_pad junk) index (4 + 2 * 4 + 20 + n + v)
  unfolding load
  load-head =
      load-congr 0 24 b₅ b₁ (λ i lo hi.
        at-store_before (24 + 2 * 4 + n) x.value b₄ i (omega arith)
        ∙ at-store_before (24 + 4 + n) (int_bytes v) b₃ i (omega arith)
        ∙ at-store_before 28 (x.name ++ (0 ∷ [])) b₂ i (omega arith)
        ∙ at-store_before 24 (int_bytes n) b₁ i (omega arith))
      ∙ refl

  load-name_length : load 24 4 b₅ ≡ int_bytes n
  load-name_length = load-list 24 (int_bytes n) b₅ (λ i lt.
      at-store_before (24 + 2 * 4 + n) x.value b₄ (24 + i) (omega arith)
      ∙ at-store_before (24 + 4 + n) (int_bytes v) b₃ (24 + i) (omega arith)
      ∙ at-store_before 28 (x.name ++ (0 ∷ [])) b₂ (24 + i) (omega arith)
      ∙ at-store_in 24 (int_bytes n) b₁ (24 + i) (omega arith) (omega arith)
      ∙ ap (λ j. get_or (int_bytes n) j 0) (omega arith))

  load-name : load 28 n b₅ ≡ x.name
  load-name = load-list 28 x.name b₅ (λ i lt.
      at-store_before (24 + 2 * 4 + n) x.value b₄ (28 + i) (omega arith)
      ∙ at-store_before (24 + 4 + n) (int_bytes v) b₃ (28 + i) (omega arith)
      ∙ at-store_in 28 (x.name ++ (0 ∷ [])) b₂ (28 + i) (omega arith)
          (omega (arith, length-append x.name (0 ∷ [])))
      ∙ ap (λ j. get_or (x.name ++ (0 ∷ [])) j 0) (omega arith)
      ∙ get_or-append_left x.name (0 ∷ []) i 0 lt)

  load-value_length : load (28 + n) 4 b₅ ≡ int_bytes v
  load-value_length = load-list (28 + n) (int_bytes v) b₅ (λ i lt.
      at-store_before (24 + 2 * 4 + n) x.value b₄ (28 + n + i) (omega arith)
      ∙ at-store_in (24 + 4 + n) (int_bytes v) b₃ (28 + n + i) (omega arith) (omega arith)
      ∙ ap (λ j. get_or (int_bytes v) j 0) (omega arith))

  load-value : load (32 + n) v b₅ ≡ x.value
  load-value =
      let e : 32 + n ≡ 24 + 2 * 4 + n = omega arith in
      ap (λ k. load k v b₅) e ∙ load-store (24 + 2 * 4 + n) x.value b₄

  -- The whole value.
  pub load-xattr_block :
      load 0 (4 + 2 * 4 + 20 + n + v) (xattr_block junk index x.name x.value)
      ≡ xattr_cell (left_mid junk v) (left_pad junk) index x
  load-xattr_block =
      let parts : 4 + 2 * 4 + 20 + n + v ≡ 24 + (4 + (n + (4 + v))) = omega arith in
      let third : 28 + n + 4 ≡ 32 + n = omega arith in
      let whole : 4 + 2 * 4 + 20 + n + v ≡ xattr_size x = omega arith in
      ap (λ k. load 0 k b₅) parts
      ∙ load-append 0 24 (4 + (n + (4 + v))) b₅
      ∙ ap₂ ◌++◌ (load-head ∙ ap (xattr_head (left_mid junk v) (left_pad junk) index) whole) (
          load-append 24 4 (n + (4 + v)) b₅
          ∙ ap₂ ◌++◌ load-name_length (
              load-append 28 n (4 + v) b₅
              ∙ ap₂ ◌++◌ load-name (
                  load-append (28 + n) 4 v b₅
                  ∙ ap₂ ◌++◌ load-value_length (ap (λ k. load k v b₅) third ∙ load-value))))
