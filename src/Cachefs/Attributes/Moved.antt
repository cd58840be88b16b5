-- ===== src/Cachefs/Attributes/Moved.antt =====
-- The last attribute's value in cachedfs/main.c, when it gets another number.
use fuse_using_memcached.Prelude.{
  ℕ, ◌+◌, ◌≡◌, refl, ap, ◌∙◌, sym, [], ◌++◌, Bytes, length, arith, length-append, append_assoc,
}
use fuse_using_memcached.Machine.Word.{int_bytes, int_of-int_bytes}
use fuse_using_memcached.Machine.Buffer.{Buffer, store, store_int, load, load_int}
use fuse_using_memcached.Machine.Buffer.Laws.{load_int-list, at-store_before, at-store_middle}
use fuse_using_memcached.Machine.Buffer.Parts.{load-replaced}
use fuse_using_memcached.Cachefs.Attributes.Stored.{
  Xattr, IsXattr, xattr_tail, xattr_cell, xattr_size, length-xattr_cell,
}

module _ (mid pad : Bytes) (x : Xattr) (mid_length : length mid ≡ 12) (pad_length : length pad ≡ 4)
    (ok : IsXattr x) (b : Buffer) where
  cell-parts :
      (index : ℕ)
      → xattr_cell mid pad index x
        ≡ (int_bytes (xattr_size x) ++ mid) ++ (int_bytes index ++ (pad ++ xattr_tail x))
  cell-parts index = simp append_assoc

  module _ (old new : ℕ) where
    pub load_int-moved :
        load_int 0 (store_int 16 new (store 0 (xattr_cell mid pad old x) b)) ≡ xattr_size x
    load_int-moved =
        let fits = ok.fits in
        let len = int_bytes (xattr_size x) in
        let rest = (mid ++ (int_bytes old ++ pad)) ++ xattr_tail x in
        let text = store 0 (len ++ rest) b in
        load_int-list 0 len (store 16 (int_bytes new) text) (omega arith) (λ i lt.
          at-store_before 16 (int_bytes new) text (0 + i) (omega arith)
          ∙ at-store_middle [] len rest b i lt)
        ∙ int_of-int_bytes (xattr_size x) (omega arith)

    pub load-moved :
        load 0 (xattr_size x) (store_int 16 new (store 0 (xattr_cell mid pad old x) b))
        ≡ xattr_cell mid pad new x
    load-moved =
        let pre = int_bytes (xattr_size x) ++ mid in
        let post = pad ++ xattr_tail x in
        let at : 16 ≡ length pre = omega arith in
        let whole : xattr_size x ≡ length pre + (length (int_bytes new) + length post) = omega (
          arith,
          length-xattr_cell mid pad old x mid_length pad_length ok,
          ap length (cell-parts old),
          length-append pre (int_bytes old ++ post),
        ) in
        ap (λ k. load 0 k (store_int 16 new (store 0 (xattr_cell mid pad old x) b))) whole
        ∙ ap (λ t. load 0 (length pre + (4 + length post)) (store_int 16 new (store 0 t b)))
            (cell-parts old)
        ∙ ap
            (λ k.
              load 0 (length pre + (4 + length post))
                (store_int k new (store 0 (pre ++ (int_bytes old ++ post)) b)))
            at
        ∙ load-replaced pre (int_bytes old) (int_bytes new) post b refl
        ∙ sym (cell-parts new)
