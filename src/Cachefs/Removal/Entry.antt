-- ===== src/Cachefs/Removal/Entry.antt =====
-- What `hello_rmdir` and `hello_unlink` of cachedfs/main.c do to the store when they take an entry
-- out of its directory.
use fuse_using_memcached.Prelude.{
  ℕ, ◌+◌, ◌-◌, ◌^◌, ◌<◌, ◌≡◌, refl, ap, ◌∙◌, [], ◌∷◌, false, some, Bytes, same, length, All, arith,
  le→leb, ne→==, take-all,
}
use fuse_using_memcached.Machine.Word.{int_add, int_sub, int_of-int_bytes}
use fuse_using_memcached.Machine.Buffer.{Buffer, block, store, load, load_int, store_int, c_string}
use fuse_using_memcached.Machine.Buffer.Laws.{at-store_start, load_int-list, load-store, load-slice}
use fuse_using_memcached.Memcache.Server.{Memcached, IsKey, IsKeyByte}
use fuse_using_memcached.Memcache.Laws.{cache_get-hit, cache_set-put, cache_msg-delete}
use fuse_using_memcached.Cachefs.Layout.{Header, IsHeader, header_cell, cell}
use fuse_using_memcached.Cachefs.Keys.{child_key}
use fuse_using_memcached.Cachefs.Keys.Laws.{IsPath, IsPath-IsKey, child_key-IsKey, length-child_key}
use fuse_using_memcached.Cachefs.Keys.Distinct.{child_key-path, path-child_key}
use fuse_using_memcached.Cachefs.Counters.Laws.{
  get_header, decrease_childrens_num-put, store-parent_index,
}
use fuse_using_memcached.Cachefs.Listing.Tokens.{cell-IsValue}
use fuse_using_memcached.Cachefs.Removal.{delete_key, move_last, remove_entry}

-- The size that a cell begins with.
pub load_int-cell :
    (bytes : Bytes) (b : Buffer)
    → length bytes < 2 ^ 31
    → load_int 0 (store 0 (cell bytes) b) ≡ 4 + length bytes
load_int-cell bytes b small =
    load_int-list 0 (cell bytes) (store 0 (cell bytes) b) (omega arith)
      (λ i h. at-store_start (cell bytes) b i h)
    ∙ int_of-int_bytes (4 + length bytes) (omega arith)

c_string-IsKeyByte : (s : Bytes) → All IsKeyByte s → c_string s ≡ s
unfolding c_string
c_string-IsKeyByte [] h = refl
c_string-IsKeyByte (c ∷ s) (h, hs) =
    rw (ne→== c 0 (omega arith)) (ap (◌∷◌ c) (c_string-IsKeyByte s hs))

-- The text behind the size.
pub c_string-cell :
    (bytes : Bytes) (b : Buffer)
    → All IsKeyByte bytes
    → c_string (load 4 (length bytes) (store 0 (cell bytes) b)) ≡ bytes
c_string-cell bytes b plain =
    ap c_string (
      load-slice 4 (length bytes) (cell bytes) b (omega arith)
      ∙ take-all (length bytes) bytes (omega arith))
    ∙ c_string-IsKeyByte bytes plain

module _ (m : Memcached) where
  open m use {put, delete}

  -- The store behind `remove_entry`: the last child of `dir`, `last`, has the number `index`.
  unfoldable pub removed : (path dir last : Bytes) (index : ℕ) (h hl : Header) → m.State → m.State
  removed path dir last index h hl s = delete path (
      delete (child_key h.num_buckets dir) (
        put last (header_cell (record hl { parent_index = index })) (
          put (child_key index dir) (cell last)
            (put dir (header_cell (record h { num_buckets = h.num_buckets - 1 })) s))))

module _ (m : Memcached) (junk : ℕ → ℕ → ℕ) where
  open m use {view, put, delete, view-put}

  pub delete_key-delete :
      (n size : ℕ) (key : Bytes) (s : m.State)
      → IsKey key
      → delete_key m junk n size key s ≡ some (tt, delete key s)
  unfolding delete_key
  delete_key-delete n size key s k =
      let short = k.short in
      let (b, e) = cache_msg-delete m key (block size (junk n)) s k in
      rw (le→leb (length key + 10) 264 (omega arith), e)

  -- The child with the path `path` gets the number `index` of `dir`.
  move_last-put :
      (path dir : Bytes) (index : ℕ) (jk : ℕ → ℕ) (h : Header) (s : m.State)
      → IsPath path
      → IsPath dir
      → index < 2 ^ 31
      → IsHeader h
      → view s path ≡ some (header_cell h)
      → move_last m junk (child_key index dir) index (store 0 (cell path) (block 1280 jk)) s
        ≡ some (
          tt,
          put path
              (header_cell (record h { parent_index = index }))
              (put (child_key index dir) (cell path) s),
        )
  unfolding move_last
  move_last-put path dir index jk h s path_ok dir_ok small fields here =
      let last = store 0 (cell path) (block 1280 jk) in
      let short = path_ok.short in
      let len = load_int-cell path (block 1280 jk) (omega arith) in
      let rest : 4 + length path - 4 ≡ length path = omega arith in
      let s₁ = put (child_key index dir) (cell path) s in
      let b = store 0 (header_cell h) (block 1280 (junk 11)) in
      let stored : load 0 (4 + length path) last ≡ cell path =
        ap (λ n. load 0 n last) (let e : 4 + length path ≡ length (cell path) = omega arith in e)
        ∙ load-store 0 (cell path) (block 1280 jk) in
      let here₁ : view s₁ path ≡ some (header_cell h) =
        view-put (child_key index dir) path (cell path) s
        ∙ rw (child_key-path index small dir_ok path_ok) here in
      rw (
        len,
        cache_set-put m (junk 9) (child_key index dir) last (4 + length path) s
            (child_key-IsKey index small dir_ok) (omega arith) (omega arith),
        stored,
        le→leb 4 (4 + length path) (omega arith),
        rest,
        le→leb (length path + 1) 260 (omega arith),
        c_string-cell path (block 1280 jk) path_ok.plain,
        get_header m junk path s₁ (IsPath-IsKey path_ok) h fields here₁ 10 11,
        cache_set-put m (junk 12) path (store_int 16 index b) 24 s₁ (IsPath-IsKey path_ok)
            (omega arith) (omega arith),
        store-parent_index h (block 1280 (junk 11)) index,
      )

  -- For a directory with some children, of which `last` is the last one.
  pub remove_entry-removed :
      (path dir last : Bytes) (index : ℕ) (current : Buffer) (h hl : Header) (s : m.State)
      → IsPath path
      → IsPath dir
      → IsPath last
      → IsHeader h
      → IsHeader hl
      → index < 2 ^ 31
      → load_int 16 current ≡ index
      → 0 < h.num_buckets
      → h.num_buckets < 2 ^ 31
      → same dir last ≡ false
      → view s dir ≡ some (header_cell h)
      → view s (child_key h.num_buckets dir) ≡ some (cell last)
      → view s last ≡ some (header_cell hl)
      → remove_entry m junk path dir current s ≡ some (tt, removed m path dir last index h hl s)
  unfolding remove_entry removed
  remove_entry-removed path dir last index current h hl s path_ok dir_ok last_ok fields last_fields
        small at_index some_child few apart here listed main =
      let n = h.num_buckets in
      let h₁ = record h { num_buckets = n - 1 } in
      let s₁ = put dir (header_cell h₁) s in
      let index_key = length-child_key index small dir_ok in
      let last_key = length-child_key n few dir_ok in
      let short = last_ok.short in
      let less : int_sub n 1 ≡ n - 1 = omega arith in
      let again : int_add (n - 1) 1 ≡ n = omega arith in
      let listed₁ : view s₁ (child_key n dir) ≡ some (cell last) =
        view-put dir (child_key n dir) (header_cell h₁) s
        ∙ rw (path-child_key n few dir_ok dir_ok) listed in
      let main₁ : view s₁ last ≡ some (header_cell hl) =
        view-put dir last (header_cell h₁) s ∙ rw apart main in
      rw (
        get_header m junk dir s (IsPath-IsKey dir_ok) h fields here 2 3,
        at_index,
        le→leb (length (child_key index dir) + 1) 250 (omega arith),
        decrease_childrens_num-put m (λ k. junk (4 + k)) dir s (IsPath-IsKey dir_ok) h fields here,
        less,
        again,
        le→leb (length (child_key n dir) + 1) 250 (omega arith),
        cache_get-hit m (junk 7) (child_key n dir) (cell last) (block 1280 (junk 8)) s₁
            (child_key-IsKey n few dir_ok) (cell-IsValue last (omega arith)) listed₁ (omega arith),
        move_last-put last dir index (junk 8) hl s₁ last_ok dir_ok small last_fields main₁,
        delete_key-delete 13 128 (child_key n dir)
            (put last (header_cell (record hl { parent_index = index }))
              (put (child_key index dir) (cell last) s₁))
            (child_key-IsKey n few dir_ok),
        delete_key-delete 14 128 path
            (delete (child_key n dir) (
              put last (header_cell (record hl { parent_index = index }))
                (put (child_key index dir) (cell last) s₁)))
            (IsPath-IsKey path_ok),
      )
