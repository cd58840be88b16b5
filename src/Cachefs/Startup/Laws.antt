-- ===== src/Cachefs/Startup/Laws.antt =====
-- The store that `hello_init` of cachedfs/main.c leaves.
use fuse_using_memcached.Prelude.{
  ℕ, ◌+◌, ◌%◌, ◌/◌, ◌<◌, ◌≡◌, refl, take, ap, ap₂, ◌∙◌, sym, [], ◌∷◌, ◌++◌, none, some, Bytes, same,
  codes, arith, if◌then◌else◌,
}
use fuse_using_memcached.Machine.Word.{neg, int_of, int_bytes}
use fuse_using_memcached.Machine.Buffer.{Buffer, block, store, load}
use fuse_using_memcached.Memcache.Server.{Memcached, IsKey}
use fuse_using_memcached.Memcache.Client.{cache_msg}
use fuse_using_memcached.Memcache.Replies.{IsValue}
use fuse_using_memcached.Memcache.Laws.{cache_get-hit, cache_get-miss, cache_set-put}
use fuse_using_memcached.Cachefs.Layout.{header_cell, Header, max_bucket_size}
use fuse_using_memcached.Cachefs.Keys.{root}
use fuse_using_memcached.Cachefs.Keys.Laws.{IsPath, IsPath-IsKey}
use fuse_using_memcached.Cachefs.Entries.{add_to_parent, hello_mkdir, dir_block}
use fuse_using_memcached.Cachefs.Entries.Laws.{new_dir_cell, load-dir_block}
use fuse_using_memcached.Cachefs.Listing.Laws.{IsDirectory}
use fuse_using_memcached.Cachefs.Startup.{
  stats_key, stats_block, init_check, format_store, hello_init,
}

stats-IsKey : IsKey stats_key
stats-IsKey = record {
  filled = omega arith;
  short = omega arith;
  plain = (
    (omega arith, omega arith),
    (
      (omega arith, omega arith),
      ((omega arith, omega arith), ((omega arith, omega arith), ((omega arith, omega arith), tt))),
    ),
  );
}

root-IsPath : IsPath root
root-IsPath = record {
  rooted = refl;
  short = omega arith;
  plain = ((omega arith, omega arith), tt);
}

-- A stats cell with the given bucket size, which `format_store` stores with 1024.
abbrev pub stats_cell : ℕ → Bytes
stats_cell block_size = int_bytes 12 ++ (int_bytes 0 ++ int_bytes block_size)

load-stats_block : (junk : ℕ → ℕ) → load 0 12 (stats_block junk) ≡ stats_cell max_bucket_size
unfolding load
load-stats_block junk = refl

stats_cell-IsValue : (n : ℕ) → IsValue (stats_cell n)
stats_cell-IsValue n = record { whole = omega arith; sized = refl; fits = omega arith }

int_bytes-int_of :
    (a b c d : ℕ)
    → a < 256
    → b < 256
    → c < 256
    → d < 256
    → int_bytes (int_of a b c d) ≡ a ∷ b ∷ c ∷ d ∷ []
int_bytes-int_of a b c d ha hb hc hd =
    let ea : int_of a b c d % 256 ≡ a = omega arith in
    let eb : (int_of a b c d / 256) % 256 ≡ b = omega arith in
    let ec : (int_of a b c d / 65536) % 256 ≡ c = omega arith in
    let ed : (int_of a b c d / 16777216) % 256 ≡ d = omega arith in
    ap₂ ◌∷◌ ea (ap₂ ◌∷◌ eb (ap₂ ◌∷◌ ec (ap (λ z. z ∷ []) ed)))

-- The header of the root directory; the last field is what the block held before.
abbrev pub root_header : (xattr_num : ℕ) → Header
root_header x = record {
  is_dir = 1;
  data_len = 0;
  num_buckets = 0;
  parent_index = 0;
  xattr_num = x;
}

module _ (m : Memcached) (junk : ℕ → ℕ → ℕ) (s : m.State) where
  open m use {view, put, flush, view-put, view-flush, serve-flush_all}

  init_check-missing : view s stats_key ≡ none → init_check m junk s ≡ some (0, s)
  unfolding init_check
  init_check-missing gone =
      rw (cache_get-miss m (junk 0) stats_key (block 128 (junk 1)) s stats-IsKey gone) refl

  mkdir_root :
      (junk' : ℕ → ℕ → ℕ) (t : m.State)
      → hello_mkdir m junk' root t
        ≡ some (0, put root (new_dir_cell (load 20 4 (block 24 (junk' 6))) 0) t)
  unfolding hello_mkdir add_to_parent same
  mkdir_root junk' t =
      rw
        (
          cache_set-put m (junk' 5) root (dir_block (junk' 6) 0) 24 t (IsPath-IsKey root-IsPath)
              (omega arith) (omega arith),
          load-dir_block (junk' 6) 0,
        )
        refl

  -- The store behind `format_store`.
  formatted : m.State
  formatted =
      put root (new_dir_cell (load 20 4 (block 24 (junk 11))) 0)
        (put stats_key (stats_cell max_bucket_size) (flush s))

  flush_all :
      (blk : Buffer)
      → cache_msg m (codes "flush_all\n") blk s
        ≡ some ((0, store 0 (take blk.size (codes "OK\r\n")) blk), flush s)
  unfolding cache_msg
  flush_all blk =
      ap
        (λ o. elim o [
          | none ↦ some ((neg 1, blk), s)
          | some r ↦ some ((0, store 0 (take blk.size r.0) blk), r.1)
        ])
        (serve-flush_all s)

  format_store-formatted : format_store m junk s ≡ some (tt, formatted)
  unfolding format_store formatted
  format_store-formatted =
      rw
        (
          flush_all (block 32 (junk 2)),
          cache_set-put m (junk 3) stats_key (stats_block (junk 4)) 12 (flush s) stats-IsKey
              (omega arith) (omega arith),
          load-stats_block (junk 4),
          mkdir_root (λ n. junk (5 + n)) (put stats_key (stats_cell max_bucket_size) (flush s)),
        )
        refl

  -- A store with stats for this bucket size is used as it is.
  hello_init-usable :
      view s stats_key ≡ some (stats_cell max_bucket_size) → hello_init m junk s ≡ some (tt, s)
  unfolding hello_init init_check
  hello_init-usable here =
      rw
        (cache_get-hit m (junk 0) stats_key (stats_cell max_bucket_size) (block 128 (junk 1)) s
          stats-IsKey (stats_cell-IsValue max_bucket_size) here (omega arith))
        refl

  view-formatted :
      (k : Bytes)
      → view formatted k ≡ (
          if same root k
          then some (new_dir_cell (load 20 4 (block 24 (junk 11))) 0)
          else (if same stats_key k then some (stats_cell max_bucket_size) else none))
  unfolding formatted
  view-formatted k =
      let t = put stats_key (stats_cell max_bucket_size) (flush s) in
      view-put root k (new_dir_cell (load 20 4 (block 24 (junk 11))) 0) t
      ∙ ap (λ v. if same root k then some (new_dir_cell (load 20 4 (block 24 (junk 11))) 0) else v)
          (view-put stats_key k (stats_cell max_bucket_size) (flush s)
            ∙ ap (λ v. if same stats_key k then some (stats_cell max_bucket_size) else v)
                (view-flush k s))

-- If the store has no stats, and memory holds bytes: `hello_init` returns, and behind it the store has
-- the root, a directory with no entries, and the stats, and nothing else. Of the root's header one
-- field, the number of attributes, is left-over memory. Another `hello_init` changes nothing.
pub hello_init-IsDirectory :
    (m : Memcached) (junk junk' : ℕ → ℕ → ℕ) (s : m.State)
    → ((n i : ℕ) → junk n i < 256)
    → m.view s stats_key ≡ none
    → (s' : m.State) × (hello_init m junk s ≡ some (tt, s'))
      × IsDirectory m s' root
          (root_header (int_of (junk 11 20) (junk 11 21) (junk 11 22) (junk 11 23)))
          []
      × ((k : Bytes)
          → m.view s' k ≡ (
              if same root k
              then some (
                  header_cell
                    (root_header (int_of (junk 11 20) (junk 11 21) (junk 11 22) (junk 11 23))))
              else (if same stats_key k then some (stats_cell max_bucket_size) else none)))
      × (hello_init m junk' s' ≡ some (tt, s'))
unfolding hello_init same load
hello_init-IsDirectory m junk junk' s byte gone =
    let x = int_of (junk 11 20) (junk 11 21) (junk 11 22) (junk 11 23) in
    let b20 = byte 11 20 in
    let b21 = byte 11 21 in
    let b22 = byte 11 22 in
    let b23 = byte 11 23 in
    let same_cell : new_dir_cell (load 20 4 (block 24 (junk 11))) 0 ≡ header_cell (root_header x) =
      ap (λ w. new_dir_cell w 0)
        (sym
          (int_bytes-int_of (junk 11 20) (junk 11 21) (junk 11 22) (junk 11 23) b20 b21 b22 b23)) in
    (
      formatted m junk s,
      rw (init_check-missing m junk s gone) (format_store-formatted m junk s),
      record {
        path_ok = root-IsPath;
        fields = record {
          is_dir = omega arith;
          data_len = omega arith;
          num_buckets = omega arith;
          parent_index = omega arith;
          xattr_num = omega arith;
        };
        main = view-formatted m junk s root ∙ ap some same_cell;
        counted = refl;
        few = omega arith;
        entries = λ i h. absurd (omega arith);
        named = tt;
        short = tt;
      },
      λ k.
          view-formatted m junk s k
          ∙ ap
              (λ v.
                if same root k
                then some v
                else (if same stats_key k then some (stats_cell max_bucket_size) else none))
              same_cell,
      hello_init-usable m junk' (formatted m junk s) (view-formatted m junk s stats_key),
    )
