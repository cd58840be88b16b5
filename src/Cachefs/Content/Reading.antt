-- ===== src/Cachefs/Content/Reading.antt =====
-- `hello_read` of a file: which bytes it gives.
use fuse_using_memcached.Prelude.{
  ℕ, zero, suc, ◌+◌, ◌-◌, ◌*◌, ◌/◌, ◌%◌, ◌^◌, ◌≤◌, ◌<◌, ◌≡◌, refl, ap, ◌∙◌, sym, ◌++◌, false, ◌==◌,
  some, Bytes, length, take, drop, arith, lt→leb_false, le→ltb_false, le→leb, ne→==, min, drop-drop,
  take-drop-take, take-more,
}
use fuse_using_memcached.Machine.Word.{int_sub, is_negative}
use fuse_using_memcached.Machine.Buffer.{Buffer, block, store, load, load_int}
use fuse_using_memcached.Machine.Buffer.Laws.{load-slice}
use fuse_using_memcached.Machine.Cmd.{Cmd, pure, and_then}
use fuse_using_memcached.Memcache.Server.{Memcached}
use fuse_using_memcached.Memcache.Laws.{cache_get-hit}
use fuse_using_memcached.Cachefs.Layout.{Header, cell}
use fuse_using_memcached.Cachefs.Keys.{data_key}
use fuse_using_memcached.Cachefs.Keys.Laws.{data_key-IsKey, length-data_key, IsPath-IsKey}
use fuse_using_memcached.Cachefs.Counters.Laws.{get_header, load-data_len}
use fuse_using_memcached.Cachefs.Listing.Tokens.{cell-IsValue}
use fuse_using_memcached.Cachefs.Content.{get_bucket, read_amount, read_loop, hello_read}
use fuse_using_memcached.Cachefs.Content.Files.{part, length-part, load_int-cell, IsFile}

-- The bytes that one round copies from a bucket's block.
load-part :
    (q o a : ℕ) (bytes : Bytes) (b : Buffer)
    → o + a ≤ 1024
    → o + a ≤ length (part q bytes)
    → load (4 + o) a (store 0 (cell (part q bytes)) b) ≡ take a (drop (1024 * q + o) bytes)
load-part q o a bytes b fits inside =
    load-slice (4 + o) a (cell (part q bytes)) b (omega arith)
    ∙ ap (take a) (sym (drop-drop o 4 (cell (part q bytes))))
    ∙ take-drop-take a o 1024 (drop (1024 * q) bytes) fits
    ∙ ap (take a) (drop-drop o (1024 * q) bytes)

module _ (m : Memcached) (junk : ℕ → ℕ → ℕ) (path bytes : Bytes) (h : Header) (s : m.State)
    (file : IsFile m s path h bytes) (few : length bytes < 2 ^ 30) where
  get_bucket-part :
      (q : ℕ)
      → 1024 * q < length bytes
      → get_bucket m junk (suc q) path s
        ≡ some (store 0 (cell (part q bytes)) (block 1224 (junk (2 * suc q + 1))), s)
  unfolding get_bucket
  get_bucket-part q inside =
      let small : suc q < 2 ^ 31 = omega arith in
      let len = length-part q bytes in
      let room = length-data_key (suc q) small file.path_ok in
      rw (
        le→leb (length (data_key (suc q) path) + 1) 250 (omega arith),
        cache_get-hit m (junk (2 * suc q)) (data_key (suc q) path) (cell (part q bytes))
            (block 1224 (junk (2 * suc q + 1))) s (data_key-IsKey (suc q) small file.path_ok)
            (cell-IsValue (part q bytes) (omega arith)) (file.buckets q inside) (omega arith),
      )

  bucket_data_len-part :
      (q : ℕ) (b : Buffer)
      → int_sub (load_int 0 (store 0 (cell (part q bytes)) b)) 4 ≡ length (part q bytes)
  bucket_data_len-part q b =
      let len = length-part q bytes in
      ap (λ w. int_sub w 4) (load_int-cell (part q bytes) b (omega arith)) ∙ omega arith

  read_loop-slice :
      (fuel size offset q : ℕ)
      → size ≤ fuel
      → offset + size ≤ length bytes
      → (0 < size → q ≡ offset / 1024)
      → read_loop m junk fuel size offset (suc q) path s ≡ some (take size (drop offset bytes), s)
  unfolding read_loop read_amount
  read_loop-slice zero zero offset q fuel inside at = refl
  read_loop-slice zero (suc size) offset q fuel inside at = absurd (omega arith)
  read_loop-slice (suc f) zero offset q fuel inside at = refl
  read_loop-slice (suc f) (suc n) offset q fuel inside at =
      let size = suc n in
      let o = offset % 1024 in
      let here : q ≡ offset / 1024 = at (omega arith) in
      let len = length-part q bytes in
      let a = read_amount size offset (length (part q bytes)) in
      let amount : a ≡ min size (1024 - o) = omega arith in
      let some_left : (size == 0) ≡ false = ne→== size 0 (λ e. absurd (omega arith)) in
      let blk = block 1224 (junk (2 * suc q + 1)) in
      let positive : is_negative (length (part q bytes)) ≡ false =
        lt→leb_false (2 ^ 31) (length (part q bytes)) (omega arith) in
      let place : 1024 * q + o ≡ offset = omega arith in
      let rest =
        read_loop-slice f (size - a) (offset + a) (suc q) (omega arith) (omega arith)
          (λ more. omega arith) in
      let next : suc q + 1 ≡ suc (suc q) = omega arith in
      rw (some_left, get_bucket-part q (omega arith), bucket_data_len-part q blk, positive)
        (ap (λ j. and_then (read_loop m junk f (size - a) (offset + a) j path s) (give a)) next
          ∙ ap (λ r. and_then r (give a)) rest
          ∙ ap (λ d. some (d, s))
              (ap (λ t. t ++ take (size - a) (drop (offset + a) bytes))
                  (load-part q o a bytes blk (omega arith) (omega arith)
                    ∙ ap (λ j. take a (drop j bytes)) place)
                ∙ ap (λ t. take a (drop offset bytes) ++ take (size - a) t)
                    (sym (drop-drop a offset bytes))
                ∙ take-more a size (drop offset bytes) (omega arith)))
    where
      give : ℕ → Bytes → Cmd m.State Bytes
      give a rest = pure (
          load (4 + offset % 1024) a
            (store 0 (cell (part q bytes)) (block 1224 (junk (2 * suc q + 1))))
          ++ rest)

  -- For a file that holds fewer than 2 ^ 30 bytes, with a header's length of no less (below 2 ^ 31):
  -- `hello_read` of a range of at least one byte that ends within the bytes returns the range's size,
  -- gives exactly the range's bytes and changes nothing, if the fuel is the size or more.
  pub hello_read-slice :
      (fuel size offset : ℕ)
      → size ≤ fuel
      → 0 < size
      → offset + size ≤ length bytes
      → length bytes ≤ h.data_len
      → h.data_len < 2 ^ 31
      → hello_read m junk fuel path size offset s ≡ some ((size, take size (drop offset bytes)), s)
  unfolding hello_read
  hello_read-slice fuel size offset enough some_bytes inside covered small =
      let blk = block 1280 (junk 1) in
      let start : offset / 1024 + 1 ≡ suc (offset / 1024) = omega arith in
      let whole : size % 2 ^ 32 ≡ size = omega arith in
      rw (
        lt→leb_false (2 ^ 63) offset (omega arith),
        get_header m junk path s (IsPath-IsKey file.path_ok) h file.fields file.main 0 1,
        load-data_len h blk file.fields,
        le→ltb_false h.data_len ((offset + size) % 2 ^ 64) (omega arith),
        lt→leb_false (2 ^ 31) h.data_len small,
        lt→leb_false h.data_len offset (omega arith),
        start,
        read_loop-slice fuel size offset (offset / 1024) enough inside (λ more. refl),
        whole,
      )
