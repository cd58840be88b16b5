-- ===== src/Cachefs/Content/Whole.antt =====
-- `hello_write` of a file, from any place in its bytes on: what stands in the store behind it.
use fuse_using_memcached.Prelude.{
  ℕ, suc, ◌+◌, ◌-◌, ◌*◌, ◌/◌, ◌%◌, ◌^◌, ◌≤◌, ◌<◌, ◌≡◌, refl, ◌∙◌, [], false, some, Bytes, same,
  same_refl, length, arith, lt→leb_false, le→ltb_false, splice, length-splice, splice-empty,
}
use fuse_using_memcached.Machine.Buffer.{block, store}
use fuse_using_memcached.Memcache.Server.{Memcached}
use fuse_using_memcached.Memcache.Laws.{cache_set-put}
use fuse_using_memcached.Cachefs.Layout.{Header, header_cell}
use fuse_using_memcached.Cachefs.Keys.{data_key}
use fuse_using_memcached.Cachefs.Keys.Laws.{IsPath, IsPath-IsKey}
use fuse_using_memcached.Cachefs.Keys.Distinct.{data_key-path, path-data_key}
use fuse_using_memcached.Cachefs.Counters.Laws.{get_header, load-data_len}
use fuse_using_memcached.Cachefs.Content.{write_at, write_deep, hello_write}
use fuse_using_memcached.Cachefs.Content.Files.{Holds-header, bucket_count, with_lengths, IsFile}
use fuse_using_memcached.Cachefs.Content.Splicing.{write_loop-splice}
use fuse_using_memcached.Cachefs.Content.Written.{lengthened}

module _ (m : Memcached) (path : Bytes) where
  open m use {view}

  -- Values under keys that are neither the path nor a bucket's key are what they were.
  abbrev pub IsElsewhere : m.State → m.State → Type 0
  IsElsewhere s s' =
      (k : Bytes)
      → ((j : ℕ) → j < 2 ^ 31 → same (data_key j path) k ≡ false)
      → same path k ≡ false
      → view s' k ≡ view s k

module _ (m : Memcached) (junk : ℕ → ℕ → ℕ) (path : Bytes) (ok : IsPath path) where
  open m use {view, put, view-put}

  pub hello_write_lem :
      (s : m.State) (h : Header) (old bytes : Bytes) (offset : ℕ)
      → IsFile m s path h old
      → offset ≤ length old
      → length old ≤ h.data_len
      → length old + length bytes < 2 ^ 28
      → h.data_len + 5 * length bytes < 2 ^ 31
      → (s' : m.State) × (hello_write m junk path bytes offset s ≡ some (length bytes, s'))
        × IsFile m s' path (lengthened old (splice offset bytes old) h) (splice offset bytes old)
        × IsElsewhere m path s s'
  unfolding hello_write write_deep write_at
  hello_write_lem s h old bytes offset file inside covered few long =
      let blk = block 1280 (junk 1) in
      let new = splice offset bytes old in
      let size = length-splice offset bytes old inside in
      let h' = lengthened old new h in
      let first : 1 + offset / 1024 ≡ suc (offset / 1024) = omega arith in
      let (b', s₁, run, w) =
        write_loop-splice m (λ k. junk (2 * k + 2)) path ok (length bytes) offset
          (1 + offset / 1024) bytes old (store 0 (header_cell h) blk) h s (omega arith)
          (Holds-header h blk refl) file.buckets file.counted inside (λ more. first) few long in
      let holds = w.holds in
      let wide = holds.size in
      let key = IsPath-IsKey ok in
      let whole : length bytes % 2 ^ 32 ≡ length bytes = omega arith in
      (
        put path (header_cell h') s₁,
        rw
            (
              get_header m junk path s key h file.fields file.main 0 1,
              load-data_len h blk file.fields,
              lt→leb_false (2 ^ 31) h.data_len (omega arith),
              le→ltb_false h.data_len offset (omega arith),
              run,
              cache_set-put m (junk 2) path b' 24 s₁ key (omega arith) (omega arith),
              holds.bytes,
              whole,
            )
            refl,
        record {
          path_ok = ok;
          fields = record {
            is_dir = file.fields.is_dir;
            data_len = omega arith;
            num_buckets = omega arith;
            parent_index = file.fields.parent_index;
            xattr_num = file.fields.xattr_num;
          };
          main = view-put path path (header_cell h') s₁ ∙ rw (same_refl path) refl;
          counted = refl;
          buckets = λ i lt.
              view-put path (data_key (suc i) path) (header_cell h') s₁
              ∙ rw (path-data_key (suc i) (omega arith) ok ok) (w.buckets i lt);
        },
        λ k keys apart. view-put path k (header_cell h') s₁ ∙ rw apart (w.others k keys),
      )

  -- `hello_write` from a place within the file's bytes on, or at their end, returns the number of bytes written.
  -- The file's buckets then hold the bytes with the new ones in their place, the main value of any other path is
  -- what it was, and the header has the number of buckets and, as length, one more for each byte that is new and 4
  -- more for each new bucket. The bounds: fewer than 2 ^ 28 bytes in all, and a header's length that is no less
  -- than the bytes that there were and stays below 2 ^ 31.
  pub hello_write-splice :
      (s : m.State) (h : Header) (old bytes other : Bytes) (offset : ℕ)
      → IsFile m s path h old
      → offset ≤ length old
      → length old ≤ h.data_len
      → length old + length bytes < 2 ^ 28
      → h.data_len + 5 * length bytes < 2 ^ 31
      → IsPath other
      → same path other ≡ false
      → (s' : m.State) × (hello_write m junk path bytes offset s ≡ some (length bytes, s'))
        × IsFile m s' path (lengthened old (splice offset bytes old) h) (splice offset bytes old)
        × (view s' other ≡ view s other)
  hello_write-splice s h old bytes other offset file inside covered few long good apart =
      let (s', run, made, others) =
        hello_write_lem s h old bytes offset file inside covered few long in
      (s', run, made, others other (λ j small. data_key-path j small ok good) apart)

  -- A new file: from offset 0 of an empty one, with a length of 0.
  pub hello_write_new_lem :
      (s : m.State) (h : Header) (bytes : Bytes)
      → IsFile m s path h []
      → h.data_len ≡ 0
      → length bytes < 2 ^ 28
      → (s' : m.State) × (hello_write m junk path bytes 0 s ≡ some (length bytes, s'))
        × IsFile m s' path
            (with_lengths
              (length bytes + 4 * bucket_count (length bytes))
              (bucket_count (length bytes))
              h)
            bytes
        × IsElsewhere m path s s'
  hello_write_new_lem s h bytes file zero_length short =
      let (s', run, made, others) =
        hello_write_lem s h [] bytes 0 file (omega arith) (omega arith) (omega arith)
          (omega arith) in
      let n = length bytes in
      let d : h.data_len + (n - 0) + 4 * (bucket_count n - bucket_count 0)
          ≡ n + 4 * bucket_count n =
        omega arith in
      (s', run, rw d at (rw (splice-empty 0 bytes [] refl refl) at made), others)

  pub hello_write-IsFile :
      (s : m.State) (h : Header) (bytes other : Bytes)
      → IsFile m s path h []
      → h.data_len ≡ 0
      → length bytes < 2 ^ 28
      → IsPath other
      → same path other ≡ false
      → (s' : m.State) × (hello_write m junk path bytes 0 s ≡ some (length bytes, s'))
        × IsFile m s' path
            (with_lengths
              (length bytes + 4 * bucket_count (length bytes))
              (bucket_count (length bytes))
              h)
            bytes
        × (view s' other ≡ view s other)
  hello_write-IsFile s h bytes other file zero_length short good apart =
      let (s', run, made, others) = hello_write_new_lem s h bytes file zero_length short in
      (s', run, made, others other (λ j small. data_key-path j small ok good) apart)
