-- ===== src/Cachefs/Content/Files.antt =====
-- What it means that a file holds some bytes, and blocks that hold a header.
use fuse_using_memcached.Prelude.{
  arith, ◌≤◌, min, ◌-◌, length-take, length-drop, ℕ, suc, ◌+◌, ◌*◌, ◌/◌, ◌^◌, ◌<◌, ◌≡◌, refl, ap,
  ◌∙◌, ◌++◌, some, Bytes, length, get_or, take, drop,
}
use fuse_using_memcached.Machine.Word.{int_of, int_bytes, int_of-int_bytes}
use fuse_using_memcached.Machine.Buffer.{Buffer, store, load, load_int, store_int}
use fuse_using_memcached.Machine.Buffer.Laws.{load_int-list, at-store_in}
use fuse_using_memcached.Memcache.Server.{Memcached}
use fuse_using_memcached.Cachefs.Layout.{Header, IsHeader, header_cell, cell, max_bucket_size}
use fuse_using_memcached.Cachefs.Keys.{data_key}
use fuse_using_memcached.Cachefs.Keys.Laws.{IsPath}

-- The block begins with the header `h`.
pub record Holds (b : Buffer) (h : Header) : Type 0 where
  pub size : b.size ≡ 1280
  pub bytes : load 0 24 b ≡ header_cell h

-- The four bytes at `i` of a list replaced.
abbrev patch : ℕ → Bytes → Bytes → Bytes
patch i w l = take i l ++ (w ++ drop (i + 4) l)

pub Holds-header :
    (h : Header) (blk : Buffer) → blk.size ≡ 1280 → Holds (store 0 (header_cell h) blk) h
unfolding load
Holds-header h blk e = record { size = e; bytes = refl }

module _ {b : Buffer} {h : Header} (holds : Holds b h) where
  pub Holds-num_buckets : (n : ℕ) → Holds (store_int 12 n b) (record h { num_buckets = n })
  unfolding load
  Holds-num_buckets n = record {
    size = holds.size;
    bytes = ap (patch 12 (int_bytes n)) holds.bytes;
  }

  pub Holds-data_len : (n : ℕ) → Holds (store_int 8 n b) (record h { data_len = n })
  unfolding load
  Holds-data_len n = record { size = holds.size; bytes = ap (patch 8 (int_bytes n)) holds.bytes }

  int_in : ℕ → Bytes → ℕ
  int_in i l = int_of (get_or l i 0) (get_or l (i + 1) 0) (get_or l (i + 2) 0) (get_or l (i + 3) 0)

  pub num_buckets-Holds : h.num_buckets < 2 ^ 32 → load_int 12 b ≡ h.num_buckets
  unfolding load int_in
  num_buckets-Holds small = ap (int_in 12) holds.bytes ∙ int_of-int_bytes h.num_buckets small

  pub data_len-Holds : h.data_len < 2 ^ 32 → load_int 8 b ≡ h.data_len
  unfolding load int_in
  data_len-Holds small = ap (int_in 8) holds.bytes ∙ int_of-int_bytes h.data_len small

-- How many buckets `n` bytes take, and the part of the bytes that bucket `i` has, from 0.
abbrev pub bucket_count : ℕ → ℕ
bucket_count n = (n + 1023) / 1024

abbrev pub part : ℕ → Bytes → Bytes
part i bytes = take max_bucket_size (drop (1024 * i) bytes)

pub length-part :
    (q : ℕ) (bytes : Bytes) → length (part q bytes) ≡ min 1024 (length bytes - 1024 * q)
length-part q bytes =
    length-take 1024 (drop (1024 * q) bytes) ∙ ap (min 1024) (length-drop (1024 * q) bytes)

-- The size that stands at the head of a bucket.
pub load_int-cell :
    (p : Bytes) (b : Buffer) → length p ≤ 60000 → load_int 0 (store 0 (cell p) b) ≡ 4 + length p
load_int-cell p b h =
    load_int-list 0 (cell p) (store 0 (cell p) b) (omega arith) (λ i inside.
      at-store_in 0 (cell p) b (0 + i) (omega arith) (omega arith)
      ∙ ap (λ j. get_or (cell p) j 0) (let e : 0 + i - 0 ≡ i = omega arith in e))
    ∙ int_of-int_bytes (4 + length p) (omega arith)

-- A header with another length and number of buckets.
abbrev pub with_lengths : (len buckets : ℕ) → Header → Header
with_lengths len buckets h = record h { data_len = len; num_buckets = buckets }

module _ (m : Memcached) where
  open m use {view}

  -- The file `path` has the header `h` and its buckets hold `bytes`, 1024 each but the last.
  pub record IsFile (s : m.State) (path : Bytes) (h : Header) (bytes : Bytes) : Type 0 where
    pub path_ok : IsPath path
    pub fields : IsHeader h
    pub main : view s path ≡ some (header_cell h)
    pub counted : h.num_buckets ≡ bucket_count (length bytes)
    pub buckets :
        (i : ℕ)
        → 1024 * i < length bytes
        → view s (data_key (suc i) path) ≡ some (cell (part i bytes))
