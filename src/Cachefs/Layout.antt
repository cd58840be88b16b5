-- ===== src/Cachefs/Layout.antt =====
-- The structures of cachedfs/main.c and cachedfs/memcache.h as bytes, and the constants.
use fuse_using_memcached.Prelude.{ℕ, ◌+◌, ◌^◌, ◌<◌, ◌++◌, Bytes, length}
use fuse_using_memcached.Machine.Word.{int_bytes}

-- Offsets of the fields in a block that begins with a `bucket_struct`: `cur_size`, then the
-- `header_struct`, or the `stats_struct` with its `block_size`.
abbrev pub cur_size_at : ℕ
cur_size_at = 0

abbrev pub is_dir_at : ℕ
is_dir_at = 4

abbrev pub data_len_at : ℕ
data_len_at = 8

abbrev pub num_buckets_at : ℕ
num_buckets_at = 12

abbrev pub parent_index_at : ℕ
parent_index_at = 16

abbrev pub xattr_num_at : ℕ
xattr_num_at = 20

abbrev pub total_bytes_at : ℕ
total_bytes_at = 4

abbrev pub block_size_at : ℕ
block_size_at = 8

abbrev pub sizeof_bucket_struct : ℕ
sizeof_bucket_struct = 4

abbrev pub sizeof_header_struct : ℕ
sizeof_header_struct = 20

abbrev pub sizeof_stats_struct : ℕ
sizeof_stats_struct = 8

abbrev pub max_bucket_size : ℕ
max_bucket_size = 1024

abbrev pub space_for_structs : ℕ
space_for_structs = 200

abbrev pub eperm : ℕ
eperm = 1

abbrev pub enoent : ℕ
enoent = 2

abbrev pub efault : ℕ
efault = 14

abbrev pub enotdir : ℕ
enotdir = 20

abbrev pub enotempty : ℕ
enotempty = 39

-- struct header_struct
pub record Header : Type 0 where
  pub is_dir : ℕ
  pub data_len : ℕ
  pub num_buckets : ℕ
  pub parent_index : ℕ
  pub xattr_num : ℕ

-- Every field is the pattern of an `int`.
pub record IsHeader (h : Header) : Type 0 where
  pub is_dir : h.is_dir < 2 ^ 32
  pub data_len : h.data_len < 2 ^ 32
  pub num_buckets : h.num_buckets < 2 ^ 32
  pub parent_index : h.parent_index < 2 ^ 32
  pub xattr_num : h.xattr_num < 2 ^ 32

-- The main value of a file or directory, and a value that holds other bytes.
abbrev pub header_cell : Header → Bytes
header_cell h =
    int_bytes 24
    ++ (int_bytes h.is_dir
        ++ (int_bytes h.data_len
            ++ (int_bytes h.num_buckets ++ (int_bytes h.parent_index ++ int_bytes h.xattr_num))))

abbrev pub cell : Bytes → Bytes
cell bytes = int_bytes (4 + length bytes) ++ bytes
