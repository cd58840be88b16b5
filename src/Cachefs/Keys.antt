-- ===== src/Cachefs/Keys.antt =====
-- The keys of cachedfs/main.c, and the parent of a path.
pub mod Laws
pub mod Distinct
use fuse_using_memcached.Prelude.{
  ℕ, zero, suc, ◌+◌, ◌-◌, [], ◌∷◌, ◌++◌, Bool, leb, ◌==◌, if◌then◌else◌, Option, none, some, Bytes,
  codes, length, take, get_or,
}
use fuse_using_memcached.Machine.Decimal.{sprintf_d}

abbrev pub root : Bytes
root = codes "/"

-- `sprintf(key, "%d", i); strcat(key, path);`: the entry of the i-th child of a directory
unfoldable pub child_key : ℕ → Bytes → Bytes
child_key i path = sprintf_d i ++ path

-- the i-th data bucket of a file
unfoldable pub data_key : ℕ → Bytes → Bytes
data_key i path = b'&' ∷ (sprintf_d i ++ path)

-- the i-th extended attribute
unfoldable pub xattr_key : ℕ → Bytes → Bytes
xattr_key i path = b'$' ∷ (sprintf_d i ++ path)

-- `while(parent[len] != '/') { parent[len] = 0; len--; } if(len != 0) parent[len] = 0;`
-- With no slash the walk leaves the array.
unfoldable pub parent_loop : ℕ → Bytes → Option Bytes
parent_loop zero path = if get_or path 0 0 == b'/' then some (take 1 path) else none
parent_loop (suc len) path =
    if get_or path (suc len) 0 == b'/' then some (take (suc len) path) else parent_loop len path

-- The copy stands in an array of 250 bytes.
unfoldable pub parent_of : Bytes → Option Bytes
unfolding parent_loop
parent_of [] = none
parent_of (c ∷ path) =
    if leb (length (c ∷ path) + 1) 250 then parent_loop (length path) (c ∷ path) else none
