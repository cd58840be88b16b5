-- ===== src/Cachefs/Lifecycle.antt =====
-- A file of cachedfs/main.c from its creation on: hello_create, hello_write, and what is seen of it then.
use fuse_using_memcached.Prelude.{
  ℕ, suc, ◌+◌, ◌*◌, ◌^◌, ◌≤◌, ◌<◌, ◌≡◌, refl, ap, ◌∙◌, [], ◌∷◌, ◌++◌, false, List, some, Bytes,
  codes, same, length, take, drop, arith,
}
use fuse_using_memcached.Memcache.Server.{Memcached}
use fuse_using_memcached.Cachefs.Layout.{Header, header_cell}
use fuse_using_memcached.Cachefs.Keys.{child_key, data_key}
use fuse_using_memcached.Cachefs.Keys.Laws.{IsPath}
use fuse_using_memcached.Cachefs.Keys.Distinct.{
  data_of, child_of, key_of, key_of-ne_kind, path-child_key, data_key-path,
}
use fuse_using_memcached.Cachefs.Entries.{hello_create, hello_getattr}
use fuse_using_memcached.Cachefs.Entries.Laws.{new_file}
use fuse_using_memcached.Cachefs.Entries.Status.{file_stat, sign_extend_small, hello_getattr-header}
use fuse_using_memcached.Cachefs.Listing.{hello_readdir}
use fuse_using_memcached.Cachefs.Listing.Tokens.{IsFileName, join}
use fuse_using_memcached.Cachefs.Listing.Laws.{IsDirectory, hello_readdir-names}
use fuse_using_memcached.Cachefs.Listing.Growth.{join-IsPath, hello_create-IsDirectory}
use fuse_using_memcached.Cachefs.Listing.Populated.{join-ne_dir}
use fuse_using_memcached.Cachefs.Content.{hello_read, hello_write}
use fuse_using_memcached.Cachefs.Content.Files.{IsFile, bucket_count, with_lengths}
use fuse_using_memcached.Cachefs.Content.Whole.{IsElsewhere, hello_write_new_lem}
use fuse_using_memcached.Cachefs.Content.Reading.{hello_read-slice}

data_key-child_key :
    {i j : ℕ} {p q : Bytes}
    → i < 2 ^ 31
    → j < 2 ^ 31
    → IsPath p
    → IsPath q
    → same (data_key i p) (child_key j q) ≡ false
unfolding key_of
data_key-child_key {i} {j} {p} {q} si sj hp hq =
    key_of-ne_kind (data_of i p) (child_of j q) (si, hp) (sj, hq) (λ e. absurd (omega arith))

-- A file that was just made holds no bytes.
new-IsFile :
    (m : Memcached) (s : m.State) (path : Bytes) (n : ℕ)
    → IsPath path
    → n < 2 ^ 31
    → m.view s path ≡ some (header_cell (new_file n))
    → IsFile m s path (new_file n) []
new-IsFile m s path n ok small here = record {
  path_ok = ok;
  fields = record {
    is_dir = omega arith;
    data_len = omega arith;
    num_buckets = omega arith;
    parent_index = omega arith;
    xattr_num = omega arith;
  };
  main = here;
  counted = refl;
  buckets = λ i lt. absurd (omega arith);
}

-- A directory stays when one of its files is written.
IsDirectory-elsewhere :
    (m : Memcached) (s s' : m.State) (dir name : Bytes) (h : Header) (names : List Bytes)
    → IsDirectory m s dir h names
    → IsFileName name
    → IsPath (join dir name)
    → IsElsewhere m (join dir name) s s'
    → IsDirectory m s' dir h names
IsDirectory-elsewhere m s s' dir name h names d n ok same_view = record {
  path_ok = d.path_ok;
  fields = d.fields;
  main =
      same_view dir (λ j small. data_key-path j small ok d.path_ok) (join-ne_dir dir name n)
      ∙ d.main;
  counted = d.counted;
  few = d.few;
  entries = λ i lt.
      same_view (child_key (suc i) dir)
        (λ j small. data_key-child_key small (omega (arith, d.few)) ok d.path_ok)
        (path-child_key (suc i) (omega (arith, d.few)) d.path_ok ok)
      ∙ d.entries i lt;
  named = d.named;
  short = d.short;
}

module _ (m : Memcached) (junk₁ junk₂ junk₃ : ℕ → ℕ → ℕ) (s : m.State) (dir name bytes : Bytes)
    (h : Header) (names : List Bytes) (d : IsDirectory m s dir h names) (n : IsFileName name)
    (short : length (join dir name) ≤ 238) (room : suc (suc (length names)) < 2 ^ 31)
    (few : length bytes < 2 ^ 28) (fuel size offset : ℕ) (enough : size ≤ fuel)
    (some_bytes : 0 < size) (inside : offset + size ≤ length bytes) where
  -- A file is made in a directory, with a file name, a path of at most 238 bytes and fewer
  -- than 2 ^ 31 - 2 entries there, and then written from its start on, with fewer than 2 ^ 28
  -- bytes. All calls succeed: hello_readdir lists the directory's names and the new one,
  -- hello_read of a range of at least one of the bytes gives the range, and hello_getattr
  -- shows a file, with a size that is 4 too large for each 1024 bytes begun.
  pub hello_create-hello_write :
      (s₁ : m.State) × (s₂ : m.State) × (hello_create m junk₁ (join dir name) s ≡ some (some 0, s₁))
      × (hello_write m junk₂ (join dir name) bytes 0 s₁ ≡ some (length bytes, s₂))
      × (hello_readdir m junk₃ dir s₂
          ≡ some ((0, codes "." ∷ codes ".." ∷ (names ++ (name ∷ []))), s₂))
      × (hello_read m junk₃ fuel (join dir name) size offset s₂
          ≡ some ((size, take size (drop offset bytes)), s₂))
      × (hello_getattr m junk₃ (join dir name) s₂
          ≡ some ((0, file_stat (length bytes + 4 * bucket_count (length bytes))), s₂))
  hello_create-hello_write =
      let ok = join-IsPath dir name d.path_ok n short in
      let place = suc (length names) in
      let (s₁, made, directory, here) =
        hello_create-IsDirectory m junk₁ s dir name h names d n short room in
      let empty = new-IsFile m s₁ (join dir name) place ok (omega arith) here in
      let (s₂, written, file, elsewhere) =
        hello_write_new_lem m junk₂ (join dir name) ok s₁ (new_file place) bytes empty refl few in
      let k = length bytes in
      let h' = with_lengths (k + 4 * bucket_count k) (bucket_count k) (new_file place) in
      (
        s₁,
        s₂,
        made,
        written,
        hello_readdir-names m junk₃ s₂ dir _ (names ++ (name ∷ [])) (
            IsDirectory-elsewhere m s₁ s₂ dir name _ (names ++ (name ∷ [])) directory n ok
              elsewhere),
        hello_read-slice m junk₃ (join dir name) bytes h' s₂ file (omega arith) fuel size offset
            enough some_bytes inside (omega arith) (omega arith),
        (hello_getattr-header m junk₃ s₂ (join dir name) ok h' file.fields file.main).1
            ∙ ap (λ n. some ((0, file_stat n), s₂))
                (sign_extend_small (k + 4 * bucket_count k) (omega arith)),
      )
