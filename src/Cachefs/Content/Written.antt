-- ===== src/Cachefs/Content/Written.antt =====
-- What stands in a file's buckets and its header while `hello_write` is at work.
use fuse_using_memcached.Prelude.{
  ℕ, suc, ◌==◌, ◌+◌, ◌-◌, ◌*◌, ◌^◌, ◌≤◌, ◌<◌, ◌≡◌, refl, ap, ◌∙◌, sym, false, Bool-cases, inl, inr,
  some, Bytes, same, same_refl, length, arith, ==_iff, ==→ne, splice, length-splice,
}
use fuse_using_memcached.Machine.Buffer.{Buffer}
use fuse_using_memcached.Memcache.Server.{Memcached}
use fuse_using_memcached.Cachefs.Layout.{Header, cell}
use fuse_using_memcached.Cachefs.Keys.{data_key}
use fuse_using_memcached.Cachefs.Keys.Laws.{IsPath}
use fuse_using_memcached.Cachefs.Keys.Distinct.{data_key-data_key}
use fuse_using_memcached.Cachefs.Content.Files.{Holds, bucket_count, part, with_lengths}
use fuse_using_memcached.Cachefs.Content.Spliced.{part-splice_other}

-- The header when the file's bytes `old` became `new`.
abbrev pub lengthened : (old new : Bytes) → Header → Header
lengthened old new h =
    with_lengths
      (h.data_len
        + (length new - length old)
        + 4 * (bucket_count (length new) - bucket_count (length old)))
      (bucket_count (length new)) h

module _ (m : Memcached) (path : Bytes) (ok : IsPath path) where
  open m use {view, put, view-put}

  -- The buckets of `path` hold the bytes.
  abbrev pub HasBuckets : m.State → Bytes → Type 0
  HasBuckets s bytes =
      (i : ℕ)
      → 1024 * i < length bytes
      → view s (data_key (suc i) path) ≡ some (cell (part i bytes))

  -- From the store `s` and the bytes `old` to `s'` and `new`, with the new header in `b'`.
  pub record IsWritten (s s' : m.State) (b' : Buffer) (h : Header) (old new : Bytes) : Type 0 where
    pub holds : Holds b' (lengthened old new h)
    pub buckets : HasBuckets s' new
    pub others :
        (k : Bytes)
        → ((j : ℕ) → j < 2 ^ 31 → same (data_key j path) k ≡ false)
        → view s' k ≡ view s k

  pub IsWritten-refl :
      (s : m.State) (b : Buffer) (h : Header) (bytes : Bytes)
      → Holds b h
      → HasBuckets s bytes
      → h.num_buckets ≡ bucket_count (length bytes)
      → IsWritten s s b h bytes bytes
  IsWritten-refl s b h bytes holds has counted =
      let n = length bytes in
      let d : h.data_len + (n - n) + 4 * (bucket_count n - bucket_count n) ≡ h.data_len =
        omega arith in
      record { holds = rw (d, ← counted) holds; buckets = has; others = λ k other. refl }

  -- A bucket is put, and then the rest is written.
  pub IsWritten-step :
      (s s' : m.State) (b' : Buffer) (h : Header) (i : ℕ) (v old mid new : Bytes)
      → i < 2 ^ 31
      → length old ≤ length mid
      → length mid ≤ length new
      → IsWritten (put (data_key i path) v s) s' b' (lengthened old mid h) mid new
      → IsWritten s s' b' h old new
  IsWritten-step s s' b' h i v old mid new small le₁ le₂ w =
      let d : h.data_len
            + (length mid - length old)
            + 4 * (bucket_count (length mid) - bucket_count (length old))
            + (length new - length mid)
            + 4 * (bucket_count (length new) - bucket_count (length mid))
          ≡ h.data_len
            + (length new - length old)
            + 4 * (bucket_count (length new) - bucket_count (length old)) =
        omega arith in
      record {
        holds = rw d at w.holds;
        buckets = w.buckets;
        others = λ k other.
            w.others k other ∙ view-put (data_key i path) k v s ∙ rw (other i small) refl;
      }

  module _ (q o : ℕ) (c xs : Bytes) (inside : o ≤ length xs) (low : 1024 * q ≤ o)
      (high : o + length c ≤ 1024 * q + 1024) (few : o + length c + length xs < 2 ^ 30) where
    pub put-HasBuckets :
        (s : m.State)
        → HasBuckets s xs
        → HasBuckets (put (data_key (suc q) path) (cell (part q (splice o c xs))) s) (splice o c xs)
    put-HasBuckets s has i lt =
        let size = length-splice o c xs inside in
        view-put (data_key (suc q) path) (data_key (suc i) path) (cell (part q (splice o c xs))) s
        ∙ elim (Bool-cases (i == q)) [
          | inl e ↦
              (let same_place = (==_iff i q).0 e in
                rw (same_place, same_refl (data_key (suc q) path)) refl)
          | inr e ↦
              (let ne = ==→ne i q e in
                rw
                  (data_key-data_key {i = suc q} {j = suc i} (omega arith) (omega arith) ok ok
                    (λ z. absurd (ne (omega arith))))
                  (has i (omega arith)
                    ∙ ap (λ p. some (cell p))
                        (sym (part-splice_other q o c xs inside low high i ne lt))))
        ]
