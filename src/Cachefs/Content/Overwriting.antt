-- ===== src/Cachefs/Content/Overwriting.antt =====
-- What `hello_write` does to a bucket that exists.
use fuse_using_memcached.Prelude.{
  ℕ, suc, ◌+◌, ◌-◌, ◌*◌, ◌^◌, ◌≤◌, ◌<◌, ◌≡◌, refl, ap, ap₂, ◌∙◌, ◌++◌, ◌%◌, sym, max, inl, inr,
  if◌then◌else◌, Bool-cases, some, Bytes, length, get_or, arith, le→leb, ltb→lt, ltb_false→le,
  splice, length-splice, splice_before, splice_in, splice_behind, position,
}
use fuse_using_memcached.Machine.Word.{int_bytes, int_add, int_sub, int_ltb}
use fuse_using_memcached.Machine.Buffer.{Buffer, block, store, load, store_int}
use fuse_using_memcached.Machine.Buffer.Laws.{
  load-list, load-append, load-store, at-store_in, at-store_before, at-store_after,
}
use fuse_using_memcached.Memcache.Server.{Memcached}
use fuse_using_memcached.Memcache.Laws.{cache_get-hit, cache_set-put}
use fuse_using_memcached.Cachefs.Layout.{cell}
use fuse_using_memcached.Cachefs.Keys.{data_key}
use fuse_using_memcached.Cachefs.Keys.Laws.{IsPath, data_key-IsKey, length-data_key}
use fuse_using_memcached.Cachefs.Listing.Tokens.{cell-IsValue}
use fuse_using_memcached.Cachefs.Content.{write_old}
use fuse_using_memcached.Cachefs.Content.Files.{load_int-cell}

module _ (p c : Bytes) (start : ℕ) (b : Buffer) (inside : start ≤ length p) where
  abbrev new_size : ℕ
  new_size = length (splice start c p)

  abbrev held : Buffer
  held = store 0 (cell p) b

  abbrev written : Buffer
  written = store (4 + start) c held

  at-held : (i : ℕ) → i < length p → held.at (4 + i) ≡ get_or p i 0
  at-held i lt =
      let e : 4 + i - 0 ≡ suc (suc (suc (suc i))) = omega arith in
      at-store_in 0 (cell p) b (4 + i) (omega arith) (omega arith) ∙ ap (λ j. get_or (cell p) j 0) e

  at-written : (i : ℕ) → i < new_size → written.at (4 + i) ≡ get_or (splice start c p) i 0
  at-written i lt =
      let size = length-splice start c p inside in
      elim (position start (length c) i) [
        | inl before ↦
            at-store_before (4 + start) c held (4 + i) (omega arith)
            ∙ at-held i (omega arith)
            ∙ sym (splice_before start c p inside i before)
        | inr (inl (lo, hi)) ↦
            let shifted : 4 + i - (4 + start) ≡ i - start = omega arith in
            at-store_in (4 + start) c held (4 + i) (omega arith) (omega arith)
            ∙ ap (λ j. get_or c j 0) shifted
            ∙ sym (splice_in start c p inside i lo hi)
        | inr (inr behind) ↦
            at-store_after (4 + start) c held (4 + i) (omega arith)
            ∙ at-held i (omega arith)
            ∙ sym (splice_behind start c p inside i behind)
      ]

  -- The bucket's value is the cell of the bytes written over.
  pub load-spliced :
      load 0 (4 + new_size) (store_int 0 (4 + new_size) written) ≡ cell (splice start c p)
  load-spliced =
      let w = int_bytes (4 + new_size) in
      load-append 0 4 new_size (store 0 w written)
      ∙ ap₂ ◌++◌ (load-store 0 w written) (
          load-list 4 (splice start c p) (store 0 w written)
            (λ i lt. at-store_after 0 w written (4 + i) (omega arith) ∙ at-written i lt))

larger : (a b : ℕ) → a < 2 ^ 31 → b < 2 ^ 31 → (if int_ltb a b then b else a) ≡ max b a
larger a b ha hb = elim (Bool-cases (int_ltb a b)) [
  | inl e ↦
      (let lt = ltb→lt ((a + 2 ^ 31) % 2 ^ 32) ((b + 2 ^ 31) % 2 ^ 32) e in rw e (omega arith))
  | inr e ↦
      (let le = ltb_false→le ((a + 2 ^ 31) % 2 ^ 32) ((b + 2 ^ 31) % 2 ^ 32) e in
        rw e (omega arith))
]

module _ (m : Memcached) (junk : ℕ → ℕ → ℕ) (path : Bytes) (ok : IsPath path) where
  open m use {view, put}

  pub write_old-put :
      (i start : ℕ) (c p : Bytes) (s : m.State)
      → i < 2 ^ 31
      → view s (data_key i path) ≡ some (cell p)
      → start ≤ length p
      → length p ≤ 1024
      → start + length c ≤ 1024
      → write_old m junk i path start c s
        ≡ some (
          (length p, length (splice start c p)),
          put (data_key i path) (cell (splice start c p)) s,
        )
  unfolding write_old
  write_old-put i start c p s small here inside old_fits fits =
      let b = block 1224 (junk (3 * i + 3)) in
      let size = length-splice start c p inside in
      let n = length (splice start c p) in
      let key = data_key-IsKey i small ok in
      let old : int_sub (4 + length p) 4 ≡ length p = omega arith in
      let longer : (if int_ltb (start + length c) (length p) then length p else start + length c)
          ≡ n =
        larger (start + length c) (length p) (omega arith) (omega arith) ∙ sym size in
      let whole : int_add n 4 ≡ 4 + n = omega arith in
      rw
        (
          le→leb (length (data_key i path) + 1) 250 (omega (arith, length-data_key i small ok)),
          cache_get-hit m (junk (3 * i + 2)) (data_key i path) (cell p) b s key
              (cell-IsValue p (omega arith)) here (omega arith),
          load_int-cell p b (omega arith),
          old,
          longer,
          whole,
          cache_set-put m (junk (3 * i + 4)) (data_key i path)
              (store_int 0 (4 + n) (store (4 + start) c (store 0 (cell p) b))) (4 + n) s key
              (omega arith) (omega arith),
          load-spliced p c start b inside,
        )
        refl
