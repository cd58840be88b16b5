-- ===== src/Cachefs/Removal/Cleanup.antt =====
-- The loops of `hello_unlink` that delete a file's attributes and data.
use fuse_using_memcached.Prelude.{
  ℕ, zero, suc, ◌+◌, ◌^◌, ◌≤◌, ◌<◌, ◌≡◌, refl, ◌∙◌, false, none, some, Bytes, same, same_refl,
  arith, Bool-cases, inl, inr,
}
use fuse_using_memcached.Memcache.Server.{Memcached, IsKey}
use fuse_using_memcached.Cachefs.Removal.{delete_all}
use fuse_using_memcached.Cachefs.Removal.Entry.{delete_key-delete}

module _ (m : Memcached) (key_of : ℕ → Bytes → Bytes) (path : Bytes) where
  open m use {view, delete, view-delete}

  unfoldable pub without : (rounds i : ℕ) → m.State → m.State
  without zero i s = s
  without (suc rounds) i s = without rounds (suc i) (delete (key_of i path) s)

  -- What the loop does not name it leaves alone.
  pub view-without_other :
      (rounds i : ℕ) (s : m.State) (k : Bytes)
      → ((j : ℕ) → i ≤ j → j < i + rounds → same (key_of j path) k ≡ false)
      → view (without rounds i s) k ≡ view s k
  unfolding without
  view-without_other zero i s k other = refl
  view-without_other (suc rounds) i s k other =
      view-without_other rounds (suc i) (delete (key_of i path) s) k
        (λ j a b. other j (omega arith) (omega arith))
      ∙ view-delete (key_of i path) k s
      ∙ rw (other i (omega arith) (omega arith)) refl

  view-without-none :
      (rounds i : ℕ) (s : m.State) (k : Bytes)
      → view s k ≡ none
      → view (without rounds i s) k ≡ none
  unfolding without
  view-without-none zero i s k h = h
  view-without-none (suc rounds) i s k h =
      view-without-none rounds (suc i) (delete (key_of i path) s) k (
        view-delete (key_of i path) k s
        ∙ elim (Bool-cases (same (key_of i path) k)) [ inl e ↦ rw e refl | inr e ↦ rw e h ])

  pub view-without_named :
      (rounds i : ℕ) (s : m.State) (j : ℕ)
      → j < rounds
      → view (without rounds i s) (key_of (i + j) path) ≡ none
  unfolding without
  view-without_named zero i s j h = absurd (omega arith)
  view-without_named (suc rounds) i s zero h =
      let e : i + 0 ≡ i = omega arith in
      rw e (
        view-without-none rounds (suc i) (delete (key_of i path) s) (key_of i path)
          (view-delete (key_of i path) (key_of i path) s ∙ rw (same_refl (key_of i path)) refl))
  view-without_named (suc rounds) i s (suc j) h =
      let e : i + suc j ≡ suc i + j = omega arith in
      rw e (view-without_named rounds (suc i) (delete (key_of i path) s) j (omega arith))

module _ (m : Memcached) (junk : ℕ → ℕ → ℕ) (key_of : ℕ → Bytes → Bytes) (path : Bytes)
    (keys : (i : ℕ) → i < 2 ^ 31 → IsKey (key_of i path)) where
  open m use {delete}

  pub delete_all-without :
      (rounds i : ℕ) (s : m.State)
      → i + rounds ≤ 2 ^ 31
      → delete_all m junk key_of rounds i path s ≡ some (tt, without m key_of path rounds i s)
  unfolding delete_all without
  delete_all-without zero i s few = refl
  delete_all-without (suc rounds) i s few =
      rw
        (
          delete_key-delete m junk (15 + i) 1280 (key_of i path) s (keys i (omega arith)),
          delete_all-without rounds (suc i) (delete (key_of i path) s) (omega arith),
        )
        refl
