-- ===== src/Machine/Buffer/Parts.antt =====
-- What is read at a place in the middle of a text that was written at the start of a block.
use fuse_using_memcached.Prelude.{
  ℕ, zero, suc, ◌+◌, ◌^◌, ◌≤◌, ◌<◌, ◌≡◌, refl, ap, ap₂, ◌∙◌, sym, [], ◌∷◌, ◌++◌, Bytes, length,
  take, drop, arith, length-append, append-nil, append_assoc, take-all,
}
use fuse_using_memcached.Machine.Word.{int_bytes, int_of-int_bytes}
use fuse_using_memcached.Machine.Buffer.{Buffer, store, load, load_int}
use fuse_using_memcached.Machine.Buffer.Laws.{
  at-store_middle, at-store_before, at-store_after, load_int-list, load-slice, load-append,
  load-congr, load-store,
}

drop-append : (pre bytes : Bytes) (k : ℕ) → length pre ≡ k → drop k (pre ++ bytes) ≡ bytes
drop-append [] bytes zero e = refl
drop-append [] bytes (suc k) e = absurd (omega arith)
drop-append (c ∷ pre) bytes zero e = absurd (omega arith)
drop-append (c ∷ pre) bytes (suc k) e = drop-append pre bytes k (omega arith)

take-append_le : (n : ℕ) (xs ys : Bytes) → n ≤ length xs → take n (xs ++ ys) ≡ take n xs
take-append_le zero xs ys h = refl
take-append_le (suc n) [] ys h = absurd (omega arith)
take-append_le (suc n) (x ∷ xs) ys h = ap (◌∷◌ x) (take-append_le n xs ys (omega arith))

module _ (pre post : Bytes) (b : Buffer) (k : ℕ) (at : length pre ≡ k) where
  pub load_int-middle :
      (w : ℕ) → w < 2 ^ 32 → load_int k (store 0 (pre ++ (int_bytes w ++ post)) b) ≡ w
  load_int-middle w small =
      rw (← at) (
        load_int-list (length pre) (int_bytes w) (store 0 (pre ++ (int_bytes w ++ post)) b)
          (omega arith) (λ i h. at-store_middle pre (int_bytes w) post b i h))
      ∙ int_of-int_bytes w small

  pub load-middle :
      (bytes : Bytes) (n : ℕ)
      → n ≤ length bytes
      → load k n (store 0 (pre ++ (bytes ++ post)) b) ≡ take n bytes
  load-middle bytes n le =
      load-slice k n (pre ++ (bytes ++ post)) b
        (omega (arith, length-append pre (bytes ++ post), length-append bytes post))
      ∙ ap (take n) (drop-append pre (bytes ++ post) k at)
      ∙ take-append_le n bytes post le

-- A part of a text in a block is replaced by one of the same length.
pub load-replaced :
    (pre old new post : Bytes) (b : Buffer)
    → length old ≡ length new
    → load 0
        (length pre + (length new + length post))
        (store (length pre) new (store 0 (pre ++ (old ++ post)) b))
      ≡ pre ++ (new ++ post)
load-replaced pre old new post b same_length =
    let text = store 0 (pre ++ (old ++ post)) b in
    let changed = store (length pre) new text in
    let behind : length pre + length new ≡ length (pre ++ old) =
      omega (arith, length-append pre old) in
    let front : 0 + length pre ≡ length pre = omega arith in
    load-append 0 (length pre) (length new + length post) changed
    ∙ ap (λ k. load 0 (length pre) changed ++ load k (length new + length post) changed) front
    ∙ ap₂ ◌++◌
        (load-congr 0 (length pre) changed text
            (λ i lo hi. at-store_before (length pre) new text i (omega arith))
          ∙ load-middle [] (old ++ post) b 0 refl pre (length pre) (omega arith)
          ∙ take-all (length pre) pre (omega arith))
        (load-append (length pre) (length new) (length post) changed
          ∙ ap₂ ◌++◌ (load-store (length pre) new text) (
              load-congr (length pre + length new) (length post) changed text
                (λ i lo hi. at-store_after (length pre) new text i (omega arith))
              ∙ ap (λ k. load k (length post) text) behind
              ∙ ap (λ t. load (length (pre ++ old)) (length post) (store 0 t b))
                  (sym (append_assoc pre old post)
                    ∙ ap (λ t. (pre ++ old) ++ t) (sym (append-nil post)))
              ∙ load-middle (pre ++ old) [] b (length (pre ++ old)) refl post (length post)
                  (omega arith)
              ∙ take-all (length post) post (omega arith)))
