-- ===== src/Machine/Buffer/Laws.antt =====
-- What is read back from a buffer after a write.
use fuse_using_memcached.Prelude.{
  take, drop, drop-cons, ℕ, zero, suc, ◌+◌, ◌-◌, ◌≤◌, ◌<◌, ◌≡◌, refl, [], ◌∷◌, ◌++◌, Bytes, length,
  get_or, arith, ap, ap₂, fun_ext, ◌∙◌, get_or-append_left, length-append,
}
use fuse_using_memcached.Machine.Buffer.{Buffer, store, load, load_int}
use fuse_using_memcached.Machine.Word.{int_of}

pub length-load : (off n : ℕ) (b : Buffer) → length (load off n b) ≡ n
unfolding load
length-load off zero b = refl
length-load off (suc n) b = ap suc (length-load (suc off) n b)

-- Two blocks that agree on a range read the same there.
pub load-congr :
    (off n : ℕ) (b c : Buffer)
    → ((i : ℕ) → off ≤ i → i < off + n → b.at i ≡ c.at i)
    → load off n b ≡ load off n c
unfolding load
load-congr off zero b c h = refl
load-congr off (suc n) b c h =
    ap₂ ◌∷◌ (h off (omega arith) (omega arith))
      (load-congr (suc off) n b c (λ i p q. h i (omega arith) (omega arith)))

-- A block whose bytes from `off` on are those of a list.
pub load-list :
    (off : ℕ) (bytes : Bytes) (b : Buffer)
    → ((i : ℕ) → i < length bytes → b.at (off + i) ≡ get_or bytes i 0)
    → load off (length bytes) b ≡ bytes
unfolding load
load-list off [] b h = refl
load-list off (x ∷ xs) b h =
    ap₂ ◌∷◌ (ap b.at (omega arith) ∙ h 0 (omega arith))
      (load-list (suc off) xs b λ i p. ap b.at (omega arith) ∙ h (suc i) (omega arith))

module _ (off : ℕ) (bytes : Bytes) (b : Buffer) (i : ℕ) where
  pub at-store_in :
      off ≤ i → i < off + length bytes → (store off bytes b).at i ≡ get_or bytes (i - off) 0
  at-store_in h k = ground arith

  pub at-store_before : i < off → (store off bytes b).at i ≡ b.at i
  at-store_before h = ground arith

  pub at-store_after : off + length bytes ≤ i → (store off bytes b).at i ≡ b.at i
  at-store_after h = ground arith

-- What `memcpy` wrote is what is read there.
pub load-store :
    (off : ℕ) (bytes : Bytes) (b : Buffer) → load off (length bytes) (store off bytes b) ≡ bytes
load-store off bytes b = load-list off bytes (store off bytes b) λ i p.
    at-store_in off bytes b (off + i) (omega arith) (omega arith)
    ∙ ap (λ j. get_or bytes j 0) (omega arith)

pub get_or-append_right :
    (xs ys : Bytes) (i : ℕ) → get_or (xs ++ ys) (length xs + i) 0 ≡ get_or ys i 0
get_or-append_right [] ys i = ap (λ j. get_or ys j 0) (omega arith)
get_or-append_right (x ∷ xs) ys i =
    let e : length (x ∷ xs) + i ≡ suc (length xs + i) = omega arith in
    ap (λ j. get_or (x ∷ (xs ++ ys)) j 0) e ∙ get_or-append_right xs ys i

-- The middle of a text that was written at the start of a block.
module _ (pre bytes post : Bytes) (b : Buffer) where
  pub at-store_middle :
      (i : ℕ)
      → i < length bytes
      → (store 0 (pre ++ (bytes ++ post)) b).at (length pre + i) ≡ get_or bytes i 0
  at-store_middle i h =
      at-store_in 0 (pre ++ (bytes ++ post)) b (length pre + i) (omega arith)
        (omega (arith, length-append pre (bytes ++ post), length-append bytes post))
      ∙ ap (λ j. get_or (pre ++ (bytes ++ post)) j 0) (omega arith)
      ∙ get_or-append_right pre (bytes ++ post) i
      ∙ get_or-append_left bytes post i 0 h

  pub load-store_middle :
      load (length pre) (length bytes) (store 0 (pre ++ (bytes ++ post)) b) ≡ bytes
  load-store_middle =
      load-list (length pre) bytes (store 0 (pre ++ (bytes ++ post)) b) at-store_middle

-- A write at the start hides what stood there.
pub store-store :
    (xs ys : Bytes) (b : Buffer) → length xs ≡ length ys → store 0 ys (store 0 xs b) ≡ store 0 ys b
store-store xs ys b h = λ i. record { size = b.size; at = fun_ext (same_byte) i }
  where
    same_byte : (j : ℕ) → (store 0 ys (store 0 xs b)).at j ≡ (store 0 ys b).at j
    same_byte j = ground arith

-- An `int` read from a block whose bytes from `off` on are those of a list.
pub load_int-list :
    (off : ℕ) (bytes : Bytes) (b : Buffer)
    → 4 ≤ length bytes
    → ((i : ℕ) → i < length bytes → b.at (off + i) ≡ get_or bytes i 0)
    → load_int off b
      ≡ int_of (get_or bytes 0 0) (get_or bytes 1 0) (get_or bytes 2 0) (get_or bytes 3 0)
load_int-list off bytes b h same_at =
    rw (first, same_at 1 (omega arith), same_at 2 (omega arith), same_at 3 (omega arith))
  where
    first : b.at off ≡ get_or bytes 0 0
    first = ap b.at (omega arith) ∙ same_at 0 (omega arith)

pub load-append :
    (off k n : ℕ) (b : Buffer) → load off (k + n) b ≡ load off k b ++ load (off + k) n b
unfolding load
load-append off zero n b = ap₂ (λ i j. load i j b) (omega arith) (omega arith)
load-append off (suc k) n b =
    ap (λ j. load off j b) more
    ∙ ap (◌∷◌ (b.at off))
        (load-append (suc off) k n b ∙ ap (λ i. load (suc off) k b ++ load i n b) shift)
  where
    more : suc k + n ≡ suc (k + n)
    more = omega arith

    shift : suc off + k ≡ off + suc k
    shift = omega arith

-- The first part of what `memcpy` wrote.
pub load-store_prefix :
    (off : ℕ) (bytes rest : Bytes) (b : Buffer)
    → load off (length bytes) (store off (bytes ++ rest) b) ≡ bytes
load-store_prefix off bytes rest b = load-list off bytes (store off (bytes ++ rest) b) λ i p.
    at-store_in off (bytes ++ rest) b (off + i) (omega arith)
      (omega (arith, length-append bytes rest))
    ∙ ap (λ j. get_or (bytes ++ rest) j 0) (omega arith)
    ∙ get_or-append_left bytes rest i 0 p

pub at-store_start :
    (bytes : Bytes) (b : Buffer) (i : ℕ)
    → i < length bytes
    → (store 0 bytes b).at (0 + i) ≡ get_or bytes i 0
at-store_start bytes b i h =
    at-store_in 0 bytes b (0 + i) (omega arith) (omega arith)
    ∙ ap (λ j. get_or bytes j 0) (omega arith)

-- A part of what was stored at the start of a block.
pub load-slice :
    (k n : ℕ) (bytes : Bytes) (b : Buffer)
    → k + n ≤ length bytes
    → load k n (store 0 bytes b) ≡ take n (drop k bytes)
unfolding load
load-slice k zero bytes b h = refl
load-slice k (suc n) bytes b h = rw (drop-cons k bytes 0 (omega arith)) (
    ap₂ ◌∷◌
      (at-store_in 0 bytes b k (omega arith) (omega arith)
        ∙ ap (λ j. get_or bytes j 0) (let e : k - 0 ≡ k = omega arith in e))
      (load-slice (suc k) n bytes b (omega arith)))
