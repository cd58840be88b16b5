-- ===== src/Malloc/Store.antt =====
-- The bytes at all addresses, and numbers in them with the lowest byte first.
use native.Mathlib.Nat.{pow-suc}
use fuse_using_memcached.Prelude.{
  ℕ, zero, suc, ◌+◌, ◌-◌, ◌*◌, ◌/◌, ◌%◌, ◌^◌, ◌≤◌, ◌<◌, ◌≡◌, refl, ap, ◌∙◌, ◌&&◌, leb, ltb, ◌==◌,
  ne→==, ==_refl, if◌then◌else◌, arith, [], ◌∷◌, Bytes, le→leb, le→ltb_false, Bool-cases, inl, inr,
  lt→ltb, lt→leb_false,
}

abbrev pub Memory : Type 0
Memory = ℕ → ℕ

unfoldable pub store : (n a v : ℕ) → Memory → Memory
store zero a v m = m
store (suc n) a v m = store n (a + 1) (v / 256) (λ x. if x == a then v % 256 else m x)

unfoldable pub load : (n a : ℕ) → Memory → ℕ
load zero a m = 0
load (suc n) a m = m a % 256 + 256 * load n (a + 1) m

unfoldable pub clear : (a n : ℕ) → Memory → Memory
clear a n m x = if leb a x && ltb x (a + n) then 0 else m x

unfoldable pub copy : (dest src n : ℕ) → Memory → Memory
copy dest src n m x = if leb dest x && ltb x (dest + n) then m (src + (x - dest)) else m x

pub store_below : (n a v : ℕ) (m : Memory) (x : ℕ) → x < a → store n a v m x ≡ m x
unfolding store
store_below zero a v m x h = refl
store_below (suc n) a v m x h =
    store_below n (a + 1) (v / 256) _ x (omega arith)
    ∙ rw (ne→== x a (λ e. absurd (omega arith))) refl

pub store_above : (n a v : ℕ) (m : Memory) (x : ℕ) → a + n ≤ x → store n a v m x ≡ m x
unfolding store
store_above zero a v m x h = refl
store_above (suc n) a v m x h =
    store_above n (a + 1) (v / 256) _ x (omega arith)
    ∙ rw (ne→== x a (λ e. absurd (omega arith))) refl

-- A load gives what the last store at its place stored.
pub load-store : (n a v : ℕ) (m : Memory) → v < 256 ^ n → load n a (store n a v m) ≡ v
unfolding store load
load-store zero a v m h = omega arith
load-store (suc n) a v m h =
    let stored = λ (x : ℕ). if x == a then v % 256 else m x in
    let low : store n (a + 1) (v / 256) stored a ≡ v % 256 =
      store_below n (a + 1) (v / 256) stored a (omega arith) ∙ rw (==_refl a) refl in
    let high = load-store n (a + 1) (v / 256) stored (let p = pow-suc 256 n in omega arith) in
    rw (low, high) (omega arith)

pub load_small : (a : ℕ) (m : Memory) → load 4 a m < 2 ^ 32
unfolding load
load_small a m = omega arith

-- Memories that agree on the bytes that a load reads.
pub load-agree :
    (n a : ℕ) (m m' : Memory)
    → ((x : ℕ) → a ≤ x → x < a + n → m x ≡ m' x)
    → load n a m ≡ load n a m'
unfolding load
load-agree zero a m m' h = refl
load-agree (suc n) a m m' h =
    rw
      (
        h a (omega arith) (omega arith),
        load-agree n (a + 1) m m' (λ x lo hi. h x (omega arith) (omega arith)),
      )
      refl

abbrev pub bytes : (n a : ℕ) → Memory → Bytes
bytes zero a m = []
bytes (suc n) a m = m a ∷ bytes n (a + 1) m

abbrev pub zeros : ℕ → Bytes
zeros zero = []
zeros (suc n) = 0 ∷ zeros n

pub bytes-zeros :
    (n a : ℕ) (m : Memory) → ((x : ℕ) → a ≤ x → x < a + n → m x ≡ 0) → bytes n a m ≡ zeros n
bytes-zeros zero a m h = refl
bytes-zeros (suc n) a m h =
    rw
      (
        h a (omega arith) (omega arith),
        bytes-zeros n (a + 1) m (λ x lo hi. h x (omega arith) (omega arith)),
      )
      refl

pub clear_inside : (a n : ℕ) (m : Memory) (x : ℕ) → a ≤ x → x < a + n → clear a n m x ≡ 0
unfolding clear
clear_inside a n m x lo hi = rw (le→leb a x lo, lt→ltb x (a + n) hi) refl

pub clear_below : (a n : ℕ) (m : Memory) (x : ℕ) → x < a → clear a n m x ≡ m x
unfolding clear
clear_below a n m x h = rw (lt→leb_false a x h) refl

pub load_under : (k b n a v : ℕ) (m : Memory) → b + k ≤ a → load k b (store n a v m) ≡ load k b m
load_under k b n a v m h = load-agree k b _ m (λ x lo hi. store_below n a v m x (omega arith))

pub load_over : (k b n a v : ℕ) (m : Memory) → a + n ≤ b → load k b (store n a v m) ≡ load k b m
load_over k b n a v m h = load-agree k b _ m (λ x lo hi. store_above n a v m x (omega arith))

pub load-clear : (k b a n : ℕ) (m : Memory) → b + k ≤ a → load k b (clear a n m) ≡ load k b m
load-clear k b a n m h = load-agree k b _ m (λ x lo hi. clear_below a n m x (omega arith))

pub clear_above : (a n : ℕ) (m : Memory) (x : ℕ) → a + n ≤ x → clear a n m x ≡ m x
unfolding clear
clear_above a n m x h = elim (Bool-cases (leb a x)) [
  | inl e ↦ rw (e, le→ltb_false x (a + n) h) refl
  | inr e ↦ rw e refl
]

store-truncated : (a v : ℕ) (m : Memory) → store 4 a v m ≡ store 4 a (v % 2 ^ 32) m
unfolding store
store-truncated a v m =
    let b₀ : v % 256 ≡ v % 2 ^ 32 % 256 = omega arith in
    let b₁ : v / 256 % 256 ≡ v % 2 ^ 32 / 256 % 256 = omega arith in
    let b₂ : v / 256 / 256 % 256 ≡ v % 2 ^ 32 / 256 / 256 % 256 = omega arith in
    let b₃ : v / 256 / 256 / 256 % 256 ≡ v % 2 ^ 32 / 256 / 256 / 256 % 256 = omega arith in
    λ i x.
      if x == a + 1 + 1 + 1
      then b₃ i
      else (if x == a + 1 + 1
          then b₂ i
          else (if x == a + 1 then b₁ i else (if x == a then b₀ i else m x)))

-- Four bytes hold the number modulo 2 ^ 32.
pub load-store_int : (a v : ℕ) (m : Memory) → load 4 a (store 4 a v m) ≡ v % 2 ^ 32
load-store_int a v m =
    ap (load 4 a) (store-truncated a v m) ∙ load-store 4 a (v % 2 ^ 32) m (omega arith)
