-- ===== src/Malloc/Blocks.antt =====
-- The blocks of mm_alloc.c's heap as a list, and the choice of the first that fits.
use fuse_using_memcached.Prelude.{
  ℕ, ◌+◌, ◌-◌, ◌≤◌, ◌<◌, ◌^◌, ◌%◌, ◌≡◌, refl, ap, ◌∙◌, true, false, ◌&&◌, not, leb, ◌==◌,
  if◌then◌else◌, arith, List, [], ◌∷◌, ◌++◌, inl, inr, Bool-cases,
}
use fuse_using_memcached.Malloc.Store.{load-agree}
use fuse_using_memcached.Malloc.Fields.{HasFields}
use fuse_using_memcached.Malloc.{Heap, sizeof_metadata}

pub record Block : Type 0 where
  pub at : ℕ
  pub size : ℕ
  pub free : ℕ

abbrev pub start_of : List Block → ℕ
start_of [] = 0
start_of (b ∷ bs) = b.at

-- Where the block in front of a list ends at the latest.
abbrev pub limit : (brk : ℕ) → List Block → ℕ
limit brk [] = brk
limit brk (b ∷ bs) = b.at

pub record IsBlock (h : Heap) (next limit : ℕ) (b : Block) : Type 0 where
  pub positive : 0 < b.at
  pub fields : HasFields h b.at next b.free b.size
  pub within : b.at + sizeof_metadata + b.size ≤ limit
  pub addressed : limit < 2 ^ 64
  pub small : b.size < 2 ^ 32

-- The heap holds these blocks, in the order of their addresses, without overlaps and below the break.
abbrev pub IsBlocks : Heap → List Block → Type 0
IsBlocks h [] = Unit
IsBlocks h (b ∷ bs) = IsBlock h (start_of bs) (limit h.brk bs) b × IsBlocks h bs

-- The block at `at` with its bytes up to `end`, after `size` bytes of it are given out.
abbrev pub fit : (size at old end : ℕ) → List Block
fit size at old end =
    record { at = at; size = size; free = 0 }
    ∷ (if leb (size + sizeof_metadata) old
        then record { at = at + sizeof_metadata + size; size = end; free = 1 } ∷ []
        else [])

abbrev pub fit_last : ℕ → Block → List Block
fit_last size b = fit size b.at b.size (b.size - size - sizeof_metadata)

abbrev pub fit_middle : (size next : ℕ) → Block → List Block
fit_middle size next b =
    fit size b.at (next - b.at - sizeof_metadata)
      ((next - (b.at + sizeof_metadata + size) - sizeof_metadata) % 2 ^ 32)

-- First fit: the last block, if it is free, the first free one that is large enough, or else a new block at the
-- break. The address of the block that is taken, and the blocks behind it.
unfoldable pub place : (size brk : ℕ) → Block → List Block → ℕ × List Block
place size brk b [] = elim (b.free == 0) [
  | true ↦ (brk, b ∷ record { at = brk; size = size; free = 0 } ∷ [])
  | false ↦ (b.at, fit_last size b)
]
place size brk b (c ∷ bs) = elim (not (b.free == 0) && leb size b.size) [
  | true ↦ (b.at, fit_middle size c.at b ++ (c ∷ bs))
  | false ↦ (let rest = place size brk c bs in (rest.0, b ∷ rest.1))
]

pub place-append :
    (size brk : ℕ) (b : Block)
    → (b.free == 0) ≡ true
    → place size brk b [] ≡ (brk, b ∷ record { at = brk; size = size; free = 0 } ∷ [])
unfolding place
place-append size brk b e = rw (place, e) refl

pub place-last :
    (size brk : ℕ) (b : Block)
    → (b.free == 0) ≡ false
    → place size brk b [] ≡ (b.at, fit_last size b)
unfolding place
place-last size brk b e = rw (place, e) refl

pub place-middle :
    (size brk : ℕ) (b c : Block) (bs : List Block)
    → (not (b.free == 0) && leb size b.size) ≡ true
    → place size brk b (c ∷ bs) ≡ (b.at, fit_middle size c.at b ++ (c ∷ bs))
unfolding place
place-middle size brk b c bs e = rw (place, e) refl

pub place-pass :
    (size brk : ℕ) (b c : Block) (bs : List Block)
    → (not (b.free == 0) && leb size b.size) ≡ false
    → place size brk b (c ∷ bs) ≡ ((place size brk c bs).0, b ∷ (place size brk c bs).1)
unfolding place
place-pass size brk b c bs e = rw (place, e) refl

pub place-start :
    (size brk : ℕ) (b : Block) (bs : List Block) → start_of (place size brk b bs).1 ≡ b.at
place-start size brk b [] = elim (Bool-cases (b.free == 0)) [
  | inl e ↦ ap (λ (r : ℕ × List Block). start_of r.1) (place-append size brk b e)
  | inr e ↦ ap (λ (r : ℕ × List Block). start_of r.1) (place-last size brk b e)
]
place-start size brk b (c ∷ bs) = elim (Bool-cases (not (b.free == 0) && leb size b.size)) [
  | inl e ↦ ap (λ (r : ℕ × List Block). start_of r.1) (place-middle size brk b c bs e)
  | inr e ↦ ap (λ (r : ℕ × List Block). start_of r.1) (place-pass size brk b c bs e)
]

pub place-limit :
    (size brk end : ℕ) (b : Block) (bs : List Block) → limit end (place size brk b bs).1 ≡ b.at
place-limit size brk end b [] = elim (Bool-cases (b.free == 0)) [
  | inl e ↦ ap (λ (r : ℕ × List Block). limit end r.1) (place-append size brk b e)
  | inr e ↦ ap (λ (r : ℕ × List Block). limit end r.1) (place-last size brk b e)
]
place-limit size brk end b (c ∷ bs) = elim (Bool-cases (not (b.free == 0) && leb size b.size)) [
  | inl e ↦ ap (λ (r : ℕ × List Block). limit end r.1) (place-middle size brk b c bs e)
  | inr e ↦ ap (λ (r : ℕ × List Block). limit end r.1) (place-pass size brk b c bs e)
]

pub HasFields-agree :
    (h h' : Heap) (a next free size : ℕ)
    → ((x : ℕ) → a + 8 ≤ x → x < a + sizeof_metadata → h'.memory x ≡ h.memory x)
    → HasFields h a next free size
    → HasFields h' a next free size
HasFields-agree h h' a next free size same f = record {
  next_is =
      load-agree 8 (a + 8) h'.memory h.memory (λ x lo hi. same x (omega arith) (omega arith))
      ∙ f.next_is;
  free_is =
      load-agree 4 (a + 16) h'.memory h.memory (λ x lo hi. same x (omega arith) (omega arith))
      ∙ f.free_is;
  size_is =
      load-agree 4 (a + 20) h'.memory h.memory (λ x lo hi. same x (omega arith) (omega arith))
      ∙ f.size_is;
}

-- Blocks do not change with what is in front of them.
pub IsBlocks-agree :
    (h h' : Heap) (bs : List Block)
    → h'.brk ≡ h.brk
    → ((x : ℕ) → start_of bs + 8 ≤ x → h'.memory x ≡ h.memory x)
    → IsBlocks h bs
    → IsBlocks h' bs
IsBlocks-agree h h' [] e same all = tt
IsBlocks-agree h h' (b ∷ []) e same (one, rest) = (
  record {
    positive = one.positive;
    fields = HasFields-agree h h' b.at 0 b.free b.size (λ x lo hi. same x lo) one.fields;
    within = rw e one.within;
    addressed = rw e one.addressed;
    small = one.small;
  },
  tt,
)
IsBlocks-agree h h' (b ∷ c ∷ bs) e same (one, rest) = (
  record {
    positive = one.positive;
    fields = HasFields-agree h h' b.at c.at b.free b.size (λ x lo hi. same x lo) one.fields;
    within = one.within;
    addressed = one.addressed;
    small = one.small;
  },
  IsBlocks-agree h h' (c ∷ bs) e (λ x lo. same x (let w = one.within in omega arith)) rest,
)
