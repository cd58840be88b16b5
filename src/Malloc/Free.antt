-- ===== src/Malloc/Free.antt =====
-- mm_free of malloc-master/mm_alloc.c on the list of blocks.
pub mod Merged
pub mod First
pub mod Release
pub mod Stale
use fuse_using_memcached.Prelude.{
  ℕ, ◌+◌, ◌≡◌, ◌⊎◌, true, false, ◌&&◌, not, ◌==◌, if◌then◌else◌, List, [], ◌∷◌,
}
use fuse_using_memcached.Malloc.Blocks.{Block}
use fuse_using_memcached.Malloc.{Heap, sizeof_metadata, prev_of}

-- A block with the one behind it, whose metadata becomes a part of it.
abbrev pub join : Block → Block → Block
join b c = record b { size = b.size + (c.size + sizeof_metadata) }

abbrev pub mark : Block → Block
mark b = record b { free = 1 }

-- The first block becomes free, together with the one behind it if that is free.
unfoldable pub free_first : Block → List Block → List Block
free_first b [] = mark b ∷ []
free_first b (c ∷ cs) = if c.free == 0 then mark b ∷ c ∷ cs else mark (join b c) ∷ cs

-- The block at `at` becomes free, together with its free neighbours.
unfoldable pub release : (at : ℕ) → Block → List Block → List Block
unfolding free_first
release at b [] = free_first b []
release at b (c ∷ cs) = elim (b.at == at) [
  | true ↦ free_first b (c ∷ cs)
  | false ↦ elim ((c.at == at) && not (b.free == 0)) [
    | true ↦ free_first (join b c) cs
    | false ↦ b ∷ release at c cs
  ]
]

-- The list has a block at `at`, whose `prev` is the block in front of it; `prev` is in front of the list.
abbrev pub IsLinked : Heap → (at prev : ℕ) → List Block → Type 0
IsLinked h at prev [] = ⊥
IsLinked h at prev (b ∷ bs) = ((b.at ≡ at) × (prev_of at h ≡ prev)) ⊎ IsLinked h at b.at bs
