-- ===== src/Malloc.antt =====
-- The allocator of malloc-master/mm_alloc.c: mm_malloc, mm_free and mm_realloc.
pub mod Store
pub mod Outcome
pub mod Fields
pub mod Blocks
pub mod FirstFit
pub mod Steps
pub mod Walk
pub mod First
pub mod Middle
pub mod Realloc
pub mod Free
use fuse_using_memcached.Prelude.{
  ℕ, zero, suc, ◌+◌, ◌-◌, ◌%◌, ◌^◌, Bool, true, false, ◌&&◌, ◌||◌, not, leb, ltb, ◌==◌,
  if◌then◌else◌, Option, none, some,
}
use fuse_using_memcached.Malloc.Store.{Memory, store, load, clear, copy}

-- startOfMem, which is none before the first allocation, the break, and the bytes at all addresses.
pub record Heap : Type 0 where
  pub start_of_mem : Option ℕ
  pub brk : ℕ
  pub memory : Memory

-- struct metadata, at the address of a block: prev and next have 8 bytes, free and size 4.
abbrev pub sizeof_metadata : ℕ
sizeof_metadata = 24

abbrev pub prev_of : ℕ → Heap → ℕ
prev_of a h = load 8 a h.memory

abbrev pub next_of : ℕ → Heap → ℕ
next_of a h = load 8 (a + 8) h.memory

abbrev pub free_of : ℕ → Heap → ℕ
free_of a h = load 4 (a + 16) h.memory

abbrev pub size_of : ℕ → Heap → ℕ
size_of a h = load 4 (a + 20) h.memory

abbrev pub set_prev : ℕ → ℕ → Heap → Heap
set_prev a v h = record h { memory = store 8 a v h.memory }

abbrev pub set_next : ℕ → ℕ → Heap → Heap
set_next a v h = record h { memory = store 8 (a + 8) v h.memory }

abbrev pub set_free : ℕ → ℕ → Heap → Heap
set_free a v h = record h { memory = store 4 (a + 16) v h.memory }

abbrev pub set_size : ℕ → ℕ → Heap → Heap
set_size a v h = record h { memory = store 4 (a + 20) v h.memory }

-- `memset(a, 0, n)`
abbrev pub memset : ℕ → ℕ → Heap → Heap
memset a n h = record h { memory = clear a n h.memory }

-- a - b as a size_t.
abbrev pub distance : ℕ → ℕ → ℕ
distance a b = (a + 2 ^ 64 - b) % 2 ^ 64

-- `size + sizeof(metadata)`, a size_t, which wraps around.
unfoldable pub with_metadata : ℕ → ℕ
with_metadata size = (size + sizeof_metadata) % 2 ^ 64

abbrev pub is_free : ℕ → Heap → Bool
is_free a h = not (free_of a h == 0)

-- The fields of a new block other than `prev`, and its bytes.
unfoldable pub new_block : (a size : ℕ) → Heap → Heap
new_block a size h =
    memset (a + sizeof_metadata) size (set_size a size (set_free a 0 (set_next a 0 h)))

-- What a last block that is free keeps behind `size` bytes becomes a block.
unfoldable pub split_last : (size cur : ℕ) → Heap → Heap
split_last size cur h =
    let next = cur + sizeof_metadata + size in
    let linked = set_prev next cur (set_next cur next h) in
    set_free next 1
      (set_next next 0 (set_size next (size_of cur linked - size - sizeof_metadata) linked))

-- A block is given out.
unfoldable pub take_block : (size cur : ℕ) → Heap → Heap
take_block size cur h = memset (cur + sizeof_metadata) size (set_free cur 0 (set_size cur size h))

-- What a free block inside the list has in front of the next one becomes a block.
unfoldable pub split_middle : (size cur : ℕ) → Heap → Heap
split_middle size cur h =
    let added = cur + sizeof_metadata + size in
    let next = next_of cur h in
    let linked = set_next added next (set_prev added cur (set_next cur added h)) in
    let back = if next == 0 then linked else set_prev next added linked in
    let marked = set_free added 1 back in
    set_size added (distance (distance (next_of added marked) added) sizeof_metadata) marked

unfoldable pub take_middle : (size cur : ℕ) → Heap → Heap
unfolding take_block split_middle
take_middle size cur h =
    let taken = take_block size cur h in
    if leb (with_metadata size) (distance (distance (next_of cur taken) cur) sizeof_metadata)
    then split_middle size cur taken
    else taken

-- `sbrk` either moves the break and gives the old one, or fails: `grants` says which, from the break and the
-- increment. The increment is a size_t here, which `sbrk` takes for a negative number from 2 ^ 63 on. A null
-- pointer is 0.
module _ (grants : ℕ → ℕ → Bool) where
  unfoldable pub sbrk : ℕ → Heap → Option Heap
  sbrk n h =
      if grants h.brk n
      then some (record h { brk = if ltb n (2 ^ 63) then h.brk + n else h.brk - (2 ^ 64 - n) })
      else none

  unfoldable pub first_block : ℕ → Heap → ℕ × Heap
  unfolding sbrk new_block
  first_block size h = elim (sbrk (with_metadata size) h) [
    | none ↦ (0, h)
    | some grown ↦ (
      h.brk + sizeof_metadata,
      new_block h.brk size (set_prev h.brk 0 (record grown { start_of_mem = some h.brk })),
    )
  ]

  unfoldable pub take_last : (size cur : ℕ) → Heap → ℕ × Heap
  unfolding sbrk split_last take_block
  take_last size cur h = elim (ltb (size_of cur h) size) [
    | true ↦ elim (sbrk (size - size_of cur h) h) [
      | none ↦ (0, h)
      | some grown ↦ (cur + sizeof_metadata, take_block size cur grown)
    ]
    | false ↦ (
      cur + sizeof_metadata,
      take_block size cur
          (if leb (with_metadata size) (size_of cur h) then split_last size cur h else h),
    )
  ]

  unfoldable pub append_block : (size last : ℕ) → Heap → ℕ × Heap
  unfolding sbrk new_block
  append_block size last h = elim (sbrk (with_metadata size) h) [
    | none ↦ (0, h)
    | some grown ↦ (
      h.brk + sizeof_metadata,
      new_block h.brk size (set_next last h.brk (set_prev h.brk last grown)),
    )
  ]

  -- The loop over the blocks; `none` if the fuel is too little.
  unfoldable pub walk : (fuel size last cur : ℕ) → Heap → Option (ℕ × Heap)
  unfolding take_last take_middle append_block
  walk zero size last cur h = none
  walk (suc fuel) size last cur h = elim (cur == 0) [
    | true ↦ some (append_block size last h)
    | false ↦ elim (is_free cur h && (next_of cur h == 0)) [
      | true ↦ some (take_last size cur h)
      | false ↦ elim (is_free cur h && leb size (size_of cur h)) [
        | true ↦ some (cur + sizeof_metadata, take_middle size cur h)
        | false ↦ walk fuel size cur (next_of cur h) h
      ]
    ]
  ]

  unfoldable pub mm_malloc : (fuel size : ℕ) → Heap → Option (ℕ × Heap)
  unfolding first_block walk
  mm_malloc fuel size h = elim (size == 0) [
    | true ↦ some (0, h)
    | false ↦ elim h.start_of_mem [
      | none ↦ some (first_block size h)
      | some first ↦ walk fuel size 0 first h
    ]
  ]

-- The merge of a block that is freed with a free one in front of it: the block that is free then.
unfoldable pub merge_prev : ℕ → Heap → ℕ × Heap
merge_prev a h =
    let prev = prev_of a h in
    if not (prev == 0) && is_free prev h
    then (
      prev,
      (let sized = set_size prev (size_of prev h + (size_of a h + sizeof_metadata)) h in
          set_next prev (next_of a sized) sized),
    )
    else (a, h)

unfoldable pub merge_next : ℕ → Heap → Heap
merge_next a h =
    let next = next_of a h in
    if not (next == 0) && is_free next h
    then (let sized = set_size a (size_of a h + (size_of next h + sizeof_metadata)) h in
        let next_of_next = next_of next sized in
        let linked = set_next a next_of_next sized in
        if next_of_next == 0 then linked else set_prev next_of_next a linked)
    else h

unfoldable pub mm_free : ℕ → Heap → Heap
unfolding merge_prev merge_next
mm_free ptr h =
    if ptr == 0
    then h
    else (let merged = merge_prev (ptr - sizeof_metadata) h in
        set_free merged.0 1 (merge_next merged.0 merged.1))

-- `memcpy`, which is undefined where the two parts overlap but are not the same.
unfoldable pub memcpy : (dest src n : ℕ) → Heap → Option Heap
memcpy dest src n h =
    if leb (dest + n) src || (leb (src + n) dest || (dest == src))
    then some (record h { memory = copy dest src n h.memory })
    else none

-- `oldSize` bytes are copied to what mm_malloc gave, if it gave something; `none` also where memcpy is
-- undefined.
unfoldable pub copy_old : (ptr old_size : ℕ) → Option (ℕ × Heap) → Option (ℕ × Heap)
unfolding memcpy
copy_old ptr old_size none = none
copy_old ptr old_size (some r) = elim (r.0 == 0) [
  | true ↦ some (0, r.1)
  | false ↦ elim (memcpy r.0 ptr old_size r.1) [ none ↦ none | some copied ↦ some (r.0, copied) ]
]

unfoldable pub mm_realloc : (grants : ℕ → ℕ → Bool) → (fuel ptr size : ℕ) → Heap → Option (ℕ × Heap)
unfolding mm_malloc mm_free copy_old
mm_realloc grants fuel ptr size h = elim (size == 0) [
  | true ↦ some (0, mm_free ptr h)
  | false ↦ elim (ptr == 0) [
    | true ↦ mm_malloc grants fuel size h
    | false ↦
        copy_old ptr (size_of (ptr - sizeof_metadata) h)
          (mm_malloc grants fuel size (mm_free ptr h))
  ]
]
