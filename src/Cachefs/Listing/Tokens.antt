-- ===== src/Cachefs/Listing/Tokens.antt =====
-- The name that `hello_readdir` cuts from a child's entry, and the parent that `addToParent` cuts
-- from a path: the path of a directory joined with a name gives both back.
use fuse_using_memcached.Prelude.{
  ℕ, zero, suc, ◌+◌, ◌-◌, ◌≤◌, ◌<◌, ◌≡◌, ◌≢◌, refl, ap, ◌∙◌, sym, [], ◌∷◌, ◌++◌, if◌then◌else◌,
  some, Bytes, same, length, get_or, All, arith, ne→==, le→leb, lt→ltb, length-append, append-nil,
}
use fuse_using_memcached.Machine.Word.{int_sub, int_bytes}
use fuse_using_memcached.Machine.Buffer.{Buffer, store, load, load_int, c_string}
use fuse_using_memcached.Machine.Buffer.Laws.{
  at-store_middle, at-store_start, load-list, load_int-list,
}
use fuse_using_memcached.Memcache.Server.{IsKeyByte}
use fuse_using_memcached.Memcache.Replies.{IsValue}
use fuse_using_memcached.Cachefs.Layout.{cell}
use fuse_using_memcached.Cachefs.Keys.{root}
use fuse_using_memcached.Cachefs.Listing.{last_slash, name_from, token_at, last_token}

abbrev pub IsNameByte : ℕ → Type 0
IsNameByte c = IsKeyByte c × (c ≢ b'/')

-- A name in a directory.
pub record IsFileName (name : Bytes) : Type 0 where
  pub filled : 0 < length name
  pub plain : All IsNameByte name

-- The directory in front of the slash: nothing for the root.
unfoldable pub stem : Bytes → Bytes
stem dir = if same dir root then [] else dir

unfoldable pub join : Bytes → Bytes → Bytes
unfolding stem
join dir name = stem dir ++ (b'/' ∷ name)

pub get_or-IsNameByte :
    (name : Bytes) (i : ℕ) → All IsNameByte name → i < length name → get_or name i 0 ≢ b'/'
get_or-IsNameByte [] i h lt = absurd (omega arith)
get_or-IsNameByte (c ∷ name) zero (h, hs) lt = h.1
get_or-IsNameByte (c ∷ name) (suc i) (h, hs) lt = get_or-IsNameByte name i hs (omega arith)

last_slash-here : (j : ℕ) (b : Buffer) → b.at j ≡ b'/' → last_slash j b ≡ some j
unfolding last_slash
last_slash-here zero b h = rw h
last_slash-here (suc j) b h = rw h

last_slash-at :
    (pos k : ℕ) (b : Buffer)
    → b.at pos ≡ b'/'
    → ((i : ℕ) → i < k → b.at (pos + suc i) ≢ b'/')
    → last_slash (pos + k) b ≡ some pos
unfolding last_slash
last_slash-at pos zero b here clear =
    let e : pos + zero ≡ pos = omega arith in
    ap (λ j. last_slash j b) e ∙ last_slash-here pos b here
last_slash-at pos (suc k) b here clear =
    let e : pos + suc k ≡ suc (pos + k) = omega arith in
    let other : b.at (suc (pos + k)) ≢ b'/' = λ h. clear k (omega arith) (ap b.at e ∙ h) in
    ap (λ j. last_slash j b) e
    ∙ rw (ne→== (b.at (suc (pos + k))) b'/' other)
        (last_slash-at pos k b here (λ i lt. clear i (omega arith)))

c_string-plain : (s : Bytes) → All IsNameByte s → c_string s ≡ s
unfolding c_string
c_string-plain [] h = refl
c_string-plain (c ∷ s) ((h, k), hs) =
    rw (ne→== c 0 (omega arith)) (ap (◌∷◌ c) (c_string-plain s hs))

-- The entry of a child begins with its length.
pub cell-IsValue : (path : Bytes) → length path ≤ 60000 → IsValue (cell path)
cell-IsValue path h = record { whole = omega arith; sized = omega arith; fits = omega arith }

module _ (b : Buffer) (pos : ℕ) (name : Bytes) (named : IsFileName name)
    (there : (i : ℕ) → i < suc (length name) → b.at (pos + i) ≡ get_or (b'/' ∷ name) i 0) where
  slash_found : last_slash (pos + length name) b ≡ some pos
  slash_found =
      let e : pos ≡ pos + 0 = omega arith in
      last_slash-at pos (length name) b (ap b.at e ∙ there 0 (omega arith))
        (λ i lt h. get_or-IsNameByte name i named.plain lt (sym (there (suc i) (omega arith)) ∙ h))

  name_loaded : load (suc pos) (length name) b ≡ name
  name_loaded = load-list (suc pos) name b λ i lt.
      let e : suc pos + i ≡ pos + suc i = omega arith in ap b.at e ∙ there (suc i) (omega arith)

  name_from-name : length name < 264 → name_from b (pos + length name) pos ≡ some name
  unfolding name_from
  name_from-name small =
      let e : pos + length name - pos ≡ length name = omega arith in
      rw (
        e,
        le→leb (length name + 1) 264 (omega arith),
        name_loaded,
        c_string-plain name named.plain,
      )

  token_at-name :
      pos + length name < 250 → b.size ≡ 1280 → token_at b (pos + length name) ≡ some name
  unfolding token_at
  token_at-name small size =
      rw (lt→ltb (pos + length name) b.size (omega arith), slash_found)
        (name_from-name (omega arith))

  last_token-at :
      load_int 0 b ≡ suc (pos + length name)
      → pos + length name < 250
      → b.size ≡ 1280
      → last_token b ≡ some name
  unfolding last_token
  last_token-at len small size =
      let last : int_sub (suc (pos + length name)) 1 ≡ pos + length name = omega arith in
      ap (λ w. token_at b (int_sub w 1)) len ∙ ap (token_at b) last ∙ token_at-name small size

-- The entry of the child `name` of a directory, as a list that shows the slash.
join-split :
    (dir name : Bytes)
    → cell (join dir name)
      ≡ (int_bytes (4 + length (join dir name)) ++ stem dir) ++ ((b'/' ∷ name) ++ [])
unfolding join
join-split dir name = simp append-nil

pub length-join :
    (dir name : Bytes) → length (join dir name) ≡ suc (length (stem dir) + length name)
unfolding join
length-join dir name = omega (arith, length-append (stem dir) (b'/' ∷ name))

module _ (dir name : Bytes) (named : IsFileName name) (short : length (join dir name) ≤ 238)
    (blk : Buffer) (size : blk.size ≡ 1280) where
  abbrev entry_block : Buffer
  entry_block = store 0 (cell (join dir name)) blk

  entry-there :
      (i : ℕ)
      → i < suc (length name)
      → entry_block.at ((4 + length (stem dir)) + i) ≡ get_or (b'/' ∷ name) i 0
  entry-there i lt =
      ap (λ t. (store 0 t blk).at ((4 + length (stem dir)) + i)) (join-split dir name)
      ∙ ap (store 0 front blk).at at_pre
      ∙ at-store_middle pre (b'/' ∷ name) [] blk i lt
    where
      pre : Bytes
      pre = int_bytes (4 + length (join dir name)) ++ stem dir

      front : Bytes
      front = pre ++ ((b'/' ∷ name) ++ [])

      at_pre : (4 + length (stem dir)) + i ≡ length pre + i
      at_pre = omega arith

  -- `hello_readdir` finds the child's name behind the last slash of its entry.
  pub last_token-join : last_token entry_block ≡ some name
  last_token-join =
      last_token-at entry_block (4 + length (stem dir)) name named entry-there
        (load_int-list 0 (cell (join dir name)) entry_block value.whole
            (at-store_start (cell (join dir name)) blk)
          ∙ value.sized
          ∙ omega (arith, length-join dir name))
        (omega (arith, length-join dir name)) size
    where
      value : IsValue (cell (join dir name))
      value = cell-IsValue (join dir name) (omega arith)
