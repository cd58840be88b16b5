-- ===== src/Memcache/Client.antt =====
-- The functions of cachedfs/memcache.c.
use fuse_using_memcached.Prelude.{
  ℕ, zero, suc, ◌+◌, [], ◌∷◌, ◌++◌, Bool, true, false, not, ◌&&◌, ◌||◌, leb, ◌==◌, if◌then◌else◌,
  Option, none, some, Bytes, codes, same, length, take,
}
use fuse_using_memcached.Machine.Word.{neg}
use fuse_using_memcached.Machine.Decimal.{sprintf_d}
use fuse_using_memcached.Machine.Buffer.{Buffer, block, store, load, load_int}
use fuse_using_memcached.Machine.Cmd.{Cmd}
use fuse_using_memcached.Memcache.Server.{Memcached}

abbrev pub fast_mode : ℕ
fast_mode = 0

-- `strcmp(buffer, text) == 0`, for a text with no zero byte
unfoldable pub strcmp_eq : Buffer → Bytes → Bool
unfolding load same
strcmp_eq b text = same (load 0 (length text + 1) b) (text ++ (0 ∷ []))

-- `while(ans[pos] != '\n') pos++;` within a block of `pos + fuel` bytes
unfoldable pub find_newline : ℕ → ℕ → Buffer → Option ℕ
find_newline zero pos ans = none
find_newline (suc fuel) pos ans = elim (ans.at pos == b'\n') [
  | true ↦ some pos
  | false ↦ find_newline fuel (suc pos) ans
]

-- The value behind the first line, which begins with its own length, to the caller's buffer.
unfoldable pub copy_value : Buffer → Buffer → ℕ → Option (ℕ × Buffer)
copy_value ans buffer pos =
    let len = load_int pos ans in
    if leb (pos + 4) ans.size && leb (pos + len) ans.size && leb len buffer.size
    then some (0, store 0 (load pos len ans) buffer)
    else none

unfoldable pub read_value : Buffer → Buffer → Option (ℕ × Buffer)
read_value ans buffer =
    if same (load 0 5 ans) (codes "VALUE")
    then elim (find_newline 65995 5 ans) [
      | none ↦ none
      | some pos ↦ copy_value ans buffer (suc pos)
    ]
    else some (neg 1, buffer)

-- The reply, read into a block of 66000 bytes.
unfoldable pub receive : (junk : ℕ → ℕ) → Buffer → Bytes → Option (ℕ × Buffer)
receive junk buffer reply = read_value (store 0 (take 66000 reply) (block 66000 junk)) buffer

-- What `cache_set` makes of the reply, read into a block of 128 bytes.
unfoldable pub set_result : (junk : ℕ → ℕ) → Bytes → ℕ
unfolding strcmp_eq
set_result junk reply =
    let buffer = store 0 (take 128 reply) (block 128 junk) in
    if not (fast_mode == 0)
    then 0
    else if strcmp_eq buffer (codes "NOT_STORED\r\n") || strcmp_eq buffer (codes "ERROR\r\n")
    then neg 1
    else 0

abbrev pub with_state : {A S : Type 0} → Option A → S → Option (A × S)
with_state none s = none
with_state (some a) s = some (a, s)

-- The command line in front of the value.
unfoldable pub set_line : Bytes → ℕ → Bytes
set_line key val_length =
    codes "set " ++ (key ++ (codes " 0 0 " ++ (sprintf_d val_length ++ codes "\r\n")))

module _ (m : Memcached) where
  open m use {State, serve}

  -- `buffer` is the caller's, of the size that it passes; `junk` fills the reply's buffer.
  unfoldable pub cache_get : (junk : ℕ → ℕ) → Bytes → Buffer → Cmd State (ℕ × Buffer)
  unfolding receive
  cache_get junk key buffer s =
      if leb (length key + 7) 264
      then elim (serve (codes "get " ++ (key ++ codes "\r\n")) s) [
        | none ↦ some ((neg 1, buffer), s)
        | some r ↦ with_state (receive junk buffer r.0) r.1
      ]
      else none

  unfoldable pub cache_msg : Bytes → Buffer → Cmd State (ℕ × Buffer)
  cache_msg data' buffer s = elim (serve data' s) [
    | none ↦ some ((neg 1, buffer), s)
    | some r ↦ some ((0, store 0 (take buffer.size r.0) buffer), r.1)
  ]

  unfoldable pub cache_set : (junk : ℕ → ℕ) → Bytes → Buffer → ℕ → Cmd State ℕ
  unfolding set_result set_line
  cache_set junk key val val_length s =
      let line = set_line key val_length in
      if leb (length line + val_length + 3) 66000 && leb val_length val.size
      then elim (serve (line ++ (load 0 val_length val ++ codes "\r\n")) s) [
        | none ↦ some (neg 1, s)
        | some r ↦ some (set_result junk r.0, r.1)
      ]
      else none
