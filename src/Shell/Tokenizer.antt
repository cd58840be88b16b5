-- ===== src/Shell/Tokenizer.antt =====
-- hw1/tokenizer.c. The static array `token` is its first `n` bytes, and a word is its bytes; the
-- memory that the words and the vectors stand in is not modelled.
pub mod Laws
pub mod Bounds
use fuse_using_memcached.Prelude.{
  ℕ, suc, ◌+◌, ◌<◌, [], ◌∷◌, ◌++◌, Bool, ◌||◌, ◌&&◌, ltb, leb, ◌==◌, if◌then◌else◌, List, Option,
  none, some, Bytes, length, get_or,
}

pub data Mode : Type 0 where
  normal squote dquote : Mode

pub record Scan : Type 0 where
  pub mode : Mode
  pub token : Bytes
  pub tokens : List Bytes

-- The blanks of the C locale.
abbrev pub isspace : ℕ → Bool
isspace c = (leb 9 c && leb c 13) || (c == b' ')

abbrev pub n_max : ℕ
n_max = 4096

-- `token[n++] = c`
abbrev pub put_char : ℕ → Scan → Scan
put_char c s = record s { token = s.token ++ (c ∷ []) }

-- The word in `token`, if there is one, is pushed.
unfoldable pub push_word : Scan → Scan
push_word s =
    if ltb 0 (length s.token)
    then record s { token = []; tokens = s.tokens ++ (s.token ∷ []) }
    else s

-- A round of the loop for a character other than a backslash with a character behind it. A
-- backslash that ends the line does nothing.
unfoldable pub char_step : ℕ → Scan → Scan
unfolding push_word
char_step c s = elim s.mode [
  | normal ↦
      if c == b'\''
      then record s { mode = squote }
      else if c == b'"'
      then record s { mode = dquote }
      else if c == b'\\'
      then s
      else if isspace c
      then push_word s
      else put_char c s
  | squote ↦
      if c == b'\'' then record s { mode = normal } else if c == b'\\' then s else put_char c s
  | dquote ↦
      if c == b'"' then record s { mode = normal } else if c == b'\\' then s else put_char c s
]

-- `if (n + 1 >= n_max) abort()`, then the rounds that follow.
unfoldable pub checked : Scan → (Scan → Option Scan) → Option Scan
checked s next = if leb n_max (length s.token + 1) then none else next s

-- The loop. In each mode a backslash takes the character behind it as it is.
unfoldable pub scan : Bytes → Scan → Option Scan
unfolding char_step checked
scan [] s = some s
scan (c ∷ []) s = checked (char_step c s) (scan [])
scan (c ∷ d ∷ rest) s =
    if c == b'\\'
    then checked (put_char d s) (scan rest)
    else checked (char_step c s) (scan (d ∷ rest))

abbrev pub start : Scan
start = record { mode = normal; token = []; tokens = [] }

-- Behind the loop the word in `token` is pushed, if there is one.
unfoldable pub finish : Option Scan → Option (List Bytes)
unfolding push_word
finish none = none
finish (some s) = some (push_word s).tokens

-- The words of a line that is shorter than 2 ^ 32 bytes; `none` if the program aborts.
unfoldable pub tokenize : Bytes → Option (List Bytes)
unfolding scan finish
tokenize line = finish (scan line start)

unfoldable pub tokens_get_length : Option (List Bytes) → ℕ
tokens_get_length none = 0
tokens_get_length (some tokens) = length tokens

-- A null pointer where there is no such word.
unfoldable pub tokens_get_token : Option (List Bytes) → ℕ → Option Bytes
tokens_get_token none n = none
tokens_get_token (some tokens) n = if leb (length tokens) n then none else some (get_or tokens n [])
