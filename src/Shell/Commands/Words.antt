-- ===== src/Shell/Commands/Words.antt =====
-- The words of a line as hw1/shell.c reads them: the lookup of the first one and the read of the last.
use fuse_using_memcached.Prelude.{
  ℕ, suc, ◌+◌, ◌≤◌, ◌<◌, ◌≡◌, ◌≢◌, refl, ◌∙◌, sym, [], ◌∷◌, List, some, Bytes, same, same_iff,
  length, get_or, arith, All, Bool-cases, inl, inr, ◌⊎◌, lt→leb_false,
}
use mathlib.Core.Bool.{true≢false}
use mathlib.Core.Option.{none-ne-some, some-injective}
use fuse_using_memcached.Machine.Word.{neg}
use fuse_using_memcached.Shell.Tokenizer.{tokens_get_token}
use fuse_using_memcached.Shell.Tokenizer.Laws.{Line, tokenize-Line}
use fuse_using_memcached.Shell.Tokenizer.Bounds.{taken, tokenize-bounds}
use fuse_using_memcached.Shell.Commands.{size_sub, cmd_table, lookup_from, lookup}

lookup_from-cases :
    (i : ℕ) (table : List Bytes) (cmd : Bytes)
    → ((lookup_from i table cmd ≡ neg 1) × All (λ name. name ≢ cmd) table)
      ⊎ ((k : ℕ) × (k < length table)
          × (get_or table k [] ≡ cmd)
          × (lookup_from i table cmd ≡ i + k))
unfolding lookup_from
lookup_from-cases i [] cmd = inl (refl, tt)
lookup_from-cases i (name ∷ table) cmd = elim (Bool-cases (same name cmd)) [
  | inl e ↦ inr (0, omega arith, (same_iff name cmd).0 e, rw e (omega arith))
  | inr e ↦ elim (lookup_from-cases (i + 1) table cmd) [
    | inl h ↦ inl (rw e h.0, ((λ p. true≢false (sym ((same_iff name cmd).1 p) ∙ e)), h.1))
    | inr h ↦ inr (suc h.0, omega (arith, h.1), h.2, rw e (h.3 ∙ omega arith))
  ]
]

-- lookup gives -1 for a name that is no built-in command's, and else the place of the command with that
-- name.
pub lookup-cases :
    (cmd : Bytes)
    → ((lookup (some cmd) ≡ neg 1) × All (λ name. name ≢ cmd) cmd_table)
      ⊎ ((k : ℕ) × (k < 5) × (get_or cmd_table k [] ≡ cmd) × (lookup (some cmd) ≡ k))
unfolding lookup
lookup-cases cmd = elim (lookup_from-cases 0 cmd_table cmd) [
  | inl h ↦ inl h
  | inr h ↦ inr (h.0, h.1, h.2, h.3 ∙ omega arith)
]

pub first_token : (w : Bytes) (words : List Bytes) → tokens_get_token (some (w ∷ words)) 0 ≡ some w
unfolding tokens_get_token
first_token w words = rw (lt→leb_false (suc (length words)) 0 (omega arith)) refl

-- The read of the last word.
pub last_word :
    (w : Bytes) (words : List Bytes)
    → length words ≤ 4096
    → tokens_get_token (some (w ∷ words)) (size_sub (suc (length words)) 1)
      ≡ some (get_or (w ∷ words) (length words) [])
unfolding tokens_get_token
last_word w words few =
    let place : size_sub (suc (length words)) 1 ≡ length words = omega arith in
    rw (place, lt→leb_false (suc (length words)) (length words) (omega arith)) refl

length-taken : (words : List Bytes) → length words ≤ taken words
length-taken [] = omega arith
length-taken (w ∷ words) = omega (arith, length-taken words)

-- A line that fits in the shell's buffer has no more words than that.
pub Line-few :
    {words : List Bytes} {line : Bytes} → Line words line → length line < 4096 → length words ≤ 4096
Line-few {words} {line} l short = elim (tokenize-bounds line) [
  | inl (e, long) ↦ absurd (none-ne-some words (sym e ∙ tokenize-Line l))
  | inr (ws, e, sized, bound) ↦
      let same_words : words ≡ ws = some-injective _ _ (sym (tokenize-Line l) ∙ e) in
      let many = length-taken ws in rw same_words (omega arith)
]
