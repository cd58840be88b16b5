-- ===== src/Shell/Commands/Laws.antt =====
-- What hw1/shell.c does with a line: the built-in commands, and programs in both ways to run them.
use fuse_using_memcached.Prelude.{
  ℕ, suc, ◌≤◌, ◌<◌, ◌≡◌, refl, ap, ◌∙◌, [], ◌∷◌, Bool, true, false, ltb, ◌==◌, if◌then◌else◌, List,
  Option, none, some, Bytes, length, arith, Bool-cases, inl, inr, ne→==,
}
use fuse_using_memcached.Shell.Tokenizer.{tokens_get_token, tokens_get_length}
use fuse_using_memcached.Shell.Tokenizer.Laws.{Line, tokenize-Line}
use fuse_using_memcached.Shell.Redirection.{Process, get_directory}
use fuse_using_memcached.Shell.Redirection.Laws.{
  Item, arguments, last_output, last_input, all_arguments,
}
use fuse_using_memcached.Shell.Commands.Words.{last_word, Line-few}
use fuse_using_memcached.Shell.Commands.{
  System, Child, undefined, no_program, executes, run_program, lookup, run_words, run_line,
}

-- The process that a command's items ask for.
abbrev pub process : System → Bytes → List Item → Process
process sys name items = record {
  params = name ∷ arguments items;
  out = last_output sys.open_out none items;
  inp = last_input sys.open_in none items;
}

-- What a command comes to: undefined behaviour if there is no redirection among its items, and else its
-- program, if there is one, with its arguments, its output and its input.
abbrev pub outcome : System → Bytes → List Item → Child
outcome sys name items =
    if all_arguments items
    then undefined
    else elim (get_directory sys.access sys.junk sys.path name) [
      | none ↦ no_program
      | some file ↦ executes file (process sys name items)
    ]

abbrev pub is_none {ℓ} : {A : Type ℓ} → Option A → Bool
is_none none = true
is_none (some a) = false

module _ (sys : System) (num_back : ℕ) where
  pub run_line-words :
      {words : List Bytes} {line : Bytes}
      → Line words line
      → run_line sys num_back line ≡ run_words sys num_back words
  unfolding run_line
  run_line-words l = rw (run_line, tokenize-Line l) refl

  words-null :
      (words : List Bytes)
      → length words ≤ 4096
      → is_none (run_words sys num_back words) ≡ (length words == 0)
  unfolding run_words run_program tokens_get_length tokens_get_token lookup
  words-null [] few = refl
  words-null (w ∷ words) few =
      rw (ne→== (suc (length words)) 0 (λ p. absurd (omega arith)))
        (elim (Bool-cases (ltb (lookup (tokens_get_token (some (w ∷ words)) 0)) 5)) [
          | inl e ↦ rw e refl
          | inr e ↦ rw (e, run_program, tokens_get_length, last_word w words (omega arith)) refl
        ])

  -- A line of fewer than 4096 bytes that holds words is handled, and one without any makes the shell read
  -- through a null pointer.
  pub run_line-null :
      {words : List Bytes} {line : Bytes}
      → Line words line
      → length line < 4096
      → is_none (run_line sys num_back line) ≡ (length words == 0)
  run_line-null {words} l short =
      ap is_none (run_line-words l) ∙ words-null words (Line-few l short)
