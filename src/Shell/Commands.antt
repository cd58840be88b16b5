-- ===== src/Shell/Commands.antt =====
-- The built-in commands of hw1/shell.c, and a round of its main loop. What it asks of the system is a
-- list of calls.
pub mod Words
pub mod Laws
pub mod Waiting
use fuse_using_memcached.Prelude.{
  ℕ, zero, suc, ◌+◌, ◌-◌, ◌%◌, ◌^◌, [], ◌∷◌, ◌++◌, Bool, true, false, leb, ltb, ◌==◌, if◌then◌else◌,
  List, Option, none, some, Bytes, codes, same, length, get_or,
}
use fuse_using_memcached.Machine.Word.{neg}
use fuse_using_memcached.Shell.Tokenizer.{tokenize, tokens_get_length, tokens_get_token}
use fuse_using_memcached.Shell.Redirection.{Process, redirect, null_beyond, get_directory}

-- What the shell asks of the system: for `fork`, for a command's words, and for `open` and `access`
-- whether they succeed, the text that the blocks of `getDirectory` hold before, and `PATH`.
pub record System : Type 0 where
  pub forks : List Bytes → Bool
  pub open_out : Bytes → Bool
  pub open_in : Bytes → Bool
  pub access : Bytes → Bool
  pub junk : ℕ → Bytes
  pub path : Bytes

-- What a call of `fork` comes to: no process, or one with undefined behaviour, with the message that
-- there is no program, or with `execv` of a file.
pub data Child : Type 0 where
  not_forked undefined no_program : Child
  executes : (file : Bytes) → Process → Child

pub data Call : Type 0 where
  print_help print_directory exit_shell wait_child : Call
  change_directory : Bytes → Call
  -- A call of `fork`, and whether the shell calls `waitpid` behind it. A `fork` that fails makes no
  -- difference to the shell, which calls `waitpid`, of -1 then, or counts a process, as for any other.
  start_process : Child → (waits : Bool) → Call

abbrev pub cmd_table : List Bytes
cmd_table = codes "?" ∷ codes "exit" ∷ codes "pwd" ∷ codes "cd" ∷ codes "wait" ∷ []

unfoldable pub lookup_from : ℕ → List Bytes → Bytes → ℕ
lookup_from i [] cmd = neg 1
lookup_from i (name ∷ table) cmd = if same name cmd then i else lookup_from (i + 1) table cmd

unfoldable pub lookup : Option Bytes → ℕ
unfolding lookup_from
lookup none = neg 1
lookup (some cmd) = lookup_from 0 cmd_table cmd

unfoldable pub cmd_cd : List Bytes → List Call
cmd_cd words = elim (tokens_get_token (some words) 1) [
  | none ↦ []
  | some dir ↦ change_directory dir ∷ []
]

-- `for (int i = numBack - 1; i >= 0; i--)`: the calls of `wait`, and `numBack` behind the loop.
unfoldable pub cmd_wait : ℕ → List Call × ℕ
cmd_wait zero = ([], 0)
cmd_wait (suc i) = let rest = cmd_wait i in (wait_child ∷ rest.0, rest.1)

-- `cmd_table[fundex].fun(tokens)`: the calls, and `numBack` behind it.
unfoldable pub run_builtin : (fundex num_back : ℕ) → List Bytes → List Call × ℕ
unfolding cmd_cd cmd_wait
run_builtin fundex num_back words =
    if fundex == 0
    then (print_help ∷ [], num_back)
    else if fundex == 1
    then (exit_shell ∷ [], num_back)
    else if fundex == 2
    then (print_directory ∷ [], num_back)
    else if fundex == 3
    then (cmd_cd words, num_back)
    else cmd_wait num_back

unfoldable pub exits : List Call → Bool
exits [] = false
exits (exit_shell ∷ calls) = true
exits (call ∷ calls) = exits calls

-- What a line does and then the lines behind it, from `numBack` on. `exit` ends the shell.
unfoldable pub followed :
    Option (List Call × ℕ) → (ℕ → Option (List Call × ℕ)) → Option (List Call × ℕ)
unfolding exits
followed none next = none
followed (some r) next = elim (exits r.0) [
  | true ↦ some r
  | false ↦ elim (next r.1) [ none ↦ none | some q ↦ some (r.0 ++ q.0, q.1) ]
]

-- a - b as a size_t.
abbrev pub size_sub : ℕ → ℕ → ℕ
size_sub a b = (a + 2 ^ 64 - b) % 2 ^ 64

module _ (sys : System) where
  -- The new process behind its loop: the null pointer behind the arguments, which is undefined where it
  -- stands behind the array, the search for the program of the first word, and `execv`. The search for a
  -- null pointer would be undefined too.
  unfoldable pub child_of : (num_params : ℕ) → (name : Option Bytes) → Process → Child
  unfolding null_beyond get_directory
  child_of num_params none p = undefined
  child_of num_params (some name) p = elim (null_beyond num_params p) [
    | true ↦ undefined
    | false ↦ elim (get_directory sys.access sys.junk sys.path name) [
      | none ↦ no_program
      | some file ↦ executes file p
    ]
  ]

  abbrev pub forked : List Bytes → Child → Child
  forked words child = if sys.forks words then child else not_forked

  -- The new process for the first num_params words, and what the shell does behind `fork`. The first
  -- word, a redirection too, names the program.
  unfoldable pub run_process : (num_params : ℕ) → (in_back : Bool) → ℕ → List Bytes → List Call × ℕ
  unfolding redirect child_of tokens_get_token
  run_process num_params in_back num_back words =
      let child = forked words (
        child_of num_params (tokens_get_token (some words) 0) (
          redirect sys.open_out sys.open_in num_params words
            (record { params = []; out = none; inp = none }))) in
      if in_back
      then (start_process child false ∷ [], num_back + 1)
      else (start_process child true ∷ [], num_back)

  -- `none` is the read of a null pointer.
  unfoldable pub run_program : ℕ → List Bytes → Option (List Call × ℕ)
  unfolding run_process tokens_get_length tokens_get_token
  run_program num_back words =
      let num_params = tokens_get_length (some words) in
      elim (tokens_get_token (some words) (size_sub num_params 1)) [
        | none ↦ none
        | some last ↦
            let in_back = get_or last 0 0 == b'&' in
            some (
              run_process (if in_back then size_sub num_params 1 else num_params) in_back num_back
                words)
      ]

  -- A line's words: the calls, and `numBack` behind them.
  unfoldable pub run_words : ℕ → List Bytes → Option (List Call × ℕ)
  unfolding lookup run_builtin run_program
  run_words num_back words =
      let fundex = lookup (tokens_get_token (some words) 0) in
      if ltb fundex 5 then some (run_builtin fundex num_back words) else run_program num_back words

  -- A round for a line of fewer than 4096 bytes; `none` also where the tokenizer aborts.
  unfoldable pub run_line : ℕ → Bytes → Option (List Call × ℕ)
  unfolding run_words tokenize
  run_line num_back line = elim (tokenize line) [
    | none ↦ none
    | some words ↦ run_words num_back words
  ]

  -- The loop of `main` over the lines that `fgets` gives, each of fewer than 4096 bytes: the calls, and
  -- `numBack` behind them.
  unfoldable pub run_lines : ℕ → List Bytes → Option (List Call × ℕ)
  unfolding run_line followed
  run_lines num_back [] = some ([], num_back)
  run_lines num_back (line ∷ lines) = followed (run_line num_back line) (λ m. run_lines m lines)
