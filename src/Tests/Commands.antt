-- ===== src/Tests/Commands.antt =====
-- The shell's commands at small lines.
use fuse_using_memcached.Prelude.{
  ℕ, ◌≤◌, ◌≡◌, refl, [], ◌∷◌, Bool, true, false, if◌then◌else◌, List, none, some, Bytes, codes,
  same, length, arith,
}
use fuse_using_memcached.Shell.Tokenizer.{tokenize}
use fuse_using_memcached.Shell.Tokenizer.Laws.{nil, blank}
use fuse_using_memcached.Shell.Redirection.{redirect, null_beyond}
use fuse_using_memcached.Shell.Redirection.Overflow.{no_params, null_beyond-plain}
use fuse_using_memcached.Shell.Commands.{
  Call, System, undefined, executes, start_process, lookup, run_words, run_line,
}
use fuse_using_memcached.Shell.Commands.Laws.{is_none, run_line-null}

-- Every file can be opened but the one named x.
abbrev opens : Bytes → Bool
opens f = if same f (codes "x") then false else true

null_beyond-plain_example :
    (length (redirect opens opens 2 (codes "l" ∷ codes "a" ∷ []) no_params).params ≤ 2)
    × (null_beyond 2 (redirect opens opens 2 (codes "l" ∷ codes "a" ∷ []) no_params) ≡ true)
null_beyond-plain_example =
    null_beyond-plain opens opens (codes "l" ∷ codes "a" ∷ []) 2 (omega arith)

abbrev shell_system : System
shell_system = record {
  forks = λ words. true;
  open_out = opens;
  open_in = opens;
  access = same (codes "/b/l");
  junk = λ n. [];
  path = codes "/a:/b";
}

-- Without a redirection the new process writes behind its array.
overrun : run_line shell_system 0 (codes "l") ≡ some (start_process undefined true ∷ [], 0)
unfolding run_line same lookup run_words tokenize
overrun = refl

run_line-null_example : is_none (run_line shell_system 0 (codes " ")) ≡ true
run_line-null_example = run_line-null shell_system 0 (blank {c = b' '} refl nil) (omega arith)

abbrev background : Call
background =
    start_process
      (executes (codes "/b/l")
        (record { params = codes "l" ∷ []; out = none; inp = some (codes "f") }))
      false

abbrev two_started : List Call × ℕ
two_started = (background ∷ background ∷ [], 2)
