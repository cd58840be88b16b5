-- ===== src/Shell/Commands/Waiting.antt =====
-- The count of the background processes in hw1/shell.c, over all lines of a session.
use fuse_using_memcached.Prelude.{ℕ, zero, suc, ◌+◌, ◌≡◌, [], ◌∷◌, false, List, Option}
use fuse_using_memcached.Shell.Commands.{Call, wait_child, start_process}

-- How many calls of wait there are.
abbrev pub waits : List Call → ℕ
waits [] = 0
waits (wait_child ∷ calls) = suc (waits calls)
waits (_ ∷ calls) = waits calls

-- How many calls of `fork` there are for the background, also such that give no process.
abbrev pub backs : List Call → ℕ
backs [] = 0
backs (start_process child false ∷ calls) = suc (backs calls)
backs (_ ∷ calls) = backs calls

abbrev pub repeat : ℕ → Call → List Call
repeat zero call = []
repeat (suc n) call = call ∷ repeat n call

-- The waits and the processes not waited for are those from before and the started ones.
abbrev IsBalanced : ℕ → List Call × ℕ → Type 0
IsBalanced n r = waits r.0 + r.1 ≡ n + backs r.0
