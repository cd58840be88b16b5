-- ===== src/Shell/Redirection/Search.antt =====
-- `getDirectory` of hw1/shell.c, which looks for a program in the directories of `PATH`.
use fuse_using_memcached.Prelude.{
  ℕ, ◌+◌, ◌<◌, ◌≢◌, [], ◌∷◌, ◌++◌, Bool, if◌then◌else◌, List, Option, none, some, Bytes, codes,
  length, All,
}

-- The first path for which `access` succeeds.
abbrev pub find : (Bytes → Bool) → List Bytes → Option Bytes
find access [] = none
find access (f ∷ fs) = if access f then some f else find access fs

-- A directory's name in `PATH`: not empty, and with no colon.
pub record IsPart (d : Bytes) : Type 0 where
  pub not_empty : 0 < length d
  pub no_colon : All (λ c. c ≢ b':') d

abbrev pub join_colon : List Bytes → Bytes
join_colon [] = []
join_colon (d ∷ []) = d
join_colon (d ∷ e ∷ ds) = d ++ (b':' ∷ join_colon (e ∷ ds))

-- The paths of a program in directories, each behind what its block held, from the n-th block on.
abbrev pub candidates : (junk : ℕ → Bytes) → ℕ → List Bytes → Bytes → List Bytes
candidates junk n [] name = []
candidates junk n (d ∷ ds) name =
    (junk n ++ (d ++ (codes "/" ++ name))) ∷ candidates junk (n + 1) ds name
