-- ===== src/Cachefs/Refinement.antt =====
-- A directory as the set of its names, and sequences of `hello_create` and `hello_unlink` in it.
pub mod Names
pub mod Laws
use fuse_using_memcached.Prelude.{
  ℕ, ◌≤◌, ◌≡◌, [], ◌∷◌, Bool, true, false, not, ◌&&◌, ◌||◌, List, Option, some, Bytes, same, length,
  map,
}
use fuse_using_memcached.Machine.Cmd.{Cmd, pure, ◌>>=◌}
use fuse_using_memcached.Memcache.Server.{Memcached}
use fuse_using_memcached.Cachefs.Entries.{hello_create}
use fuse_using_memcached.Cachefs.Removal.{hello_unlink}
use fuse_using_memcached.Cachefs.Listing.Tokens.{IsFileName, join}

pub data Command : Type 0 where
  create unlink : Bytes → Command

-- The abstract directory: which names it has. Their order is forgotten.
abbrev pub Names : Type 0
Names = Bytes → Bool

abbrev pub insert_name : Bytes → Names → Names
insert_name n d x = same n x || d x

abbrev pub erase_name : Bytes → Names → Names
erase_name n d x = not (same n x) && d x

abbrev pub after : List Command → Names → Names
after [] d = d
after (create n ∷ cs) d = after cs (insert_name n d)
after (unlink n ∷ cs) d = after cs (erase_name n d)

-- What the kernel asks for: it creates only names that are not there, and removes those that are.
abbrev pub Allowed : Bytes → List Command → Names → Type 0
Allowed dir [] d = Unit {0}
Allowed dir (create n ∷ cs) d =
    IsFileName n × (length (join dir n) ≤ 238) × (d n ≡ false) × Allowed dir cs (insert_name n d)
Allowed dir (unlink n ∷ cs) d = (d n ≡ true) × Allowed dir cs (erase_name n d)

module _ (m : Memcached) (junk : ℕ → ℕ → ℕ) (dir : Bytes) where
  -- The commands in order, with what each returns.
  unfoldable pub run : List Command → Cmd m.State (List (Option ℕ))
  run [] = pure []
  run (create n ∷ cs) = do r ← hello_create m junk (join dir n); rs ← run cs; pure (r ∷ rs)
  run (unlink n ∷ cs) = do r ← hello_unlink m junk (join dir n); rs ← run cs; pure (some r ∷ rs)

abbrev pub successes : List Command → List (Option ℕ)
successes [] = []
successes (c ∷ cs) = some 0 ∷ successes cs
