-- ===== src/Shell/Redirection.antt =====
-- The arguments of a command in `main` of hw1/shell.c, and the search for its program. `open` and
-- `access` are parameters, which say of a path whether the call succeeds.
pub mod Laws
pub mod Overflow
pub mod Search
use fuse_using_memcached.Prelude.{
  ℕ, zero, suc, ◌+◌, ◌-◌, [], ◌∷◌, ◌++◌, Bool, true, false, leb, ltb, ◌==◌, if◌then◌else◌, List,
  Option, none, some, Bytes, codes, length, get_or,
}

-- The new process: the arguments for `execv`, and the files that its output and its input go to.
pub record Process : Type 0 where
  pub params : List Bytes
  pub out : Option Bytes
  pub inp : Option Bytes

-- `dup2` of what `open` gave, if it gave something. A null pointer is no file.
unfoldable pub send_out : (open_out : Bytes → Bool) → Option Bytes → Process → Process
send_out open_out none p = p
send_out open_out (some f) p = if open_out f then record p { out = some f } else p

unfoldable pub take_in : (open_in : Bytes → Bool) → Option Bytes → Process → Process
take_in open_in none p = p
take_in open_in (some f) p = if open_in f then record p { inp = some f } else p

unfoldable pub add_param : Bytes → Process → Process
add_param w p = record p { params = p.params ++ (w ∷ []) }

module _ (open_out open_in : Bytes → Bool) where
  -- `for (int i = 0; i < num_params; i++)`, over the words from `i` on; `left` is `num_params - i`. The
  -- word behind `>` or `<` is taken also where it stands behind `num_params`.
  unfoldable pub redirect : (left : ℕ) → List Bytes → Process → Process
  unfolding send_out take_in add_param
  redirect zero words p = p
  redirect (suc left) [] p = p
  redirect (suc left) (w ∷ []) p =
      if get_or w 0 0 == b'>'
      then send_out open_out none p
      else if get_or w 0 0 == b'<'
      then take_in open_in none p
      else add_param w p
  redirect (suc left) (w ∷ v ∷ words) p =
      if get_or w 0 0 == b'>'
      then redirect (left - 1) words (send_out open_out (some v) p)
      else if get_or w 0 0 == b'<'
      then redirect (left - 1) words (take_in open_in (some v) p)
      else redirect left (v ∷ words) (add_param w p)

-- `params[curI] = NULL` in an array of `num_params` pointers: whether it stands behind the array.
unfoldable pub null_beyond : (num_params : ℕ) → Process → Bool
null_beyond num_params p = leb num_params (length p.params)

-- The parts of `PATH` between colons, from the parts so far; `strtok_r` gives no empty ones.
unfoldable pub path_parts : Bytes → Bytes → List Bytes
path_parts cur [] = if length cur == 0 then [] else cur ∷ []
path_parts cur (c ∷ s) =
    if c == b':'
    then (if length cur == 0 then path_parts [] s else cur ∷ path_parts [] s)
    else path_parts (cur ++ (c ∷ [])) s

module _ (access : Bytes → Bool) where
  -- The loop of `getDirectory`. Each round's block is not cleared: `junk n` is the text that the n-th
  -- holds before, behind which the parts are put.
  unfoldable pub search_path : (junk : ℕ → Bytes) → (n : ℕ) → List Bytes → Bytes → Option Bytes
  search_path junk n [] name = none
  search_path junk n (d ∷ ds) name =
      let cur = junk n ++ (d ++ (codes "/" ++ name)) in
      if access cur then some cur else search_path junk (n + 1) ds name

  -- `none` if there is no program; `PATH` is set.
  unfoldable pub get_directory : (junk : ℕ → Bytes) → (path name : Bytes) → Option Bytes
  unfolding search_path path_parts
  get_directory junk path name =
      if access name then some name else search_path junk 0 (path_parts [] path) name
