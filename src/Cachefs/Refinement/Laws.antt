-- ===== src/Cachefs/Refinement/Laws.antt =====
-- `hello_create` and `hello_unlink` of cachedfs/main.c implement a set of names.
use fuse_using_memcached.Prelude.{
  ℕ, ◌+◌, ◌^◌, ◌≤◌, ◌<◌, ◌≡◌, refl, ap, ◌∙◌, sym, subst, [], ◌∷◌, ◌++◌, true, false, not, ◌&&◌,
  ◌||◌, List, some, Bytes, codes, same, length, get_or, set, arith, length-append, length-set,
}
use fuse_using_memcached.Memcache.Server.{Memcached}
use fuse_using_memcached.Cachefs.Layout.{Header}
use fuse_using_memcached.Cachefs.Entries.{hello_create}
use fuse_using_memcached.Cachefs.Removal.{hello_unlink}
use fuse_using_memcached.Cachefs.Removal.File.{hello_unlink-IsPopulated}
use fuse_using_memcached.Cachefs.Listing.{hello_readdir}
use fuse_using_memcached.Cachefs.Listing.Tokens.{IsFileName, join}
use fuse_using_memcached.Cachefs.Listing.Laws.{hello_readdir-names}
use fuse_using_memcached.Cachefs.Listing.Populated.{IsPopulated}
use fuse_using_memcached.Cachefs.Listing.Added.{hello_create-IsPopulated}
use fuse_using_memcached.Cachefs.Refinement.{
  Command, create, unlink, Names, insert_name, erase_name, after, Allowed, run, successes,
}
use fuse_using_memcached.Cachefs.Refinement.Names.{
  contains, place_of, contains-get_or, contains-append, contains-set_last, snoc_view,
}

module _ (m : Memcached) (junk : ℕ → ℕ → ℕ) (dir : Bytes) where
  -- The directory stands in the store with these names, in some order.
  pub record Stands (s : m.State) (d : Names) (most : ℕ) : Type 0 where
    pub header : Header
    pub names : List Bytes
    pub populated : IsPopulated m s dir header names
    pub same_names : (x : Bytes) → contains names x ≡ d x
    pub few : length names ≤ most

  with_most : {s : m.State} {d : Names} {a b : ℕ} → Stands s d a → a ≤ b → Stands s d b
  with_most st le = record {
    header = st.header;
    names = st.names;
    populated = st.populated;
    same_names = st.same_names;
    few = omega (arith, st.few);
  }

  create_step :
      (s : m.State) (d : Names) (most : ℕ) (n : Bytes)
      → Stands s d most
      → IsFileName n
      → length (join dir n) ≤ 238
      → d n ≡ false
      → most + 2 < 2 ^ 31
      → (s' : m.State) × (hello_create m junk (join dir n) s ≡ some (some 0, s'))
        × Stands s' (insert_name n d) (most + 1)
  create_step s d most n st named short new room =
      let absent = st.same_names n ∙ new in
      let (s', done, p) =
        hello_create-IsPopulated m junk s dir n st.header st.names st.populated named short
          (omega (arith, st.few))
          (λ i lt at. let found = contains-get_or st.names n i lt at in cc) in
      (
        s',
        done,
        record {
          header = record st.header { num_buckets = st.header.num_buckets + 1 };
          names = st.names ++ (n ∷ []);
          populated = p;
          same_names =
              λ x. contains-append st.names n x ∙ ap (λ b. same n x || b) (st.same_names x);
          few = omega (arith, st.few, length-append st.names (n ∷ []));
        },
      )

  unlink_at :
      (s : m.State) (most : ℕ) (n last : Bytes) (front : List Bytes) (h : Header) (k : ℕ)
      → IsPopulated m s dir h (front ++ (last ∷ []))
      → k ≤ length front
      → length front ≤ most
      → get_or (front ++ (last ∷ [])) k [] ≡ n
      → (s' : m.State) × (hello_unlink m junk (join dir n) s ≡ some (0, s'))
        × Stands s' (erase_name n (contains (front ++ (last ∷ [])))) most
  unlink_at s most n last front h k p k_in few at =
      let (s', done, p', gone) =
        hello_unlink-IsPopulated m junk s dir last front h p k k_in
          (p.children k (omega (arith, length-append front (last ∷ [])))) in
      (
        s',
        ap (λ q. hello_unlink m junk (join dir q) s) (sym at) ∙ done,
        record {
          header = record h { num_buckets = length front };
          names = set front k last;
          populated = p';
          same_names = λ x.
              contains-set_last front last p.distinct k k_in x
              ∙ ap (λ q. not (same q x) && contains (front ++ (last ∷ [])) x) at;
          few = omega (arith, length-set front k last);
        },
      )

  unlink_step :
      (s : m.State) (d : Names) (most : ℕ) (n : Bytes)
      → Stands s d most
      → d n ≡ true
      → (s' : m.State) × (hello_unlink m junk (join dir n) s ≡ some (0, s'))
        × Stands s' (erase_name n d) most
  unlink_step s d most n st there =
      let (k, k_in, at) = place_of st.names n (st.same_names n ∙ there) in
      let (front, last, e) = snoc_view st.names (omega arith) in
      let size = ap length e ∙ length-append front (last ∷ []) in
      let (s', done, st') =
        unlink_at s most n last front st.header k
          (subst (IsPopulated m s dir st.header) e st.populated) (omega (arith, size))
          (omega (arith, size, st.few)) (ap (λ ns. get_or ns k []) (sym e) ∙ at) in
      (
        s',
        done,
        record {
          header = st'.header;
          names = st'.names;
          populated = st'.populated;
          same_names = λ x.
              st'.same_names x
              ∙ ap (λ b. not (same n x) && b) (ap (λ ns. contains ns x) (sym e) ∙ st.same_names x);
          few = st'.few;
        },
      )

  run-Stands :
      (cs : List Command) (s : m.State) (d : Names) (most : ℕ)
      → Stands s d most
      → Allowed dir cs d
      → most + length cs + 2 < 2 ^ 31
      → (s' : m.State) × (run m junk dir cs s ≡ some (successes cs, s'))
        × Stands s' (after cs d) (most + length cs)
  unfolding run
  run-Stands [] s d most st ok room = (s, refl, with_most st (omega arith))
  run-Stands (create n ∷ cs) s d most st (named, short, new, ok) room =
      let (s₁, done, st₁) = create_step s d most n st named short new (omega arith) in
      let (s₂, rest, st₂) = run-Stands cs s₁ (insert_name n d) (most + 1) st₁ ok (omega arith) in
      (s₂, rw (done, rest) refl, with_most st₂ (omega arith))
  run-Stands (unlink n ∷ cs) s d most st (there, ok) room =
      let (s₁, done, st₁) = unlink_step s d most n st there in
      let (s₂, rest, st₂) = run-Stands cs s₁ (erase_name n d) most st₁ ok (omega arith) in
      (s₂, rw (done, rest) refl, with_most st₂ (omega arith))

  -- A directory that stands in the store with a set of names, and a sequence of commands that creates
  -- only names that are not there and removes only names that are: each command returns 0, the
  -- directory then stands with the set of names that the commands make of the first one, and
  -- `hello_readdir` lists exactly this set. The number of commands and
  -- the bound on the directory's entries, `most`, are together below 2 ^ 31 - 2.
  pub run-refines :
      (cs : List Command) (s : m.State) (d : Names) (most : ℕ)
      → Stands s d most
      → Allowed dir cs d
      → most + length cs + 2 < 2 ^ 31
      → (s' : m.State) × (run m junk dir cs s ≡ some (successes cs, s'))
        × Stands s' (after cs d) (most + length cs)
        × ((names : List Bytes) × (hello_readdir m junk dir s'
              ≡ some ((0, codes "." ∷ codes ".." ∷ names), s'))
            × ((x : Bytes) → contains names x ≡ after cs d x))
  run-refines cs s d most st ok room =
      let (s', done, st') = run-Stands cs s d most st ok room in
      let p = st'.populated in
      (
        s',
        done,
        st',
        (
          st'.names,
          hello_readdir-names m junk s' dir st'.header st'.names p.directory,
          st'.same_names,
        ),
      )
