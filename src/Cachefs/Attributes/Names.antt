-- ===== src/Cachefs/Attributes/Names.antt =====
-- `hello_listxattr` of cachedfs/main.c, which lists the names of a path's attributes.
use fuse_using_memcached.Prelude.{
  ℕ, ◌+◌, ◌^◌, ◌≤◌, ◌<◌, ◌≡◌, refl, [], ◌==◌, if◌then◌else◌, some, Bytes, List, length, arith,
  Bool-cases, inl, inr, leb→le, leb, Bool, lt→leb_false,
}
use fuse_using_memcached.Machine.Buffer.{Buffer, block, load}
use fuse_using_memcached.Machine.Buffer.Laws.{load-list}
use fuse_using_memcached.Memcache.Server.{Memcached}
use fuse_using_memcached.Cachefs.Layout.{Header}
use fuse_using_memcached.Cachefs.Counters.Laws.{load-xattr_num}
use fuse_using_memcached.Cachefs.Attributes.{hello_listxattr}
use fuse_using_memcached.Cachefs.Attributes.Stored.{Xattr}
use fuse_using_memcached.Cachefs.Attributes.Listed.{HasXattrs}
use fuse_using_memcached.Cachefs.Attributes.Adding.{get_main}
use fuse_using_memcached.Cachefs.Attributes.NamesLoop.{
  names_text, list_loop-names, list_loop-short, no_names, smaller,
}

module _ (m : Memcached) (junk : ℕ → ℕ → ℕ) (path : Bytes) (h : Header) (xs : List Xattr)
    (s : m.State) (p : HasXattrs m s path h xs) (list : Buffer) where
  hello_listxattr-names :
      length (names_text xs) ≤ list.size
      → (list' : Buffer) × (hello_listxattr m junk path list s
          ≡ some ((length (names_text xs), list'), s))
        × (load 0 (length (names_text xs)) list' ≡ names_text xs)
  unfolding hello_listxattr
  hello_listxattr-names room =
      let few = p.few in
      let r =
        list_loop-names m junk path p.path_ok s (length xs) 1 0 xs list (omega arith) p.valid p.held
          (omega arith) in
      let count : 0 + length (names_text xs) ≡ length (names_text xs) = omega arith in
      elim (Bool-cases (list.size == 0)) [
        | inl e ↦
            (let size : list.size ≡ 0 = ground arith in
              let empty = no_names xs (omega arith) in
              (
                list,
                rw
                    (
                      get_main m junk path h xs s p 0 1,
                      load-xattr_num h (block 1024 (junk 1)) p.fields,
                      e,
                      p.counted,
                      empty,
                    )
                    refl,
                rw empty (load-list 0 [] list (λ i lt. absurd (omega arith))),
              ))
        | inr e ↦ (
          r.0,
          rw
              (
                get_main m junk path h xs s p 0 1,
                load-xattr_num h (block 1024 (junk 1)) p.fields,
                e,
                p.counted,
                lt→leb_false (2 ^ 31) (length xs) (omega arith),
              )
              (rw count at r.1),
          load-list 0 (names_text xs) r.0 (r.2.text_at),
        )
      ]

  hello_listxattr-short :
      list.size < length (names_text xs)
      → (list' : Buffer) × (hello_listxattr m junk path list s ≡ some ((length xs, list'), s))
  unfolding hello_listxattr
  hello_listxattr-short short =
      let few = p.few in
      let r =
        list_loop-short m junk path p.path_ok s (length xs) 1 0 xs list (omega arith) p.valid p.held
          (omega arith) (omega arith) in
      elim (Bool-cases (list.size == 0)) [
        | inl e ↦ (
          list,
          rw
              (
                get_main m junk path h xs s p 0 1,
                load-xattr_num h (block 1024 (junk 1)) p.fields,
                e,
                p.counted,
              )
              refl,
        )
        | inr e ↦ (
          r.0,
          rw
              (
                get_main m junk path h xs s p 0 1,
                load-xattr_num h (block 1024 (junk 1)) p.fields,
                e,
                p.counted,
                lt→leb_false (2 ^ 31) (length xs) (omega arith),
              )
              r.1,
        )
      ]

  abbrev all_fit : Bool
  all_fit = leb (length (names_text xs)) list.size

  -- hello_listxattr on a path with a header and the list `xs` of its attributes: into an array
  -- with room for all names, each with a zero byte after it, it writes them and returns their
  -- length, and into a smaller one it returns the number of attributes. It changes nothing on
  -- the server.
  pub hello_listxattr-names_text :
      (list' : Buffer) × (hello_listxattr m junk path list s
        ≡ some ((if all_fit then length (names_text xs) else length xs, list'), s))
      × (load 0 (if all_fit then length (names_text xs) else 0) list'
          ≡ (if all_fit then names_text xs else []))
  hello_listxattr-names_text = elim (Bool-cases all_fit) [
    | inl e ↦ rw e (hello_listxattr-names (leb→le (length (names_text xs)) list.size e))
    | inr e ↦
        let r = hello_listxattr-short (smaller e) in
        rw e (r.0, r.1, load-list 0 [] r.0 (λ i lt. absurd (omega arith)))
  ]
