-- ===== src/Cachefs/Attributes/NamesLoop.antt =====
-- The loop of `hello_listxattr` of cachedfs/main.c.
use fuse_using_memcached.Prelude.{
  ℕ, suc, ◌+◌, ◌*◌, ◌-◌, ◌^◌, ◌≤◌, ◌<◌, ◌≡◌, refl, ap, ◌∙◌, sym, [], ◌∷◌, ◌++◌, false, ltb, some,
  Bytes, List, length, get_or, All, arith, length-append, append_assoc, Bool-cases, inl, inr,
  ltb→lt, leb, le→ltb_false, get_or-append_left,
}
use fuse_using_memcached.Machine.Buffer.{Buffer, block, store}
use fuse_using_memcached.Machine.Buffer.Laws.{get_or-append_right, at-store_in, at-store_before}
use fuse_using_memcached.Memcache.Server.{Memcached}
use fuse_using_memcached.Cachefs.Keys.Laws.{IsPath}
use fuse_using_memcached.Cachefs.Attributes.{list_loop}
use fuse_using_memcached.Cachefs.Attributes.Stored.{Xattr, IsXattr, cur_name-held, load_int-name}
use fuse_using_memcached.Cachefs.Attributes.Listed.{Held}
use fuse_using_memcached.Cachefs.Attributes.Finding.{get_xattr-held}

-- The names, each with a zero byte after it.
abbrev pub names_text : List Xattr → Bytes
names_text [] = []
names_text (x ∷ xs) = x.name ++ (0 ∷ names_text xs)

-- The text stands at `pos`, and all before it is as it was.
pub record IsListed (pos : ℕ) (text : Bytes) (list list' : Buffer) : Type 0 where
  pub text_at : (k : ℕ) → k < length text → list'.at (pos + k) ≡ get_or text k 0
  pub before : (k : ℕ) → k < pos → list'.at k ≡ list.at k

fits : {a b : ℕ} → ltb a b ≡ false → b ≤ a
fits {a} {b} f = ground arith

pub smaller : {a b : ℕ} → leb a b ≡ false → b < a
smaller {a} {b} e = ground arith

pub no_names : (xs : List Xattr) → length (names_text xs) ≤ 0 → xs ≡ []
no_names [] h = refl
no_names (x ∷ xs) h = absurd (omega (arith, length-append x.name (0 ∷ names_text xs)))

module _ (pos : ℕ) (name rest : Bytes) (list list' : Buffer) where
  abbrev copied : Bytes
  copied = name ++ (0 ∷ [])

  IsListed-next :
      IsListed (pos + length name + 1) rest (store pos copied list) list'
      → IsListed pos (name ++ (0 ∷ rest)) list list'
  IsListed-next l =
      let size = length-append name (0 ∷ []) in
      rw (← append_assoc name (0 ∷ []) rest) (record {
        text_at = λ k lt. elim (Bool-cases (ltb k (length copied))) [
          | inl t ↦
              (let le = ltb→lt k (length copied) t in
                l.before (pos + k) (omega arith)
                ∙ at-store_in pos copied list (pos + k) (omega arith) (omega arith)
                ∙ ap (λ j. get_or copied j 0) (omega arith)
                ∙ sym (get_or-append_left copied rest k 0 le))
          | inr f ↦
              (let over = fits f in
                let j = k - length copied in
                let e : pos + k ≡ pos + length name + 1 + j = omega arith in
                let back : length copied + j ≡ k = omega arith in
                ap list'.at e
                ∙ l.text_at j (omega (arith, length-append copied rest))
                ∙ sym (get_or-append_right copied rest j)
                ∙ ap (λ i. get_or (copied ++ rest) i 0) back)
        ];
        before = λ k lt. l.before k (omega arith) ∙ at-store_before pos copied list k lt;
      })

module _ (m : Memcached) (junk : ℕ → ℕ → ℕ) (path : Bytes) (path_ok : IsPath path) (s : m.State)
    (new_i : ℕ) where
  pub list_loop-names :
      (i pos : ℕ) (xs : List Xattr) (list : Buffer)
      → i + length xs < 2 ^ 31
      → All IsXattr xs
      → Held m s path i xs
      → pos + length (names_text xs) ≤ list.size
      → (list' : Buffer) × (list_loop m junk (length xs) i pos new_i path list s
          ≡ some ((pos + length (names_text xs), list'), s))
        × IsListed pos (names_text xs) list list'
  unfolding list_loop
  list_loop-names i pos [] list small ok held room =
      let e : pos + 0 ≡ pos = omega arith in
      (list, rw e refl, record { text_at = λ k h. absurd (omega arith); before = λ k h. refl })
  list_loop-names i pos (x ∷ xs) list small (hx_ok, ok) (hx, held) room =
      let b = block 66000 (junk (2 * i + 1)) in
      let got = get_xattr-held m junk path path_ok s i x hx (omega arith) hx_ok in
      let cur = cur_name-held hx.mid hx.pad i x hx.mid_length hx.pad_length hx_ok b in
      let len = load_int-name hx.mid hx.pad i x hx.mid_length hx.pad_length hx_ok b in
      let size = length-append x.name (0 ∷ names_text xs) in
      let next : i + 1 ≡ suc i = omega arith in
      let rest =
        list_loop-names (suc i) (pos + length x.name + 1) xs (store pos (x.name ++ (0 ∷ [])) list)
          (omega arith) ok held (omega arith) in
      let all : pos + length x.name + 1 + length (names_text xs)
          ≡ pos + length (x.name ++ (0 ∷ names_text xs)) =
        omega arith in
      (
        rest.0,
        rw
            (
              got,
              cur,
              len,
              le→ltb_false list.size (pos + length x.name + 1) (omega arith),
              next,
              ← all,
            )
            rest.1,
        IsListed-next pos x.name (names_text xs) list rest.0 rest.2,
      )

  pub list_loop-short :
      (i pos : ℕ) (xs : List Xattr) (list : Buffer)
      → i + length xs < 2 ^ 31
      → All IsXattr xs
      → Held m s path i xs
      → pos ≤ list.size
      → list.size < pos + length (names_text xs)
      → (list' : Buffer) × (list_loop m junk (length xs) i pos new_i path list s
          ≡ some ((new_i, list'), s))
  unfolding list_loop
  list_loop-short i pos [] list small ok held start short = absurd (omega arith)
  list_loop-short i pos (x ∷ xs) list small (hx_ok, ok) (hx, held) start short =
      let b = block 66000 (junk (2 * i + 1)) in
      let got = get_xattr-held m junk path path_ok s i x hx (omega arith) hx_ok in
      let cur = cur_name-held hx.mid hx.pad i x hx.mid_length hx.pad_length hx_ok b in
      let len = load_int-name hx.mid hx.pad i x hx.mid_length hx.pad_length hx_ok b in
      let size = length-append x.name (0 ∷ names_text xs) in
      let next : i + 1 ≡ suc i = omega arith in
      elim (Bool-cases (ltb list.size (pos + length x.name + 1))) [
        | inl t ↦ (list, rw (got, cur, len, t) refl)
        | inr f ↦
            let rest =
              list_loop-short (suc i) (pos + length x.name + 1) xs
                (store pos (x.name ++ (0 ∷ [])) list) (omega arith) ok held (fits f)
                (omega arith) in
            (rest.0, rw (got, cur, len, f, next) rest.1)
      ]
