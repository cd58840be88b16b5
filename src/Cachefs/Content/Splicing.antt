-- ===== src/Cachefs/Content/Splicing.antt =====
-- The loop of `hello_write` over a file that holds some bytes already.
use fuse_using_memcached.Prelude.{
  ℕ, zero, suc, ◌==◌, ◌+◌, ◌-◌, ◌*◌, ◌/◌, ◌%◌, ◌^◌, ◌≤◌, ◌<◌, ◌≡◌, refl, ap, ◌∙◌, sym, subst, [],
  ◌∷◌, true, false, Bool-cases, inl, inr, some, Bytes, length, take, drop, min, arith, ltb→lt,
  ltb_false→le, ne→==, length-take, length-drop, take-append-drop, splice, length-splice,
  splice-nil, splice-empty, splice-append,
}
use fuse_using_memcached.Machine.Word.{int_add, int_sub, int_ltb}
use fuse_using_memcached.Machine.Buffer.{Buffer, load_int, store_int}
use fuse_using_memcached.Memcache.Server.{Memcached}
use fuse_using_memcached.Cachefs.Layout.{Header, cell, max_bucket_size}
use fuse_using_memcached.Cachefs.Keys.{data_key}
use fuse_using_memcached.Cachefs.Keys.Laws.{IsPath}
use fuse_using_memcached.Cachefs.Content.{write_loop}
use fuse_using_memcached.Cachefs.Content.Files.{
  Holds, Holds-num_buckets, Holds-data_len, num_buckets-Holds, data_len-Holds, bucket_count, part,
  length-part,
}
use fuse_using_memcached.Cachefs.Content.Spliced.{part-splice_here}
use fuse_using_memcached.Cachefs.Content.Writing.{write_new-put}
use fuse_using_memcached.Cachefs.Content.Overwriting.{write_old-put}
use fuse_using_memcached.Cachefs.Content.Written.{
  lengthened, HasBuckets, IsWritten, IsWritten-refl, IsWritten-step, put-HasBuckets,
}

module _ (m : Memcached) (junk : ℕ → ℕ → ℕ) (path : Bytes) (ok : IsPath path) where
  open m use {view, put, view-put}

  -- One round of the loop, in the bucket `q`.
  module _ (f o q : ℕ) (xs bytes : Bytes) (b : Buffer) (h : Header) (s : m.State)
      (some_left : 0 < length xs) (holds : Holds b h) (has : HasBuckets m path ok s bytes)
      (counted : h.num_buckets ≡ bucket_count (length bytes)) (inside : o ≤ length bytes)
      (at : q ≡ o / 1024) (few : length bytes + length xs < 2 ^ 28)
      (long : h.data_len + 5 * length xs < 2 ^ 31) where
    abbrev a : ℕ
    a = min (length xs) (1024 - o % 1024)

    abbrev chunk : Bytes
    chunk = take a xs

    abbrev after : Bytes
    after = splice o chunk bytes

    length-chunk : length chunk ≡ a
    length-chunk = omega (arith, length-take a xs)

    abbrev left : m.State
    left = put (data_key (suc q) path) (cell (part q after)) s

    abbrev IsRound : Buffer → Type 0
    IsRound b' =
        (write_loop m junk (suc f) xs o (suc q) path b s
          ≡ write_loop m junk f (drop a xs) (o + a) (suc (suc q)) path b' left)
        × Holds b' (lengthened bytes after h)

    nonempty : (length xs == 0) ≡ false
    nonempty = ne→== (length xs) 0 (λ e. absurd (omega arith))

    count : load_int 12 b ≡ h.num_buckets
    count = num_buckets-Holds holds (omega arith)

    len : load_int 8 b ≡ h.data_len
    len = data_len-Holds holds (omega arith)

    old-IsRound : int_ltb h.num_buckets (suc q) ≡ false → (b' : Buffer) × IsRound b'
    unfolding write_loop
    old-IsRound e =
        let le = ltb_false→le ((h.num_buckets + 2 ^ 31) % 2 ^ 32) ((suc q + 2 ^ 31) % 2 ^ 32) e in
        let p = part q bytes in
        let start = o % 1024 in
        let same_start : o - 1024 * q ≡ start = omega arith in
        let cl = length-chunk in
        let old = length-part q bytes in
        let size = length-splice o chunk bytes inside in
        let here : part q after ≡ splice start chunk p =
          part-splice_here q o chunk bytes inside (omega arith) (omega arith)
          ∙ ap (λ k. splice k chunk p) same_start in
        let new = length-splice start chunk p (omega arith) in
        let longer : int_add h.data_len (int_sub (length (splice start chunk p)) (length p))
            ≡ h.data_len
              + (length after - length bytes)
              + 4 * (bucket_count (length after) - bucket_count (length bytes)) =
          omega arith in
        let same_count : h.num_buckets ≡ bucket_count (length after) = omega arith in
        let next : suc q + 1 ≡ suc (suc q) = omega arith in
        let b' =
          store_int 8 (int_add h.data_len (int_sub (length (splice start chunk p)) (length p))) b in
        let run =
          write_old-put m junk path ok (suc q) start chunk p s (omega arith) (has q (omega arith))
            (omega arith) (omega arith) (omega arith) in
        (
          b',
          (
            rw (nonempty, count, e, run, len, next)
                (ap
                  (λ w.
                    write_loop m junk f (drop a xs) (o + a) (suc (suc q)) path b'
                      (put (data_key (suc q) path) (cell w) s))
                  (sym here)),
            rw (← longer, ← same_count)
                (Holds-data_len holds
                  (int_add h.data_len (int_sub (length (splice start chunk p)) (length p)))),
          ),
        )

    new-IsRound : int_ltb h.num_buckets (suc q) ≡ true → (b' : Buffer) × IsRound b'
    unfolding write_loop
    new-IsRound e =
        let lt = ltb→lt ((h.num_buckets + 2 ^ 31) % 2 ^ 32) ((suc q + 2 ^ 31) % 2 ^ 32) e in
        let cl = length-chunk in
        let old = length-part q bytes in
        let at_end : o ≡ length bytes = omega arith in
        let same_amount : min (length xs) max_bucket_size ≡ a = omega arith in
        let size = length-splice o chunk bytes inside in
        let here : part q after ≡ chunk =
          part-splice_here q o chunk bytes inside (omega arith) (omega arith)
          ∙ splice-empty (o - 1024 * q) chunk (part q bytes) (omega arith) (omega arith) in
        let n = int_add (int_add h.data_len a) 4 in
        let longer : n
            ≡ h.data_len
              + (length after - length bytes)
              + 4 * (bucket_count (length after) - bucket_count (length bytes)) =
          omega arith in
        let more : int_add h.num_buckets 1 ≡ bucket_count (length after) = omega arith in
        let next : suc q + 1 ≡ suc (suc q) = omega arith in
        let b' = store_int 8 n (store_int 12 (int_add h.num_buckets 1) b) in
        (
          b',
          (
            rw
                (
                  nonempty,
                  count,
                  e,
                  same_amount,
                  write_new-put m junk path ok (suc q) chunk s (omega arith) (omega arith),
                  len,
                  next,
                )
                (ap
                  (λ w.
                    write_loop m junk f (drop a xs) (o + a) (suc (suc q)) path b'
                      (put (data_key (suc q) path) (cell w) s))
                  (sym here)),
            rw (← longer, ← more)
                (Holds-data_len (Holds-num_buckets holds (int_add h.num_buckets 1)) n),
          ),
        )

    pub round : (b' : Buffer) × IsRound b'
    round = elim (Bool-cases (int_ltb h.num_buckets (suc q))) [
      | inl e ↦ new-IsRound e
      | inr e ↦ old-IsRound e
    ]

    middle : o + a ≤ length after
    middle = let cl = length-chunk in let size = length-splice o chunk bytes inside in omega arith

    whole : splice (o + a) (drop a xs) after ≡ splice o xs bytes
    whole =
        ap (λ k. splice (o + k) (drop a xs) after) (sym length-chunk)
        ∙ splice-append o chunk (drop a xs) bytes inside
        ∙ ap (λ t. splice o t bytes) (take-append-drop a xs)

    -- The rounds that follow.
    rest-IsWritten :
        (b' b₂ : Buffer) (s₂ : m.State)
        → IsRound b'
        → write_loop m junk f (drop a xs) (o + a) (suc (suc q)) path b' left ≡ some (b₂, s₂)
        → IsWritten m path ok left s₂ b₂
            (lengthened bytes after h)
            after
            (splice (o + a) (drop a xs) after)
        → (write_loop m junk (suc f) xs o (suc q) path b s ≡ some (b₂, s₂))
          × IsWritten m path ok s s₂ b₂ h bytes (splice o xs bytes)
    rest-IsWritten b' b₂ s₂ (run, holds') rest w =
        let size = length-splice o chunk bytes inside in
        let fits = middle in
        let end = length-splice (o + a) (drop a xs) after fits in
        (
          run ∙ rest,
          IsWritten-step m path ok s s₂ b₂ h (suc q) (cell (part q after)) bytes after
              (splice o xs bytes) (omega arith) (omega arith) (omega (arith, ap length whole))
              (subst (IsWritten m path ok left s₂ b₂ (lengthened bytes after h) after) whole w),
        )

  -- The loop writes the bytes over those that are there, and behind them.
  pub write_loop-splice :
      (fuel o i : ℕ) (xs bytes : Bytes) (b : Buffer) (h : Header) (s : m.State)
      → length xs ≤ fuel
      → Holds b h
      → HasBuckets m path ok s bytes
      → h.num_buckets ≡ bucket_count (length bytes)
      → o ≤ length bytes
      → (0 < length xs → i ≡ suc (o / 1024))
      → length bytes + length xs < 2 ^ 28
      → h.data_len + 5 * length xs < 2 ^ 31
      → (b' : Buffer) × (s' : m.State) × (write_loop m junk fuel xs o i path b s ≡ some (b', s'))
        × IsWritten m path ok s s' b' h bytes (splice o xs bytes)
  unfolding write_loop
  write_loop-splice zero o i [] bytes b h s enough holds has counted inside at few long =
      (b, s, refl, rw (splice-nil o bytes) (IsWritten-refl m path ok s b h bytes holds has counted))
  write_loop-splice zero o i (x ∷ xs) bytes b h s enough holds has counted inside at few long =
      absurd (omega arith)
  write_loop-splice (suc f) o i [] bytes b h s enough holds has counted inside at few long =
      (b, s, refl, rw (splice-nil o bytes) (IsWritten-refl m path ok s b h bytes holds has counted))
  write_loop-splice (suc f) o i (x ∷ xs) bytes b h s enough holds has counted inside at few long =
      let ys = x ∷ xs in
      let q = o / 1024 in
      let n = min (length ys) (1024 - o % 1024) in
      let c = take n ys in
      let mid = splice o c bytes in
      let cl : length c ≡ n = omega (arith, length-take n ys) in
      let rest : length (drop n ys) ≡ length ys - n = length-drop n ys in
      let size = length-splice o c bytes inside in
      let (b₁, first) =
        round f o q ys bytes b h s (omega arith) holds has counted inside refl few long in
      let (b₂, s₂, run, w) =
        write_loop-splice f (o + n) (suc (suc q)) (drop n ys) mid b₁ (lengthened bytes mid h)
          (put (data_key (suc q) path) (cell (part q mid)) s) (omega arith) first.1
          (put-HasBuckets m path ok q o c bytes inside (omega arith) (omega arith) (omega arith) s
            has)
          refl (omega arith) (λ more. omega arith) (omega arith) (omega arith) in
      let (all_run, written) =
        rest-IsWritten f o q ys bytes b h s (omega arith) holds has counted inside refl few long b₁
          b₂ s₂ first run w in
      (b₂, s₂, rw (at (omega arith)) all_run, written)
