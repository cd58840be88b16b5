-- ===== src/Shell/Tokenizer/Bounds.antt =====
-- The sizes of the words that hw1/tokenizer.c gives, for lines of any length.
use fuse_using_memcached.Prelude.{
  ℕ, suc, ◌+◌, ◌≤◌, ◌<◌, ◌≡◌, refl, ap, [], ◌∷◌, ◌++◌, Bool, true, false, List, Option, none, some,
  if◌then◌else◌, All, All-append, Bytes, length, arith, ◌==◌, leb, ltb, Bool-cases, inl, inr, ◌⊎◌,
  ltb→lt, leb→le,
}
use fuse_using_memcached.Shell.Tokenizer.{
  Mode, normal, squote, dquote, Scan, isspace, put_char, push_word, char_step, checked, scan, start,
  finish, tokenize,
}
use fuse_using_memcached.Shell.Tokenizer.Laws.{checked-short, length-put}

-- A word fits in `token` with its zero byte, and is not empty.
abbrev pub IsWord : Bytes → Type 0
IsWord w = (0 < length w) × (length w ≤ 4094)

-- The bytes that words take in a line, each with one behind it.
abbrev pub taken : List Bytes → ℕ
taken [] = 0
taken (w ∷ words) = suc (length w) + taken words

taken-append :
    (words : List Bytes) (w : Bytes) → taken (words ++ (w ∷ [])) ≡ taken words + suc (length w)
taken-append [] w = omega arith
taken-append (v ∷ words) w = omega (arith, taken-append words w)

-- What was read so far has at most `read` bytes in words and in `token`, which has at most n.
record IsScan (n read : ℕ) (s : Scan) : Type 0 where
  short : length s.token ≤ n
  sized : All IsWord s.tokens
  within : taken s.tokens + length s.token ≤ read

push_word-IsScan :
    (n read : ℕ) (s : Scan) → n ≤ 4094 → IsScan n read s → IsScan n (read + 1) (push_word s)
unfolding push_word
push_word-IsScan n read s small h = elim (Bool-cases (ltb 0 (length s.token))) [
  | inl e ↦ rw e (record {
    short = omega arith;
    sized =
        All-append IsWord s.tokens (s.token ∷ []) h.sized
          ((ltb→lt 0 (length s.token) e, omega (arith, h.short)), tt);
    within = omega (arith, h.within, taken-append s.tokens s.token);
  })
  | inr e ↦ rw e (record { short = h.short; sized = h.sized; within = omega (arith, h.within) })
]

either :
    {n read : ℕ} {s t : Scan} (b : Bool)
    → IsScan n read s
    → IsScan n read t
    → IsScan n read (if b then s else t)
either true h k = h
either false h k = k

IsScan-weaken : {n read : ℕ} {s : Scan} → IsScan n read s → IsScan (n + 1) read s
IsScan-weaken h = record { short = omega (arith, h.short); sized = h.sized; within = h.within }

char_step-IsScan :
    (read c : ℕ) (s : Scan) → IsScan 4094 read s → IsScan 4095 (read + 1) (char_step c s)
unfolding char_step
char_step-IsScan read c s h = by_mode s.mode s.token s.tokens h.short h.sized h.within
  where
    by_mode :
        (mode : Mode) (token : Bytes) (words : List Bytes)
        → length token ≤ 4094
        → All IsWord words
        → taken words + length token ≤ read
        → IsScan 4095
            (read + 1)
            (char_step c (record { mode = mode; token = token; tokens = words }))
    by_mode mode token words short sized within =
        let same : (mode' : Mode)
            → IsScan 4095 (read + 1) (record { mode = mode'; token = token; tokens = words }) =
          λ mode'. record { short = omega arith; sized = sized; within = omega arith } in
        let more : (mode' : Mode)
            → IsScan 4095 (read + 1)
                (record { mode = mode'; token = token ++ (c ∷ []); tokens = words }) =
          λ mode'. record {
            short = omega (arith, length-put c token);
            sized = sized;
            within = omega (arith, length-put c token);
          } in
        elim mode
          as (λ k.
            IsScan 4095 (read + 1)
              (char_step c (record { mode = k; token = token; tokens = words }))) [
                | normal ↦ either (c == b'\'') (same squote) (
                    either (c == b'"') (same dquote) (
                      either (c == b'\\') (same normal) (
                        either (isspace c)
                          (IsScan-weaken (
                            push_word-IsScan 4094 read
                              (record { mode = normal; token = token; tokens = words })
                              (omega arith)
                              (record { short = short; sized = sized; within = within })))
                          (more normal))))
                | squote ↦
                    either (c == b'\'') (same normal)
                      (either (c == b'\\') (same squote) (more squote))
                | dquote ↦
                    either (c == b'"') (same normal)
                      (either (c == b'\\') (same dquote) (more dquote))
              ]

put_char-IsScan :
    (read c : ℕ) (s : Scan) → IsScan 4094 read s → IsScan 4095 (read + 1) (put_char c s)
put_char-IsScan read c s h = record {
  short = omega (arith, h.short, length-put c s.token);
  sized = h.sized;
  within = omega (arith, h.within, length-put c s.token);
}

-- The loop aborts behind more than 4094 bytes, or ends.
abbrev Scanned : ℕ → Option Scan → Type 0
Scanned read o = ((o ≡ none) × (4094 < read)) ⊎ ((s : Scan) × (o ≡ some s) × IsScan 4094 read s)

Scanned-more : {m n : ℕ} {o : Option Scan} → Scanned m o → m ≤ n → Scanned n o
Scanned-more (inl (e, long)) le = inl (e, omega arith)
Scanned-more (inr (s, e, h)) le =
    inr (s, e, record { short = h.short; sized = h.sized; within = omega (arith, h.within) })

checked-Scanned :
    (read bound : ℕ) (s : Scan) (next : Scan → Option Scan)
    → read ≤ bound
    → IsScan 4095 read s
    → (IsScan 4094 read s → Scanned bound (next s))
    → Scanned bound (checked s next)
unfolding checked
checked-Scanned read bound s next le h rest = elim (Bool-cases (leb 4096 (length s.token + 1))) [
  | inl e ↦
      let within = h.within in
      let long = leb→le 4096 (length s.token + 1) e in inl (rw (checked, e) refl, omega arith)
  | inr e ↦
      let fits : length s.token ≤ 4094 = ground arith in
      rw (checked-short s next fits)
        (rest (record { short = fits; sized = h.sized; within = h.within }))
]

scan-Scanned :
    (line : Bytes) (read : ℕ) (s : Scan)
    → IsScan 4094 read s
    → Scanned (read + length line) (scan line s)
unfolding scan
scan-Scanned [] read s h =
    inr (s, refl, record { short = h.short; sized = h.sized; within = omega (arith, h.within) })
scan-Scanned (c ∷ []) read s h =
    checked-Scanned (read + 1) (read + 1) (char_step c s) (scan []) (omega arith)
      (char_step-IsScan read c s h) (λ k. inr (char_step c s, refl, k))
scan-Scanned (c ∷ d ∷ rest) read s h = elim (Bool-cases (c == b'\\')) [
  | inl e ↦ rw e (
      checked-Scanned (read + 1) (read + suc (suc (length rest))) (put_char d s) (scan rest)
        (omega arith) (put_char-IsScan read d s h)
        (λ k. Scanned-more (scan-Scanned rest (read + 1) (put_char d s) k) (omega arith)))
  | inr e ↦ rw e (
      checked-Scanned (read + 1) (read + suc (suc (length rest))) (char_step c s) (scan (d ∷ rest))
        (omega arith) (char_step-IsScan read c s h)
        (λ k. Scanned-more (scan-Scanned (d ∷ rest) (read + 1) (char_step c s) k) (omega arith)))
]

finish-Scanned :
    (n : ℕ) (o : Option Scan)
    → Scanned n o
    → ((finish o ≡ none) × (4094 < n))
      ⊎ ((words : List Bytes) × (finish o ≡ some words) × All IsWord words × (taken words ≤ n + 1))
unfolding finish
finish-Scanned n o (inl (e, long)) = inl (ap finish e, long)
finish-Scanned n o (inr (s, e, h)) =
    let pushed = push_word-IsScan 4094 n s (omega arith) h in
    inr ((push_word s).tokens, ap finish e, pushed.sized, omega (arith, pushed.within))

pub tokenize-bounds :
    (line : Bytes)
    → ((tokenize line ≡ none) × (4094 < length line))
      ⊎ ((words : List Bytes) × (tokenize line ≡ some words)
          × All IsWord words
          × (taken words ≤ length line + 1))
unfolding tokenize
tokenize-bounds line = finish-Scanned (length line) (scan line start) (
    Scanned-more
      (scan-Scanned line 0 start (record { short = omega arith; sized = tt; within = omega arith }))
      (omega arith))
