-- ===== src/Tests/Shell.antt =====
-- The tokenizer at small lines.
use fuse_using_memcached.Prelude.{◌≡◌, refl, [], ◌∷◌, some, codes, arith}
use fuse_using_memcached.Shell.Tokenizer.{tokenize}
use fuse_using_memcached.Shell.Tokenizer.Laws.{
  IsBare, done, bare, escaped, open_single, in_single, close_single, Line, blank, last, word,
  tokenize-Line,
}

a-IsBare : IsBare b'a'
a-IsBare = record {
  not_single = λ e. absurd (omega arith);
  not_double = λ e. absurd (omega arith);
  not_backslash = λ e. absurd (omega arith);
  not_blank = refl;
}

-- The words `a'a` and `a a`, the second in single quotes.
small-Line : Line (codes "a'a" ∷ codes "a a" ∷ []) (codes " a\\'a 'a a'")
small-Line = blank refl (
    word b' ' (codes "a\\'a") (codes "'a a'") (bare a-IsBare (escaped (bare a-IsBare done)))
      (omega arith) (omega arith) refl
      (last
        (open_single (
          in_single (λ e. absurd (omega arith)) (λ e. absurd (omega arith))
            (in_single (λ e. absurd (omega arith)) (λ e. absurd (omega arith))
              (in_single (λ e. absurd (omega arith)) (λ e. absurd (omega arith))
                (close_single done)))))
        (omega arith) (omega arith)))

tokenize-Line_example : tokenize (codes " a\\'a 'a a'") ≡ some (codes "a'a" ∷ codes "a a" ∷ [])
tokenize-Line_example = tokenize-Line small-Line
