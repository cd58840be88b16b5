-- ===== src/Shell/Tokenizer/Laws.antt =====
-- What hw1/tokenizer.c makes of a line, for every way to write its words.
use fuse_using_memcached.Prelude.{
  ℕ, ◌+◌, ◌≤◌, ◌<◌, ◌≡◌, ◌≢◌, refl, ap, ◌∙◌, sym, [], ◌∷◌, ◌++◌, true, false, List, some, Option,
  Bytes, length, length-append, append-nil, append_assoc, arith, lt→leb_false, lt→ltb, ne→==,
}
use fuse_using_memcached.Shell.Tokenizer.{
  Mode, normal, squote, dquote, Scan, isspace, put_char, push_word, char_step, checked, scan,
  finish, tokenize,
}

-- A character that stands for itself outside quotes.
pub record IsBare (c : ℕ) : Type 0 where
  pub not_single : c ≢ b'\''
  pub not_double : c ≢ b'"'
  pub not_backslash : c ≢ b'\\'
  pub not_blank : isspace c ≡ false

-- The texts that stand for a word, or for its rest behind an opened quote: characters that stand for
-- themselves, characters behind a backslash, and parts in quotes of either kind.
pub data Written : Mode → Bytes → Bytes → Type 0 where
  done : Written normal [] []
  bare : {c : ℕ} {w t : Bytes} → IsBare c → Written normal w t → Written normal (c ∷ w) (c ∷ t)
  escaped :
      {mode : Mode} {c : ℕ} {w t : Bytes} → Written mode w t → Written mode (c ∷ w) (b'\\' ∷ c ∷ t)
  open_single : {w t : Bytes} → Written squote w t → Written normal w (b'\'' ∷ t)
  in_single :
      {c : ℕ} {w t : Bytes}
      → c ≢ b'\''
      → c ≢ b'\\'
      → Written squote w t
      → Written squote (c ∷ w) (c ∷ t)
  close_single : {w t : Bytes} → Written normal w t → Written squote w (b'\'' ∷ t)
  open_double : {w t : Bytes} → Written dquote w t → Written normal w (b'"' ∷ t)
  in_double :
      {c : ℕ} {w t : Bytes}
      → c ≢ b'"'
      → c ≢ b'\\'
      → Written dquote w t
      → Written dquote (c ∷ w) (c ∷ t)
  close_double : {w t : Bytes} → Written normal w t → Written dquote w (b'"' ∷ t)

-- The lines that hold a list of words: blanks where they like, one at least between two words.
pub data Line : List Bytes → Bytes → Type 0 where
  nil : Line [] []
  blank : {c : ℕ} {ws : List Bytes} {t : Bytes} → isspace c ≡ true → Line ws t → Line ws (c ∷ t)
  last : {w t : Bytes} → Written normal w t → 0 < length w → length w ≤ 4094 → Line (w ∷ []) t
  word :
      {w : Bytes} {ws : List Bytes} (c : ℕ) (t rest : Bytes)
      → Written normal w t
      → 0 < length w
      → length w ≤ 4094
      → isspace c ≡ true
      → Line ws rest
      → Line (w ∷ ws) (t ++ (c ∷ rest))

pub checked-short :
    (s : Scan) (next : Scan → Option Scan) → length s.token ≤ 4094 → checked s next ≡ next s
unfolding checked
checked-short s next h = rw (lt→leb_false 4096 (length s.token + 1) (omega arith)) refl

scan-char :
    (c : ℕ) (rest : Bytes) (s : Scan)
    → c ≢ b'\\'
    → length (char_step c s).token ≤ 4094
    → scan (c ∷ rest) s ≡ scan rest (char_step c s)
unfolding scan
scan-char c [] s h short = checked-short (char_step c s) (scan []) short
scan-char c (d ∷ rest) s h short =
    rw (ne→== c b'\\' h) (checked-short (char_step c s) (scan (d ∷ rest)) short)

scan-escaped :
    (c : ℕ) (rest : Bytes) (s : Scan)
    → length (put_char c s).token ≤ 4094
    → scan (b'\\' ∷ c ∷ rest) s ≡ scan rest (put_char c s)
unfolding scan
scan-escaped c rest s short = checked-short (put_char c s) (scan rest) short

abbrev pub scanning : Mode → Bytes → List Bytes → Scan
scanning mode token words = record { mode = mode; token = token; tokens = words }

pub length-put : (c : ℕ) (token : Bytes) → length (token ++ (c ∷ [])) ≡ length token + 1
length-put c token = length-append token (c ∷ [])

-- A character that is put into `token`.
scan-put :
    (c : ℕ) (rest : Bytes) (mode : Mode) (token : Bytes) (words : List Bytes)
    → c ≢ b'\\'
    → char_step c (scanning mode token words) ≡ scanning mode (token ++ (c ∷ [])) words
    → length token < 4094
    → scan (c ∷ rest) (scanning mode token words)
      ≡ scan rest (scanning mode (token ++ (c ∷ [])) words)
scan-put c rest mode token words nb step short =
    let len = length-put c token in
    scan-char c rest (scanning mode token words) nb (rw step (omega arith)) ∙ ap (scan rest) step

char_step-bare :
    (c : ℕ) (token : Bytes) (words : List Bytes)
    → IsBare c
    → char_step c (scanning normal token words) ≡ scanning normal (token ++ (c ∷ [])) words
unfolding char_step
char_step-bare c token words b =
    rw
      (
        ne→== c b'\'' b.not_single,
        ne→== c b'"' b.not_double,
        ne→== c b'\\' b.not_backslash,
        b.not_blank,
      )
      refl

char_step-blank :
    (c : ℕ) (token : Bytes) (words : List Bytes)
    → isspace c ≡ true
    → char_step c (scanning normal token words) ≡ push_word (scanning normal token words)
unfolding char_step
char_step-blank c token words h = ground arith

blank_not_backslash : (c : ℕ) → isspace c ≡ true → c ≢ b'\\'
blank_not_backslash c h e = ground arith

-- A written word is taken into `token`, and the loop is outside quotes behind it.
module _ (words : List Bytes) (rest : Bytes) where
  take_char :
      (c : ℕ) (t : Bytes) (mode : Mode) (token w : Bytes)
      → c ≢ b'\\'
      → char_step c (scanning mode token words) ≡ scanning mode (token ++ (c ∷ [])) words
      → length token < 4094
      → scan t (scanning mode (token ++ (c ∷ [])) words)
        ≡ scan rest (scanning normal ((token ++ (c ∷ [])) ++ w) words)
      → scan (c ∷ t) (scanning mode token words)
        ≡ scan rest (scanning normal (token ++ (c ∷ w)) words)
  take_char c t mode token w nb step short run =
      scan-put c t mode token words nb step short
      ∙ run
      ∙ ap (λ k. scan rest (scanning normal k words)) (append_assoc token (c ∷ []) w)

  scan-Written :
      {mode : Mode} {w t : Bytes} (token : Bytes)
      → Written mode w t
      → length token + length w ≤ 4094
      → scan (t ++ rest) (scanning mode token words)
        ≡ scan rest (scanning normal (token ++ w) words)
  unfolding char_step
  scan-Written token done h = ap (λ k. scan rest (scanning normal k words)) (sym (append-nil token))
  scan-Written token (bare {c} {w} {t} b written) h =
      take_char c (t ++ rest) normal token w b.not_backslash (char_step-bare c token words b)
        (omega arith)
        (scan-Written (token ++ (c ∷ [])) written (let len = length-put c token in omega arith))
  scan-Written token (escaped {mode} {c} {w} {t} written) h =
      let len = length-put c token in
      scan-escaped c (t ++ rest) (scanning mode token words) (omega arith)
      ∙ scan-Written (token ++ (c ∷ [])) written (omega arith)
      ∙ ap (λ k. scan rest (scanning normal k words)) (append_assoc token (c ∷ []) w)
  scan-Written token (open_single {w} {t} written) h =
      scan-char b'\'' (t ++ rest) (scanning normal token words) (λ e. absurd (omega arith))
        (omega arith)
      ∙ scan-Written token written h
  scan-Written token (in_single {c} {w} {t} ne nb written) h =
      take_char c (t ++ rest) squote token w nb (rw (ne→== c b'\'' ne, ne→== c b'\\' nb) refl)
        (omega arith)
        (scan-Written (token ++ (c ∷ [])) written (let len = length-put c token in omega arith))
  scan-Written token (close_single {w} {t} written) h =
      scan-char b'\'' (t ++ rest) (scanning squote token words) (λ e. absurd (omega arith))
        (omega arith)
      ∙ scan-Written token written h
  scan-Written token (open_double {w} {t} written) h =
      scan-char b'"' (t ++ rest) (scanning normal token words) (λ e. absurd (omega arith))
        (omega arith)
      ∙ scan-Written token written h
  scan-Written token (in_double {c} {w} {t} ne nb written) h =
      take_char c (t ++ rest) dquote token w nb (rw (ne→== c b'"' ne, ne→== c b'\\' nb) refl)
        (omega arith)
        (scan-Written (token ++ (c ∷ [])) written (let len = length-put c token in omega arith))
  scan-Written token (close_double {w} {t} written) h =
      scan-char b'"' (t ++ rest) (scanning dquote token words) (λ e. absurd (omega arith))
        (omega arith)
      ∙ scan-Written token written h

scan-Line :
    {ws : List Bytes} {t : Bytes} (words : List Bytes)
    → Line ws t
    → finish (scan t (scanning normal [] words)) ≡ some (words ++ ws)
unfolding scan finish push_word
scan-Line words nil = ap some (sym (append-nil words))
scan-Line words (blank {c} {ws} {t} h line) =
    ap finish (
      scan-char c t (scanning normal [] words) (blank_not_backslash c h)
        (rw (char_step-blank c [] words h) (omega arith))
      ∙ ap (scan t) (char_step-blank c [] words h))
    ∙ scan-Line words line
scan-Line words (last {w} {t} written filled short) =
    ap (λ l. finish (scan l (scanning normal [] words))) (sym (append-nil t))
    ∙ ap finish (scan-Written words [] [] written (omega arith))
    ∙ rw (lt→ltb 0 (length w) filled) refl
scan-Line words (word {w} {ws} c t rest written filled short h line) =
    let pushed : push_word (scanning normal w words) ≡ scanning normal [] (words ++ (w ∷ [])) =
      rw (lt→ltb 0 (length w) filled) refl in
    let step = char_step-blank c w words h ∙ pushed in
    ap finish (
      scan-Written words (c ∷ rest) [] written (omega arith)
      ∙ scan-char c rest (scanning normal w words) (blank_not_backslash c h) (rw step (omega arith))
      ∙ ap (scan rest) step)
    ∙ scan-Line (words ++ (w ∷ [])) line
    ∙ ap some (append_assoc words (w ∷ []) ws)

-- Whatever way a list of words is written in a line (characters as they are, behind backslashes or in
-- quotes of either kind, and blanks), if each word has 1 to 4094 bytes `tokenize` gives that list.
pub tokenize-Line : {ws : List Bytes} {t : Bytes} → Line ws t → tokenize t ≡ some ws
unfolding tokenize
tokenize-Line line = scan-Line [] line
