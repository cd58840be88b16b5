-- ===== src/Http/Sound.antt =====
-- Only request lines are parsed by hw2/libhttp.c.
use fuse_using_memcached.Prelude.{
  ◌↔◌, ℕ, ◌<◌, ◌≡◌, refl, ap, ap₂, ◌∙◌, sym, [], ◌∷◌, ◌++◌, Bool, true, false, not, Option, none,
  some, Bytes, length, All, arith, ◌==◌, Bool-cases, inl, inr, ==_iff, if◌then◌else◌,
}
use fuse_using_memcached.Http.{
  HttpRequest, pass, current, is_method_char, is_path_char, is_line_char, parse_end, parse_path,
  http_request_parse,
}
use fuse_using_memcached.Http.Laws.{http_request_parse-request, Passes, IsRequest, current-append}

pass-splits :
    (test : ℕ → Bool) (s : Bytes)
    → test 0 ≡ false
    → (s ≡ (pass test s).0 ++ (pass test s).1)
      × All (Passes test) (pass test s).0
      × (test (current (pass test s).1) ≡ false)
unfolding pass
pass-splits test [] h = (refl, tt, h)
pass-splits test (c ∷ s) h =
    let (split, passed, stopped) = pass-splits test s h in
    elim (Bool-cases (test c)) [
      | inl e ↦ rw e (ap (◌∷◌ c) split, (e, passed), stopped)
      | inr e ↦ rw e (refl, tt, e)
    ]

guard :
    {A : Type 0} {a : A} (b : Bool) (o : Option A)
    → (if b then none else o) ≡ some a
    → (b ≡ false) × (o ≡ some a)
guard true o h = ground arith
guard false o h = (refl, h)

filled_from : (s : Bytes) → (length s == 0) ≡ false → 0 < length s
filled_from [] h = ground arith
filled_from (c ∷ s) h = omega arith

guard_end :
    {A : Type 0} {a x : A} (b : Bool) → (if b then some x else none) ≡ some a → (b ≡ true) × (x ≡ a)
guard_end true h = (refl, ground arith)
guard_end false h = ground arith

starts : (s : Bytes) → current s ≡ b'\n' → (more : Bytes) × (s ≡ b'\n' ∷ more)
starts [] h = absurd (omega arith)
starts (c ∷ s) h = (s, ap (λ k. k ∷ s) h)

parse_end_sound :
    (method path s : Bytes) (r : HttpRequest)
    → parse_end method path s ≡ some r
    → (tail : Bytes) × (more : Bytes) × (s ≡ tail ++ (b'\n' ∷ more))
      × All (Passes is_line_char) tail
      × (r ≡ record { method = method; path = path })
unfolding parse_end
parse_end_sound method path s r h =
    let (split, passed, stopped) = pass-splits is_line_char s refl in
    let line = pass is_line_char s in
    let (ended, e) = guard_end (current line.1 == b'\n') h in
    let (more, split₁) = starts line.1 ((==_iff (current line.1) b'\n').0 ended) in
    (line.0, more, split ∙ ap (λ t. line.0 ++ t) split₁, passed, sym e)

parse_path_sound :
    (method s : Bytes) (r : HttpRequest)
    → parse_path method s ≡ some r
    → (path : Bytes) × (rest : Bytes) × (s ≡ b' ' ∷ (path ++ rest))
      × (0 < length path)
      × All (Passes is_path_char) path
      × (is_path_char (current rest) ≡ false)
      × (parse_end method path rest ≡ some r)
unfolding parse_path
parse_path_sound method [] r h = ground arith
parse_path_sound method (c ∷ s) r h =
    let (split, passed, stopped) = pass-splits is_path_char s refl in
    let (space, h₁) = guard (not (c == b' ')) _ h in
    let (full, h₂) = guard (length (pass is_path_char s).0 == 0) _ h₁ in
    let c_space : c ≡ b' ' = ground arith in
    (
      (pass is_path_char s).0,
      (pass is_path_char s).1,
      ap₂ ◌∷◌ c_space split,
      filled_from (pass is_path_char s).0 full,
      passed,
      stopped,
      h₂,
    )

http_request_parse_sound :
    (s : Bytes) (r : HttpRequest)
    → http_request_parse s ≡ some r
    → (tail : Bytes) × (more : Bytes) × (s
        ≡ r.method ++ (b' ' ∷ (r.path ++ (tail ++ (b'\n' ∷ more)))))
      × IsRequest r.method r.path tail
unfolding http_request_parse
http_request_parse_sound s r h =
    let (split, passed, stopped) = pass-splits is_method_char s refl in
    let (full, h₁) = guard (length (pass is_method_char s).0 == 0) _ h in
    let method = (pass is_method_char s).0 in
    let (path, rest, split₁, path_full, path_passed, path_stopped, h₂) =
      parse_path_sound method (pass is_method_char s).1 r h₁ in
    let (tail, more, split₂, tail_passed, e) = parse_end_sound method path rest r h₂ in
    (
      tail,
      more,
      split
          ∙ ap (λ t. method ++ t) split₁
          ∙ ap (λ t. method ++ (b' ' ∷ (path ++ t))) split₂
          ∙ ap (λ q. q.method ++ (b' ' ∷ (q.path ++ (tail ++ (b'\n' ∷ more))))) (sym e),
      rw e (record {
        method_filled = filled_from method full;
        method_chars = passed;
        path_filled = path_full;
        path_chars = path_passed;
        tail_start =
            ap is_path_char (sym (current-append tail more))
            ∙ ap (λ t. is_path_char (current t)) (sym split₂)
            ∙ path_stopped;
        tail_chars = tail_passed;
      }),
    )

-- `http_request_parse` accepts exactly the texts that begin with a request line, and gives the line's method
-- and path.
pub http_request_parse_iff :
    (s : Bytes) (r : HttpRequest)
    → (http_request_parse s ≡ some r) ↔ (
        (tail : Bytes) × (more : Bytes) × (s
          ≡ r.method ++ (b' ' ∷ (r.path ++ (tail ++ (b'\n' ∷ more)))))
        × IsRequest r.method r.path tail)
http_request_parse_iff s r = (
  http_request_parse_sound s r,
  λ (tail, more, e, ok).
      ap http_request_parse e ∙ http_request_parse-request r.method r.path tail more ok,
)
