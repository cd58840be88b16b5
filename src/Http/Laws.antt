-- ===== src/Http/Laws.antt =====
-- What hw2/libhttp.c takes for a request, and what it sends.
use fuse_using_memcached.Prelude.{
  ℕ, zero, suc, ◌+◌, ◌≤◌, ◌<◌, ◌≡◌, refl, ap, ◌∙◌, [], ◌∷◌, ◌++◌, Bool, true, false, Option, some,
  Bytes, length, All, arith, ◌==◌, ne→==, drop, take-append-drop, length-drop,
}
use fuse_using_memcached.Http.{
  pass, current, is_method_char, is_path_char, is_line_char, parse_end, parse_path,
  http_request_parse, http_send_data,
}

abbrev pub Passes : (ℕ → Bool) → ℕ → Type 0
Passes test c = test c ≡ true

pass-append :
    (test : ℕ → Bool) (w rest : Bytes)
    → All (Passes test) w
    → test (current rest) ≡ false
    → pass test (w ++ rest) ≡ (w, rest)
unfolding pass
pass-append test [] [] h stop = refl
pass-append test [] (c ∷ rest) h stop = rw stop refl
pass-append test (c ∷ w) rest (h, hs) stop = rw (h, pass-append test w rest hs stop) refl

-- A request line: the method of capital letters, a space, a path with no space, then anything up to
-- the line feed that begins with a space if it is not empty.
pub record IsRequest (method path tail : Bytes) : Type 0 where
  pub method_filled : 0 < length method
  pub method_chars : All (Passes is_method_char) method
  pub path_filled : 0 < length path
  pub path_chars : All (Passes is_path_char) path
  pub tail_start : is_path_char (current (tail ++ (b'\n' ∷ []))) ≡ false
  pub tail_chars : All (Passes is_line_char) tail

pub current-append : (t rest : Bytes) → current (t ++ (b'\n' ∷ rest)) ≡ current (t ++ (b'\n' ∷ []))
current-append [] rest = refl
current-append (c ∷ t) rest = refl

filled : (s : Bytes) → 0 < length s → (length s == 0) ≡ false
filled s h = ne→== (length s) 0 (λ e. absurd (omega arith))

-- `http_request_parse` of a request line, with anything behind it, gives its method and its path.
pub http_request_parse-request :
    (method path tail more : Bytes)
    → IsRequest method path tail
    → http_request_parse (method ++ (b' ' ∷ (path ++ (tail ++ (b'\n' ∷ more)))))
      ≡ some (record { method = method; path = path })
unfolding http_request_parse parse_path parse_end
http_request_parse-request method path tail more h =
    rw
      (
        pass-append is_method_char method (b' ' ∷ (path ++ (tail ++ (b'\n' ∷ more)))) h.method_chars
            refl,
        filled method h.method_filled,
        pass-append is_path_char path (tail ++ (b'\n' ∷ more)) h.path_chars
            (ap is_path_char (current-append tail more) ∙ h.tail_start),
        filled path h.path_filled,
        pass-append is_line_char tail (b'\n' ∷ more) h.tail_chars refl,
      )
      refl

-- If every call of `write` takes at least one byte and no more than there are, `http_send_data` ends
-- after at most as many calls as bytes, and has sent exactly the bytes, in order.
pub http_send_data-all :
    (write : ℕ → Bytes → Option ℕ) (fuel n : ℕ) (bytes : Bytes)
    → ((i : ℕ) (b : Bytes)
        → 0 < length b
        → (k : ℕ) × (write i b ≡ some k) × (0 < k) × (k ≤ length b))
    → length bytes ≤ fuel
    → http_send_data write fuel n bytes ≡ some bytes
unfolding http_send_data
http_send_data-all write zero n [] takes h = refl
http_send_data-all write zero n (c ∷ bytes) takes h = absurd (omega arith)
http_send_data-all write (suc fuel) n [] takes h = refl
http_send_data-all write (suc fuel) n (c ∷ bytes) takes h =
    let (k, took, some_taken, fits) = takes n (c ∷ bytes) (omega arith) in
    let left = length-drop k (c ∷ bytes) in
    rw
      (
        filled (c ∷ bytes) (omega arith),
        took,
        http_send_data-all write fuel (n + 1) (drop k (c ∷ bytes)) takes (omega arith),
        take-append-drop k (c ∷ bytes),
      )
      refl
