-- ===== src/Memcache/Replies.antt =====
-- What the client reads out of the server's replies, and what it sends.
use fuse_using_memcached.Prelude.{
  ℕ, zero, suc, ◌+◌, ◌^◌, ◌≤◌, ◌<◌, ◌≡◌, ◌≢◌, refl, ap, ◌∙◌, sym, [], ◌∷◌, ◌++◌, some, Bytes, codes,
  same, same_refl, length, get_or, All, All-append, arith, le→leb, ne→==, length-append, take-all,
  append_assoc,
}
use fuse_using_memcached.Machine.Word.{neg, int_of}
use fuse_using_memcached.Machine.Decimal.{decimal}
use fuse_using_memcached.Machine.Decimal.Laws.{
  IsDigit, decimal-IsDigit, length-decimal, sprintf_d-decimal,
}
use fuse_using_memcached.Machine.Buffer.{Buffer, block, store, load, load_int}
use fuse_using_memcached.Machine.Buffer.Laws.{
  at-store_middle, load-store_middle, load-list, load_int-list, load-store,
}
use fuse_using_memcached.Memcache.Server.{
  IsKey, IsKeyByte, value_line, value_reply, max_value, set_request,
}
use fuse_using_memcached.Memcache.Client.{
  find_newline, copy_value, read_value, receive, set_result, set_line,
}

-- A stored value: it begins with its own length, and fits the client's buffers.
pub record IsValue (v : Bytes) : Type 0 where
  pub whole : 4 ≤ length v
  pub sized : int_of (get_or v 0 0) (get_or v 1 0) (get_or v 2 0) (get_or v 3 0) ≡ length v
  pub fits : length v ≤ max_value

abbrev NoNewline : ℕ → Type 0
NoNewline c = c ≢ b'\n'

find_newline-line :
    (line rest : Bytes) (fuel pos : ℕ) (b : Buffer)
    → All NoNewline line
    → length line < fuel
    → ((i : ℕ) → i < length line → b.at (pos + i) ≡ get_or line i 0)
    → b.at (pos + length line) ≡ b'\n'
    → find_newline fuel pos b ≡ some (pos + length line)
unfolding find_newline
find_newline-line line rest zero pos b h lt same_at stop = absurd (omega arith)
find_newline-line [] rest (suc fuel) pos b h lt same_at stop =
    let here : b.at pos ≡ b'\n' = ap b.at (omega arith) ∙ stop in
    rw (here, find_newline) (ap some (omega arith))
find_newline-line (c ∷ line) rest (suc fuel) pos b (hc, h) lt same_at stop =
    let here : b.at pos ≡ c = ap b.at (omega arith) ∙ same_at 0 (omega arith) in
    rw (here, find_newline, ne→== c b'\n' hc)
      (find_newline-line line rest fuel (suc pos) b h (omega arith)
          (λ i lt'. ap b.at (omega arith) ∙ same_at (suc i) (omega arith))
          (ap b.at (omega arith) ∙ stop)
        ∙ ap some (omega arith))

key_NoNewline : (k : Bytes) → All IsKeyByte k → All NoNewline k
key_NoNewline [] h = tt
key_NoNewline (c ∷ k) (h, hs) = (omega arith, key_NoNewline k hs)

digits_NoNewline : (k : Bytes) → All IsDigit k → All NoNewline k
digits_NoNewline [] h = tt
digits_NoNewline (c ∷ k) (h, hs) = (omega arith, digits_NoNewline k hs)

-- The first line behind its first five bytes.
abbrev line_rest : Bytes → Bytes → Bytes
line_rest k v = codes " " ++ (k ++ (codes " 0 " ++ (decimal (length v) ++ codes "\r")))

line_rest-NoNewline : (k v : Bytes) → All IsKeyByte k → All NoNewline (line_rest k v)
line_rest-NoNewline k v h = (
  omega arith,
  All-append NoNewline k (codes " 0 " ++ (decimal (length v) ++ codes "\r")) (key_NoNewline k h) (
    omega arith,
    (
      omega arith,
      (
        omega arith,
        All-append NoNewline (decimal (length v)) (codes "\r")
            (digits_NoNewline (decimal (length v)) (decimal-IsDigit (length v))) (omega arith),
      ),
    ),
  ),
)

length-line_rest : (k v : Bytes) → length k ≤ 250 → length (line_rest k v) ≤ 270
length-line_rest k v h = omega (
  arith,
  length-append k (codes " 0 " ++ (decimal (length v) ++ codes "\r")),
  length-append (decimal (length v)) (codes "\r"),
  length-decimal (length v),
)

abbrev reply_head : Bytes → Bytes → Bytes
reply_head k v = value_line k v ++ codes "\n"

abbrev reply_tail : Bytes
reply_tail = codes "\r\nEND\r\n"

length-reply_head : (k v : Bytes) → length (reply_head k v) ≡ suc (5 + length (line_rest k v))
length-reply_head k v = omega (arith, length-append (value_line k v) (codes "\n"))

value_reply-split : (k v : Bytes) → value_reply k v ≡ reply_head k v ++ (v ++ reply_tail)
value_reply-split k v = sym (append_assoc (value_line k v) (codes "\n") (v ++ reply_tail))

module _ (k v : Bytes) (key : IsKey k) (value : IsValue v) (junk : ℕ → ℕ) where
  abbrev answer : Buffer
  answer = store 0 (value_reply k v) (block 66000 junk)

  find_newline-answer : find_newline 65995 5 answer ≡ some (5 + length (line_rest k v))
  find_newline-answer =
      find_newline-line (line_rest k v) [] 65995 5 answer (line_rest-NoNewline k v key.plain)
        (omega (arith, length-line_rest k v key.short))
        (at-store_middle (codes "VALUE") (line_rest k v) (codes "\n" ++ (v ++ reply_tail))
          (block 66000 junk))
        (ap answer.at (omega arith)
          ∙ at-store_middle (value_line k v) (codes "\n") (v ++ reply_tail) (block 66000 junk) 0
              (omega arith))

  length-value_reply : length (value_reply k v) ≤ 66000
  length-value_reply = omega (
    arith,
    length-append (value_line k v) (codes "\n" ++ (v ++ reply_tail)),
    length-append v reply_tail,
    length-line_rest k v key.short,
    value.fits,
  )

  answer-split : answer ≡ store 0 (reply_head k v ++ (v ++ reply_tail)) (block 66000 junk)
  answer-split = ap (λ t. store 0 t (block 66000 junk)) (value_reply-split k v)

  at-answer :
      (i : ℕ) → i < length v → answer.at (suc (5 + length (line_rest k v)) + i) ≡ get_or v i 0
  at-answer i h =
      ap (λ j. answer.at (j + i)) (sym (length-reply_head k v))
      ∙ ap (λ (b : Buffer). b.at (length (reply_head k v) + i)) answer-split
      ∙ at-store_middle (reply_head k v) v reply_tail (block 66000 junk) i h

  load_int-answer : load_int (suc (5 + length (line_rest k v))) answer ≡ length v
  load_int-answer =
      load_int-list (suc (5 + length (line_rest k v))) v answer value.whole at-answer ∙ value.sized

  load-answer : load (suc (5 + length (line_rest k v))) (length v) answer ≡ v
  load-answer = load-list (suc (5 + length (line_rest k v))) v answer at-answer

  copy_value-answer :
      (buffer : Buffer)
      → length v ≤ buffer.size
      → copy_value answer buffer (suc (5 + length (line_rest k v))) ≡ some (0, store 0 v buffer)
  unfolding copy_value
  copy_value-answer buffer h =
      let long = length-line_rest k v key.short in
      let fits = value.fits in
      rw (
        load_int-answer,
        load-answer,
        le→leb (suc (5 + length (line_rest k v)) + 4) 66000 (omega arith),
        le→leb (suc (5 + length (line_rest k v)) + length v) 66000 (omega arith),
        le→leb (length v) buffer.size h,
      )

  read_value-answer :
      (buffer : Buffer)
      → length v ≤ buffer.size
      → read_value answer buffer ≡ some (0, store 0 v buffer)
  unfolding read_value
  read_value-answer buffer h =
      rw
        (
          load-store_middle [] (codes "VALUE") (line_rest k v ++ (codes "\n" ++ (v ++ reply_tail)))
              (block 66000 junk),
          same_refl (codes "VALUE"),
          find_newline-answer,
        )
        (copy_value-answer buffer h)

  pub receive-value_reply :
      (buffer : Buffer)
      → length v ≤ buffer.size
      → receive junk buffer (value_reply k v) ≡ some (0, store 0 v buffer)
  unfolding receive
  receive-value_reply buffer h =
      ap (λ t. read_value (store 0 t (block 66000 junk)) buffer)
        (take-all 66000 (value_reply k v) length-value_reply)
      ∙ read_value-answer buffer h

pub receive-end :
    (junk : ℕ → ℕ) (buffer : Buffer) → receive junk buffer (codes "END\r\n") ≡ some (neg 1, buffer)
unfolding receive read_value same
receive-end junk buffer = rw (load-store 0 (codes "END\r\n") (block 66000 junk))

pub set_result-stored : (junk : ℕ → ℕ) → set_result junk (codes "STORED\r\n") ≡ 0
unfolding set_result
set_result-stored junk = refl

pub set_line-request :
    (k v : Bytes) (n : ℕ)
    → length v ≡ n
    → n < 2 ^ 31
    → set_line k n ++ (v ++ codes "\r\n") ≡ set_request k v
unfolding set_line
set_line-request k v n e lt = rw (sprintf_d-decimal n lt, e) (simp append_assoc)

pub length-set_line :
    (k : Bytes) (n : ℕ) → length k ≤ 250 → n < 2 ^ 31 → length (set_line k n) ≤ 280
unfolding set_line
length-set_line k n h lt = rw (sprintf_d-decimal n lt) (
    omega (
      arith,
      length-append k (codes " 0 0 " ++ (decimal n ++ codes "\r\n")),
      length-append (decimal n) (codes "\r\n"),
      length-decimal n,
    ))
