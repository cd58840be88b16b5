-- ===== src/Http.antt =====
-- hw2/libhttp.c. What `read` puts in the buffer is its bytes; behind them stands the zero byte that the
-- program adds, so the end of a list is read as 0. Memory is always granted.
pub mod Laws
pub mod Sound
pub mod Mime
use fuse_using_memcached.Prelude.{
  ℕ, zero, suc, ◌+◌, [], ◌∷◌, ◌++◌, Bool, true, false, not, ◌||◌, ◌&&◌, leb, ◌==◌, if◌then◌else◌,
  List, Option, none, some, Bytes, codes, same, length, take, drop,
}

pub record HttpRequest : Type 0 where
  pub method : Bytes
  pub path : Bytes

-- `while(test(*read_end)) read_end++`: what it passes, and what is left.
unfoldable pub pass : (ℕ → Bool) → Bytes → Bytes × Bytes
pass test [] = ([], [])
pass test (c ∷ s) = let rest = pass test s in if test c then (c ∷ rest.0, rest.1) else ([], c ∷ s)

-- `*read_end`
abbrev pub current : Bytes → ℕ
current [] = 0
current (c ∷ s) = c

abbrev pub is_method_char : ℕ → Bool
is_method_char c = leb b'A' c && leb c b'Z'

abbrev pub is_path_char : ℕ → Bool
is_path_char c = not (c == 0) && (not (c == b' ') && not (c == b'\n'))

abbrev pub is_line_char : ℕ → Bool
is_line_char c = not (c == 0) && not (c == b'\n')

-- From behind the path: the rest of the line up to its line feed.
unfoldable pub parse_end : Bytes → Bytes → Bytes → Option HttpRequest
unfolding pass
parse_end method path s =
    let line = pass is_line_char s in
    if current line.1 == b'\n' then some (record { method = method; path = path }) else none

-- From behind the method.
unfoldable pub parse_path : Bytes → Bytes → Option HttpRequest
unfolding parse_end
parse_path method [] = none
parse_path method (c ∷ s) =
    let path = pass is_path_char s in
    if not (c == b' ')
    then none
    else if length path.0 == 0
    then none
    else parse_end method path.0 path.1

-- For the bytes that `read` gave, 8192 at most.
unfoldable pub http_request_parse : Bytes → Option HttpRequest
unfolding parse_path
http_request_parse s =
    let method = pass is_method_char s in
    if length method.0 == 0 then none else parse_path method.0 method.1

unfoldable pub http_get_response_message : ℕ → Bytes
http_get_response_message n =
    if n == 100
    then codes "Continue"
    else if n == 200
    then codes "OK"
    else if n == 301
    then codes "Moved Permanently"
    else if n == 302
    then codes "Found"
    else if n == 304
    then codes "Not Modified"
    else if n == 400
    then codes "Bad Request"
    else if n == 401
    then codes "Unauthorized"
    else if n == 403
    then codes "Forbidden"
    else if n == 404
    then codes "Not Found"
    else if n == 405
    then codes "Method Not Allowed"
    else codes "Internal Server Error"

-- `strrchr(s, '.')`
unfoldable pub last_dot : Bytes → Option Bytes
last_dot [] = none
last_dot (c ∷ s) = elim (last_dot s) [
  | none ↦ if c == b'.' then some (c ∷ s) else none
  | some e ↦ some e
]

unfoldable pub mime_of : Bytes → Bytes
mime_of e =
    if same e (codes ".html") || same e (codes ".htm")
    then codes "text/html"
    else if same e (codes ".jpg") || same e (codes ".jpeg")
    then codes "image/jpeg"
    else if same e (codes ".png")
    then codes "image/png"
    else if same e (codes ".css")
    then codes "text/css"
    else if same e (codes ".js")
    then codes "application/javascript"
    else if same e (codes ".pdf")
    then codes "application/pdf"
    else codes "text/plain"

unfoldable pub http_get_mime_type : Bytes → Bytes
unfolding last_dot mime_of
http_get_mime_type file_name = elim (last_dot file_name) [
  | none ↦ codes "text/plain"
  | some e ↦ mime_of e
]

-- `write n data` is what the n-th call of `write` returns for the bytes left, `none` for a negative
-- number. Gives what was sent; `none` if the fuel does not suffice, as for a `write` that keeps
-- returning 0.
module _ (write : ℕ → Bytes → Option ℕ) where
  unfoldable pub http_send_data : (fuel n : ℕ) → Bytes → Option Bytes
  http_send_data zero n data' = if length data' == 0 then some [] else none
  http_send_data (suc fuel) n data' = if length data' == 0 then some [] else elim (write n data') [
    | none ↦ some []
    | some k ↦ elim (http_send_data fuel (n + 1) (drop k data')) [
      | none ↦ none
      | some rest ↦ some (take k data' ++ rest)
    ]
  ]
