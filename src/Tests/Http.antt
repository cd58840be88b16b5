-- ===== src/Tests/Http.antt =====
-- The request parser and the sender at small inputs.
use fuse_using_memcached.Prelude.{
  All, ℕ, same, ◌≡◌, ◌↔◌, refl, ◌∷◌, ◌++◌, Option, some, Bytes, codes, arith,
}
use fuse_using_memcached.Http.{
  http_request_parse, http_send_data, http_get_mime_type, last_dot, mime_of, pass, parse_path,
  parse_end,
}
use fuse_using_memcached.Http.Laws.{IsRequest, http_send_data-all}
use fuse_using_memcached.Http.Mime.{NoDot, http_get_mime_type-extension}
use fuse_using_memcached.Http.Sound.{http_request_parse_iff}

mime_html : http_get_mime_type (codes "a.b.html") ≡ codes "text/html"
unfolding http_get_mime_type last_dot mime_of same
mime_html = refl

get-IsRequest : IsRequest (codes "GET") (codes "/a") (codes " HTTP/1.0\r")
get-IsRequest = record {
  method_filled = omega arith;
  method_chars = (refl, (refl, (refl, tt)));
  path_filled = omega arith;
  path_chars = (refl, (refl, tt));
  tail_start = refl;
  tail_chars = (refl, (refl, (refl, (refl, (refl, (refl, (refl, (refl, (refl, (refl, tt))))))))));
}

http_request_parse_iff_example :
    (http_request_parse (codes "GET /a HTTP/1.0\r\nHost")
      ≡ some (record { method = codes "GET"; path = codes "/a" }))
    ↔ ((tail : Bytes) × (more : Bytes) × (codes "GET /a HTTP/1.0\r\nHost"
          ≡ codes "GET" ++ (b' ' ∷ (codes "/a" ++ (tail ++ (b'\n' ∷ more)))))
        × IsRequest (codes "GET") (codes "/a") tail)
http_request_parse_iff_example =
    http_request_parse_iff (codes "GET /a HTTP/1.0\r\nHost")
      (record { method = codes "GET"; path = codes "/a" })

parsed :
    http_request_parse (codes "GET /a HTTP/1.0\r\nHost")
    ≡ some (record { method = codes "GET"; path = codes "/a" })
unfolding http_request_parse pass parse_path parse_end
parsed = refl

-- A kernel that takes one byte at a time.
abbrev one_byte : ℕ → Bytes → Option ℕ
one_byte n b = some 1

http_send_data-all_example : http_send_data one_byte 3 0 (codes "abc") ≡ some (codes "abc")
http_send_data-all_example =
    http_send_data-all one_byte 3 0 (codes "abc")
      (λ i b filled. (1, refl, omega arith, omega arith)) (omega arith)

html-NoDot : All NoDot (codes "html")
html-NoDot = (
  λ e. absurd (omega arith),
  (λ e. absurd (omega arith), (λ e. absurd (omega arith), (λ e. absurd (omega arith), tt))),
)

http_get_mime_type-extension_example :
    (http_get_mime_type (codes "a.b.html") ≡ codes "text/html")
    × (http_get_mime_type (codes "html") ≡ codes "text/plain")
unfolding same
http_get_mime_type-extension_example =
    http_get_mime_type-extension (codes "a.b") (codes "html") html-NoDot
