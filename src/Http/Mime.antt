-- ===== src/Http/Mime.antt =====
-- The type that hw2/libhttp.c gives a file by its name.
use fuse_using_memcached.Prelude.{
  ℕ, ◌≡◌, ◌≢◌, refl, ap, ◌∙◌, [], ◌∷◌, ◌++◌, Bool, true, false, ◌||◌, if◌then◌else◌, List, none,
  some, Bytes, codes, same, All, ne→==,
}
use fuse_using_memcached.Http.{last_dot, mime_of, http_get_mime_type}

abbrev pub NoDot : ℕ → Type 0
NoDot c = c ≢ b'.'

last_dot-none : (s : Bytes) → All NoDot s → last_dot s ≡ none
unfolding last_dot
last_dot-none [] h = refl
last_dot-none (c ∷ s) (h, hs) = rw (last_dot-none s hs, ne→== c b'.' h) refl

last_dot-some :
    (stem ext : Bytes) → All NoDot ext → last_dot (stem ++ (b'.' ∷ ext)) ≡ some (b'.' ∷ ext)
unfolding last_dot
last_dot-some [] ext h = rw (last_dot-none ext h) refl
last_dot-some (c ∷ stem) ext h = rw (last_dot-some stem ext h) refl

-- The extensions that have a type, each with its own.
abbrev pub types : List (Bytes × Bytes)
types =
    (codes "html", codes "text/html")
    ∷ (codes "htm", codes "text/html")
    ∷ (codes "jpg", codes "image/jpeg")
    ∷ (codes "jpeg", codes "image/jpeg")
    ∷ (codes "png", codes "image/png")
    ∷ (codes "css", codes "text/css")
    ∷ (codes "js", codes "application/javascript")
    ∷ (codes "pdf", codes "application/pdf")
    ∷ []

-- The type of an extension in such a list, plain text for one that is not in it.
abbrev pub type_in : List (Bytes × Bytes) → Bytes → Bytes
type_in [] ext = codes "text/plain"
type_in ((e, type) ∷ rest) ext = if same ext e then type else type_in rest ext

if_or :
    (a b : Bool) (x y : Bytes) → (if a || b then x else y) ≡ (if a then x else if b then x else y)
if_or true b x y = refl
if_or false b x y = refl

mime_of-types : (ext : Bytes) → mime_of (b'.' ∷ ext) ≡ type_in types ext
unfolding mime_of same
mime_of-types ext =
    if_or (same ext (codes "html")) (same ext (codes "htm")) (codes "text/html") _
    ∙ ap
        (λ other.
          if same ext (codes "html")
          then codes "text/html"
          else if same ext (codes "htm")
          then codes "text/html"
          else other)
        (if_or (same ext (codes "jpg")) (same ext (codes "jpeg")) (codes "image/jpeg") _)

-- A name whose last extension is one of the eight listed ones has the type that the list gives for it,
-- whatever stands before its last dot; a name with any other last extension and one with no dot is
-- plain text.
pub http_get_mime_type-extension :
    (stem ext : Bytes)
    → All NoDot ext
    → (http_get_mime_type (stem ++ (b'.' ∷ ext)) ≡ type_in types ext)
      × (http_get_mime_type ext ≡ codes "text/plain")
unfolding http_get_mime_type
http_get_mime_type-extension stem ext h = (
  rw (last_dot-some stem ext h, http_get_mime_type) (mime_of-types ext),
  rw (last_dot-none ext h, http_get_mime_type) refl,
)
