-- ===== src/Memcache/Dictionary.antt =====
-- A server that follows the protocol: a dictionary that reads the requests as text. It shows that
-- the laws of `Memcached` can be met, and runs the examples.
use fuse_using_memcached.Prelude.{
  ℕ, ◌-◌, ◌≤◌, ◌≡◌, ◌≢◌, refl, ap, ap₂, ◌∙◌, [], ◌∷◌, ◌++◌, Option, none, some, ◌==◌, if◌then◌else◌,
  Bytes, codes, same, All, length, take, arith, ne→==, take-append, length-append, append_assoc,
  All-append,
}
use fuse_using_memcached.Machine.Decimal.{decimal}
use fuse_using_memcached.Machine.Decimal.Laws.{IsDigit, decimal-IsDigit}
use fuse_using_memcached.Memcache.Server.{
  Memcached, IsKey, IsKeyByte, max_value, get_request, set_request, delete_request, value_reply,
  newline,
}

abbrev pub Entries : Type 0
Entries = Bytes → Option Bytes

-- The rest of a text behind a prefix.
strip : Bytes → Bytes → Option Bytes
strip [] r = some r
strip (x ∷ p) [] = none
strip (x ∷ p) (y ∷ r) = if x == y then strip p r else none

-- A text up to a byte, and behind it.
up_to : ℕ → Bytes → Bytes
up_to b [] = []
up_to b (c ∷ s) = if c == b then [] else c ∷ up_to b s

behind : ℕ → Bytes → Bytes
behind b [] = []
behind b (c ∷ s) = if c == b then s else behind b s

abbrev Lacks : ℕ → Bytes → Type 0
Lacks b = All (λ c. c ≢ b)

up_to-append : (b : ℕ) (k rest : Bytes) → Lacks b k → up_to b (k ++ (b ∷ rest)) ≡ k
unfolding up_to
up_to-append b [] rest h = ground arith
up_to-append b (c ∷ k) rest (h, hs) = rw (ne→== c b h) (ap (◌∷◌ c) (up_to-append b k rest hs))

behind-append : (b : ℕ) (k rest : Bytes) → Lacks b k → behind b (k ++ (b ∷ rest)) ≡ rest
unfolding behind
behind-append b [] rest h = ground arith
behind-append b (c ∷ k) rest (h, hs) = rw (ne→== c b h) (behind-append b k rest hs)

serve_get : Bytes → Entries → Option (Bytes × Entries)
serve_get k s = elim (s k) [ none ↦ some (codes "END\r\n", s) | some v ↦ some (value_reply k v, s) ]

abbrev pub store_entry : Bytes → Bytes → Entries → Entries
store_entry k v s j = if same k j then some v else s j

abbrev pub remove_entry : Bytes → Entries → Entries
remove_entry k s j = if same k j then none else s j

-- The value of a `set` request behind its command line.
body : Bytes → Bytes
body r = let t = behind b'\n' r in take (length t - 2) t

unfoldable pub serve_request : Bytes → Entries → Option (Bytes × Entries)
unfolding strip up_to behind body serve_get
serve_request request s = elim (strip (codes "get ") request) [
  | some r ↦ serve_get (up_to b'\r' r) s
  | none ↦ elim (strip (codes "set ") request) [
    | some r ↦ some (codes "STORED\r\n", store_entry (up_to b' ' r) (body r) s)
    | none ↦ elim (strip (codes "delete ") request) [
      | some r ↦ some (codes "DELETED\r\n", remove_entry (up_to b'\r' r) s)
      | none ↦ some (codes "OK\r\n", λ j. none)
    ]
  ]
]

return-Lacks : (k : Bytes) → All IsKeyByte k → Lacks b'\r' k
return-Lacks [] h = tt
return-Lacks (c ∷ k) (h, hs) = (omega arith, return-Lacks k hs)

blank-Lacks : (k : Bytes) → All IsKeyByte k → Lacks b' ' k
blank-Lacks [] h = tt
blank-Lacks (c ∷ k) (h, hs) = (omega arith, blank-Lacks k hs)

key-Lacks : (k : Bytes) → All IsKeyByte k → Lacks b'\n' k
key-Lacks [] h = tt
key-Lacks (c ∷ k) (h, hs) = (omega arith, key-Lacks k hs)

digits-Lacks : (k : Bytes) → All IsDigit k → Lacks b'\n' k
digits-Lacks [] h = tt
digits-Lacks (c ∷ k) (h, hs) = (omega arith, digits-Lacks k hs)

abbrev set_head : Bytes → Bytes → Bytes
set_head k v = k ++ (codes " 0 0 " ++ (decimal (length v) ++ codes "\r"))

set_head-Lacks : (k v : Bytes) → All IsKeyByte k → Lacks b'\n' (set_head k v)
set_head-Lacks k v h =
    All-append (λ c. c ≢ b'\n') k (codes " 0 0 " ++ (decimal (length v) ++ codes "\r"))
      (key-Lacks k h)
      (
        omega arith,
        (
          omega arith,
          (
            omega arith,
            (
              omega arith,
              (
                omega arith,
                All-append (λ c. c ≢ b'\n') (decimal (length v)) (codes "\r")
                    (digits-Lacks (decimal (length v)) (decimal-IsDigit (length v))) (omega arith),
              ),
            ),
          ),
        ),
      )

abbrev set_rest : Bytes → Bytes → Bytes
set_rest k v = k ++ (codes " 0 0 " ++ (decimal (length v) ++ (newline ++ (v ++ newline))))

set_rest-split : (k v : Bytes) → set_rest k v ≡ set_head k v ++ (b'\n' ∷ (v ++ newline))
set_rest-split k v = simp append_assoc

body-set_rest : (k v : Bytes) → All IsKeyByte k → body (set_rest k v) ≡ v
unfolding body
body-set_rest k v h =
    rw
      (set_rest-split k v, behind-append b'\n' (set_head k v) (v ++ newline) (set_head-Lacks k v h))
      (take-append (length (v ++ newline) - 2) v newline (omega (arith, length-append v newline)))

serve_request-get :
    (k : Bytes) (s : Entries) → IsKey k → serve_request (get_request k) s ≡ serve_get k s
unfolding serve_request
serve_request-get k s key =
    ap (λ j. serve_get j s) (up_to-append b'\r' k (codes "\n") (return-Lacks k key.plain))

pub get_hit :
    (k v : Bytes) (s : Entries)
    → IsKey k
    → s k ≡ some v
    → serve_request (get_request k) s ≡ some (value_reply k v, s)
unfolding serve_get
get_hit k v s key h = serve_request-get k s key ∙ rw (h, serve_get)

pub get_miss :
    (k : Bytes) (s : Entries)
    → IsKey k
    → s k ≡ none
    → serve_request (get_request k) s ≡ some (codes "END\r\n", s)
unfolding serve_get
get_miss k s key h = serve_request-get k s key ∙ rw (h, serve_get)

pub set_lem :
    (k v : Bytes) (s : Entries)
    → IsKey k
    → length v ≤ max_value
    → serve_request (set_request k v) s ≡ some (codes "STORED\r\n", store_entry k v s)
unfolding serve_request
set_lem k v s key _ =
    ap₂ (λ j w. some (codes "STORED\r\n", store_entry j w s))
      (up_to-append b' ' k (codes "0 0 " ++ (decimal (length v) ++ (newline ++ (v ++ newline))))
        (blank-Lacks k key.plain))
      (body-set_rest k v key.plain)

pub delete_lem :
    (k : Bytes) (s : Entries)
    → IsKey k
    → (reply : Bytes) × (serve_request (delete_request k) s ≡ some (reply, remove_entry k s))
unfolding serve_request
delete_lem k s key = (
  codes "DELETED\r\n",
  ap (λ j. some (codes "DELETED\r\n", remove_entry j s))
      (up_to-append b'\r' k (codes "\n") (return-Lacks k key.plain)),
)

pub flush_lem :
    (s : Entries) → serve_request (codes "flush_all\n") s ≡ some (codes "OK\r\n", λ j. none)
unfolding serve_request
flush_lem s = refl

abbrev pub dictionary : Memcached
dictionary = record {
  State = Entries;
  serve = serve_request;
  view = λ s k. s k;
  put = store_entry;
  delete = remove_entry;
  flush = λ s j. none;
  serve-get_hit = get_hit;
  serve-get_miss = get_miss;
  serve-set = set_lem;
  serve-delete = delete_lem;
  serve-flush_all = flush_lem;
  view-put = λ k j v s. refl;
  view-delete = λ k j s. refl;
  view-flush = λ j s. refl;
}
