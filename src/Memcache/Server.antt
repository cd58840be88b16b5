-- ===== src/Memcache/Server.antt =====
-- memcached, which the programs only talk to: its text protocol for the commands that
-- cachedfs/memcache.c and cachedfs/main.c send. The laws state the documented protocol, for a
-- server that keeps what it stored, with each reply read in one piece.
use fuse_using_memcached.Prelude.{
  ℕ, ◌≤◌, ◌<◌, ◌≡◌, ◌≢◌, ◌++◌, Option, none, some, Bytes, codes, same, All, length, if◌then◌else◌,
}
use fuse_using_memcached.Machine.Decimal.{decimal}

-- A key: at most 250 bytes, no blank and no control character.
abbrev pub IsKeyByte : ℕ → Type 0
IsKeyByte c = (b'!' ≤ c) × (c ≢ 127)

pub record IsKey (k : Bytes) : Type 0 where
  pub filled : 0 < length k
  pub short : length k ≤ 250
  pub plain : All IsKeyByte k

abbrev pub max_value : ℕ
max_value = 65000

abbrev pub newline : Bytes
newline = codes "\r\n"

abbrev pub get_request : Bytes → Bytes
get_request k = codes "get " ++ (k ++ newline)

abbrev pub delete_request : Bytes → Bytes
delete_request k = codes "delete " ++ (k ++ newline)

abbrev pub set_request : Bytes → Bytes → Bytes
set_request k v =
    codes "set " ++ (k ++ (codes " 0 0 " ++ (decimal (length v) ++ (newline ++ (v ++ newline)))))

-- The first line of the reply to a hit, up to its line feed, and the whole reply.
abbrev pub value_line : Bytes → Bytes → Bytes
value_line k v = codes "VALUE " ++ (k ++ (codes " 0 " ++ (decimal (length v) ++ codes "\r")))

abbrev pub value_reply : Bytes → Bytes → Bytes
value_reply k v = value_line k v ++ (codes "\n" ++ (v ++ codes "\r\nEND\r\n"))

-- `serve request s` is what `send` and the `read` after it give: nothing if `send` fails, else the
-- reply and the server's next state.
pub record Memcached : Type 1 where
  pub State : Type 0
  pub serve : Bytes → State → Option (Bytes × State)
  pub view : State → Bytes → Option Bytes
  pub put : Bytes → Bytes → State → State
  pub delete : Bytes → State → State
  pub flush : State → State
  pub serve-get_hit :
      (k v : Bytes) (s : State)
      → IsKey k
      → view s k ≡ some v
      → serve (get_request k) s ≡ some (value_reply k v, s)
  pub serve-get_miss :
      (k : Bytes) (s : State)
      → IsKey k
      → view s k ≡ none
      → serve (get_request k) s ≡ some (codes "END\r\n", s)
  pub serve-set :
      (k v : Bytes) (s : State)
      → IsKey k
      → length v ≤ max_value
      → serve (set_request k v) s ≡ some (codes "STORED\r\n", put k v s)
  pub serve-delete :
      (k : Bytes) (s : State)
      → IsKey k
      → (reply : Bytes) × (serve (delete_request k) s ≡ some (reply, delete k s))
  pub serve-flush_all : (s : State) → serve (codes "flush_all\n") s ≡ some (codes "OK\r\n", flush s)
  pub view-put :
      (k j v : Bytes) (s : State) → view (put k v s) j ≡ (if same k j then some v else view s j)
  pub view-delete :
      (k j : Bytes) (s : State) → view (delete k s) j ≡ (if same k j then none else view s j)
  pub view-flush : (j : Bytes) (s : State) → view (flush s) j ≡ none
