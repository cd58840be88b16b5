-- ===== src/Memcache/Laws.antt =====
-- What the client's calls do on a server that follows the protocol.
use fuse_using_memcached.Prelude.{
  ℕ, suc, ◌+◌, ◌≤◌, ◌≡◌, ◌≢◌, ◌∙◌, ◌∷◌, ◌++◌, ◌==◌, if◌then◌else◌, none, some, Bytes, codes, same,
  same_refl, length, take, arith, le→leb, lt→ltb, ne→==,
}
use fuse_using_memcached.Machine.Word.{neg}
use fuse_using_memcached.Machine.Buffer.{Buffer, store, load}
use fuse_using_memcached.Machine.Buffer.Laws.{length-load}
use fuse_using_memcached.Memcache.Server.{Memcached, IsKey, max_value}
use fuse_using_memcached.Memcache.Client.{set_result, cache_get, cache_set, cache_msg, set_line}
use fuse_using_memcached.Memcache.Replies.{
  IsValue, receive-value_reply, receive-end, set_result-stored, set_line-request, length-set_line,
}

module _ (m : Memcached) where
  open m use {State, view, put, delete, serve-get_hit, serve-get_miss, serve-set, serve-delete}

  -- A stored value reaches the caller's buffer whole.
  pub cache_get-hit :
      (junk : ℕ → ℕ) (k v : Bytes) (buffer : Buffer) (s : State)
      → IsKey k
      → IsValue v
      → view s k ≡ some v
      → length v ≤ buffer.size
      → cache_get m junk k buffer s ≡ some ((0, store 0 v buffer), s)
  unfolding cache_get
  cache_get-hit junk k v buffer s key value hit fits =
      let short = key.short in
      rw (
        le→leb (length k + 7) 264 (omega arith),
        serve-get_hit k v s key hit,
        receive-value_reply k v key value junk buffer fits,
      )

  -- Without an entry the call returns -1 and leaves the buffer as it was.
  pub cache_get-miss :
      (junk : ℕ → ℕ) (k : Bytes) (buffer : Buffer) (s : State)
      → IsKey k
      → view s k ≡ none
      → cache_get m junk k buffer s ≡ some ((neg 1, buffer), s)
  unfolding cache_get
  cache_get-miss junk k buffer s key miss =
      let short = key.short in
      rw (
        le→leb (length k + 7) 264 (omega arith),
        serve-get_miss k s key miss,
        receive-end junk buffer,
      )

  -- A value that fits the server's limit is stored under the key, and the call returns 0.
  pub cache_set-put :
      (junk : ℕ → ℕ) (k : Bytes) (val : Buffer) (n : ℕ) (s : State)
      → IsKey k
      → n ≤ max_value
      → n ≤ val.size
      → cache_set m junk k val n s ≡ some (0, put k (load 0 n val) s)
  unfolding cache_set
  cache_set-put junk k val n s key small fits =
      let line = length-set_line k n key.short (omega arith) in
      rw (
        le→leb (length (set_line k n) + n + 3) 66000 (omega arith),
        le→leb n val.size fits,
        set_line-request k (load 0 n val) n (length-load 0 n val) (omega arith),
        serve-set k (load 0 n val) s key (omega (arith, length-load 0 n val)),
        set_result-stored junk,
      )

  pub cache_msg-delete :
      (k : Bytes) (buffer : Buffer) (s : State)
      → IsKey k
      → (b : Buffer) × (cache_msg m (codes "delete " ++ (k ++ codes "\r\n")) buffer s
          ≡ some ((0, b), delete k s))
  unfolding cache_msg
  cache_msg-delete k buffer s key =
      let (reply, e) = serve-delete k s key in
      (store 0 (take buffer.size reply) buffer, rw (e, cache_msg))

-- A value of at most 65000 bytes that begins with its own length, in four bytes, and was stored by
-- cache_set, is what the next cache_get of its key gives, if it fits into the buffer, and no other key's
-- value changes.
pub cache_get-cache_set :
    (m : Memcached) (junk junk' : ℕ → ℕ) (k : Bytes) (val buffer : Buffer) (n : ℕ) (s : m.State)
    → IsKey k
    → IsValue (load 0 n val)
    → n ≤ val.size
    → n ≤ buffer.size
    → (s' : m.State) × (cache_set m junk k val n s ≡ some (0, s'))
      × (cache_get m junk' k buffer s' ≡ some ((0, store 0 (load 0 n val) buffer), s'))
      × ((j : Bytes) → m.view s' j ≡ (if same k j then some (load 0 n val) else m.view s j))
cache_get-cache_set m junk junk' k val buffer n s key value fits room =
    let len = length-load 0 n val in
    (
      m.put k (load 0 n val) s,
      cache_set-put m junk k val n s key (omega (arith, value.fits)) fits,
      cache_get-hit m junk' k (load 0 n val) buffer (m.put k (load 0 n val) s) key value
          (m.view-put k k (load 0 n val) s ∙ rw (same_refl k)) (omega arith),
      λ j. m.view-put k j (load 0 n val) s,
    )

-- The two replies that the code names count as failures only where a zero byte happens to stand behind
-- them in the block. A reply that begins with neither N nor E, such as SERVER_ERROR or CLIENT_ERROR,
-- counts as success.
pub set_result-cases :
    (junk : ℕ → ℕ) (c : ℕ) (reply : Bytes)
    → c ≢ b'N'
    → c ≢ b'E'
    → (set_result junk (codes "NOT_STORED\r\n") ≡ (if junk 12 == 0 then neg 1 else 0))
      × (set_result junk (codes "ERROR\r\n") ≡ (if junk 7 == 0 then neg 1 else 0))
      × (set_result junk (c ∷ reply) ≡ 0)
unfolding set_result
set_result-cases junk c reply f g = (
  ground arith,
  ground arith,
  rw (lt→ltb 0 (0 + suc (length (take 127 reply))) (omega arith), ne→== c b'N' f, ne→== c b'E' g),
)
