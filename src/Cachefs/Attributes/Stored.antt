-- ===== src/Cachefs/Attributes/Stored.antt =====
-- The value that an extended attribute of cachedfs/main.c is stored as, and what is read from it.
use fuse_using_memcached.Prelude.{
  ℕ, ◌+◌, ◌^◌, ◌≤◌, ◌<◌, ◌≡◌, ◌≢◌, refl, ap, ◌∙◌, sym, [], ◌∷◌, ◌++◌, some, Bytes, length, take,
  min, arith, All, length-append, append-nil, append_assoc, take-all, ne→==, lt→ltb, lt→leb_false,
  le→leb,
}
use fuse_using_memcached.Machine.Word.{int_bytes, int_of-int_bytes}
use fuse_using_memcached.Machine.Buffer.{Buffer, store, load, load_int, c_string}
use fuse_using_memcached.Machine.Buffer.Parts.{load_int-middle, load-middle}
use fuse_using_memcached.Memcache.Replies.{IsValue}
use fuse_using_memcached.Cachefs.Attributes.{cur_name, xattr_value}

pub record Xattr : Type 0 where
  pub name : Bytes
  pub value : Bytes

-- A name that is a string and that fits `curName`, and a value that fits memcached.
pub record IsXattr (x : Xattr) : Type 0 where
  pub text : All (λ c. c ≢ 0) x.name
  pub short : length x.name < 250
  pub fits : length x.name + length x.value ≤ 64000

abbrev pub xattr_size : Xattr → ℕ
xattr_size x = 32 + length x.name + length x.value

-- `mid` and `pad` are the fields of the header that no operation reads.
abbrev pub xattr_head : (mid pad : Bytes) → (index size : ℕ) → Bytes
xattr_head mid pad index size = int_bytes size ++ (mid ++ (int_bytes index ++ pad))

abbrev pub xattr_tail : Xattr → Bytes
xattr_tail x = int_bytes (length x.name) ++ (x.name ++ (int_bytes (length x.value) ++ x.value))

abbrev pub xattr_cell : (mid pad : Bytes) → ℕ → Xattr → Bytes
xattr_cell mid pad index x = xattr_head mid pad index (xattr_size x) ++ xattr_tail x

c_string-text : (s : Bytes) → All (λ c. c ≢ 0) s → c_string s ≡ s
unfolding c_string
c_string-text [] h = refl
c_string-text (c ∷ s) (h, hs) = rw (ne→== c 0 h) (ap (◌∷◌ c) (c_string-text s hs))

module _ (mid pad : Bytes) (index : ℕ) (x : Xattr) (mid_length : length mid ≡ 12)
    (pad_length : length pad ≡ 4) (ok : IsXattr x) where
  length-head : (size : ℕ) → length (xattr_head mid pad index size) ≡ 24
  length-head size = omega (arith, length-append mid (int_bytes index ++ pad))

  length-tail : length (xattr_tail x) ≡ 8 + length x.name + length x.value
  length-tail = omega (arith, length-append x.name (int_bytes (length x.value) ++ x.value))

  pub length-xattr_cell : length (xattr_cell mid pad index x) ≡ xattr_size x
  length-xattr_cell = omega (
    arith,
    length-append (xattr_head mid pad index (xattr_size x)) (xattr_tail x),
    length-head (xattr_size x),
    length-tail,
  )

  pub xattr_cell-IsValue : IsValue (xattr_cell mid pad index x)
  xattr_cell-IsValue =
      let fits = ok.fits in
      record {
        whole = omega arith;
        sized = int_of-int_bytes (xattr_size x) (omega arith) ∙ sym length-xattr_cell;
        fits = omega (arith, length-xattr_cell);
      }

  module _ (b : Buffer) where
    abbrev head : Bytes
    head = xattr_head mid pad index (xattr_size x)

    abbrev held : Buffer
    held = store 0 (xattr_cell mid pad index x) b

    pub load_int-name : load_int 24 held ≡ length x.name
    load_int-name =
        let short = ok.short in
        load_int-middle head (x.name ++ (int_bytes (length x.value) ++ x.value)) b 24
          (length-head (xattr_size x)) (length x.name) (omega arith)

    load-name : load 28 (length x.name) held ≡ x.name
    load-name =
        let n = int_bytes (length x.name) in
        let rest = int_bytes (length x.value) ++ x.value in
        ap (λ t. load 28 (length x.name) (store 0 t b)) (sym (append_assoc head n (x.name ++ rest)))
        ∙ load-middle (head ++ n) rest b 28
            (omega (arith, length-append head n, length-head (xattr_size x))) x.name (length x.name)
            (omega arith)
        ∙ take-all (length x.name) x.name (omega arith)

    pub cur_name-held : cur_name held ≡ some x.name
    unfolding cur_name
    cur_name-held =
        rw
          (
            load_int-name,
            lt→ltb (length x.name) 250 ok.short,
            load-name,
            c_string-text x.name ok.text,
          )
          refl

    load_int-value : load_int (28 + length x.name) held ≡ length x.value
    load_int-value =
        let n = int_bytes (length x.name) in
        let v = int_bytes (length x.value) in
        let fits = ok.fits in
        let same_text : head ++ (n ++ (x.name ++ (v ++ x.value)))
            ≡ (head ++ (n ++ x.name)) ++ (v ++ x.value) =
          ap (λ t. head ++ t) (sym (append_assoc n x.name (v ++ x.value)))
          ∙ sym (append_assoc head (n ++ x.name) (v ++ x.value)) in
        ap (λ t. load_int (28 + length x.name) (store 0 t b)) same_text
        ∙ load_int-middle (head ++ (n ++ x.name)) x.value b (28 + length x.name)
            (omega (
              arith,
              length-append head (n ++ x.name),
              length-append n x.name,
              length-head (xattr_size x),
            ))
            (length x.value) (omega arith)

    load-value :
        (count : ℕ)
        → count ≤ length x.value
        → load (32 + length x.name) count held ≡ take count x.value
    load-value count le =
        let n = int_bytes (length x.name) in
        let v = int_bytes (length x.value) in
        let same_text : head ++ (n ++ (x.name ++ (v ++ x.value)))
            ≡ (head ++ (n ++ (x.name ++ v))) ++ (x.value ++ []) =
          ap (λ t. head ++ (n ++ t)) (sym (append_assoc x.name v x.value))
          ∙ ap (λ t. head ++ t) (sym (append_assoc n (x.name ++ v) x.value))
          ∙ sym (append_assoc head (n ++ (x.name ++ v)) x.value)
          ∙ ap (λ t. (head ++ (n ++ (x.name ++ v))) ++ t) (sym (append-nil x.value)) in
        ap (λ t. load (32 + length x.name) count (store 0 t b)) same_text
        ∙ load-middle (head ++ (n ++ (x.name ++ v))) [] b (32 + length x.name)
            (omega (
              arith,
              length-append head (n ++ (x.name ++ v)),
              length-append n (x.name ++ v),
              length-append x.name v,
              length-head (xattr_size x),
            ))
            x.value count le

    -- The value's length, and as much of the value as there is room for.
    pub xattr_value-held :
        (size : ℕ)
        → xattr_value held x.name size
          ≡ some (length x.value, take (min size (length x.value)) x.value)
    unfolding xattr_value
    xattr_value-held size =
        let fits = ok.fits in
        rw
          (
            load_int-value,
            lt→leb_false (2 ^ 31) (length x.value) (omega arith),
            le→leb (32 + length x.name + min size (length x.value)) 66000 (omega arith),
            load-value (min size (length x.value)) (omega arith),
          )
          refl
