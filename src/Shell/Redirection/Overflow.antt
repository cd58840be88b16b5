-- ===== src/Shell/Redirection/Overflow.antt =====
-- The array of the arguments in `main` of hw1/shell.c, which has no place for the null pointer.
use fuse_using_memcached.Prelude.{
  ℕ, zero, suc, ◌+◌, ◌-◌, ◌≤◌, ◌≡◌, refl, ap, ◌∙◌, [], ◌∷◌, Bool, true, ◌&&◌, leb, ◌==◌, List,
  Option, none, some, Bytes, length, get_or, take, arith, Bool-cases, inl, inr, length-append,
  le→leb, lt→leb_false,
}
use fuse_using_memcached.Shell.Redirection.{
  Process, send_out, take_in, add_param, redirect, null_beyond,
}
use fuse_using_memcached.Shell.Redirection.Laws.{is_plain}

abbrev pub all_plain : List Bytes → Bool
all_plain [] = true
all_plain (w ∷ words) = is_plain w && all_plain words

send_out-params :
    (open_out : Bytes → Bool) (f : Option Bytes) (p : Process)
    → length (send_out open_out f p).params ≡ length p.params
unfolding send_out
send_out-params open_out none p = refl
send_out-params open_out (some f) p = elim (Bool-cases (open_out f)) [
  | inl e ↦ rw e refl
  | inr e ↦ rw e refl
]

take_in-params :
    (open_in : Bytes → Bool) (f : Option Bytes) (p : Process)
    → length (take_in open_in f p).params ≡ length p.params
unfolding take_in
take_in-params open_in none p = refl
take_in-params open_in (some f) p = elim (Bool-cases (open_in f)) [
  | inl e ↦ rw e refl
  | inr e ↦ rw e refl
]

add_param-params : (w : Bytes) (p : Process) → length (add_param w p).params ≡ length p.params + 1
unfolding add_param
add_param-params w p = length-append p.params (w ∷ [])

abbrev pub no_params : Process
no_params = record { params = []; out = none; inp = none }

module _ (open_out open_in : Bytes → Bool) where
  params_within :
      (left : ℕ) (words : List Bytes) (p : Process)
      → length (redirect open_out open_in left words p).params ≤ length p.params + left
  unfolding redirect
  params_within zero words p = omega arith
  params_within (suc left) [] p = omega arith
  params_within (suc left) (w ∷ []) p =
      grind (
        arith,
        send_out-params open_out none p,
        take_in-params open_in none p,
        add_param-params w p,
      )
  params_within (suc left) (w ∷ v ∷ words) p = elim (Bool-cases (get_or w 0 0 == b'>')) [
    | inl e ↦ rw e (
        omega (
          arith,
          params_within (left - 1) words (send_out open_out (some v) p),
          send_out-params open_out (some v) p,
        ))
    | inr e ↦ rw e (elim (Bool-cases (get_or w 0 0 == b'<')) [
      | inl e' ↦ rw e' (
          omega (
            arith,
            params_within (left - 1) words (take_in open_in (some v) p),
            take_in-params open_in (some v) p,
          ))
      | inr e' ↦
          rw e'
            (omega (arith, params_within left (v ∷ words) (add_param w p), add_param-params w p))
    ])
  ]

  params_full :
      (left : ℕ) (words : List Bytes) (p : Process)
      → left ≤ length words
      → leb (length p.params + left) (length (redirect open_out open_in left words p).params)
        ≡ all_plain (take left words)
  unfolding redirect
  params_full zero words p h = le→leb (length p.params + 0) (length p.params) (omega arith)
  params_full (suc left) [] p h = absurd (omega arith)
  params_full (suc (suc left)) (w ∷ []) p h = absurd (omega arith)
  params_full (suc zero) (w ∷ []) p h = elim (Bool-cases (get_or w 0 0 == b'>')) [
    | inl e ↦ rw e (lt→leb_false (length p.params + 1) (length p.params) (omega arith))
    | inr e ↦ rw e (elim (Bool-cases (get_or w 0 0 == b'<')) [
      | inl e' ↦ rw e' (lt→leb_false (length p.params + 1) (length p.params) (omega arith))
      | inr e' ↦ rw e' (
          le→leb (length p.params + 1) (length (add_param w p).params)
            (omega (arith, add_param-params w p)))
    ])
  ]
  params_full (suc left) (w ∷ v ∷ words) p h = elim (Bool-cases (get_or w 0 0 == b'>')) [
    | inl e ↦ rw e (
        lt→leb_false (length p.params + suc left)
          (length
            (redirect open_out open_in (left - 1) words (send_out open_out (some v) p)).params)
          (omega (
            arith,
            params_within (left - 1) words (send_out open_out (some v) p),
            send_out-params open_out (some v) p,
          )))
    | inr e ↦ rw e (elim (Bool-cases (get_or w 0 0 == b'<')) [
      | inl e' ↦ rw e' (
          lt→leb_false (length p.params + suc left)
            (length
              (redirect open_out open_in (left - 1) words (take_in open_in (some v) p)).params)
            (omega (
              arith,
              params_within (left - 1) words (take_in open_in (some v) p),
              take_in-params open_in (some v) p,
            )))
      | inr e' ↦ rw e' (
          let n : length p.params + suc left ≡ length (add_param w p).params + left =
            omega (arith, add_param-params w p) in
          rw n (params_full left (v ∷ words) (add_param w p) (omega arith)))
    ])
  ]

  -- The loop of a new process fills at most num_params places of the array of its arguments, so that only
  -- the null pointer can stand behind the array; it does where none of the words is a redirection, and
  -- nowhere else.
  pub null_beyond-plain :
      (words : List Bytes) (num_params : ℕ)
      → num_params ≤ length words
      → (length (redirect open_out open_in num_params words no_params).params ≤ num_params)
        × (null_beyond num_params (redirect open_out open_in num_params words no_params)
            ≡ all_plain (take num_params words))
  unfolding null_beyond
  null_beyond-plain words num_params h = (
    omega (arith, params_within num_params words no_params),
    (let e : num_params ≡ 0 + num_params = omega arith in
          ap (λ n. leb n (length (redirect open_out open_in num_params words no_params).params)) e)
        ∙ params_full num_params words no_params h,
  )
