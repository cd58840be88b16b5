-- ===== src/Shell/Redirection/Laws.antt =====
-- What hw1/shell.c makes of a command's words, and where its null pointer and its search end.
use fuse_using_memcached.Prelude.{
  ℕ, zero, suc, ◌-◌, ◌≡◌, refl, ◌∙◌, [], ◌∷◌, ◌++◌, Bool, true, false, ◌&&◌, not, ◌==◌, leb, ◌≤◌,
  lt→leb_false, if◌then◌else◌, List, Option, some, Bytes, codes, length, get_or, arith, All,
  append-nil, append_assoc, Bool-cases, inl, inr,
}
use fuse_using_memcached.Shell.Redirection.{Process, send_out, take_in, add_param, redirect}

-- What a command says behind its name: arguments, and files for its output and its input.
pub data Item : Type 0 where
  argument output input : Bytes → Item

abbrev pub words_of : List Item → List Bytes
words_of [] = []
words_of (argument w ∷ items) = w ∷ words_of items
words_of (output f ∷ items) = codes ">" ∷ f ∷ words_of items
words_of (input f ∷ items) = codes "<" ∷ f ∷ words_of items

abbrev pub arguments : List Item → List Bytes
arguments [] = []
arguments (argument w ∷ items) = w ∷ arguments items
arguments (output f ∷ items) = arguments items
arguments (input f ∷ items) = arguments items

-- Whether there is no redirection among the items.
abbrev pub all_arguments : List Item → Bool
all_arguments [] = true
all_arguments (argument w ∷ items) = all_arguments items
all_arguments (output f ∷ items) = false
all_arguments (input f ∷ items) = false

leb-suc : (a b : ℕ) → leb (suc a) (suc b) ≡ leb a b
leb-suc a b = ground arith

length-arguments : (items : List Item) → length (arguments items) ≤ length (words_of items)
length-arguments [] = omega arith
length-arguments (argument w ∷ items) = omega (arith, length-arguments items)
length-arguments (output f ∷ items) = omega (arith, length-arguments items)
length-arguments (input f ∷ items) = omega (arith, length-arguments items)

pub arguments_full :
    (items : List Item)
    → leb (length (words_of items)) (length (arguments items)) ≡ all_arguments items
arguments_full [] = refl
arguments_full (argument w ∷ items) = leb-suc _ _ ∙ arguments_full items
arguments_full (output f ∷ items) = lt→leb_false _ _ (omega (arith, length-arguments items))
arguments_full (input f ∷ items) = lt→leb_false _ _ (omega (arith, length-arguments items))

-- A word that is an argument: it begins with neither `>` nor `<`.
abbrev pub is_plain : Bytes → Bool
is_plain w = not (get_or w 0 0 == b'>') && not (get_or w 0 0 == b'<')

abbrev pub IsItem : Item → Type 0
IsItem (argument w) = is_plain w ≡ true
IsItem (output f) = Unit
IsItem (input f) = Unit

suc_minus : (n : ℕ) → suc n - 1 ≡ n
suc_minus n = omega arith

is_plain_neither :
    (w : Bytes)
    → is_plain w ≡ true
    → ((get_or w 0 0 == b'>') ≡ false) × ((get_or w 0 0 == b'<') ≡ false)
is_plain_neither w h = ground arith

-- The last file that can be opened, or else the one so far.
abbrev pub last_output : (open_out : Bytes → Bool) → Option Bytes → List Item → Option Bytes
last_output open_out o [] = o
last_output open_out o (output f ∷ items) =
    last_output open_out (if open_out f then some f else o) items
last_output open_out o (argument w ∷ items) = last_output open_out o items
last_output open_out o (input f ∷ items) = last_output open_out o items

abbrev pub last_input : (open_in : Bytes → Bool) → Option Bytes → List Item → Option Bytes
last_input open_in o [] = o
last_input open_in o (input f ∷ items) = last_input open_in (if open_in f then some f else o) items
last_input open_in o (argument w ∷ items) = last_input open_in o items
last_input open_in o (output f ∷ items) = last_input open_in o items

module _ (open_out open_in : Bytes → Bool) where
  redirect-argument :
      (left : ℕ) (w : Bytes) (words : List Bytes) (p : Process)
      → is_plain w ≡ true
      → redirect open_out open_in (suc left) (w ∷ words) p
        ≡ redirect open_out open_in left words (add_param w p)
  unfolding redirect
  redirect-argument zero w [] p h = rw ((is_plain_neither w h).0, (is_plain_neither w h).1) refl
  redirect-argument (suc left) w [] p h =
      rw ((is_plain_neither w h).0, (is_plain_neither w h).1) refl
  redirect-argument left w (v ∷ words) p h =
      rw ((is_plain_neither w h).0, (is_plain_neither w h).1) refl

  send_out-file :
      (f : Bytes) (p : Process)
      → send_out open_out (some f) p
        ≡ record { params = p.params; out = if open_out f then some f else p.out; inp = p.inp }
  unfolding send_out
  send_out-file f p = elim (Bool-cases (open_out f)) [ inl e ↦ rw e refl | inr e ↦ rw e refl ]

  take_in-file :
      (f : Bytes) (p : Process)
      → take_in open_in (some f) p
        ≡ record { params = p.params; out = p.out; inp = if open_in f then some f else p.inp }
  unfolding take_in
  take_in-file f p = elim (Bool-cases (open_in f)) [ inl e ↦ rw e refl | inr e ↦ rw e refl ]

  -- A command's items, written as words with anything behind them, give the process all arguments and, of
  -- the files that can be opened, the last for its output and the last for its input.
  pub redirect-items :
      (items : List Item) (trail : List Bytes) (p : Process)
      → All IsItem items
      → redirect open_out open_in (length (words_of items)) (words_of items ++ trail) p ≡ record {
        params = p.params ++ arguments items;
        out = last_output open_out p.out items;
        inp = last_input open_in p.inp items;
      }
  unfolding redirect add_param
  redirect-items [] trail p h = rw (append-nil p.params) refl
  redirect-items (argument w ∷ items) trail p (hw, h) =
      redirect-argument (length (words_of items)) w (words_of items ++ trail) p hw
      ∙ redirect-items items trail (add_param w p) h
      ∙ rw (append_assoc p.params (w ∷ []) (arguments items)) refl
  redirect-items (output f ∷ items) trail p (hw, h) =
      rw
        (
          suc_minus (length (words_of items)),
          redirect-items items trail (send_out open_out (some f) p) h,
          send_out-file f p,
        )
        refl
  redirect-items (input f ∷ items) trail p (hw, h) =
      rw
        (
          suc_minus (length (words_of items)),
          redirect-items items trail (take_in open_in (some f) p) h,
          take_in-file f p,
        )
        refl
