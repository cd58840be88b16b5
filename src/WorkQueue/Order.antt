-- ===== src/WorkQueue/Order.antt =====
-- The order of hw2/wq.c's queue.
use fuse_using_memcached.Prelude.{
  ℕ, ◌^◌, ◌<◌, ◌≡◌, refl, ap, ap₂, ◌∙◌, sym, [], ◌∷◌, ◌++◌, List, Option, none, some, length,
  length-append, append_assoc, append-nil, arith, ne→==, Bool, ◌⊎◌, ◌==◌, inl, inr, true, false,
  if◌then◌else◌,
}
use fuse_using_memcached.Machine.Word.{int_sub}
use fuse_using_memcached.WorkQueue.{
  LinkedList, Wq, Pop, waits, gives, wq_push, pop_head, wait_loop, Entry, locked, woken, wq_pop,
  Event, pushed, popped, Run, start, push, wait, pop, wait_again, pop_woken, pushes, pops,
}

module _ (l : LinkedList) where
  pushes-append : (es fs : List (Event l)) → pushes l (es ++ fs) ≡ pushes l es ++ pushes l fs
  pushes-append [] fs = refl
  pushes-append (pushed fd ∷ es) fs = ap (◌∷◌ fd) (pushes-append es fs)
  pushes-append (popped fd ∷ es) fs = pushes-append es fs

  pops-append : (es fs : List (Event l)) → pops l (es ++ fs) ≡ pops l es ++ pops l fs
  pops-append [] fs = refl
  pops-append (pushed fd ∷ es) fs = pops-append es fs
  pops-append (popped fd ∷ es) fs = ap (◌∷◌ fd) (pops-append es fs)

  -- The queue holds the sockets that were pushed and not yet popped, and counts them.
  record IsQueue (es : List (Event l)) (wq : Wq l) : Type 0 where
    ordered : pushes l es ≡ pops l es ++ l.items wq.head
    counted : wq.size ≡ length (l.items wq.head)

  -- What a call of `wq_pop` that gives a socket has taken.
  record IsPopped (wq : Wq l) (fd : ℕ) (wq' : Wq l) : Type 0 where
    taken : l.items wq.head ≡ fd ∷ l.items wq'.head
    size : wq'.size ≡ int_sub wq.size 1

  fd_of : Option (Pop l) → ℕ
  fd_of none = 0
  fd_of (some waits) = 0
  fd_of (some (gives fd wq)) = fd

  wq_of : Wq l → Option (Pop l) → Wq l
  wq_of d none = d
  wq_of d (some waits) = d
  wq_of d (some (gives fd wq)) = wq

  module _ (wq : Wq l) (fd : ℕ) (wq' : Wq l) where
    pop_head-IsPopped :
        (xs : List ℕ)
        → l.items wq.head ≡ xs
        → pop_head l wq xs ≡ some (gives fd wq')
        → IsPopped wq fd wq'
    unfolding pop_head fd_of wq_of
    pop_head-IsPopped [] e h = ground arith
    pop_head-IsPopped (x ∷ xs) e h =
        let same_fd : x ≡ fd = ap fd_of h in
        let same_wq : record { size = int_sub wq.size 1; head = l.delete_head wq.head } ≡ wq' =
          ap (wq_of wq) h in
        record {
          taken =
              e
              ∙ ap₂ ◌∷◌ same_fd
                  (sym (l.items-delete_head wq.head x xs e) ∙ ap (λ q. l.items q.head) same_wq);
          size = ap (λ q. q.size) (sym same_wq);
        }

    after_test :
        (b : Bool)
        → (if b then some waits else pop_head l wq (l.items wq.head)) ≡ some (gives fd wq')
        → IsPopped wq fd wq'
    after_test true h = absurd (ground arith)
    after_test false h = pop_head-IsPopped (l.items wq.head) refl h

    wq_pop-IsPopped : (from : Entry l) → wq_pop l from wq ≡ some (gives fd wq') → IsPopped wq fd wq'
    unfolding wq_pop wait_loop
    wq_pop-IsPopped locked h = after_test (wq.size == 0) h
    wq_pop-IsPopped woken h = after_test (wq.size == 0) h

  pushes-popped : (es : List (Event l)) (fd : ℕ) → pushes l (es ++ (popped fd ∷ [])) ≡ pushes l es
  pushes-popped es fd = pushes-append es (popped fd ∷ []) ∙ append-nil (pushes l es)

  popped-IsQueue :
      (es : List (Event l)) (fd : ℕ) (wq wq' : Wq l)
      → IsPopped wq fd wq'
      → IsQueue es wq
      → length (pushes l (es ++ (popped fd ∷ []))) < 2 ^ 32
      → IsQueue (es ++ (popped fd ∷ [])) wq'
  popped-IsQueue es fd wq wq' p q few =
      let bound = length-append (pops l es) (l.items wq.head) in
      record {
        ordered =
            pushes-popped es fd
            ∙ q.ordered
            ∙ ap (λ k. pops l es ++ k) p.taken
            ∙ sym (append_assoc (pops l es) (fd ∷ []) (l.items wq'.head))
            ∙ ap (λ k. k ++ l.items wq'.head) (sym (pops-append es (popped fd ∷ [])));
        counted = omega (
          arith,
          q.counted,
          p.size,
          ap length p.taken,
          ap length (pushes-popped es fd),
          ap length q.ordered,
        );
      }

  Run-IsQueue :
      {n : ℕ} {es : List (Event l)} {wq : Wq l}
      → Run l n es wq
      → length (pushes l es) < 2 ^ 32
      → IsQueue es wq
  unfolding wq_push
  Run-IsQueue start few = record { ordered = sym l.items-null; counted = rw l.items-null refl }
  Run-IsQueue (push {es = es} {wq = wq} fd run) few =
      let more : pushes l (es ++ (pushed fd ∷ [])) ≡ pushes l es ++ (fd ∷ []) =
        pushes-append es (pushed fd ∷ []) in
      let len = length-append (pushes l es) (fd ∷ []) in
      let small : length (pushes l es) < 2 ^ 32 = omega (arith, ap length more) in
      let q = Run-IsQueue run small in
      let bound = length-append (pops l es) (l.items wq.head) in
      let grown = length-append (l.items wq.head) (fd ∷ []) in
      let same_pops : pops l (es ++ (pushed fd ∷ [])) ≡ pops l es =
        pops-append es (pushed fd ∷ []) ∙ append-nil (pops l es) in
      record {
        ordered =
            more
            ∙ ap (λ k. k ++ (fd ∷ [])) q.ordered
            ∙ append_assoc (pops l es) (l.items wq.head) (fd ∷ [])
            ∙ ap₂ ◌++◌ (sym same_pops) (sym (l.items-append wq.head fd));
        counted =
            rw (l.items-append wq.head fd)
              (omega (arith, q.counted, ap length more, ap length q.ordered));
      }
  Run-IsQueue (wait h run) few = Run-IsQueue run few
  Run-IsQueue (wait_again h run) few = Run-IsQueue run few
  Run-IsQueue (pop {es = es} fd wq' h run) few =
      let small : length (pushes l es) < 2 ^ 32 = omega (arith, ap length (pushes-popped es fd)) in
      popped-IsQueue es fd _ wq' (wq_pop-IsPopped _ fd wq' locked h) (Run-IsQueue run small) few
  Run-IsQueue (pop_woken {es = es} fd wq' h run) few =
      let small : length (pushes l es) < 2 ^ 32 = omega (arith, ap length (pushes-popped es fd)) in
      popped-IsQueue es fd _ wq' (wq_pop-IsPopped _ fd wq' woken h) (Run-IsQueue run small) few

  -- In every run of the threads with fewer than 2 ^ 32 pushes, the sockets that were pushed are those
  -- that were popped, in the same order, and behind them those that the queue holds.
  pub Run-fifo :
      {n : ℕ} {es : List (Event l)} {wq : Wq l}
      → Run l n es wq
      → length (pushes l es) < 2 ^ 32
      → pushes l es ≡ pops l es ++ l.items wq.head
  Run-fifo run few = let q = Run-IsQueue run few in q.ordered

  wq_pop-items :
      (from : Entry l) (wq : Wq l) (xs : List ℕ)
      → l.items wq.head ≡ xs
      → wq.size ≡ length xs
      → length xs < 2 ^ 32
      → ((xs ≡ []) × (wq_pop l from wq ≡ some waits))
        ⊎ ((fd : ℕ) × (wq' : Wq l) × (wq_pop l from wq ≡ some (gives fd wq'))
            × (xs ≡ fd ∷ l.items wq'.head))
  unfolding wq_pop wait_loop pop_head
  wq_pop-items locked wq [] e size few = inl (refl, rw size refl)
  wq_pop-items woken wq [] e size few = inl (refl, rw size refl)
  wq_pop-items locked wq (x ∷ xs) e size few =
      let some_left : (wq.size == 0) ≡ false = ne→== wq.size 0 (λ z. absurd (omega arith)) in
      inr (
        x,
        record { size = int_sub wq.size 1; head = l.delete_head wq.head },
        rw (some_left, e) refl,
        ap (◌∷◌ x) (sym (l.items-delete_head wq.head x xs e)),
      )
  wq_pop-items woken wq (x ∷ xs) e size few =
      let some_left : (wq.size == 0) ≡ false = ne→== wq.size 0 (λ z. absurd (omega arith)) in
      inr (
        x,
        record { size = int_sub wq.size 1; head = l.delete_head wq.head },
        rw (some_left, e) refl,
        ap (◌∷◌ x) (sym (l.items-delete_head wq.head x xs e)),
      )

  -- Behind every run of the threads with fewer than 2 ^ 32 pushes, a thread that gets the mutex at the
  -- start of `wq_pop`, and one that gets it behind a wait, reads no null head: it waits if every pushed socket was popped, and else it gives the oldest socket that was pushed
  -- and not popped, and leaves the others in the queue, in their order.
  pub wq_pop-Run :
      (from : Entry l) {n : ℕ} {es : List (Event l)} {wq : Wq l}
      → Run l n es wq
      → length (pushes l es) < 2 ^ 32
      → ((pushes l es ≡ pops l es) × (wq_pop l from wq ≡ some waits))
        ⊎ ((fd : ℕ) × (wq' : Wq l) × (wq_pop l from wq ≡ some (gives fd wq'))
            × (pushes l es ≡ pops l es ++ (fd ∷ l.items wq'.head)))
  wq_pop-Run from {es = es} {wq = wq} run few =
      let q = Run-IsQueue run few in
      let bound = length-append (pops l es) (l.items wq.head) in
      elim (wq_pop-items from wq (l.items wq.head) refl q.counted
        (omega (arith, ap length q.ordered))) [
          | inl (e, w) ↦ inl (q.ordered ∙ ap (λ k. pops l es ++ k) e ∙ append-nil (pops l es), w)
          | inr (fd, wq', w, e) ↦ inr (fd, wq', w, q.ordered ∙ ap (λ k. pops l es ++ k) e)
        ]
