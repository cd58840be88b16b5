-- ===== src/Tests/WorkQueue.antt =====
-- The work queue over plain lists.
use fuse_using_memcached.Prelude.{ℕ, ◌≡◌, ◌⊎◌, refl, [], ◌∷◌, ◌++◌, List, some, arith}
use fuse_using_memcached.WorkQueue.{
  LinkedList, Wq, waits, gives, wq_init, wq_push, wq_pop, pop_head, Event, pushed, popped, Run,
  start, push, wait, wait_again, pop_woken, wait_loop, locked, woken, pushes, pops,
}
use fuse_using_memcached.WorkQueue.Order.{Run-fifo, wq_pop-Run}

abbrev tail : List ℕ → List ℕ
tail [] = []
tail (x ∷ xs) = xs

tail-cons : (q : List ℕ) (x : ℕ) (xs : List ℕ) → q ≡ x ∷ xs → tail q ≡ xs
tail-cons q x xs e = rw e refl

abbrev plain : LinkedList
plain = record {
  Items = List ℕ;
  null = [];
  append = λ q x. q ++ (x ∷ []);
  delete_head = tail;
  items = λ q. q;
  items-null = refl;
  items-append = λ q x. refl;
  items-delete_head = tail-cons;
}

abbrev events : List (Event plain)
events = pushed 4 ∷ pushed 5 ∷ popped 4 ∷ []

abbrev left : Wq plain
left = record { size = 1; head = 5 ∷ [] }

empty_waits : wq_pop plain locked (wq_init plain) ≡ some waits
unfolding wq_pop wait_loop
empty_waits = refl

empty_again : wq_pop plain woken (wq_init plain) ≡ some waits
unfolding wq_pop wait_loop
empty_again = refl

first_popped : wq_pop plain woken (record { size = 2; head = 4 ∷ 5 ∷ [] }) ≡ some (gives 4 left)
unfolding wq_pop wait_loop pop_head
first_popped = refl

-- Two threads wait, one goes on for nothing, two sockets come, and one thread takes a socket.
small_run : Run plain 1 events left
unfolding wq_push
small_run =
    pop_woken 4 left first_popped
      (push 5 (push 4 (wait_again empty_again (wait empty_waits (wait empty_waits start)))))

Run-fifo_example : pushes plain events ≡ pops plain events ++ (5 ∷ [])
Run-fifo_example = Run-fifo plain small_run (omega arith)

wq_pop-Run_example :
    ((pushes plain events ≡ pops plain events) × (wq_pop plain woken left ≡ some waits))
    ⊎ ((fd : ℕ) × (wq' : Wq plain) × (wq_pop plain woken left ≡ some (gives fd wq'))
        × (pushes plain events ≡ pops plain events ++ (fd ∷ wq'.head)))
wq_pop-Run_example = wq_pop-Run plain woken small_run (omega arith)
