-- ===== src/WorkQueue.antt =====
-- hw2/wq.c. The list macros of utlist.h are a parameter. Both operations hold the one mutex from their
-- first to their last access, but for the wait of wq_pop, which releases it and takes it again; so the
-- threads take turns, and a run is a sequence of what is done between two changes of the mutex. A thread
-- that waits goes on at any time, with a signal or without one.
pub mod Order
use fuse_using_memcached.Prelude.{
  ℕ, zero, suc, ◌+◌, ◌==◌, ◌≡◌, [], ◌∷◌, ◌++◌, List, Option, none, some, if◌then◌else◌,
}
use fuse_using_memcached.Machine.Word.{int_add, int_sub}

-- DL_APPEND, DL_DELETE of the head, and the sockets of a list from its head on.
pub record LinkedList : Type 1 where
  pub Items : Type 0
  pub null : Items
  pub append : Items → ℕ → Items
  pub delete_head : Items → Items
  pub items : Items → List ℕ
  pub items-null : items null ≡ []
  pub items-append : (q : Items) (x : ℕ) → items (append q x) ≡ items q ++ (x ∷ [])
  pub items-delete_head :
      (q : Items) (x : ℕ) (xs : List ℕ) → items q ≡ x ∷ xs → items (delete_head q) ≡ xs

module _ (l : LinkedList) where
  pub record Wq : Type 0 where
    pub size : ℕ
    pub head : l.Items

  -- What a call of `wq_pop` meets: it waits, or gives a socket; `none` is the read of a null head.
  pub data Pop : Type 0 where
    waits : Pop
    gives : ℕ → Wq → Pop

  abbrev pub wq_init : Wq
  wq_init = record { size = 0; head = l.null }

  unfoldable pub wq_push : Wq → ℕ → Wq
  wq_push wq client_socket_fd = record {
    size = int_add wq.size 1;
    head = l.append wq.head client_socket_fd;
  }

  -- The end of `wq_pop`, for the sockets from the head on.
  unfoldable pub pop_head : Wq → List ℕ → Option Pop
  pop_head wq [] = none
  pop_head wq (client_socket_fd ∷ rest) =
      some
        (gives client_socket_fd (record { size = int_sub wq.size 1; head = l.delete_head wq.head }))

  -- `while (wq->size == 0)` from its test on, up to the next wait or to the end.
  unfoldable pub wait_loop : Wq → Option Pop
  unfolding pop_head
  wait_loop wq = if wq.size == 0 then some waits else pop_head wq (l.items wq.head)

  -- Where a call of `wq_pop` gets the mutex: at its start, or behind a wait.
  pub data Entry : Type 0 where
    locked woken : Entry

  unfoldable pub wq_pop : Entry → Wq → Option Pop
  unfolding wait_loop
  wq_pop locked wq = wait_loop wq
  wq_pop woken wq = wait_loop wq

  pub data Event : Type 0 where
    pushed popped : ℕ → Event

  -- The runs of all threads: how many wait, and what was done, in the order in which the mutex was held.
  pub data Run : ℕ → List Event → Wq → Type 0 where
    start : Run 0 [] wq_init
    push :
        {n : ℕ} {es : List Event} {wq : Wq} (fd : ℕ)
        → Run n es wq
        → Run n (es ++ (pushed fd ∷ [])) (wq_push wq fd)
    wait :
        {n : ℕ} {es : List Event} {wq : Wq}
        → wq_pop locked wq ≡ some waits
        → Run n es wq
        → Run (suc n) es wq
    pop :
        {n : ℕ} {es : List Event} {wq : Wq} (fd : ℕ) (wq' : Wq)
        → wq_pop locked wq ≡ some (gives fd wq')
        → Run n es wq
        → Run n (es ++ (popped fd ∷ [])) wq'
    wait_again :
        {n : ℕ} {es : List Event} {wq : Wq}
        → wq_pop woken wq ≡ some waits
        → Run (suc n) es wq
        → Run (suc n) es wq
    pop_woken :
        {n : ℕ} {es : List Event} {wq : Wq} (fd : ℕ) (wq' : Wq)
        → wq_pop woken wq ≡ some (gives fd wq')
        → Run (suc n) es wq
        → Run n (es ++ (popped fd ∷ [])) wq'

  abbrev pub pushes : List Event → List ℕ
  pushes [] = []
  pushes (pushed fd ∷ es) = fd ∷ pushes es
  pushes (popped fd ∷ es) = pushes es

  abbrev pub pops : List Event → List ℕ
  pops [] = []
  pops (pushed fd ∷ es) = pops es
  pops (popped fd ∷ es) = fd ∷ pops es
