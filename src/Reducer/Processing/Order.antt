-- ===== src/Reducer/Processing/Order.antt =====
-- The order in which the nodes of the hash table go to the workers, and what becomes of those that do
-- not.
use mr_lib.Common.{
  ℕ, zero, suc, arith, ◌+◌, ◌%◌, ◌≡◌, refl, ap, sym, ◌∙◌, [], ◌∷◌, ◌++◌, size_bytes, size_limit,
}
use mr_lib.Os.{Os}
use mr_lib.Os.Io.{
  Io, Outcome, recover, free, ok, fail, halt, after, pure, ◌>>=◌, ◌>>◌, Handler, ◌then_do◌,
  syscall_exit,
}
use mr_lib.Log.{LogFile, mr_log_error}
use mr_lib.Queue.{Shared, Threads, mr_queue_push, mr_queue_close, mr_queue_destroy}
use mr_lib.Reducer.Table.{Chain, Table, cleanup_chain, cleanup_hash_table}
use mr_lib.Reducer.Table.Freeing.{freed, freed_nodes, cleanup_chain-freed}
use mr_lib.Reducer.Processing.{
  Crew, Blocks, give_up_pushing, join_first, stop_workers, tear_down, free_blocks, push_chain,
  push_table,
}

-- all nodes of a table, chain by chain
abbrev pub nodes_of : Table → Chain
nodes_of [] = []
nodes_of (chain ∷ rest) = chain ++ nodes_of rest

after-after :
    {A B C W : Type 0} (o : Outcome A × W) (f : A → Io W B) (g : B → Io W C)
    → after (after o f) g ≡ after o (λ a w. after (f a w) g)
after-after (ok a, w) f g = refl
after-after (fail, w) f g = refl
after-after (halt r, w) f g = refl

bind_assoc :
    {A B C W : Type 0} (m : Io W A) (k : Io W B) (g : B → Io W C)
    → ((m >> k) >>= g) ≡ (m >> (k >>= g))
unfolding ◌>>=◌
bind_assoc m k g = λ i w. after-after (m w) (λ _. k) g i

module _ {W : Type 0} ⦃os : Os W⦄ where
  cleanup_chain-append :
      (a b : Chain) (w : W) → cleanup_chain b (cleanup_chain a w) ≡ cleanup_chain (a ++ b) w
  unfolding cleanup_chain
  cleanup_chain-append [] b w = refl
  cleanup_chain-append (node ∷ a) b w = cleanup_chain-append a b _

  cleanup_hash_table-nodes :
      (table : Table) (w : W) → cleanup_hash_table table w ≡ cleanup_chain (nodes_of table) w
  unfolding cleanup_hash_table cleanup_chain
  cleanup_hash_table-nodes [] w = refl
  cleanup_hash_table-nodes (chain ∷ rest) w =
      cleanup_hash_table-nodes rest _ ∙ cleanup_chain-append chain (nodes_of rest) w

  module _ (threads : Threads W) (crew : Crew W) (log_file : LogFile) (push_fuel : ℕ)
      (reducer_threads : ℕ) (blocks : Blocks) where
    -- the nodes one by one, with the code's own way out of a failed push
    feed_or_give_up : Chain → (tokens_count : ℕ) → Io (Shared W) ℕ
    feed_or_give_up [] tokens_count = pure tokens_count
    feed_or_give_up (node ∷ nodes) tokens_count = do
      syscall_exit (mr_queue_push threads push_fuel (size_bytes node.address)) (
          give_up_pushing threads crew log_file reducer_threads blocks
            (cleanup_chain (node ∷ nodes)))
      feed_or_give_up nodes ((tokens_count + 1) % size_limit)

    clean_up-nodes :
        (chain : Chain) (rest : Table)
        → ◌≡◌ {A = Handler W}
            (cleanup_chain chain then_do cleanup_hash_table rest)
            (cleanup_chain (chain ++ nodes_of rest))
    clean_up-nodes chain rest = λ i w.
        (cleanup_hash_table-nodes rest (cleanup_chain chain w)
            ∙ cleanup_chain-append chain (nodes_of rest) w)
          i

    push_chain-feed :
        (chain : Chain) (rest : Table) (next : ℕ → Io (Shared W) ℕ) (n : ℕ)
        → ((m : ℕ) → next m ≡ feed_or_give_up (nodes_of rest) m)
        → (push_chain threads crew log_file push_fuel reducer_threads blocks chain rest n >>= next)
          ≡ feed_or_give_up (chain ++ nodes_of rest) n
    unfolding push_chain feed_or_give_up ◌>>=◌ pure
    push_chain-feed [] rest next n h = h n
    push_chain-feed (node ∷ chain) rest next n h =
        let later = (n + 1) % size_limit in
        let push : Io (Shared W) (Unit {0}) =
          syscall_exit (mr_queue_push threads push_fuel (size_bytes node.address)) (
            give_up_pushing threads crew log_file reducer_threads blocks
              (cleanup_chain ((node ∷ chain) ++ nodes_of rest))) in
        rw (clean_up-nodes (node ∷ chain) rest) (
          bind_assoc push
            (push_chain threads crew log_file push_fuel reducer_threads blocks chain rest later)
            next
          ∙ ap (λ (k : Io (Shared W) ℕ). push >> k) (push_chain-feed chain rest next later h))

    push_table-nodes :
        (table : Table) (n : ℕ)
        → push_table threads crew log_file push_fuel reducer_threads blocks table n
          ≡ feed_or_give_up (nodes_of table) n
    unfolding push_table feed_or_give_up
    push_table-nodes [] n = refl
    push_table-nodes (chain ∷ rest) n = push_chain-feed chain rest _ n (push_table-nodes rest)

    -- `thrd_join` for `left` workers from number `i` on
    abbrev pub joined : (left i : ℕ) → Handler (Shared W)
    joined zero i s = s
    joined (suc left) i s = joined left (i + 1) (crew.join i s).1

    joined-suc :
        (left i : ℕ) (s : Shared W)
        → joined (suc left) i s ≡ (crew.join (i + left) (joined left i s)).1
    joined-suc zero i s = let e : i + 0 ≡ i = omega arith in rw e refl
    joined-suc (suc left) i s =
        let e : i + 1 + left ≡ i + suc left = omega arith in
        joined-suc left (i + 1) (crew.join i s).1
        ∙ ap (λ (k : ℕ). (crew.join k (joined (suc left) i s)).1) e

    join_first-joined : (n : ℕ) (s : Shared W) → join_first threads crew log_file n s ≡ joined n 0 s
    unfolding join_first
    join_first-joined zero s = refl
    join_first-joined (suc n) s =
        let e : 0 + n ≡ n = omega arith in
        ap (λ (r : Shared W). (crew.join n r).1) (join_first-joined n s)
        ∙ ap (λ (k : ℕ). (crew.join k (joined n 0 s)).1) (sym e)
        ∙ sym (joined-suc n 0 s)

    -- the mutex of the standard output and the queue, which are there no more
    abbrev pub destroyed : Handler (Shared W)
    destroyed s = (
      s.0,
      threads.cnd_destroy_empty (
          threads.cnd_destroy_full
            (threads.mtx_destroy (freed s.0.address (crew.mutex_destroy s.1)))),
    )

    -- the queue as a call of `mr_queue_close` leaves it, whatever the call returns
    abbrev pub closed : Handler (Shared W)
    closed s = (mr_queue_close threads s).1

    -- what is done where a push fails: the failure is logged, the queue is closed, every worker is
    -- waited for, the nodes are freed, then the two blocks, and the mutexes and the queue are destroyed
    abbrev pub given_up : Chain → Handler (Shared W)
    given_up nodes s =
        let said : Shared W = (
          s.0,
          mr_log_error log_file "Reducer" "Controller" "Failed to push token to queue" [] s.1,
        ) in
        let stopped : Shared W = joined reducer_threads 0 (closed said) in
        destroyed
          (stopped.0, freed blocks.args (freed blocks.threads (freed_nodes nodes stopped.1)))

    give_up_pushing-given_up :
        (nodes : Chain) (s : Shared W)
        → give_up_pushing threads crew log_file reducer_threads blocks (cleanup_chain nodes) s
          ≡ given_up nodes s
    unfolding give_up_pushing stop_workers tear_down free_blocks mr_queue_destroy free
        mr_lib.Reducer.Processing.say
    give_up_pushing-given_up nodes s =
        let said : Shared W = (
          s.0,
          mr_log_error log_file "Reducer" "Controller" "Failed to push token to queue" [] s.1,
        ) in
        let way_out : Shared W → Shared W =
          λ r. destroyed (r.0, freed blocks.args (freed blocks.threads r.1)) in
        ap (λ (r : Shared W). way_out (r.0, cleanup_chain nodes r.1))
          (join_first-joined reducer_threads (closed said))
        ∙ ap (λ (v : W). way_out ((joined reducer_threads 0 (closed said)).0, v))
            (cleanup_chain-freed nodes _)

    -- The nodes one by one. A push that fails ends it, with -1, behind `given_up`.
    abbrev pub feed : Chain → (tokens_count : ℕ) → Io (Shared W) ℕ
    feed [] tokens_count s = (ok tokens_count, s)
    feed (node ∷ nodes) tokens_count s =
        after
          (recover (mr_queue_push threads push_fuel (size_bytes node.address) s)
            (given_up (node ∷ nodes)))
          (λ _. feed nodes ((tokens_count + 1) % size_limit))

    feed_or_give_up-feed :
        (nodes : Chain) (n : ℕ) (s : Shared W) → feed_or_give_up nodes n s ≡ feed nodes n s
    unfolding feed_or_give_up syscall_exit ◌>>=◌ pure
    feed_or_give_up-feed [] n s = refl
    feed_or_give_up-feed (node ∷ nodes) n s =
        let push = mr_queue_push threads push_fuel (size_bytes node.address) s in
        let later = (n + 1) % size_limit in
        ap (λ (h : Handler (Shared W)). after (recover push h) (λ _. feed_or_give_up nodes later))
          (λ i r. give_up_pushing-given_up (node ∷ nodes) r i)
        ∙ ap (λ (k : Io (Shared W) ℕ). after (recover push (given_up (node ∷ nodes))) (λ _. k))
            (λ i r. feed_or_give_up-feed nodes later r i)

    -- Pushing the chains of the table one after the other is pushing its nodes one by one, each counted
    -- once; where a push fails, that is logged, the queue is closed, every worker is waited for, and
    -- then that node and all behind it are freed, and no other, and the blocks of the workers, and the
    -- mutexes, the conditions and the buffer of the queue are given up.
    pub push_table-feed :
        (table : Table) (n : ℕ) (s : Shared W)
        → push_table threads crew log_file push_fuel reducer_threads blocks table n s
          ≡ feed (nodes_of table) n s
    push_table-feed table n s =
        ap (λ (m : Io (Shared W) ℕ). m s) (push_table-nodes table n)
        ∙ feed_or_give_up-feed (nodes_of table) n s
