-- ===== src/Reducer/Processing/Joining.antt =====
-- The workers of reducer_process_main of src/reducer.c, and the calls of thrd_join for them.
use Prim.Native.String.{String}
use mr_lib.Common.{
  ℕ, zero, suc, ◌<◌, ◌≡◌, inl, inr, List, [], ◌∷◌, ◌==◌, ==_iff, size_bytes, Bool-cases, arith,
}
use mr_lib.Os.{Arg, Request, Os}
use mr_lib.Os.Io.{pure, ◌>>=◌, Handler, syscall_exit, ignore, free}
use mr_lib.Os.Steady.{Frame, Settles-Later}
use mr_lib.Log.{LogFile, mr_log}
use mr_lib.Log.Steady.{mr_log-Steady}
use mr_lib.Process.Waiting.{Answers, result, Answers-bind, Answers-handle, anything}
use mr_lib.Queue.{Shared, Threads, mr_queue_destroy, mr_queue_push, mr_queue_close}
use mr_lib.Reducer.Table.{
  Value, TokenNode, Chain, Table, free_values, cleanup_token_node, cleanup_chain,
  cleanup_hash_table,
}
use mr_lib.Reducer.Workers.{beside_queue_do}
use mr_lib.Reducer.Processing.{
  Crew, Blocks, join_first, tear_down, free_blocks, stop_workers, give_up_pushing, push_chain,
  push_table, report,
}

-- `J` is not taken back by a call that is made when the workers are no more
pub record Lasting {W : Type 0} (os : Os W) (threads : Threads W) (crew : Crew W) (J : W → Type 0)
    : Type 0 where
  pub called : (r : Request) (w : W) → J w → J (os.sys r w).1
  pub joined : (j : ℕ) (s : Shared W) → J s.1 → J (crew.join j s).1.1
  pub destroyed : (w : W) → J w → J (crew.mutex_destroy w)
  pub mutex : (w : W) → J w → J (threads.mtx_destroy w)
  pub full : (w : W) → J w → J (threads.cnd_destroy_full w)
  pub empty : (w : W) → J w → J (threads.cnd_destroy_empty w)

-- `Joined i w`: by the world `w`, `thrd_join` has been called for the worker `i`.
pub record Joins {W : Type 0} (os : Os W) (threads : Threads W) (crew : Crew W) : Type 1 where
  pub Joined : ℕ → W → Type 0
  pub joins : (i : ℕ) (s : Shared W) → Joined i (crew.join i s).1.1
  pub lasts : (i : ℕ) → Lasting os threads crew (Joined i)

module _ {W : Type 0} ⦃os : Os W⦄ (threads : Threads W) (crew : Crew W) (log_file : LogFile)
    (J : W → Type 0) (lasting : Lasting os threads crew J) where
  free_lasts : (p : ℕ) (w : W) → J w → J (free p w)
  unfolding free
  free_lasts p w h = lasting.called (Request.free p) w h

  free_values_lasts : (vs : List Value) (w : W) → J w → J (free_values vs w)
  unfolding free_values
  free_values_lasts [] w h = h
  free_values_lasts (v ∷ vs) w h = free_values_lasts vs _ (free_lasts v.content.address w h)

  cleanup_token_node_lasts : (node : TokenNode) (w : W) → J w → J (cleanup_token_node node w)
  unfolding cleanup_token_node
  cleanup_token_node_lasts node w h = free_lasts node.address _ (
      free_lasts node.array _ (free_values_lasts node.values _ (free_lasts node.token.address w h)))

  pub cleanup_chain_lasts : (chain : Chain) (w : W) → J w → J (cleanup_chain chain w)
  unfolding cleanup_chain
  cleanup_chain_lasts [] w h = h
  cleanup_chain_lasts (node ∷ chain) w h =
      cleanup_chain_lasts chain _ (cleanup_token_node_lasts node w h)

  pub cleanup_hash_table_lasts : (table : Table) (w : W) → J w → J (cleanup_hash_table table w)
  unfolding cleanup_hash_table
  cleanup_hash_table_lasts [] w h = h
  cleanup_hash_table_lasts (chain ∷ table) w h =
      cleanup_hash_table_lasts table _ (cleanup_chain_lasts chain w h)

  pub tear_down_lasts : (s : Shared W) → J s.1 → J (tear_down threads crew log_file s).1
  unfolding tear_down mr_queue_destroy
  tear_down_lasts s h =
      lasting.empty _
        (lasting.full _ (lasting.mutex _ (free_lasts s.0.address _ (lasting.destroyed s.1 h))))

  pub free_blocks_lasts :
      (blocks : Blocks) (s : Shared W) → J s.1 → J (free_blocks threads crew log_file blocks s).1
  unfolding free_blocks
  free_blocks_lasts blocks s h = free_lasts blocks.args _ (free_lasts blocks.threads s.1 h)

  frame : Frame os
  frame = record {
    Later = λ u v. J u → J v;
    now = λ w h. h;
    chain = λ a b h. b (a h);
    called = λ r _ w. lasting.called r w;
  }

  pub message_lasts :
      (level pname tname format : String) (args : List Arg) (w : W)
      → J w
      → J (mr_log log_file level pname tname format args w).1
  unfolding frame
  message_lasts level pname tname format args w h =
      Settles-Later frame ((mr_log-Steady frame log_file level pname tname format args).at w) h

  pub report_lasts :
      (i code : ℕ) (s : Shared W) → J s.1 → J (report threads crew log_file i code s).1
  unfolding report ignore
  report_lasts i code s h = elim (Bool-cases (code == 0)) [
    | inl e ↦ rw e h
    | inr e ↦ rw e (message_lasts _ _ _ _ _ s.1 h)
  ]

module _ {W : Type 0} ⦃os : Os W⦄ (threads : Threads W) (crew : Crew W)
    (joining : Joins os threads crew) (log_file : LogFile) where
  open joining use {Joined, joins, lasts}

  -- `thrd_join` has been called for the first `n` workers
  abbrev pub AllJoined : ℕ → W → Type 0
  AllJoined n w = (i : ℕ) → i < n → Joined i w

  join_first-AllJoined :
      (n : ℕ) (s : Shared W) → AllJoined n (join_first threads crew log_file n s).1
  unfolding join_first
  join_first-AllJoined zero s i less = absurd (omega (arith, less))
  join_first-AllJoined (suc n) s i less = elim (Bool-cases (i == n)) [
    | inl e ↦ let same : i ≡ n = (==_iff i n).0 e in rw same (joins n _)
    | inr e ↦
        let before : i < n = ground (arith, less, ==_iff i n) in
        (lasts i).joined n _ (join_first-AllJoined n s i before)
  ]

  stop_workers-AllJoined :
      (n : ℕ) (s : Shared W) → AllJoined n (stop_workers threads crew log_file n s).1
  unfolding stop_workers
  stop_workers-AllJoined n s = join_first-AllJoined n (mr_queue_close threads s).1

  behind_stop-AllJoined :
      (n : ℕ) (blocks : Blocks) (clean_up : Handler W) (s : Shared W)
      → ((i : ℕ) (w : W) → Joined i w → Joined i (clean_up w))
      → AllJoined n
          (tear_down threads crew log_file (
            free_blocks threads crew log_file blocks
              (beside_queue_do clean_up (stop_workers threads crew log_file n s)))).1
  behind_stop-AllJoined n blocks clean_up s keeps i less =
      let J = Joined i in
      let t = beside_queue_do clean_up (stop_workers threads crew log_file n s) in
      tear_down_lasts threads crew log_file J (lasts i) (free_blocks threads crew log_file blocks t)
        (free_blocks_lasts threads crew log_file J (lasts i) blocks t
          (keeps i _ (stop_workers-AllJoined n s i less)))

  give_up_pushing-AllJoined :
      (n : ℕ) (blocks : Blocks) (clean_up : Handler W) (s : Shared W)
      → ((i : ℕ) (w : W) → Joined i w → Joined i (clean_up w))
      → AllJoined n (give_up_pushing threads crew log_file n blocks clean_up s).1
  unfolding give_up_pushing
  give_up_pushing-AllJoined n blocks clean_up s keeps =
      behind_stop-AllJoined n blocks clean_up _ keeps

  module _ (push_fuel reducer_threads : ℕ) (blocks : Blocks) where
    push_chain-AllJoined :
        (chain : Chain) (rest : Table) (count : ℕ) (s : Shared W)
        → Answers
            (λ s'. AllJoined reducer_threads s'.1)
            (λ _ _. Unit {0})
            (push_chain threads crew log_file push_fuel reducer_threads blocks chain rest count s)
    unfolding push_chain ◌>>=◌ syscall_exit pure
    push_chain-AllJoined [] rest count s = result tt
    push_chain-AllJoined (node ∷ chain) rest count s =
        Answers-bind
          (Answers-handle _
            (λ v _. give_up_pushing-AllJoined reducer_threads blocks _ v λ i w h.
              cleanup_hash_table_lasts threads crew log_file (Joined i) (lasts i) rest _
                (cleanup_chain_lasts threads crew log_file (Joined i) (lasts i) (node ∷ chain) w h))
            (anything (mr_queue_push threads push_fuel (size_bytes node.address) s)))
          λ _ u _. push_chain-AllJoined chain rest _ u

    -- Where a node cannot be pushed, the reducer returns EXIT_FAILURE only when it has called thrd_join for
    -- every worker, whichever other call fails.
    pub push_table-AllJoined :
        (table : Table) (count : ℕ) (s : Shared W)
        → Answers
            (λ s'. AllJoined reducer_threads s'.1)
            (λ _ _. Unit {0})
            (push_table threads crew log_file push_fuel reducer_threads blocks table count s)
    unfolding push_table ◌>>=◌ pure
    push_table-AllJoined [] count s = result tt
    push_table-AllJoined (chain ∷ rest) count s =
        Answers-bind (push_chain-AllJoined chain rest count s)
          λ more u _. push_table-AllJoined rest more u
