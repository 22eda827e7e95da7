-- ===== src/Tests/Joining.antt =====
-- A world that is the set of the workers that thrd_join has been called for, in which pushes fail.
use mr_lib.Common.{
  ℕ, ◌≡◌, refl, ap, ◌∙◌, inl, inr, Bool, true, false, some, [], ◌∷◌, ◌==◌, ==_refl, Bool-cases,
}
use mr_lib.Os.{Os}
use mr_lib.Os.Lawful.{update}
use mr_lib.Process.Waiting.{Answers}
use mr_lib.Queue.{Queue, Threads}
use mr_lib.Reducer.Table.{Table}
use mr_lib.Reducer.Processing.{Crew, push_table, process_tokens}
use mr_lib.Reducer.Processing.Joining.{Joins, AllJoined, push_table-AllJoined}
use mr_lib.Reducer.Processing.Ending.{process_tokens-AllJoined}
use mr_lib.Tests.Calm.{calm, calm-same}
use mr_lib.Tests.Reduction.{log_file}

record Roll : Type 0 where
  joined : ℕ → Bool

instance abbrev roll_os : Os Roll
roll_os = record { sys = calm; stale = λ w n. [] }

-- the mutex of the queue cannot be locked, or it can
abbrev threads : Bool → Threads Roll
threads locks = record {
  mtx_lock = λ s. (locks, s);
  cnd_wait_full = λ s. (true, s);
  cnd_wait_empty = λ s. (true, s);
  mtx_unlock = λ w. (true, w);
  cnd_signal_empty = λ w. (true, w);
  cnd_signal_full = λ w. (true, w);
  cnd_broadcast_empty = λ w. (true, w);
  mtx_init = λ w. (true, w);
  cnd_init_full = λ w. (true, w);
  cnd_init_empty = λ w. (true, w);
  mtx_destroy = λ w. w;
  cnd_destroy_full = λ w. w;
  cnd_destroy_empty = λ w. w;
}

abbrev crew : Crew Roll
crew = record {
  create = λ i s. (true, s);
  join = λ i s. (some 0, (s.0, record { joined = update i true s.1.joined }));
  mutex_init = λ w. (true, w);
  mutex_destroy = λ w. w;
}

update_kept : (i j : ℕ) (f : ℕ → Bool) → f i ≡ true → update j true f i ≡ true
update_kept i j f h = elim (Bool-cases (j == i)) [ inl e ↦ rw e refl | inr e ↦ rw (e, h) refl ]

abbrev joins : (locks : Bool) → Joins roll_os (threads locks) crew
joins locks = record {
  Joined = λ i w. w.joined i ≡ true;
  joins = λ i s. rw (==_refl i) refl;
  lasts = λ i. record {
    called = λ r w h. ap (λ (v : Roll). v.joined i) (calm-same r w) ∙ h;
    joined = λ j s h. update_kept i j s.1.joined h;
    destroyed = λ w h. h;
    mutex = λ w h. h;
    full = λ w h. h;
    empty = λ w h. h;
  };
}

abbrev queue : Queue
queue = record {
  buffer = [] ∷ [];
  address = 1;
  capacity = 1;
  element_size = 8;
  count = 0;
  closed = false;
}

abbrev table : Table
table =
    (record {
      address = 8;
      token = record { address = 16; bytes = 97 ∷ [] };
      array = 0;
      values = [];
      count = 0;
      capacity = 0;
    }
      ∷ [])
    ∷ []

abbrev nobody : Roll
nobody = record { joined = λ i. false }

push_table-AllJoined_example :
    Answers
      (λ s'. AllJoined (threads false) crew (joins false) log_file 2 s'.1)
      (λ _ _. Unit {0})
      (push_table
        (threads false)
        crew
        log_file
        1
        2
        (record { threads = 1; args = 2 })
        table
        0
        (queue, nobody))
push_table-AllJoined_example =
    push_table-AllJoined (threads false) crew (joins false) log_file 1 2
      (record { threads = 1; args = 2 }) table 0 (queue, nobody)

process_tokens-AllJoined_example :
    Answers
      (λ _. Unit {0})
      (λ _ s'. AllJoined (threads true) crew (joins true) log_file 2 s'.1)
      (process_tokens
        (threads true)
        crew
        log_file
        1
        (λ w. 0)
        2
        (record { hash_table = table; pairs_received = 0 })
        (queue, nobody))
process_tokens-AllJoined_example =
    process_tokens-AllJoined (threads true) crew (joins true) log_file 1 (λ w. 0) 2
      (record { hash_table = table; pairs_received = 0 }) (queue, nobody)
