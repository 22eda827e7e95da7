-- ===== src/Tests/Jobs.antt =====
-- The theorems on src/queue.c and src/mr.c at concrete arguments.
use mr_lib.Common.{refl, Bool, true, false, some, [], ◌∷◌, arith}
use mr_lib.Os.Yields.{Yields}
use mr_lib.Queue.{Queue, Threads, mr_queue_init, mr_queue_push, mr_queue_pop}
use mr_lib.Queue.Laws.{IsQueue, Interfered, Interfered-refl, Ends}
use mr_lib.Queue.Held.{Rely}
use mr_lib.Queue.Operations.{
  Pushed, Popped, mr_queue_push-Pushed, mr_queue_pop-Popped, mr_queue_pop-closed,
}
use mr_lib.Queue.Init.{Fresh, Refused, mr_queue_init-Fresh}
use mr_lib.Attr.{
  Attr, mr_attr_init, mr_attr_set_queue_size, mr_attr_set_log_file, default_log_file, mr_create,
}
use mr_lib.Attr.Laws.{
  Made, init, set_queue_size, IsUsable, Made-IsUsable, Created, mr_create-Created,
}
use mr_lib.Tests.Machine.{Machine, machine_os, machine_law}

abbrev pub machine : Machine
machine = record { input = []; output = []; lines = λ _. []; unread = λ _. []; stored = λ _. [] }

-- threads of which no other runs
abbrev pub alone : Threads Machine
alone = record {
  mtx_lock = λ s. (true, s);
  cnd_wait_full = λ s. (true, s);
  cnd_wait_empty = λ s. (true, s);
  mtx_unlock = λ w. (true, w);
  cnd_signal_empty = λ w. (true, w);
  cnd_signal_full = λ w. (true, w);
  cnd_broadcast_empty = λ w. (true, w);
  mtx_init = λ w. (true, w);
  cnd_init_full = λ w. (true, w);
  cnd_init_empty = λ w. (true, w);
  mtx_destroy = λ w. w;
  cnd_destroy_full = λ w. w;
  cnd_destroy_empty = λ w. w;
}

alone-Rely : Rely alone
alone-Rely = record {
  lock = λ s i. Interfered-refl s.0 i;
  wait_full = λ s i. Interfered-refl s.0 i;
  wait_empty = λ s i. Interfered-refl s.0 i;
}

-- room for three elements of two bytes, two of them used
abbrev queue : Bool → Queue
queue closed = record {
  buffer = (1 ∷ 2 ∷ []) ∷ (3 ∷ 4 ∷ []) ∷ (7 ∷ 7 ∷ []) ∷ [];
  address = 1;
  capacity = 3;
  element_size = 2;
  count = 2;
  closed = closed;
}

queue-IsQueue : (closed : Bool) → IsQueue (queue closed)
queue-IsQueue closed = record { room = refl; bound = omega arith }

push_example :
    Ends
      (λ s'. Interfered (queue false) s'.0)
      (λ _ s'. Pushed alone alone-Rely (queue false, machine) (5 ∷ 6 ∷ []) s')
      (mr_queue_push alone 1 (5 ∷ 6 ∷ []) (queue false, machine))
push_example =
    mr_queue_push-Pushed alone alone-Rely 1 (5 ∷ 6 ∷ []) (queue false, machine)
      (queue-IsQueue false) refl

pop_example :
    Ends
      (λ s'. Interfered (queue false) s'.0)
      (Popped alone alone-Rely (queue false, machine))
      (mr_queue_pop alone 1 (queue false, machine))
pop_example = mr_queue_pop-Popped alone alone-Rely 1 (queue false, machine) (queue-IsQueue false)

pop_closed_example : Yields (λ _ _. Unit) Unit (mr_queue_pop alone 1 (queue true, machine))
pop_closed_example =
    mr_queue_pop-closed alone alone-Rely 0 (queue true, machine) (queue-IsQueue true) refl

init_example :
    Yields (λ q _. Fresh alone 3 2 q) (Refused alone 6 machine) (mr_queue_init alone 3 2 machine)
init_example = mr_queue_init-Fresh alone 3 2 machine (omega arith) (omega arith) (omega arith)

abbrev attr : Attr
attr = record {
  mapper_threads = 4;
  reducer_threads = 4;
  queue_size = 2;
  log_file = some default_log_file;
}

attr-Made : Made attr
unfolding mr_attr_init mr_attr_set_queue_size mr_lib.Attr.mr_attr_check_queue_size
attr-Made = set_queue_size (init attr refl) 2 refl

attr_example : IsUsable attr
attr_example = Made-IsUsable attr-Made

create_example :
    Yields
      (Created machine_law attr 1 2 3 machine)
      machine_law.Fault
      (mr_create (some attr) 1 2 3 machine)
create_example =
    mr_create-Created machine_law attr 1 2 3 machine (Made-IsUsable attr-Made) (omega arith)
      (omega arith)
