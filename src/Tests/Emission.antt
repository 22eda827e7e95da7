-- ===== src/Tests/Emission.antt =====
-- The theorems on the emit functions of src/mapper.c and src/reducer.c at concrete messages.
use mr_lib.Common.{true, [], ◌∷◌, Bytes}
use mr_lib.Os.Yields.{Yields}
use mr_lib.Log.{LogFile}
use mr_lib.Emit.{Mutex}
use mr_lib.Tests.Machine.{Machine, machine_os}

abbrev log_of : LogFile
log_of = record { file = 1; sem = 1 }

-- another worker has emitted while this one waited
abbrev busy : Mutex Machine
busy = record { lock = λ s. (true, (5, s.1)); unlock = λ w. (true, w) }

abbrev idle_machine : Machine
idle_machine = record {
  input = [];
  output = 3 ∷ [];
  lines = λ _. [];
  unread = λ _. [];
  stored = λ _. [];
}

abbrev word : Bytes
word = b'a' ∷ []
