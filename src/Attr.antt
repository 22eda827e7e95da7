-- ===== src/Attr.antt =====
-- The attributes of a job and the job object: src/mr.c, and of src/core.c what makes, checks and
-- frees it. `none` stands for a null pointer; a function that returns -1 with EINVAL is `none` or
-- fails.
pub mod Laws
use mr_lib.Common.{
  ℕ, Bool, true, false, Option, none, some, [], ◌∷◌, Bytes, leb, ◌==◌, ◌&&◌, ◌||◌, if◌then◌else◌,
}
use mathlib.Core.Bool.{not}
use mr_lib.Os.{Os}
use mr_lib.Os.Io.{
  Io, Stop, halt, pure, failed, assert, ◌>>=◌, ◌>>◌, Handler, ◌then_do◌, syscall_ret, free,
}
use mr_lib.Os.Calls

-- `mr_attr_t`
pub record Attr : Type 0 where
  pub mapper_threads : ℕ
  pub reducer_threads : ℕ
  pub queue_size : ℕ
  pub log_file : Option Bytes

-- "mr.log"
abbrev pub default_log_file : Bytes
default_log_file = 109 ∷ 114 ∷ 46 ∷ 108 ∷ 111 ∷ 103 ∷ []

abbrev pub default_mapper_threads : ℕ
default_mapper_threads = 4

abbrev pub default_reducer_threads : ℕ
default_reducer_threads = 4

abbrev pub default_queue_size : ℕ
default_queue_size = 100

unfoldable pub mr_attr_check_mapper_threads : ℕ → Bool
mr_attr_check_mapper_threads n = leb 1 n

unfoldable pub mr_attr_check_reducer_threads : ℕ → Bool
mr_attr_check_reducer_threads n = leb 1 n

unfoldable pub mr_attr_check_queue_size : ℕ → Bool
mr_attr_check_queue_size n = leb 1 n

unfoldable pub mr_attr_check_log_file : Option Bytes → Bool
mr_attr_check_log_file path = true

unfoldable pub mr_attr_check : Attr → Bool
unfolding mr_attr_check_mapper_threads mr_attr_check_reducer_threads mr_attr_check_queue_size
    mr_attr_check_log_file
mr_attr_check attr =
    mr_attr_check_mapper_threads attr.mapper_threads
    && mr_attr_check_reducer_threads attr.reducer_threads
    && mr_attr_check_queue_size attr.queue_size
    && mr_attr_check_log_file attr.log_file

-- what is at `attr` does not matter
unfoldable pub mr_attr_init : Option Attr → Option Attr
mr_attr_init none = none
mr_attr_init (some attr) = some (record {
  mapper_threads = default_mapper_threads;
  reducer_threads = default_reducer_threads;
  queue_size = default_queue_size;
  log_file = some default_log_file;
})

-- `if (attr == NULL || !check) return -1`
unfoldable pub guarded : Option Attr → Bool → (Attr → Attr) → Option Attr
guarded none check change = none
guarded (some attr) false change = none
guarded (some attr) true change = some (change attr)

-- it holds nothing that would be freed
unfoldable pub mr_attr_destroy : Option Attr → Option (Unit {0})
mr_attr_destroy none = none
mr_attr_destroy (some attr) = some tt

unfoldable pub mr_attr_set_mapper_threads : Option Attr → ℕ → Option Attr
unfolding guarded
mr_attr_set_mapper_threads attr n =
    guarded attr (mr_attr_check_mapper_threads n) (λ a. record a { mapper_threads = n })

unfoldable pub mr_attr_set_reducer_threads : Option Attr → ℕ → Option Attr
unfolding guarded
mr_attr_set_reducer_threads attr n =
    guarded attr (mr_attr_check_reducer_threads n) (λ a. record a { reducer_threads = n })

unfoldable pub mr_attr_set_queue_size : Option Attr → ℕ → Option Attr
unfolding guarded
mr_attr_set_queue_size attr n =
    guarded attr (mr_attr_check_queue_size n) (λ a. record a { queue_size = n })

abbrev pub or_default : Option Bytes → Bytes
or_default none = default_log_file
or_default (some path) = path

unfoldable pub mr_attr_set_log_file : Option Attr → Option Bytes → Option Attr
unfolding guarded
mr_attr_set_log_file attr path =
    guarded attr (mr_attr_check_log_file path) (λ a. record a { log_file = some (or_default path) })

-- `struct mr`, with its own address and that of its copy of the log file's name; a function is its
-- address
pub record Mr : Type 0 where
  pub address : ℕ
  pub attr : Attr
  pub log_file_address : ℕ
  pub mapper : ℕ
  pub reducer : ℕ
  pub user_arg : ℕ

-- sizeof(struct mr)
abbrev pub mr_bytes : ℕ
mr_bytes = 56

module _ {W : Type 0} ⦃os : Os W⦄ where
  -- `strdup` of a null pointer is undefined
  copy_name : Option Bytes → Io W ℕ
  copy_name none = λ w. (halt Stop.undefined, w)
  copy_name (some path) = Calls.strdup path

  unfoldable pub mr_init : (address : ℕ) → Attr → (mapper reducer user_arg : ℕ) → Io W Mr
  unfolding copy_name
  mr_init address attr mapper reducer user_arg = do
    assert (mr_attr_check attr)
    assert (not (mapper == 0))
    assert (not (reducer == 0))
    copy ← copy_name attr.log_file
    pure (record {
      address = address;
      attr = attr;
      log_file_address = copy;
      mapper = mapper;
      reducer = reducer;
      user_arg = user_arg;
    })

  unfoldable pub mr_create : Option Attr → (mapper reducer user_arg : ℕ) → Io W Mr
  mr_create none mapper reducer user_arg = failed
  mr_create (some attr) mapper reducer user_arg =
      if not (mr_attr_check attr) || (mapper == 0) || (reducer == 0) then failed else (do
        address ← Calls.malloc mr_bytes
        syscall_ret (mr_init address attr mapper reducer user_arg) (free address))

  unfoldable pub mr_cleanup : Mr → Handler W
  mr_cleanup mr = free mr.log_file_address

  unfoldable pub mr_destroy : Option Mr → Handler W
  mr_destroy none w = w
  mr_destroy (some mr) w = (mr_cleanup mr then_do free mr.address) w
