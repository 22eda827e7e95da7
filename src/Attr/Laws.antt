-- ===== src/Attr/Laws.antt =====
-- Attributes that the functions of src/mr.c make, and mr_create.
use mr_lib.Common.{
  ℕ, ◌⊎◌, ◌≤◌, ◌<◌, ◌≡◌, refl, ap, sym, inl, inr, Bool, true, false, Option, none, some, Bytes,
  ◌==◌, arith,
}
use mr_lib.Os.{Os}
use mr_lib.Os.Io.{fail, free, failed, pure, assert, ◌>>=◌, syscall_ret}
use mr_lib.Os.Lawful.{Lawful, Kept, Kept-trans}
use mr_lib.Os.Quiet.{Quiet-malloc, Quiet-strdup}
use mr_lib.Os.Yields
use mr_lib.Os.Yields.{Yields, returns}
use mr_lib.Attr.{
  Attr, default_log_file, or_default, guarded, mr_attr_check_mapper_threads,
  mr_attr_check_reducer_threads, mr_attr_check_queue_size, mr_attr_check_log_file, mr_attr_check,
  mr_attr_init, mr_attr_set_mapper_threads, mr_attr_set_reducer_threads, mr_attr_set_queue_size,
  mr_attr_set_log_file, Mr, mr_bytes, mr_init, mr_create, copy_name,
}

-- what a client can make of an attribute object by calls that return 0
pub data Made : Attr → Type 0 where
  init : (a : Attr) {b : Attr} → mr_attr_init (some a) ≡ some b → Made b
  set_mapper_threads :
      {a b : Attr} → Made a → (n : ℕ) → mr_attr_set_mapper_threads (some a) n ≡ some b → Made b
  set_reducer_threads :
      {a b : Attr} → Made a → (n : ℕ) → mr_attr_set_reducer_threads (some a) n ≡ some b → Made b
  set_queue_size :
      {a b : Attr} → Made a → (n : ℕ) → mr_attr_set_queue_size (some a) n ≡ some b → Made b
  set_log_file :
      {a b : Attr}
      → Made a
      → (path : Option Bytes) → mr_attr_set_log_file (some a) path ≡ some b
      → Made b

-- at least one thread of each kind, a queue of at least one element, and a name for the log
pub record IsUsable (a : Attr) : Type 0 where
  pub mappers : 1 ≤ a.mapper_threads
  pub reducers : 1 ≤ a.reducer_threads
  pub room : 1 ≤ a.queue_size
  pub name : Bytes
  pub named : a.log_file ≡ some name

or_this : Attr → Option Attr → Attr
or_this a none = a
or_this a (some b) = b

some-eq : {a b : Attr} → some a ≡ some b → a ≡ b
unfolding or_this
some-eq {a} h = ap (or_this a) h

guarded-some :
    (a b : Attr) (check : Bool) (change : Attr → Attr) (P : Attr → Type 0)
    → guarded (some a) check change ≡ some b
    → (check ≡ true → P (change a))
    → P b
unfolding guarded
guarded-some a b true change P h holds = rw (sym (some-eq h)) (holds refl)
guarded-some a b false change P h holds = absurd (cc)

-- Attributes that were initialised and then changed only by setters that returned 0 are usable.
pub Made-IsUsable : {a : Attr} → Made a → IsUsable a
unfolding mr_attr_init mr_attr_set_mapper_threads mr_attr_set_reducer_threads mr_attr_set_queue_size
    mr_attr_set_log_file mr_attr_check_mapper_threads mr_attr_check_reducer_threads
    mr_attr_check_queue_size mr_attr_check_log_file
Made-IsUsable (init a {b} h) = rw (sym (some-eq h)) (record {
  mappers = omega arith;
  reducers = omega arith;
  room = omega arith;
  name = default_log_file;
  named = refl;
})
Made-IsUsable (set_mapper_threads {a} {b} m n h) =
    let u = Made-IsUsable m in
    guarded-some a b _ _ IsUsable h λ e. record {
      mappers = ground (arith, e);
      reducers = u.reducers;
      room = u.room;
      name = u.name;
      named = u.named;
    }
Made-IsUsable (set_reducer_threads {a} {b} m n h) =
    let u = Made-IsUsable m in
    guarded-some a b _ _ IsUsable h λ e. record {
      mappers = u.mappers;
      reducers = ground (arith, e);
      room = u.room;
      name = u.name;
      named = u.named;
    }
Made-IsUsable (set_queue_size {a} {b} m n h) =
    let u = Made-IsUsable m in
    guarded-some a b _ _ IsUsable h λ e. record {
      mappers = u.mappers;
      reducers = u.reducers;
      room = ground (arith, e);
      name = u.name;
      named = u.named;
    }
Made-IsUsable (set_log_file {a} {b} m path h) =
    let u = Made-IsUsable m in
    guarded-some a b (mr_attr_check_log_file path)
      (λ x. record x { log_file = some (or_default path) }) IsUsable h
      λ e. record {
        mappers = u.mappers;
        reducers = u.reducers;
        room = u.room;
        name = or_default path;
        named = refl;
      }

IsUsable-check : (a : Attr) → IsUsable a → mr_attr_check a ≡ true
unfolding mr_attr_check mr_attr_check_mapper_threads mr_attr_check_reducer_threads
    mr_attr_check_queue_size mr_attr_check_log_file
IsUsable-check a u = ground (arith, u.mappers, u.reducers, u.room)

module _ {W : Type 0} ⦃os : Os W⦄ where
  -- Attributes that a check refuses, a missing mapper or a missing reducer are refused, and no call is
  -- made.
  pub mr_create-refused :
      (attr : Attr) (mapper reducer user_arg : ℕ) (w : W)
      → (mr_attr_check attr ≡ false) ⊎ ((mapper ≡ 0) ⊎ (reducer ≡ 0))
      → mr_create (some attr) mapper reducer user_arg w ≡ (fail, w)
  unfolding mr_create failed
  mr_create-refused attr mapper reducer user_arg w (inl e) = ground (arith, e)
  mr_create-refused attr mapper reducer user_arg w (inr (inl e)) = ground (arith, e)
  mr_create-refused attr mapper reducer user_arg w (inr (inr e)) = ground (arith, e)

  module _ (law : Lawful os) where
    open law use {Fault}

    -- the job object that was asked for
    pub record Created (attr : Attr) (mapper reducer user_arg : ℕ) (w : W) (mr : Mr) (w' : W)
        : Type 0 where
      pub attr_of : mr.attr ≡ attr
      pub mapper_of : mr.mapper ≡ mapper
      pub reducer_of : mr.reducer ≡ reducer
      pub arg_of : mr.user_arg ≡ user_arg
      pub kept : Kept law w w'

    -- With usable attributes and two functions a job is created unless a call fails: no assertion
    -- fails and no name is missing.
    pub mr_create-Created :
        (attr : Attr) (mapper reducer user_arg : ℕ) (w : W)
        → IsUsable attr
        → 0 < mapper
        → 0 < reducer
        → Yields
            (Created attr mapper reducer user_arg w)
            Fault
            (mr_create (some attr) mapper reducer user_arg w)
    unfolding mr_create mr_init copy_name assert pure ◌>>=◌ syscall_ret
    mr_create-Created attr mapper reducer user_arg w u some_mapper some_reducer =
        let checked = IsUsable-check attr u in
        let m : (mapper == 0) ≡ false = ground arith in
        let r : (reducer == 0) ≡ false = ground arith in
        rw (checked, m, r)
          (Yields.bind ((Quiet-malloc law mr_bytes (omega arith)).at w) λ address w₁ k.
            Yields.handle (free address) (
              rw u.named (
                Yields.bind ((Quiet-strdup law u.name).at w₁) λ copy w₂ k'. returns (record {
                  attr_of = refl;
                  mapper_of = refl;
                  reducer_of = refl;
                  arg_of = refl;
                  kept = Kept-trans law k k';
                }))))
