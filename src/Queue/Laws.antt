-- ===== src/Queue/Laws.antt =====
-- The queue of src/queue.c as a stack, what operations may make of it (`Interfered`), and how an
-- operation ends (`Ends`).
use mr_lib.Common.{
  ℕ, zero, suc, ◌+◌, ◌-◌, ◌≤◌, ◌<◌, ◌≡◌, ◌≢◌, refl, ap, sym, ◌∙◌, Bool, true, false, List, [], ◌∷◌,
  append-nil, Bytes, length, take, take-append, take-again, get_or, set, length-set, get_or-set,
  get_or-set_other, arith,
}
use mr_lib.Os.Io.{Outcome, Stop, ok, fail, halt, after, succeed, Handler, recover}
use mr_lib.Queue.{Queue, pushed, popped, top}

-- the last `n` elements of the array, the newest first
abbrev pub elements : (n element_size : ℕ) → List Bytes → List Bytes
elements zero element_size buffer = []
elements (suc n) element_size buffer =
    take element_size (get_or buffer n []) ∷ elements n element_size buffer

-- the queue as a stack
abbrev pub stack : Queue → List Bytes
stack q = elements q.count q.element_size q.buffer

pub record IsQueue (q : Queue) : Type 0 where
  pub room : length q.buffer ≡ q.capacity
  pub bound : q.count ≤ q.capacity

-- `q'` may be what other operations have made of `q`: a closed queue stays closed
pub record Interfered (q q' : Queue) : Type 0 where
  pub well : IsQueue q'
  pub capacity_kept : q'.capacity ≡ q.capacity
  pub size_kept : q'.element_size ≡ q.element_size
  pub stays_closed : q.closed ≡ true → q'.closed ≡ true

pub Interfered-refl : (q : Queue) → IsQueue q → Interfered q q
Interfered-refl q i = record {
  well = i;
  capacity_kept = refl;
  size_kept = refl;
  stays_closed = λ c. c;
}

pub Interfered-trans : {q r s : Queue} → Interfered q r → Interfered r s → Interfered q s
Interfered-trans a b = record {
  well = b.well;
  capacity_kept = b.capacity_kept ∙ a.capacity_kept;
  size_kept = b.size_kept ∙ a.size_kept;
  stays_closed = λ c. b.stays_closed (a.stays_closed c);
}

pub length-elements : (n size : ℕ) (buffer : List Bytes) → length (elements n size buffer) ≡ n
length-elements zero size buffer = refl
length-elements (suc n) size buffer = ap suc (length-elements n size buffer)

elements-set :
    (n count element_size : ℕ) (buffer : List Bytes) (x : Bytes)
    → n ≤ count
    → elements n element_size (set buffer count x) ≡ elements n element_size buffer
elements-set zero count element_size buffer x h = refl
elements-set (suc n) count element_size buffer x h =
    let other : count ≢ n = omega arith in
    rw
      (
        get_or-set_other buffer count n x [] other,
        elements-set n count element_size buffer x (omega arith),
      )
      refl

pub take-full : (bs : Bytes) (n : ℕ) → length bs ≡ n → take n bs ≡ bs
take-full bs n h = ap (take n) (sym (append-nil bs)) ∙ take-append n bs [] h

-- a push on a queue with room: of the element, as many bytes as elements have
pub pushed-stack_cut :
    (x : Bytes) (q : Queue)
    → IsQueue q
    → q.count < q.capacity
    → stack (pushed x q) ≡ take q.element_size x ∷ stack q
pushed-stack_cut x q i room =
    let next : q.count + 1 ≡ suc q.count = omega arith in
    let last : get_or (set q.buffer q.count (take q.element_size x)) q.count []
        ≡ take q.element_size x =
      get_or-set q.buffer q.count (take q.element_size x) [] (omega (arith, i.room)) in
    rw
      (
        next,
        last,
        take-again q.element_size x,
        elements-set q.count q.count q.element_size q.buffer (take q.element_size x) (omega arith),
      )
      refl

-- the whole element, if it has that many
pub pushed-stack :
    (x : Bytes) (q : Queue)
    → IsQueue q
    → q.count < q.capacity
    → length x ≡ q.element_size
    → stack (pushed x q) ≡ x ∷ stack q
pushed-stack x q i room sized =
    pushed-stack_cut x q i room ∙ ap (λ (y : Bytes). y ∷ stack q) (take-full x q.element_size sized)

pub pushed-Interfered :
    (x : Bytes) (q : Queue) → IsQueue q → q.count < q.capacity → Interfered q (pushed x q)
pushed-Interfered x q i room = record {
  well = record {
    room = length-set q.buffer q.count (take q.element_size x) ∙ i.room;
    bound = omega arith;
  };
  capacity_kept = refl;
  size_kept = refl;
  stays_closed = λ c. c;
}

-- a pop from a queue with elements
pub popped-stack : (q : Queue) → 0 < q.count → stack q ≡ top q ∷ stack (popped q)
popped-stack q some_left =
    let next : q.count ≡ suc (q.count - 1) = omega arith in
    ap (λ (n : ℕ). elements n q.element_size q.buffer) next

pub popped-Interfered : (q : Queue) → IsQueue q → Interfered q (popped q)
popped-Interfered q i = record {
  well = record { room = i.room; bound = omega (arith, i.bound) };
  capacity_kept = refl;
  size_kept = refl;
  stays_closed = λ c. c;
}

-- How an operation ends: with what is stated if it returns, and otherwise with a queue that is as
-- stated.
pub data Ends {A S : Type 0} (I : S → Type 0) (Q : A → S → Type 0) : Outcome A × S → Type 0 where
  returns : {a : A} {s : S} → Q a s → Ends I Q (ok a, s)
  fails : {s : S} → I s → Ends I Q (fail, s)
  stops : {r : Stop} {s : S} → I s → Ends I Q (halt r, s)

module _ {A S : Type 0} {I : S → Type 0} {P : A → S → Type 0} where
  pub Ends-bind :
      {B : Type 0} {Q : B → S → Type 0} {o : Outcome A × S} {f : A → S → Outcome B × S}
      → Ends I P o
      → ((a : A) (s : S) → P a s → Ends I Q (f a s))
      → Ends I Q (after o f)
  Ends-bind (returns p) next = next _ _ p
  Ends-bind (fails i) next = fails i
  Ends-bind (stops i) next = stops i

  pub Ends-handle :
      {o : Outcome A × S} (h : Handler S)
      → ((s : S) → I s → I (h s))
      → Ends I P o
      → Ends I P (recover o h)
  Ends-handle h keep (returns p) = returns p
  Ends-handle h keep (fails i) = fails (keep _ i)
  Ends-handle h keep (stops i) = stops i

pub Ends-succeed :
    {S : Type 0} {I : S → Type 0} (b : Bool) (s : S) → I s → Ends I (λ _. I) (succeed b s)
unfolding succeed
Ends-succeed true s i = returns i
Ends-succeed false s i = fails i

pub Ends-mono :
    {A S : Type 0} {I J : S → Type 0} {P Q : A → S → Type 0} {o : Outcome A × S}
    → Ends I P o
    → ((s : S) → I s → J s)
    → ((a : A) (s : S) → P a s → Q a s)
    → Ends J Q o
Ends-mono (returns p) bad good = returns (good _ _ p)
Ends-mono (fails i) bad good = fails (bad _ i)
Ends-mono (stops i) bad good = stops (bad _ i)
