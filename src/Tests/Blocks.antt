-- ===== src/Tests/Blocks.antt =====
-- A value that is added to a full array, where the world is the sizes of the blocks.
use mr_lib.Common.{ℕ, ◌+◌, ◌≤◌, ◌≡◌, refl, ap, Option, none, some, [], ◌∷◌, ==_refl, arith}
use mr_lib.Os.{Request, Reply, Os}
use mr_lib.Os.Lawful.{update}
use mr_lib.Os.Yields.{Yields}
use mr_lib.Reducer.Table.{Value, TokenNode, add_value_to_token}
use mr_lib.Reducer.Table.Room.{Heap, IsNode, NoRoom, add_value_to_token-IsNode}
use mr_lib.Tests.Calm.{calm}

abbrev Sizes : Type 0
Sizes = ℕ → ℕ

-- a new block stands one address further on
abbrev answer : (r : Request) → Sizes → Reply r × Sizes
answer (Request.realloc old size) w = (some (old + 1), update (old + 1) size w)
answer r w = calm r w

instance abbrev sizes_os : Os Sizes
sizes_os = record { sys = answer; stale = λ w n. [] }

get : Option ℕ → ℕ
get none = 0
get (some n) = n

realloc_some :
    (old size address : ℕ) (w : Sizes)
    → some (old + 1) ≡ some address
    → size ≤ update (old + 1) size w address
unfolding get
realloc_some old size address w e =
    let same : old + 1 ≡ address = ap get e in rw (← same) (rw (==_refl (old + 1)) (omega arith))

abbrev heap : Heap sizes_os
heap = record { bytes_at = λ address w. w address; realloc_some = realloc_some }

abbrev value : Value
value = record { content = record { address = 1; bytes = 7 ∷ [] }; size = 1 }

-- a full array of one value
abbrev node : TokenNode
node = record {
  address = 1;
  token = record { address = 1; bytes = b'a' ∷ b'b' ∷ [] };
  array = 1;
  values = value ∷ [];
  count = 1;
  capacity = 1;
}

abbrev sizes : Sizes
sizes address = 16

add_value_example :
    Yields
      (λ new w'.
        IsNode heap new w' × (new.values ≡ value ∷ value ∷ []) × (32 ≤ heap.bytes_at new.array w'))
      (NoRoom heap node sizes)
      (add_value_to_token node value.content 1 sizes)
add_value_example =
    add_value_to_token-IsNode heap node value.content 1 sizes
      (record { counted = refl; room = omega arith; allocated = omega arith }) (omega arith)
