-- ===== src/Reducer/Table/Room.antt =====
-- add_value_to_token of src/reducer.c, and the array of values of a token.
use native.Mathlib.Nat.{mod-eq_of_lt}
use mr_lib.Common.{
  ℕ, ◌+◌, ◌*◌, ◌%◌, ◌≤◌, ◌<◌, ◌≡◌, refl, ap, ◌∙◌, inl, inr, Option, none, some, List, [], ◌∷◌, ◌++◌,
  length, length-append, size_limit, ◌==◌, Bool-cases, arith, if◌then◌else◌,
}
use mr_lib.Os.{Request, Os}
use mr_lib.Os.Io.{need, pure, call, ◌>>=◌}
use mr_lib.Os.Calls
use mr_lib.Os.Yields
use mr_lib.Os.Yields.{Yields, returns}
use mr_lib.Protocol.Pair.{Buffer}
use mr_lib.Reducer.Table.{Value, TokenNode, grown, make_room, add_value_to_token}

-- How many bytes may be used at an address: as many as a call of `realloc` was asked for, if it answers
-- with the address.
pub record Heap {W : Type 0} (os : Os W) : Type 0 where
  pub bytes_at : ℕ → W → ℕ
  pub realloc_some :
      (old size address : ℕ) (w : W)
      → (os.sys (Request.realloc old size) w).0 ≡ some address
      → size ≤ bytes_at address (os.sys (Request.realloc old size) w).1

-- `count` says how many values there are, `capacity` is not less, and the block of the array has 16
-- bytes, a pointer and a size, for each value that `capacity` speaks of
pub record IsNode {W : Type 0} {os : Os W} (heap : Heap os) (node : TokenNode) (w : W)
    : Type 0 where
  pub counted : node.count ≡ length node.values
  pub room : node.count ≤ node.capacity
  pub allocated : node.capacity * 16 ≤ heap.bytes_at node.array w

-- the capacity of an array that has been made larger
abbrev pub larger : ℕ → ℕ
larger capacity = if capacity == 0 then 8 else capacity * 2

module _ {W : Type 0} ⦃os : Os W⦄ (heap : Heap os) where
  -- the one call has answered with NULL
  abbrev pub NoRoom : TokenNode → W → Type 0
  NoRoom node w = (os.sys (Request.realloc node.array (larger node.capacity * 16)) w).0 ≡ none

  -- the same values in an array that is not full
  record HasRoom (old new : TokenNode) (w : W) : Type 0 where
    values : new.values ≡ old.values
    count : new.count ≡ old.count
    room : new.count < new.capacity
    allocated : new.capacity * 16 ≤ heap.bytes_at new.array w

  need-Heap :
      (old size : ℕ) (w : W)
      → Yields
          (λ address w'. size ≤ heap.bytes_at address w')
          ((os.sys (Request.realloc old size) w).0 ≡ none)
          (Calls.realloc old size w)
  unfolding Calls.realloc call ◌>>=◌ need
  need-Heap old size w =
      at (os.sys (Request.realloc old size) w).0 (λ e. e)
        λ address e. heap.realloc_some old size address w e
    where
      at :
          (x : Option ℕ)
          → (x ≡ none → (os.sys (Request.realloc old size) w).0 ≡ none)
          → ((address : ℕ)
              → x ≡ some address
              → size ≤ heap.bytes_at address (os.sys (Request.realloc old size) w).1)
          → Yields
              (λ address w'. size ≤ heap.bytes_at address w')
              ((os.sys (Request.realloc old size) w).0 ≡ none)
              (need x (os.sys (Request.realloc old size) w).1)
      at none refused enough = Yields.fails (refused refl)
      at (some address) refused enough = returns (enough address refl)

  make_room-HasRoom :
      (node : TokenNode) (w : W)
      → IsNode heap node w
      → (node.capacity * 2 + 8) * 16 < size_limit
      → Yields (HasRoom node) (NoRoom node w) (make_room node w)
  unfolding make_room ◌>>=◌ pure
  make_room-HasRoom node w i small = elim (Bool-cases (node.count == node.capacity)) [
    | inl full ↦
        let c = node.capacity in
        let exact : grown c ≡ larger c = ground arith in
        let fits : larger c * 16 % size_limit ≡ larger c * 16 = mod-eq_of_lt (ground arith) in
        rw (full, exact, fits)
          (Yields.bind (need-Heap node.array (larger c * 16) w) λ array u enough. returns (record {
            values = refl;
            count = refl;
            room = ground (arith, i.room);
            allocated = enough;
          }))
    | inr free_left ↦ rw free_left (
        returns (record {
          values = refl;
          count = refl;
          room = ground (arith, i.room);
          allocated = i.allocated;
        }))
  ]

  -- Where the block of the array of a node has 16 bytes for each value that the capacity speaks of, and
  -- the capacity is not less than the number of values and not near the end of `size_t`, the block has
  -- room for one value more behind a call, which adds the value, and all of that stays true; or `realloc`
  -- has refused a block of 8 values, for an empty array, or of twice as many as it had.
  pub add_value_to_token-IsNode :
      (node : TokenNode) (value : Buffer) (size : ℕ) (w : W)
      → IsNode heap node w
      → (node.capacity * 2 + 8) * 16 < size_limit
      → Yields
          (λ new w'.
            IsNode heap new w'
            × (new.values ≡ node.values ++ (record { content = value; size = size } ∷ []))
            × ((length node.values + 1) * 16 ≤ heap.bytes_at new.array w'))
          (NoRoom node w)
          (add_value_to_token node value size w)
  unfolding add_value_to_token ◌>>=◌ pure
  add_value_to_token-IsNode node value size w i small =
      Yields.bind (make_room-HasRoom node w i small) λ roomy u r.
        let more : Value = record { content = value; size = size } in
        let longer : length (roomy.values ++ (more ∷ [])) ≡ length node.values + 1 =
          length-append roomy.values (more ∷ []) ∙ ap (λ (n : List Value). length n + 1) r.values in
        returns (
          record {
            counted = omega (arith, longer, i.counted, r.count);
            room = omega (arith, r.room);
            allocated = r.allocated;
          },
          ap (λ (n : List Value). n ++ (more ∷ [])) r.values,
          omega (arith, i.counted, r.count, r.room, r.allocated),
        )
