-- ===== src/Reducer/Collect/Nodes.antt =====
-- The collection phase of src/reducer.c keeps the shape of the table, and the nodes that it leaves.
use mr_lib.Common.{
  ℕ, zero, suc, ◌+◌, ◌%◌, ◌≡◌, refl, Option, inl, inr, some, none, [], ◌∷◌, ◌++◌, map, length,
  size_limit, get_or, Bool-cases,
}
use mr_lib.Os.{Os}
use mr_lib.Os.Io.{Outcome, pure, ◌>>=◌, syscall_ret, free}
use mr_lib.Os.Lawful.{Lawful}
use mr_lib.Os.Yields
use mr_lib.Os.Yields.{Yields, returns, Leaves, left, none_stopped, Leaves-after, Yields-Leaves}
use mr_lib.Log.{LogFile, c_string}
use mr_lib.Protocol.Input.{same_text}
use mr_lib.Protocol.Pair.{Pair}
use mr_lib.Reducer.Table.{TokenNode, Chain, Table, hash_function}
use mr_lib.Reducer.Table.Chain.{values_in, value_of, same_text-eq, same_text_refl}
use mr_lib.Reducer.Table.Lookup.{lookup, add_value_to_token-Appended}
use mr_lib.Reducer.Table.Shape.{
  IsChain, IsTable, write_back-IsTable, find_or_create_token-Placed, Appended-counted,
}
use mr_lib.Reducer.Collect.{Collected, store_pair, collect}

-- the node stands at `i` in the table
abbrev pub StandsAt : Table → ℕ → TokenNode → Type 0
StandsAt table i node =
    (front : Chain) × (back : Chain) × (get_or table i [] ≡ front ++ (node ∷ back))

values_in_node :
    (i : ℕ) (front back : Chain) (node : TokenNode)
    → IsChain i (front ++ (node ∷ back))
    → values_in (c_string node.token.bytes) (front ++ (node ∷ back))
      ≡ some (map value_of node.values)
unfolding values_in
values_in_node i [] back node is = rw (same_text_refl (c_string node.token.bytes)) refl
values_in_node i (first ∷ front) back node (home, counted, apart, rest) =
    let there = values_in_node i front back node rest in
    elim (Bool-cases (same_text (c_string first.token.bytes) (c_string node.token.bytes))) [
      | inl e ↦
          let gone : values_in (c_string node.token.bytes) (front ++ (node ∷ back)) ≡ none =
            rw (same_text-eq _ _ e) at apart in
          absurd (cc)
      | inr e ↦ rw e there
    ]

home_of :
    (i : ℕ) (front back : Chain) (node : TokenNode)
    → IsChain i (front ++ (node ∷ back))
    → (hash_function node.token.bytes ≡ i) × (node.count ≡ length node.values)
home_of i [] back node (home, counted, apart, rest) = (home, counted)
home_of i (first ∷ front) back node (home, counted, apart, rest) = home_of i front back node rest

-- What the table holds under the text of a node are the values of that node, and `count` is their number.
pub lookup_node :
    (table : Table) (i : ℕ) (node : TokenNode)
    → IsTable table
    → StandsAt table i node
    → (lookup table node.token.bytes ≡ map value_of node.values) × (node.count ≡ length node.values)
lookup_node table i node is (front, back, split) =
    let here : IsChain i (front ++ (node ∷ back)) = rw split at (is.chains i) in
    let home = home_of i front back node here in
    (rw (home.0, split, values_in_node i front back node here) refl, home.1)

module _ {W : Type 0} ⦃os : Os W⦄ (law : Lawful os) where
  open law use {Fault}

  -- Storing a pair keeps the shape of the table: every node stands in the chain of its hash, no two nodes
  -- of a chain have the same text, and `count` is the number of values; or a call fails.
  pub store_pair-IsTable :
      (log_file : LogFile) (table : Table) (pair : Pair) (w : W)
      → IsTable table
      → Yields (λ new _. IsTable new) Fault (store_pair log_file table pair w)
  unfolding store_pair ◌>>=◌ pure syscall_ret free
  store_pair-IsTable log_file table pair w is =
      Yields.bind (Yields.handle _ (find_or_create_token-Placed law table pair.token.bytes w is))
        λ place u placed.
          Yields.bind
            (Yields.handle _
              (add_value_to_token-Appended law place.node pair.value pair.value_size u))
            λ new v a. returns (
              write_back-IsTable pair.token.bytes table place new is placed a.0.token
                (Appended-counted law pair.value pair.value_size place.node new a.0 placed.counted))

  -- one round of the loop, whatever came
  round-IsTable :
      (log_file : LogFile) (table : Table) (n : ℕ) (next : Table → W → Outcome Collected × W)
      (r : Option Pair) (u : W)
      → IsTable table
      → ((stored : Table) (v : W)
          → IsTable stored
          → Leaves (λ (c : Collected). IsTable c.hash_table) (next stored v))
      → Leaves
          (λ (c : Collected). IsTable c.hash_table)
          (elim r as (λ _. W → Outcome Collected × W) [
            | none ↦ pure (record { hash_table = table; pairs_received = n })
            | some pair ↦ store_pair log_file table pair >>= next
          ]
            u)
  unfolding ◌>>=◌ pure
  round-IsTable log_file table n next none u is good = left is
  round-IsTable log_file table n next (some pair) u is good =
      Yields-Leaves (store_pair-IsTable log_file table pair u is) good

  -- whatever bytes come
  pub collect-IsTable :
      (fuel : ℕ) (log_file : LogFile) (fd : ℕ) (table : Table) (n : ℕ) (w : W)
      → IsTable table
      → Leaves (λ (c : Collected). IsTable c.hash_table) (collect fuel log_file fd table n w)
  unfolding collect ◌>>=◌
  collect-IsTable zero log_file fd table n w is = none_stopped
  collect-IsTable (suc fuel) log_file fd table n w is = Leaves-after _ λ r u.
      round-IsTable log_file table n _ r u is
        λ stored v good. collect-IsTable fuel log_file fd stored ((n + 1) % size_limit) v good
