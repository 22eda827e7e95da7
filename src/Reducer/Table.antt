-- ===== src/Reducer/Table.antt =====
-- The hash table of tokens, of src/reducer.c.
pub mod Chain
pub mod Lookup
pub mod Room
pub mod Freeing
pub mod Shape
use Prim.Native.String.{String}
use mr_lib.Common.{
  ℕ, zero, suc, ◌+◌, ◌-◌, ◌*◌, ◌%◌, Bool, true, false, Option, none, some, List, [], ◌∷◌, ◌++◌,
  Bytes, length, get_or, set, ltb, ◌==◌, size_limit, if◌then◌else◌, replicate,
}
use mr_lib.Os.{Os}
use mr_lib.Os.Io.{Io, pure, ◌>>=◌, ◌>>◌, Handler, no_handler, ◌then_do◌, syscall_ret, free, ignore}
use mr_lib.Os.Calls
use mr_lib.Log.{c_string}
use mr_lib.Protocol.Pair.{Buffer}
use mr_lib.Protocol.Input.{same_text}

-- `mr_value_t`
pub record Value : Type 0 where
  pub content : Buffer
  pub size : ℕ

-- `token_node_t`, but for `next`, which is the order in the chain. `values` are the first `count`
-- elements of the array.
pub record TokenNode : Type 0 where
  pub address : ℕ
  pub token : Buffer
  pub array : ℕ
  pub values : List Value
  pub count : ℕ
  pub capacity : ℕ

abbrev pub Chain : Type 0
Chain = List TokenNode

-- `token_node_t* hash_table[MR_REDUCER_HASH_TABLE_SIZE]`
abbrev pub Table : Type 0
Table = List Chain

abbrev pub table_size : ℕ
table_size = 1024

abbrev pub empty_table : Table
empty_table = replicate table_size []

-- A `char` is signed: from 128 on it stands for a negative number, which is added modulo 2 ^ 64.
unfoldable pub extended : ℕ → ℕ
extended b = if ltb b 128 then b else b + size_limit - 256

hash_loop : ℕ → Bytes → ℕ
unfolding extended
hash_loop hash [] = hash
hash_loop hash (c ∷ str) = hash_loop ((hash * 32 % size_limit + hash + extended c) % size_limit) str

unfoldable pub hash_function : Bytes → ℕ
unfolding hash_loop c_string
hash_function str = hash_loop 5381 (c_string str) % table_size

-- What a `token_node_t*` into the table points at: the chain, split at the node.
pub record Place : Type 0 where
  pub bucket : ℕ
  pub front : Chain
  pub node : TokenNode
  pub back : Chain

-- the walk along a chain; `front` has been passed
unfoldable pub find_token : Bytes → (bucket : ℕ) → (front chain : Chain) → Option Place
find_token token bucket front [] = none
find_token token bucket front (node ∷ chain) =
    if same_text (c_string node.token.bytes) (c_string token)
    then some (record { bucket = bucket; front = front; node = node; back = chain })
    else find_token token bucket (front ++ (node ∷ [])) chain

-- the table when `node` stands at the place
abbrev pub write_back : Table → Place → TokenNode → Table
write_back table p node = set table p.bucket (p.front ++ (node ∷ p.back))

-- sizeof(token_node_t) and sizeof(mr_value_t)
abbrev pub node_bytes : ℕ
node_bytes = 40

abbrev pub value_bytes : ℕ
value_bytes = 16

-- `capacity == 0 ? 8 : capacity * 2`
abbrev pub grown : ℕ → ℕ
grown capacity = if capacity == 0 then 8 else capacity * 2 % size_limit

module _ {W : Type 0} ⦃os : Os W⦄ where
  -- the part of `find_or_create_token` behind the loop
  create_token : Bytes → ℕ → Chain → Io W Place
  create_token token h chain = do
    node ← Calls.malloc node_bytes
    copy ← syscall_ret (Calls.strdup (c_string token)) (free node)
    pure (record {
      bucket = h;
      front = [];
      node = record {
        address = node;
        token = record { address = copy; bytes = c_string token };
        array = 0;
        values = [];
        count = 0;
        capacity = 0;
      };
      back = chain;
    })

  place_or_create : Option Place → Bytes → ℕ → Chain → Io W Place
  place_or_create none token h chain = create_token token h chain
  place_or_create (some p) token h chain = pure p

  -- The place of the node; a new node stands in front of its chain. NULL is a failure.
  unfoldable pub find_or_create_token : Table → Bytes → Io W Place
  unfolding create_token place_or_create
  find_or_create_token hash_table token =
      let h = hash_function token in
      let chain = get_or hash_table h [] in
      place_or_create (find_token token h [] chain) token h chain

  make_room : TokenNode → Io W TokenNode
  make_room node =
      if node.count == node.capacity
      then (do
        array ← Calls.realloc node.array (grown node.capacity * value_bytes % size_limit)
        pure (record node { array = array; capacity = grown node.capacity }))
      else pure node

  unfoldable pub add_value_to_token : TokenNode → Buffer → ℕ → Io W TokenNode
  unfolding make_room
  add_value_to_token node value value_size = do
    roomy ← make_room node
    pure (record roomy {
      values = roomy.values ++ (record { content = value; size = value_size } ∷ []);
      count = roomy.count + 1;
    })

  unfoldable pub free_values : List Value → Handler W
  free_values [] w = w
  free_values (v ∷ vs) w = free_values vs (free v.content.address w)

  unfoldable pub cleanup_token_node : TokenNode → Handler W
  unfolding free_values
  cleanup_token_node node =
      free node.token.address
      then_do free_values node.values
      then_do free node.array
      then_do free node.address

  unfoldable pub cleanup_chain : Chain → Handler W
  unfolding cleanup_token_node
  cleanup_chain [] w = w
  cleanup_chain (node ∷ chain) w = cleanup_chain chain (cleanup_token_node node w)

  unfoldable pub cleanup_hash_table : Table → Handler W
  unfolding cleanup_chain
  cleanup_hash_table [] w = w
  cleanup_hash_table (chain ∷ table) w = cleanup_hash_table table (cleanup_chain chain w)
