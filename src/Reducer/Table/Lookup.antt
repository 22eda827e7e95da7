-- ===== src/Reducer/Table/Lookup.antt =====
-- The table as a map from texts to values, and what storing one more value does to it.
use mr_lib.Common.{
  ℕ, ◌+◌, ◌<◌, ◌≡◌, ◌≢◌, refl, ap, sym, ◌∙◌, inl, inr, ◌*◌, ◌%◌, size_limit, true, false, Option,
  none, some, List, [], ◌∷◌, ◌++◌, map, Bytes, length, get_or, ◌==◌, ==_iff, if◌then◌else◌,
  Bool-cases, get_or-set, get_or-set_other, get_or-replicate, arith,
}
use mathlib.Core.List.{map-append}
use mr_lib.Os.{Os}
use mr_lib.Os.Io.{pure, ◌>>=◌, syscall_ret, free}
use mr_lib.Os.Calls
use mr_lib.Os.Lawful.{Lawful, Kept, Kept-refl, Kept-trans}
use mr_lib.Os.Quiet.{Quiet, Quiet-malloc, Quiet-realloc, quiet_rules}
use mr_lib.Os.Yields
use mr_lib.Os.Yields.{Yields, returns}
use mr_lib.Log.{c_string}
use mr_lib.Protocol.Pair.{Buffer}
use mr_lib.Protocol.Input.{same_text}
use mr_lib.Reducer.Table.{
  Value, TokenNode, Chain, Table, table_size, empty_table, hash_function, Place, write_back,
  create_token, place_or_create, find_or_create_token, make_room, add_value_to_token, grown,
  value_bytes,
}
use mr_lib.Reducer.Table.Chain.{
  values_in, or_nil, value_of, Added, Grown, Search, found, missed, find_token-Search, same_text-eq,
  c_string-c_string,
}

-- the values the table holds under the text `t`
abbrev pub lookup : Table → Bytes → List Bytes
lookup table t = or_nil (values_in (c_string t) (get_or table (hash_function t) []))

pub lookup-empty_table : (t : Bytes) → lookup empty_table t ≡ []
unfolding values_in
lookup-empty_table t = rw (get_or-replicate {A = Chain} table_size (hash_function t) []) refl

pub hash_function-small : (t : Bytes) → hash_function t < table_size
unfolding hash_function
hash_function-small t = omega arith

-- the hash is that of the text
pub hash_function-text : (s t : Bytes) → c_string s ≡ c_string t → hash_function s ≡ hash_function t
unfolding hash_function
hash_function-text s t e = rw e refl

-- the place belongs to `token`: a node that grows by a value there adds it
pub record Located (token : Bytes) (table : Table) (p : Place) : Type 0 where
  pub bucket_of : p.bucket ≡ hash_function token
  pub grows :
      (v : Bytes) (new : TokenNode)
      → Grown v p.node new
      → Added (c_string token) v (get_or table (hash_function token) []) (p.front ++ (new ∷ p.back))

-- `new` holds one more value than `old`: under `token`, and nothing else is changed
abbrev pub Stores : (token value : Bytes) (old new : Table) → Type 0
Stores token value old new =
    (t : Bytes)
    → lookup new t ≡ (
        if same_text (c_string token) (c_string t)
        then lookup old t ++ (value ∷ [])
        else lookup old t)

-- a grown chain, read at any text
in_chain :
    (k t value : Bytes) (c c' : Chain)
    → c ≡ c'
    → or_nil
        (if same_text k t then some (or_nil (values_in k c) ++ (value ∷ [])) else values_in t c)
      ≡ (if same_text k t then or_nil (values_in t c') ++ (value ∷ []) else or_nil (values_in t c'))
in_chain k t value c c' e = elim (Bool-cases (same_text k t)) [
  | inl y ↦ rw (y, e, same_text-eq k t y) refl
  | inr n ↦ rw (n, e) refl
]

same_hash :
    (token t : Bytes)
    → same_text (c_string token) (c_string t) ≡ true
    → hash_function token ≡ hash_function t
same_hash token t h = hash_function-text token t (same_text-eq _ _ h)

not_same :
    (token t : Bytes)
    → hash_function token ≢ hash_function t
    → same_text (c_string token) (c_string t) ≡ false
not_same token t differ = elim (Bool-cases (same_text (c_string token) (c_string t))) [
  | inl y ↦ absurd (differ (same_hash token t y))
  | inr n ↦ n
]

other_hash : {a b : ℕ} → (a == b) ≡ false → a ≢ b
other_hash {a} {b} e h = absurd (ground (arith, ==_iff a b))

pub write_back-Stores :
    (token value : Bytes) (table : Table) (p : Place) (new : TokenNode)
    → length table ≡ table_size
    → Located token table p
    → Grown value p.node new
    → Stores token value table (write_back table p new)
write_back-Stores token value table p new size l g t =
    elim (Bool-cases (hash_function token == hash_function t)) [
      | inl e ↦
          let hash = (==_iff (hash_function token) (hash_function t)).0 e in
          let here : get_or (write_back table p new) (hash_function t) []
              ≡ p.front ++ (new ∷ p.back) =
            ap (λ (i : ℕ). get_or (write_back table p new) i []) (sym (l.bucket_of ∙ hash))
            ∙ get_or-set table p.bucket (p.front ++ (new ∷ p.back)) []
                (rw (l.bucket_of, size) (hash_function-small token)) in
          ap (λ (c : Chain). or_nil (values_in (c_string t) c)) here
          ∙ ap or_nil (l.grows value new g (c_string t))
          ∙ in_chain (c_string token) (c_string t) value (get_or table (hash_function token) []) _
              (ap (λ (i : ℕ). get_or table i []) hash)
      | inr e ↦
          let differ : hash_function token ≢ hash_function t = λ h. other_hash e h in
          let apart : same_text (c_string token) (c_string t) ≡ false = not_same token t differ in
          let there : get_or (write_back table p new) (hash_function t) []
              ≡ get_or table (hash_function t) [] =
            get_or-set_other table p.bucket (hash_function t) (p.front ++ (new ∷ p.back)) []
              (λ h. differ (sym l.bucket_of ∙ h)) in
          rw apart (ap (λ (c : Chain). or_nil (values_in (c_string t) c)) there)
    ]

pub new_node-Grown :
    (k value : Bytes) (chain : Chain) (node new : TokenNode)
    → node.token.bytes ≡ c_string k
    → node.values ≡ []
    → values_in (c_string k) chain ≡ none
    → Grown value node new
    → Added (c_string k) value chain (new ∷ chain)
unfolding values_in
new_node-Grown k value chain node new named fresh absent g t =
    let text : c_string new.token.bytes ≡ c_string k =
      ap (λ (b : Buffer). c_string b.bytes) g.token ∙ ap c_string named ∙ c_string-c_string k in
    let held : map value_of new.values ≡ value ∷ [] =
      g.values ∙ ap (λ (vs : List Value). map value_of vs ++ (value ∷ [])) fresh in
    rw (text, held, absent) refl

module _ {W : Type 0} ⦃os : Os W⦄ (law : Lawful os) where
  open law use {Fault}

  -- the two ways to come to a place
  create_token-Located :
      (table : Table) (token : Bytes) (w : W)
      → values_in (c_string token) (get_or table (hash_function token) []) ≡ none
      → Yields
          (λ p w'. Located token table p × Kept law w w')
          Fault
          (create_token token (hash_function token) (get_or table (hash_function token) []) w)
  unfolding create_token ◌>>=◌ pure
  create_token-Located table token w absent =
      let copied : (node : ℕ)
          → Quiet law (syscall_ret (Calls.strdup (c_string token)) (free node)) =
        λ node. search (quiet_rules) depth 10 in
      Yields.bind ((Quiet-malloc law 40 (omega arith)).at w) λ node u k.
        Yields.bind ((copied node).at u) λ copy v k'. returns (
          record {
            bucket_of = refl;
            grows = λ value new g.
                new_node-Grown token value (get_or table (hash_function token) []) _ new refl refl
                  absent g;
          },
          Kept-trans law k k',
        )

  from_Search :
      (table : Table) (token : Bytes) (w : W) (o : Option Place)
      → Search (c_string token) (hash_function token) [] (get_or table (hash_function token) []) o
      → Yields
          (λ p w'. Located token table p × Kept law w w')
          Fault
          (place_or_create o token (hash_function token) (get_or table (hash_function token) []) w)
  unfolding place_or_create pure
  from_Search table token w (some p) (found f) = returns (
    record { bucket_of = f.bucket_of; grows = λ v new g. rw f.front_of (f.grows v new g) },
    Kept-refl law w,
  )
  from_Search table token w none (missed m) = create_token-Located table token w m

  pub find_or_create_token-Located :
      (table : Table) (token : Bytes) (w : W)
      → Yields
          (λ p w'. Located token table p × Kept law w w')
          Fault
          (find_or_create_token table token w)
  unfolding find_or_create_token
  find_or_create_token-Located table token w =
      from_Search table token w _
        (find_token-Search token (hash_function token) [] (get_or table (hash_function token) []))

  -- a value at the end of those of the node
  pub record Appended (value : Buffer) (size : ℕ) (old new : TokenNode) : Type 0 where
    pub token : new.token ≡ old.token
    pub values : new.values ≡ old.values ++ (record { content = value; size = size } ∷ [])
    pub count : new.count ≡ old.count + 1

  record Roomy (old new : TokenNode) : Type 0 where
    token : new.token ≡ old.token
    values : new.values ≡ old.values
    count : new.count ≡ old.count

  make_room-Roomy :
      (node : TokenNode) (w : W)
      → Yields (λ new w'. Roomy node new × Kept law w w') Fault (make_room node w)
  unfolding make_room ◌>>=◌ pure
  make_room-Roomy node w = elim (Bool-cases (node.count == node.capacity)) [
    | inl full ↦ rw full (
        Yields.bind
          ((Quiet-realloc law node.array (grown node.capacity * value_bytes % size_limit)).at w)
          λ array u k. returns (record { token = refl; values = refl; count = refl }, k))
    | inr roomy ↦
        rw roomy (returns (record { token = refl; values = refl; count = refl }, Kept-refl law w))
  ]

  pub add_value_to_token-Appended :
      (node : TokenNode) (value : Buffer) (size : ℕ) (w : W)
      → Yields
          (λ new w'. Appended value size node new × Kept law w w')
          Fault
          (add_value_to_token node value size w)
  unfolding add_value_to_token ◌>>=◌ pure
  add_value_to_token-Appended node value size w = Yields.bind (make_room-Roomy node w) λ roomy u r.
      returns (
        record {
          token = r.0.token;
          values =
              ap (λ (vs : List Value). vs ++ (record { content = value; size = size } ∷ []))
                r.0.values;
          count = ap (λ (n : ℕ). n + 1) r.0.count;
        },
        r.1,
      )

  pub Appended-Grown :
      (value : Buffer) (size : ℕ) (old new : TokenNode)
      → Appended value size old new
      → Grown value.bytes old new
  Appended-Grown value size old new a = record {
    token = a.token;
    values =
        ap (map value_of) a.values
        ∙ map-append value_of old.values (record { content = value; size = size } ∷ []);
  }
