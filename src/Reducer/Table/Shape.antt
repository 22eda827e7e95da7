-- ===== src/Reducer/Table/Shape.antt =====
-- The shape of the hash table of src/reducer.c: every node stands in the chain of its hash, no two nodes
-- have the same text, and `count` is the number of values.
use mr_lib.Common.{
  ℕ, ◌≡◌, ◌≢◌, refl, ap, sym, ◌∙◌, inl, inr, Option, none, some, [], ◌∷◌, ◌++◌, map, Bytes, length,
  length-append, get_or, get_or-set, get_or-set_other, get_or-replicate, length-set, ◌==◌, ==_iff,
  Bool-cases, arith,
}
use mr_lib.Os.{Os}
use mr_lib.Os.Io.{pure, ◌>>=◌, syscall_ret, free}
use mr_lib.Os.Calls
use mr_lib.Os.Lawful.{Lawful}
use mr_lib.Os.Quiet.{Quiet, Quiet-malloc, quiet_rules}
use mr_lib.Os.Yields
use mr_lib.Os.Yields.{Yields, returns}
use mr_lib.Log.{c_string}
use mr_lib.Protocol.Pair.{Buffer}
use mr_lib.Protocol.Input.{same_text}
use mr_lib.Reducer.Table.{
  TokenNode, Chain, Table, table_size, empty_table, hash_function, Place, write_back, create_token,
  place_or_create, find_or_create_token,
}
use mr_lib.Reducer.Table.Chain.{
  values_in, value_of, c_string-c_string, Search, found, missed, find_token-Search,
}
use mr_lib.Reducer.Table.Lookup.{hash_function-small, hash_function-text, Appended}

abbrev pub IsChain : ℕ → Chain → Type 0
IsChain i [] = Unit
IsChain i (node ∷ chain) =
    (hash_function node.token.bytes ≡ i)
    × (node.count ≡ length node.values)
    × (values_in (c_string node.token.bytes) chain ≡ none)
    × IsChain i chain

pub record IsTable (table : Table) : Type 0 where
  pub size : length table ≡ table_size
  pub chains : (i : ℕ) → IsChain i (get_or table i [])

pub empty_table-IsTable : IsTable empty_table
empty_table-IsTable = record {
  size = refl;
  chains = λ i. rw (get_or-replicate {A = Chain} table_size i []) tt;
}

-- another node with the same token in its place
values_in-replaced :
    (t : Bytes) (front back : Chain) (node new : TokenNode)
    → new.token ≡ node.token
    → values_in t (front ++ (node ∷ back)) ≡ none
    → values_in t (front ++ (new ∷ back)) ≡ none
unfolding values_in
values_in-replaced t [] back node new same h =
    elim (Bool-cases (same_text (c_string node.token.bytes) t)) [
      | inl e ↦ let gone : some (map value_of node.values) ≡ none = rw e at h in absurd (cc)
      | inr e ↦ rw (same, e) (rw e at h)
    ]
values_in-replaced t (first ∷ front) back node new same h =
    elim (Bool-cases (same_text (c_string first.token.bytes) t)) [
      | inl e ↦ let gone : some (map value_of first.values) ≡ none = rw e at h in absurd (cc)
      | inr e ↦ rw e (values_in-replaced t front back node new same (rw e at h))
    ]

IsChain-replaced :
    (i : ℕ) (front back : Chain) (node new : TokenNode)
    → new.token ≡ node.token
    → new.count ≡ length new.values
    → IsChain i (front ++ (node ∷ back))
    → IsChain i (front ++ (new ∷ back))
IsChain-replaced i [] back node new same counted (home, old, apart, rest) =
    (rw same home, counted, rw same apart, rest)
IsChain-replaced i (first ∷ front) back node new same counted (home, old, apart, rest) = (
  home,
  old,
  values_in-replaced _ front back node new same apart,
  IsChain-replaced i front back node new same counted rest,
)

-- the place belongs to `token`: a node that is put there with its token keeps the shape of the chain
pub record Placed (token : Bytes) (p : Place) : Type 0 where
  pub bucket_of : p.bucket ≡ hash_function token
  pub counted : p.node.count ≡ length p.node.values
  pub keeps :
      (new : TokenNode)
      → new.token ≡ p.node.token
      → new.count ≡ length new.values
      → IsChain (hash_function token) (p.front ++ (new ∷ p.back))

pub write_back-IsTable :
    (token : Bytes) (table : Table) (p : Place) (new : TokenNode)
    → IsTable table
    → Placed token p
    → new.token ≡ p.node.token
    → new.count ≡ length new.values
    → IsTable (write_back table p new)
write_back-IsTable token table p new t placed same counted = record {
  size = length-set table p.bucket _ ∙ t.size;
  chains = λ i. elim (Bool-cases (p.bucket == i)) [
    | inl e ↦
        let here : p.bucket ≡ i = (==_iff p.bucket i).0 e in
        let hash : hash_function token ≡ i = sym placed.bucket_of ∙ here in
        let chain : get_or (write_back table p new) i [] ≡ p.front ++ (new ∷ p.back) =
          ap (λ (j : ℕ). get_or (write_back table p new) j []) (sym here)
          ∙ get_or-set table p.bucket (p.front ++ (new ∷ p.back)) []
              (rw (placed.bucket_of, t.size) (hash_function-small token)) in
        rw (chain, sym hash) (placed.keeps new same counted)
    | inr e ↦
        let other : p.bucket ≢ i = λ h. absurd (ground (arith, ==_iff p.bucket i)) in
        rw (get_or-set_other table p.bucket i (p.front ++ (new ∷ p.back)) [] other) (t.chains i)
  ];
}

-- a found node in its chain
counted_in :
    (i : ℕ) (passed back : Chain) (node : TokenNode)
    → IsChain i (passed ++ (node ∷ back))
    → node.count ≡ length node.values
counted_in i [] back node (home, counted, apart, rest) = counted
counted_in i (first ∷ passed) back node (home, counted, apart, rest) =
    counted_in i passed back node rest

module _ {W : Type 0} ⦃os : Os W⦄ (law : Lawful os) where
  open law use {Fault}

  create_token-Placed :
      (token : Bytes) (chain : Chain) (w : W)
      → IsChain (hash_function token) chain
      → values_in (c_string token) chain ≡ none
      → Yields (λ p _. Placed token p) Fault (create_token token (hash_function token) chain w)
  unfolding create_token ◌>>=◌ pure
  create_token-Placed token chain w is absent =
      let copied : (node : ℕ)
          → Quiet law (syscall_ret (Calls.strdup (c_string token)) (free node)) =
        λ node. search (quiet_rules) depth 10 in
      Yields.bind ((Quiet-malloc law 40 (omega arith)).at w) λ node u k.
        Yields.bind ((copied node).at u) λ copy v k'. returns (record {
          bucket_of = refl;
          counted = refl;
          keeps = λ new same counted.
              let text : new.token.bytes ≡ c_string token = ap (λ (b : Buffer). b.bytes) same in
              (
                ap hash_function text ∙ hash_function-text _ _ (c_string-c_string token),
                counted,
                rw (text, c_string-c_string token) absent,
                is,
              );
        })

  from_Search-Placed :
      (token : Bytes) (chain : Chain) (w : W) (o : Option Place)
      → IsChain (hash_function token) chain
      → Search (c_string token) (hash_function token) [] chain o
      → Yields (λ p _. Placed token p) Fault (place_or_create o token (hash_function token) chain w)
  unfolding place_or_create pure
  from_Search-Placed token chain w (some p) is (found f) =
      let here : IsChain (hash_function token) (f.passed ++ (p.node ∷ p.back)) = rw f.split at is in
      returns (record {
        bucket_of = f.bucket_of;
        counted = counted_in (hash_function token) f.passed p.back p.node here;
        keeps = λ new same counted.
            rw f.front_of
              (IsChain-replaced (hash_function token) f.passed p.back p.node new same counted here);
      })
  from_Search-Placed token chain w none is (missed m) = create_token-Placed token chain w is m

  pub find_or_create_token-Placed :
      (table : Table) (token : Bytes) (w : W)
      → IsTable table
      → Yields (λ p _. Placed token p) Fault (find_or_create_token table token w)
  unfolding find_or_create_token
  find_or_create_token-Placed table token w is =
      from_Search-Placed token (get_or table (hash_function token) []) w _
        (is.chains (hash_function token))
        (find_token-Search token (hash_function token) [] (get_or table (hash_function token) []))

  -- `count` goes with the values
  pub Appended-counted :
      (value : Buffer) (size : ℕ) (old new : TokenNode)
      → Appended law value size old new
      → old.count ≡ length old.values
      → new.count ≡ length new.values
  Appended-counted value size old new a counted =
      rw (a.count, counted, a.values)
        (sym (length-append old.values (record { content = value; size = size } ∷ [])))
