-- ===== src/WordCount/Nodes.antt =====
-- The nodes of the table when the reducer has been sent the words of some lines.
use mathlib.Core.List.{Perm}
use mr_lib.Common.{
  ℕ, ◌<◌, ◌≡◌, ◌≢◌, refl, ap, sym, ◌∙◌, inl, inr, List, [], ◌∷◌, ◌++◌, map, Bytes, length, get_or,
  Bool-cases, arith,
}
use mr_lib.Os.{Os}
use mr_lib.Os.Lawful.{Lawful}
use mr_lib.Os.Yields
use mr_lib.Os.Yields.{Yields, Leaves-Yields}
use mr_lib.Log.{LogFile, c_string}
use mr_lib.Protocol.Input.{same_text}
use mr_lib.Reducer.Table.{Value, TokenNode, Chain, Table, hash_function, empty_table}
use mr_lib.Reducer.Table.Chain.{values_in, value_of, or_nil, same_text-eq}
use mr_lib.Reducer.Table.Lookup.{lookup}
use mr_lib.Reducer.Table.Shape.{IsTable, empty_table-IsTable}
use mr_lib.Reducer.Collect.{collect}
use mr_lib.Reducer.Collect.Laws.{all_pairs, AreSized}
use mr_lib.Reducer.Collect.Nodes.{StandsAt, lookup_node, collect-IsTable}
use mr_lib.WordCount.{Ctype}
use mr_lib.WordCount.Totals.{IsPlain, all_words, pair_of, occurrences, collect-occurrences}

-- a node of the table has the text `t`
abbrev pub HasNode : Table → Bytes → Type 0
HasNode table t =
    (node : TokenNode) × StandsAt table (hash_function t) node
    × (c_string node.token.bytes ≡ c_string t)

-- a node for each of the words, whose `count` says how often the word is among them
pub record CountsWords (words : List Bytes) (table : Table) : Type 0 where
  pub is_table : IsTable table
  pub counts :
      (i : ℕ) (node : TokenNode)
      → StandsAt table i node
      → node.count ≡ occurrences (c_string node.token.bytes) words
  pub has_node : (t : Bytes) → occurrences (c_string t) words ≢ 0 → HasNode table t

length_values : (vs : List Value) → length (map value_of vs) ≡ length vs
length_values [] = refl
length_values (v ∷ vs) = omega (arith, length_values vs)

-- where there are values there is a node
node_for :
    (t : Bytes) (chain : Chain)
    → length (or_nil (values_in t chain)) ≢ 0
    → (node : TokenNode) × (front : Chain) × (back : Chain) × (chain ≡ front ++ (node ∷ back))
      × (c_string node.token.bytes ≡ t)
unfolding values_in
node_for t [] some_values = absurd (some_values refl)
node_for t (first ∷ chain) some_values =
    elim (Bool-cases (same_text (c_string first.token.bytes) t)) [
      | inl e ↦ (first, [], chain, refl, same_text-eq _ _ e)
      | inr e ↦
          let (node, front, back, split, named) = node_for t chain (rw e at some_values) in
          (node, first ∷ front, back, ap (λ (c : Chain). first ∷ c) split, named)
    ]

-- a table of the right shape with the right number of values
pub IsTable-CountsWords :
    (words : List Bytes) (table : Table)
    → IsTable table
    → ((t : Bytes) → length (lookup table t) ≡ occurrences (c_string t) words)
    → CountsWords words table
IsTable-CountsWords words table is numbers = record {
  is_table = is;
  counts = λ i node stands.
      let here = lookup_node table i node is stands in
      here.1
      ∙ sym (length_values node.values)
      ∙ ap (λ (vs : List Bytes). length vs) (sym here.0)
      ∙ numbers node.token.bytes;
  has_node = λ t among.
      let (node, front, back, split, named) =
        node_for (c_string t) (get_or table (hash_function t) [])
          (λ h. among (sym (numbers t) ∙ h)) in
      (node, (front, back, split), named);
}

module _ {W : Type 0} ⦃os : Os W⦄ (law : Lawful os) (ctype : Ctype) where
  open law use {Fault, pending}

  -- Where the reducer is sent the pairs of the words of some lines, in any order, and the fuel exceeds
  -- their number, it ends with a table in which every node stands in the chain of its hash, no two of
  -- a chain have the same text, each word of the lines has a node, and the `count` of a node is how
  -- often its text is among the words; unless a call fails. No letter or digit is a terminator in
  -- lower case.
  pub collect-CountsWords :
      (lines : List Bytes) (pairs : List (Bytes × Bytes)) (fuel : ℕ) (log_file : LogFile) (fd : ℕ)
      (w : W)
      → IsPlain ctype
      → Perm pairs (map pair_of (all_words ctype lines))
      → AreSized pairs
      → length pairs < fuel
      → pending fd w ≡ all_pairs pairs
      → Yields
          (λ c _. CountsWords (all_words ctype lines) c.hash_table)
          Fault
          (collect fuel log_file fd empty_table 0 w)
  collect-CountsWords lines pairs fuel log_file fd w plain same sized enough front =
      Yields.mono
        (Leaves-Yields
          (collect-occurrences law ctype lines pairs fuel log_file fd w plain same sized enough
            front)
          (collect-IsTable law fuel log_file fd empty_table 0 w empty_table-IsTable))
        λ c w' both. IsTable-CountsWords (all_words ctype lines) c.hash_table both.1 both.0
