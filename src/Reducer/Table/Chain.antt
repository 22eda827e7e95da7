-- ===== src/Reducer/Table/Chain.antt =====
-- One chain, as a map from tokens to their values.
use mr_lib.Common.{
  ℕ, ◌≡◌, refl, ap, sym, ◌∙◌, inl, inr, true, false, Option, none, some, List, [], ◌∷◌, ◌++◌, map,
  append_assoc, append-nil, Bytes, ◌==◌, if◌then◌else◌, Bool-cases, arith,
}
use mr_lib.Log.{c_string}
use mr_lib.Protocol.Input.{same_text}
use mr_lib.Reducer.Table.{Value, TokenNode, Chain, Place, find_token}

pub same_text-eq : (a b : Bytes) → same_text a b ≡ true → a ≡ b
unfolding same_text
same_text-eq [] [] h = refl
same_text-eq [] (b ∷ bs) h = cc
same_text-eq (a ∷ rs) [] h = cc
same_text-eq (a ∷ rs) (b ∷ bs) h = ground (arith, same_text-eq rs bs)

pub same_text_refl : (a : Bytes) → same_text a a ≡ true
unfolding same_text
same_text_refl [] = refl
same_text_refl (a ∷ rs) = ground (arith, same_text_refl rs)

pub c_string-c_string : (a : Bytes) → c_string (c_string a) ≡ c_string a
unfolding c_string
c_string-c_string [] = refl
c_string-c_string (b ∷ bs) = elim (Bool-cases (b == 0)) [
  | inl e ↦ rw e
  | inr e ↦ rw (e, e) (ap (λ (x : Bytes). b ∷ x) (c_string-c_string bs))
]

abbrev pub value_of : Value → Bytes
value_of v = v.content.bytes

-- the values of the text `t`, if a node of the chain has it
unfoldable pub values_in : Bytes → Chain → Option (List Bytes)
values_in t [] = none
values_in t (node ∷ chain) =
    if same_text (c_string node.token.bytes) t
    then some (map value_of node.values)
    else values_in t chain

abbrev pub or_nil : Option (List Bytes) → List Bytes
or_nil none = []
or_nil (some vs) = vs

-- `q` is the chain with one more value under `k`
abbrev pub Added : (k v : Bytes) → Chain → Chain → Type 0
Added k v c q =
    (t : Bytes)
    → values_in t q
      ≡ (if same_text k t then some (or_nil (values_in k c) ++ (v ∷ [])) else values_in t c)

-- `new` is `old` with one more value
pub record Grown (v : Bytes) (old new : TokenNode) : Type 0 where
  pub token : new.token ≡ old.token
  pub values : map value_of new.values ≡ map value_of old.values ++ (v ∷ [])

Added-here :
    (k v : Bytes) (node new : TokenNode) (chain : Chain)
    → same_text (c_string node.token.bytes) k ≡ true
    → Grown v node new
    → Added k v (node ∷ chain) (new ∷ chain)
unfolding values_in
Added-here k v node new chain same g t =
    let e = same_text-eq _ _ same in rw (g.token, g.values, e, same_text_refl k) (ground arith)

same_text-differs :
    (k t s : Bytes) → same_text s t ≡ true → same_text s k ≡ false → same_text k t ≡ false
same_text-differs k t s e other = elim (Bool-cases (same_text k t)) [
  | inl y ↦
      let p : s ≡ k = same_text-eq s t e ∙ sym (same_text-eq k t y) in
      let both : false ≡ true =
        sym other ∙ ap (λ (x : Bytes). same_text x k) p ∙ same_text_refl k in
      absurd (cc)
  | inr n ↦ n
]

-- a node with another token in front changes nothing
Added-behind :
    (k v : Bytes) (node : TokenNode) (c q : Chain)
    → same_text (c_string node.token.bytes) k ≡ false
    → Added k v c q
    → Added k v (node ∷ c) (node ∷ q)
unfolding values_in
Added-behind k v node c q other a t = elim (Bool-cases (same_text (c_string node.token.bytes) t)) [
  | inl e ↦ let d : same_text k t ≡ false = same_text-differs k t _ e other in rw (e, d) refl
  | inr e ↦ rw (e, a t, other) refl
]

-- where the walk stops, a grown node adds the value
pub record Found (k : Bytes) (bucket : ℕ) (front chain : Chain) (p : Place) : Type 0 where
  pub bucket_of : p.bucket ≡ bucket
  pub passed : Chain
  pub front_of : p.front ≡ front ++ passed
  pub split : chain ≡ passed ++ (p.node ∷ p.back)
  pub grows :
      (v : Bytes) (new : TokenNode)
      → Grown v p.node new
      → Added k v chain (passed ++ (new ∷ p.back))

pub data Search (k : Bytes) (bucket : ℕ) (front chain : Chain) : Option Place → Type 0 where
  found : {p : Place} → Found k bucket front chain p → Search k bucket front chain (some p)
  missed : values_in k chain ≡ none → Search k bucket front chain none

Search-behind :
    (k : Bytes) (bucket : ℕ) (front : Chain) (node : TokenNode) (chain : Chain) (o : Option Place)
    → same_text (c_string node.token.bytes) k ≡ false
    → Search k bucket (front ++ (node ∷ [])) chain o
    → Search k bucket front (node ∷ chain) o
unfolding values_in
Search-behind k bucket front node chain (some p) other (found f) = found (record {
  bucket_of = f.bucket_of;
  passed = node ∷ f.passed;
  front_of = f.front_of ∙ append_assoc front (node ∷ []) f.passed;
  split = ap (λ (x : Chain). node ∷ x) f.split;
  grows =
      λ v new g. Added-behind k v node chain (f.passed ++ (new ∷ p.back)) other (f.grows v new g);
})
Search-behind k bucket front node chain none other (missed m) = missed (rw other m)

pub find_token-Search :
    (token : Bytes) (bucket : ℕ) (front chain : Chain)
    → Search (c_string token) bucket front chain (find_token token bucket front chain)
unfolding find_token values_in
find_token-Search token bucket front [] = missed refl
find_token-Search token bucket front (node ∷ chain) =
    elim (Bool-cases (same_text (c_string node.token.bytes) (c_string token))) [
      | inl e ↦ rw e (
          found (record {
            bucket_of = refl;
            passed = [];
            front_of = sym (append-nil front);
            split = refl;
            grows = λ v new g. Added-here (c_string token) v node new chain e g;
          }))
      | inr e ↦ rw e (
          Search-behind (c_string token) bucket front node chain _ e
            (find_token-Search token bucket (front ++ (node ∷ [])) chain))
    ]
