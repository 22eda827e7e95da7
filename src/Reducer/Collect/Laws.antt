-- ===== src/Reducer/Collect/Laws.antt =====
-- The collection phase of src/reducer.c: pairs on the wire, and the table they end in.
use mr_lib.Common.{
  ℕ, zero, suc, ◌+◌, ◌<◌, ◌%◌, ◌≡◌, refl, ap, sym, ◌∙◌, inl, inr, List, [], ◌∷◌, ◌++◌, append-nil,
  append_assoc, Bytes, length, size_limit, if◌then◌else◌, Bool-cases, length-set, arith,
}
use mr_lib.Os.{Os, Request}
use mr_lib.Os.Io.{pure, ◌>>=◌, syscall_ret, free}
use mr_lib.Os.Lawful.{Lawful, Kept, Kept-trans, frame-Kept}
use mr_lib.Os.Yields
use mr_lib.Os.Yields.{Yields, returns}
use mr_lib.Log.{LogFile, c_string}
use mr_lib.Protocol.Input.{same_text}
use mr_lib.Protocol.Pair.{Pair}
use mr_lib.Protocol.Pair.Laws.{
  pair_bytes, receive_pair_from_mapper_fd-Delivered, receive_pair_from_mapper_fd-none,
}
use mr_lib.Reducer.Table.{Table, table_size}
use mr_lib.Reducer.Table.Lookup.{
  lookup, Stores, write_back-Stores, find_or_create_token-Located, Appended-Grown,
  add_value_to_token-Appended,
}
use mr_lib.Reducer.Collect.{Collected, store_pair, collect}

-- pairs of a token and a value on the wire
abbrev pub all_pairs : List (Bytes × Bytes) → Bytes
all_pairs [] = []
all_pairs (p ∷ ps) = pair_bytes p.0 p.1 ++ all_pairs ps

-- the values of the pairs whose token is the text `t`
abbrev pub values_for : Bytes → List (Bytes × Bytes) → List Bytes
values_for t [] = []
values_for t (p ∷ ps) =
    if same_text (c_string p.0) (c_string t) then p.1 ∷ values_for t ps else values_for t ps

-- every length fits a `size_t`
abbrev pub AreSized : List (Bytes × Bytes) → Type 0
AreSized [] = Unit
AreSized (p ∷ ps) = (length p.0 + 1 < size_limit) × (length p.1 < size_limit) × AreSized ps

module _ {W : Type 0} ⦃os : Os W⦄ (law : Lawful os) where
  open law use {Fault, pending, sent}

  record Stored (token value : Bytes) (table : Table) (w : W) (new : Table) (w' : W) : Type 0 where
    stores : Stores token value table new
    size : length new ≡ table_size
    kept : Kept law w w'

  store_pair-Stored :
      (log_file : LogFile) (table : Table) (pair : Pair) (w : W)
      → length table ≡ table_size
      → Yields
          (Stored pair.token.bytes pair.value.bytes table w)
          Fault
          (store_pair log_file table pair w)
  unfolding store_pair ◌>>=◌ pure syscall_ret free
  store_pair-Stored log_file table pair w size =
      Yields.bind (Yields.handle _ (find_or_create_token-Located law table pair.token.bytes w))
        λ place u l.
          Yields.bind
            (Yields.handle _
              (add_value_to_token-Appended law place.node pair.value pair.value_size u))
            λ new v a. returns (record {
              stores =
                  write_back-Stores pair.token.bytes pair.value.bytes table place new size l.0
                    (Appended-Grown law pair.value pair.value_size place.node new a.0);
              size = length-set table place.bucket _ ∙ size;
              kept =
                  Kept-trans law l.1
                    (Kept-trans law a.1 (frame-Kept law (Request.free pair.token.address) refl v));
            })

  -- `c` has the values of `pairs` behind those of `table`
  pub record Grouped (fd : ℕ) (pairs : List (Bytes × Bytes)) (table : Table) (n : ℕ) (w : W)
      (c : Collected) (w' : W) : Type 0 where
    pub groups : (t : Bytes) → lookup c.hash_table t ≡ lookup table t ++ values_for t pairs
    pub counted : c.pairs_received % size_limit ≡ (n + length pairs) % size_limit
    pub kept : (to : ℕ) → sent to w' ≡ sent to w

  Stored-values :
      (token value t : Bytes) (pairs : List (Bytes × Bytes)) (table new : Table)
      → Stores token value table new
      → lookup new t ++ values_for t pairs ≡ lookup table t ++ values_for t ((token, value) ∷ pairs)
  Stored-values token value t pairs table new s =
      elim (Bool-cases (same_text (c_string token) (c_string t))) [
        | inl e ↦ rw (s t, e) (append_assoc (lookup table t) (value ∷ []) (values_for t pairs))
        | inr e ↦ rw (s t, e) refl
      ]

  -- Where the pipe holds pairs and then ends, the loop ends with a table in which the values of a
  -- token are those of the pairs that have it, in the order of their arrival, behind what the table
  -- had before; unless a call fails. The fuel needed is one more than the number of pairs.
  pub collect-Grouped :
      (pairs : List (Bytes × Bytes)) (fuel : ℕ) (log_file : LogFile) (fd : ℕ) (table : Table)
      (n : ℕ) (w : W)
      → AreSized pairs
      → length pairs < fuel
      → length table ≡ table_size
      → pending fd w ≡ all_pairs pairs
      → Yields (Grouped fd pairs table n w) Fault (collect fuel log_file fd table n w)
  unfolding collect ◌>>=◌ pure syscall_ret
  collect-Grouped pairs zero log_file fd table n w sized enough size front = absurd (omega arith)
  collect-Grouped [] (suc fuel) log_file fd table n w sized enough size front =
      Yields.bind (Yields.handle _ (receive_pair_from_mapper_fd-none law log_file fd w front))
        λ r u e.
          let nothing_more : n ≡ n + 0 = omega arith in
          rw e.0 (
            returns (record {
              groups = λ t. sym (append-nil (lookup table t));
              counted = ap (λ (k : ℕ). k % size_limit) nothing_more;
              kept = e.1;
            }))
  collect-Grouped ((token, value) ∷ pairs) (suc fuel) log_file fd table n w sized enough size
        front =
      Yields.bind
        (Yields.handle _ (
          receive_pair_from_mapper_fd-Delivered law log_file fd token value (all_pairs pairs) w
            sized.0 sized.1 front))
        λ r u d. rw d.returned (
          Yields.bind (store_pair-Stored log_file table d.pair u size) λ stored v s.
            Yields.mono
              (collect-Grouped pairs fuel log_file fd stored ((n + 1) % size_limit) v sized.2
                (omega arith) s.size (s.kept.pending_kept fd ∙ d.left))
              λ c w' g. record {
                groups = λ t.
                    g.groups t
                    ∙ Stored-values token value t pairs table stored
                        (rw (sym d.token_bytes, sym d.value_bytes) s.stores);
                counted = g.counted ∙ omega arith;
                kept = λ to. g.kept to ∙ s.kept.sent_kept to ∙ d.kept to;
              })
