-- ===== src/Reducer/Table/Freeing.antt =====
-- What freeing the nodes of the hash table of src/reducer.c comes to, call by call.
use mr_lib.Common.{ℕ, List, ◌≡◌, refl, ap, ◌∙◌, [], ◌∷◌}
use mr_lib.Os.{Request, Os}
use mr_lib.Os.Io.{Handler, free}
use mr_lib.Reducer.Table.{Value, TokenNode, Chain, free_values, cleanup_token_node, cleanup_chain}
use mr_lib.Reducer.Workers.{release_node}

module _ {W : Type 0} ⦃os : Os W⦄ where
  -- the world behind one call of `free`
  abbrev pub freed : ℕ → Handler W
  freed address w = (os.sys (Request.free address) w).1

  abbrev pub freed_values : List Value → Handler W
  freed_values [] w = w
  freed_values (v ∷ vs) w = freed_values vs (freed v.content.address w)

  -- the token, each of the values, their array, and the node itself
  abbrev pub freed_node : TokenNode → Handler W
  freed_node node w =
      freed node.address (freed node.array (freed_values node.values (freed node.token.address w)))

  abbrev pub freed_nodes : Chain → Handler W
  freed_nodes [] w = w
  freed_nodes (node ∷ nodes) w = freed_nodes nodes (freed_node node w)

  free_values-freed : (vs : List Value) (w : W) → free_values vs w ≡ freed_values vs w
  unfolding free_values free
  free_values-freed [] w = refl
  free_values-freed (v ∷ vs) w = free_values-freed vs _

  pub release_node-freed : (node : TokenNode) (w : W) → release_node node w ≡ freed_node node w
  unfolding release_node free
  release_node-freed node w =
      ap (λ (v : W). freed node.address (freed node.array v)) (free_values-freed node.values _)

  pub cleanup_chain-freed : (nodes : Chain) (w : W) → cleanup_chain nodes w ≡ freed_nodes nodes w
  unfolding cleanup_chain cleanup_token_node free
  cleanup_chain-freed [] w = refl
  cleanup_chain-freed (node ∷ nodes) w =
      cleanup_chain-freed nodes _
      ∙ ap (λ (v : W). freed_nodes nodes (freed node.address (freed node.array v)))
          (free_values-freed node.values _)
