-- ===== src/Graph/Builder/Indexes.antt =====
-- The indexes of graph/graph.go beside its edge list, and the invariant of a graph.
use gocel.Prelude.{
  ◌≤◌, count, count-keys-insert, contains-count, ◌≡◌, refl, sym, ap, ◌∙◌, inl, inr, String, Bool,
  true, false, List, [], ◌∷◌, ◌++◌, arith, filter, if◌then◌else◌, ◌==◌, string_eq, lookup, insert,
  has_key, keys, lookup-insert, Bool-cases,
}
use mathlib.Core.List.{append_assoc, append-nil}
use gocel.Graph.Builder.{
  NodeId, NodeOption, NodeKind, same_edge, Edge, EdgeIndex, Graph, GraphNode, edges_at, add_edge_to,
  index_edges, empty_index, rebuild_indexes, new, store_node, apply_options, fresh_node, has_edge,
}

abbrev pub leaving : NodeId → List Edge → List Edge
leaving id = filter (λ e. e.from == id)

abbrev pub entering : NodeId → List Edge → List Edge
entering id = filter (λ e. e.to == id)

edges_at-add_edge_to :
    (j id : NodeId) (e : Edge) (index : EdgeIndex)
    → edges_at j (add_edge_to id e index)
      ≡ (if id == j then edges_at j index ++ e ∷ [] else edges_at j index)
edges_at-add_edge_to j id e index =
    ground (arith, string_eq.beq_iff id j, lookup-insert id j (edges_at id index ++ e ∷ []) index)

edges_at-empty_index : (j : NodeId) (ids : List NodeId) → edges_at j (empty_index ids) ≡ []
unfolding empty_index lookup
edges_at-empty_index j [] = refl
edges_at-empty_index j (id ∷ ids) = ground (arith, edges_at-empty_index j ids)

filter-snoc :
    (p : Edge → Bool) (es : List Edge) (e : Edge)
    → filter p (es ++ e ∷ []) ≡ (if p e then filter p es ++ e ∷ [] else filter p es)
filter-snoc p [] e = ground arith
filter-snoc p (d ∷ es) e = ground (arith, filter-snoc p es e)

index_edges-out :
    (j : NodeId) (es : List Edge) (out into : EdgeIndex)
    → edges_at j (index_edges es (out, into)).0 ≡ edges_at j out ++ leaving j es
unfolding index_edges
index_edges-out j [] out into = sym (append-nil _)
index_edges-out j (e ∷ es) out into = elim (Bool-cases (e.from == j)) [
  | inl hit ↦
      index_edges-out j es (add_edge_to e.from e out) (add_edge_to e.to e into)
      ∙ ap (λ (xs : List Edge). xs ++ leaving j es) (edges_at-add_edge_to j e.from e out)
      ∙ rw hit (append_assoc (edges_at j out) (e ∷ []) (leaving j es))
  | inr miss ↦
      index_edges-out j es (add_edge_to e.from e out) (add_edge_to e.to e into)
      ∙ ap (λ (xs : List Edge). xs ++ leaving j es) (edges_at-add_edge_to j e.from e out)
      ∙ rw miss
]

index_edges-in :
    (j : NodeId) (es : List Edge) (out into : EdgeIndex)
    → edges_at j (index_edges es (out, into)).1 ≡ edges_at j into ++ entering j es
unfolding index_edges
index_edges-in j [] out into = sym (append-nil _)
index_edges-in j (e ∷ es) out into = elim (Bool-cases (e.to == j)) [
  | inl hit ↦
      index_edges-in j es (add_edge_to e.from e out) (add_edge_to e.to e into)
      ∙ ap (λ (xs : List Edge). xs ++ entering j es) (edges_at-add_edge_to j e.to e into)
      ∙ rw hit (append_assoc (edges_at j into) (e ∷ []) (entering j es))
  | inr miss ↦
      index_edges-in j es (add_edge_to e.from e out) (add_edge_to e.to e into)
      ∙ ap (λ (xs : List Edge). xs ++ entering j es) (edges_at-add_edge_to j e.to e into)
      ∙ rw miss
]

-- No edge twice.
abbrev pub Distinct : List Edge → Type 0
Distinct [] = Unit {0}
Distinct (e ∷ es) = (has_edge e es ≡ false) × Distinct es

same_edge_refl : (e d : Edge) → same_edge e d ≡ true → same_edge d e ≡ true
unfolding same_edge
same_edge_refl e d h = ground (
  arith,
  string_eq.beq_iff e.from d.from,
  string_eq.beq_iff d.from e.from,
  string_eq.beq_iff e.to d.to,
  string_eq.beq_iff d.to e.to,
  string_eq.beq_iff e.label d.label,
  string_eq.beq_iff d.label e.label,
)

has_edge-snoc :
    (d e : Edge) (es : List Edge)
    → has_edge d (es ++ e ∷ []) ≡ (if has_edge d es then true else same_edge e d)
unfolding has_edge
has_edge-snoc d e [] = ground arith
has_edge-snoc d e (c ∷ es) = ground (arith, has_edge-snoc d e es)

Distinct-snoc :
    (e : Edge) (es : List Edge) → has_edge e es ≡ false → Distinct es → Distinct (es ++ e ∷ [])
unfolding has_edge
Distinct-snoc e [] h d = (refl, tt)
Distinct-snoc e (c ∷ es) h d = (
  ground (arith, has_edge-snoc c e es, same_edge_refl e c),
  Distinct-snoc e es (ground arith) d.1,
)

module _ {Work : Type 0} where
  pub record Indexed (g : Graph Work) : Type 0 where
    pub out : (j : NodeId) → edges_at j g.out_edges ≡ leaving j g.edges
    pub into : (j : NodeId) → edges_at j g.in_edges ≡ entering j g.edges

  -- Rebuilding makes indexes that agree with the edge list, whatever they were before.
  pub rebuild_indexes-Indexed : (g : Graph Work) → Indexed (rebuild_indexes g)
  unfolding rebuild_indexes
  rebuild_indexes-Indexed g =
      let start = empty_index (keys g.nodes) in
      record {
        out = λ j.
            index_edges-out j g.edges start start
            ∙ ap (λ (xs : List Edge). xs ++ leaving j g.edges)
                (edges_at-empty_index j (keys g.nodes));
        into = λ j.
            index_edges-in j g.edges start start
            ∙ ap (λ (xs : List Edge). xs ++ entering j g.edges)
                (edges_at-empty_index j (keys g.nodes));
      }

  -- Both ends of each edge are nodes.
  abbrev pub Joined : List (NodeId × GraphNode Work) → List Edge → Type 0
  Joined nodes [] = Unit {0}
  Joined nodes (e ∷ es) =
      (has_key e.from nodes ≡ true) × (has_key e.to nodes ≡ true) × Joined nodes es

  Joined-insert :
      (id : NodeId) (n : GraphNode Work) (nodes : List (NodeId × GraphNode Work)) (es : List Edge)
      → Joined nodes es
      → Joined (insert id n nodes) es
  Joined-insert id n nodes [] j = tt
  Joined-insert id n nodes (e ∷ es) j = (
    ground (arith, lookup-insert id e.from n nodes),
    ground (arith, lookup-insert id e.to n nodes),
    Joined-insert id n nodes es j.2,
  )

  Joined-snoc :
      (e : Edge) (nodes : List (NodeId × GraphNode Work)) (es : List Edge)
      → has_key e.from nodes ≡ true
      → has_key e.to nodes ≡ true
      → Joined nodes es
      → Joined nodes (es ++ e ∷ [])
  Joined-snoc e nodes [] f t j = (f, t, tt)
  Joined-snoc e nodes (d ∷ es) f t j = (j.0, j.1, Joined-snoc e nodes es f t j.2)

  pub record Inv (g : Graph Work) : Type 0 where
    pub joined : Joined g.nodes g.edges
    pub distinct : Distinct g.edges
    pub indexed : Indexed g
    pub keys_once : (id : NodeId) → count id (keys g.nodes) ≤ 1

  pub new-Inv : (name : String) → Inv (new name)
  unfolding new lookup
  new-Inv name = record {
    joined = tt;
    distinct = tt;
    indexed = record { out = λ j. refl; into = λ j. refl };
    keys_once = λ id. omega arith;
  }

  pub store_node-Inv :
      (id : NodeId) (kind : NodeKind) (work : List Work) (opts : List NodeOption) (g : Graph Work)
      → Inv g
      → Inv (store_node id kind work opts g)
  unfolding store_node
  store_node-Inv id kind work opts g v = record {
    joined = Joined-insert id _ g.nodes g.edges v.joined;
    distinct = v.distinct;
    indexed = record { out = v.indexed.out; into = v.indexed.into };
    keys_once = λ j. ground (
      arith,
      count-keys-insert id j (apply_options opts (fresh_node id kind work)) g.nodes,
      contains-count id (keys g.nodes),
      v.keys_once j,
      string_eq.beq_iff id j,
    );
  }

  unfoldable pub append_edge : Edge → Graph Work → Graph Work
  append_edge e g = record g {
    edges = g.edges ++ e ∷ [];
    out_edges = add_edge_to e.from e g.out_edges;
    in_edges = add_edge_to e.to e g.in_edges;
    dirty = true;
  }

  pub append_edge-Inv :
      (e : Edge) (g : Graph Work)
      → has_key e.from g.nodes ≡ true
      → has_key e.to g.nodes ≡ true
      → has_edge e g.edges ≡ false
      → Inv g
      → Inv (append_edge e g)
  unfolding append_edge
  append_edge-Inv e g f t fresh v = record {
    joined = Joined-snoc e g.nodes g.edges f t v.joined;
    distinct = Distinct-snoc e g.edges fresh v.distinct;
    indexed = record {
      out = λ j. ground (
        arith,
        edges_at-add_edge_to j e.from e g.out_edges,
        v.indexed.out j,
        filter-snoc (λ d. d.from == j) g.edges e,
      );
      into = λ j. ground (
        arith,
        edges_at-add_edge_to j e.to e g.in_edges,
        v.indexed.into j,
        filter-snoc (λ d. d.to == j) g.edges e,
      );
    };
    keys_once = v.keys_once;
  }
