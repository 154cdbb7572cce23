-- ===== src/Graph/Scheduler/Tests.antt =====
-- A condition node that chooses one of two branches which join again.
use gocel.Prelude.{
  ℕ, ◌<◌, ◌≤◌, ◌+◌, ◌++◌, ◌≡◌, refl, some, none, List, [], ◌∷◌, lookup, insert, string_eq, String,
  keys, Option, true, contains, count, arith, length,
}
use gocel.Prelude.Int.{◌-ℤ◌, ◌+ℤ◌, pos}
use gocel.Graph.State.{GraphState, get}
use gocel.Graph.Builder.{
  Graph, Edge, adds_chain, adds_condition, adds_edge, new, build, build_step, add_chain_node,
  add_condition_node, add_labeled_edge, edges_at, has_edge, same_edge,
}
use gocel.Graph.Builder.Building.{build-new-Inv}
use gocel.Graph.Topo.{CompiledGraph, in_degrees}
use gocel.Graph.Topo.Compiling.{IsCompiled}
use gocel.Graph.Scheduler.{
  Scheduler, new_scheduler, start_entries, run_results, ids_of, try_start, cond_in_count,
  has_labeled_out, node_finished, complete,
}
use gocel.Graph.Scheduler.Flow.{flow}
use gocel.Graph.Scheduler.Termination.{run_conserves}
use gocel.Graph.Topo.Order.{IsOrder}
use gocel.Graph.Scheduler.Runs.{Runs, begins, reports, taken_once, started_after}
use gocel.Graph.Scheduler.Liveness.{Routed, run_resolves}

abbrev routed : Graph ℕ
routed =
    build
      (adds_condition "check" (some 1) []
        ∷ adds_chain "left" (2 ∷ []) []
        ∷ adds_chain "right" (3 ∷ []) []
        ∷ adds_chain "join" (4 ∷ []) []
        ∷ adds_edge "check" "left" "yes"
        ∷ adds_edge "check" "right" "no"
        ∷ adds_edge "left" "join" ""
        ∷ adds_edge "right" "join" ""
        ∷ [])
      (new "routed")

abbrev compiled_routed : CompiledGraph ℕ
compiled_routed = record {
  graph = routed;
  topo_order = "check" ∷ "left" ∷ "right" ∷ "join" ∷ [];
  in_degree = in_degrees routed.in_edges;
  out_edges = routed.out_edges;
  in_edges = routed.in_edges;
}

routed-IsCompiled : IsCompiled compiled_routed
routed-IsCompiled = record {
  well_formed = build-new-Inv "routed" _;
  out = refl;
  into = refl;
  degree = refl;
}

abbrev empty_state : GraphState String
empty_state = record { values = []; history = []; watchers = [] }

abbrev chose_yes : GraphState String
chose_yes = record { values = ("branch", some "yes") ∷ []; history = []; watchers = [] }

abbrev results : List (String × GraphState String)
results = ("check", chose_yes) ∷ ("left", empty_state) ∷ []

abbrev finished : Option (Scheduler String)
finished =
    run_results compiled_routed some 0 5 results
      (start_entries compiled_routed empty_state (new_scheduler compiled_routed))

abbrev last_state : Option (Scheduler String) → Scheduler String
last_state none = new_scheduler compiled_routed
last_state (some t) = t

right_skipped : (last_state finished).skipped ≡ "right" ∷ []
unfolding build build_step new add_chain_node add_condition_node add_labeled_edge lookup insert
    run_results start_entries new_scheduler ◌-ℤ◌ ◌+ℤ◌ try_start get cond_in_count has_labeled_out
right_skipped = refl

four_nodes : length (keys routed.nodes) < 5
unfolding build build_step new add_chain_node add_condition_node add_labeled_edge lookup insert
four_nodes = omega arith

run_conserves_example :
    (t : Scheduler String) × (finished ≡ some t)
    × ((n : String)
        → t.remaining n
            +ℤ t.cond_pending n
            +ℤ pos (flow compiled_routed (ids_of results) n + flow compiled_routed t.skipped n)
          ≡ pos (length (edges_at n compiled_routed.in_edges)))
run_conserves_example =
    run_conserves compiled_routed some 0 5 empty_state results routed-IsCompiled four_nodes

abbrev forked : Graph ℕ
forked =
    build
      (adds_condition "check" (some 1) []
        ∷ adds_chain "left" (2 ∷ []) []
        ∷ adds_chain "right" (3 ∷ []) []
        ∷ adds_edge "check" "left" "yes"
        ∷ adds_edge "check" "right" "no"
        ∷ [])
      (new "forked")

abbrev compiled_forked : CompiledGraph ℕ
compiled_forked = record {
  graph = forked;
  topo_order = "check" ∷ "left" ∷ "right" ∷ [];
  in_degree = in_degrees forked.in_edges;
  out_edges = forked.out_edges;
  in_edges = forked.in_edges;
}

forked-IsCompiled : IsCompiled compiled_forked
forked-IsCompiled = record {
  well_formed = build-new-Inv "forked" _;
  out = refl;
  into = refl;
  degree = refl;
}

abbrev yes_edge : Edge
yes_edge = record { from = "check"; to = "left"; label = "yes" }

is_edge : has_edge yes_edge forked.edges ≡ true
unfolding build build_step new add_chain_node add_condition_node add_labeled_edge lookup insert
    has_edge same_edge
is_edge = refl

forked-IsOrder : IsOrder forked compiled_forked.topo_order
unfolding build build_step new add_chain_node add_condition_node add_labeled_edge lookup insert
forked-IsOrder = ((λ v. ground arith), (refl, (refl, (refl, tt))))

three_nodes : length (keys forked.nodes) < 5
unfolding build build_step new add_chain_node add_condition_node add_labeled_edge lookup insert
three_nodes = omega arith

abbrev ForkedRuns : List String → Scheduler String → Type 0
ForkedRuns = Runs compiled_forked some 5 empty_state

abbrev scheduler_or : Scheduler String → Option (Scheduler String) → Scheduler String
scheduler_or s none = s
scheduler_or s (some t) = t

abbrev reported : String → GraphState String → Scheduler String → Scheduler String
reported id state s = scheduler_or s (node_finished compiled_forked some 0 5 id state s)

abbrev at_start : Scheduler String
at_start = start_entries compiled_forked empty_state (new_scheduler compiled_forked)

abbrev checked : Scheduler String
checked = reported "check" chose_yes at_start

abbrev left_done : Scheduler String
left_done = reported "left" empty_state checked

checked-Runs : ForkedRuns ("check" ∷ []) checked
unfolding build build_step new add_condition_node add_chain_node add_labeled_edge lookup insert
    start_entries new_scheduler ◌-ℤ◌ ◌+ℤ◌ try_start get cond_in_count has_labeled_out node_finished
    complete
checked-Runs = reports 0 "check" chose_yes begins (ground arith) refl

left_waits : count {A = String} "left" ("check" ∷ []) < count "left" (keys checked.dispatched)
unfolding build build_step new add_condition_node add_chain_node add_labeled_edge lookup insert
    start_entries new_scheduler ◌-ℤ◌ ◌+ℤ◌ try_start get cond_in_count has_labeled_out node_finished
    complete
left_waits = ground arith

left_found : node_finished compiled_forked some 0 5 "left" empty_state checked ≡ some left_done
unfolding build build_step new add_condition_node add_chain_node add_labeled_edge lookup insert
    start_entries new_scheduler ◌-ℤ◌ ◌+ℤ◌ try_start get cond_in_count has_labeled_out node_finished
    complete
left_found = refl

left_done-Runs : ForkedRuns ("left" ∷ "check" ∷ []) left_done
left_done-Runs = reports 0 "left" empty_state checked-Runs left_waits left_found

none_runs : left_done.running ≡ 0
unfolding build build_step new add_condition_node add_chain_node add_labeled_edge lookup insert
    start_entries new_scheduler ◌-ℤ◌ ◌+ℤ◌ try_start get cond_in_count has_labeled_out node_finished
    complete
none_runs = refl

left_started : contains "left" (keys checked.dispatched) ≡ true
unfolding build build_step new add_condition_node add_chain_node add_labeled_edge lookup insert
    start_entries new_scheduler ◌-ℤ◌ ◌+ℤ◌ try_start get cond_in_count has_labeled_out node_finished
    complete
left_started = refl

forked-Routed : Routed compiled_forked
unfolding build build_step new add_condition_node add_chain_node add_labeled_edge lookup insert
    start_entries new_scheduler ◌-ℤ◌ ◌+ℤ◌ try_start get cond_in_count has_labeled_out node_finished
    complete
forked-Routed id h = ground arith

taken_once_example : count "left" (keys left_done.dispatched) + count "left" left_done.skipped ≤ 1
taken_once_example =
    taken_once compiled_forked empty_state forked-IsCompiled forked-IsOrder left_done-Runs "left"

started_after_example : contains "check" ("check" ∷ [] ++ checked.skipped) ≡ true
started_after_example =
    started_after compiled_forked empty_state forked-IsCompiled forked-IsOrder yes_edge checked-Runs
      is_edge left_started

right_node : contains "right" (keys forked.nodes) ≡ true
unfolding build build_step new add_condition_node add_chain_node add_labeled_edge lookup insert
    start_entries new_scheduler ◌-ℤ◌ ◌+ℤ◌ try_start get cond_in_count has_labeled_out node_finished
    complete
right_node = refl

run_resolves_example :
    count "right" (keys left_done.dispatched) + count "right" left_done.skipped ≡ 1
run_resolves_example =
    run_resolves compiled_forked empty_state forked-IsCompiled forked-IsOrder forked-Routed
      left_done-Runs none_runs "right" right_node
