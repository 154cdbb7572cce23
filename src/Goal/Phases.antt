-- ===== src/Goal/Phases.antt =====
-- The phases of a goal, and what its counters satisfy.
use gocel.Prelude.{◌≡◌, ◌≢◌, false, String, arith, string_eq, ok}
use gocel.Prelude.Int.{pos, ◌≤ℤ◌, ◌<ℤ◌}
use gocel.Goal.{
  Goal, Phase, Op, BlockOpts, completes, pauses, resumes, rounds, blocks, mutate, phase_active,
  phase_paused, phase_blocked, phase_complete, complete_fn, pause_fn, resume_fn, block_fn,
  start_round_fn,
}

-- The diagram of the phases; an edge is labelled by the method that takes it.
pub data Edge : Op → Phase → Phase → Type 0 where
  finish_active : Edge completes phase_active phase_complete
  finish_paused : Edge completes phase_paused phase_complete
  finish_blocked : Edge completes phase_blocked phase_complete
  finish_again : Edge completes phase_complete phase_complete
  suspend : Edge pauses phase_active phase_paused
  reopen_paused : Edge resumes phase_paused phase_active
  reopen_blocked : Edge resumes phase_blocked phase_active
  work : Edge rounds phase_active phase_active
  hit :
      (r : String) (o : BlockOpts)
      → o.autonomous ≡ false
      → Edge (blocks r o) phase_active phase_blocked
  hit_again : (r : String) (o : BlockOpts) → Edge (blocks r o) phase_blocked phase_blocked

ruleset edges = (
  finish_active, finish_paused, finish_blocked, finish_again, suspend, reopen_paused,
  reopen_blocked, work, hit, hit_again,
)

-- A mutation that is not refused follows an edge of the diagram.
pub mutate-Edge : (op : Op) (g g' : Goal) → mutate op g ≡ ok g' → Edge op g.phase g'.phase
unfolding mutate complete_fn pause_fn resume_fn block_fn start_round_fn
mutate-Edge completes g g' h = grind (arith, edges)
mutate-Edge pauses g g' h = grind (arith, edges)
mutate-Edge resumes g g' h = grind (arith, edges)
mutate-Edge rounds g g' h = grind (arith, edges)
mutate-Edge (blocks reason cfg) g g' h = grind (arith, edges)

pub record IsValid (g : Goal) : Type 0 where
  pub cap_nonneg : pos 0 ≤ℤ g.max_rounds
  pub rounds_nonneg : pos 0 ≤ℤ g.rounds
  pub rounds_capped : pos 0 <ℤ g.max_rounds → g.rounds ≤ℤ g.max_rounds
  pub streak_nonneg : pos 0 ≤ℤ g.blocked_streak
  pub blocked_streak_pos : g.phase ≡ phase_blocked → pos 1 ≤ℤ g.blocked_streak
  pub unblocked_clean :
      g.phase ≢ phase_blocked → (g.blocked_streak ≡ pos 0) × (g.blocker_reason ≡ "")

-- No mutation breaks the counters: rounds stay under the cap, only a blocked goal has a streak and
-- a reason.
pub mutate-IsValid : (op : Op) (g g' : Goal) → IsValid g → mutate op g ≡ ok g' → IsValid g'
unfolding mutate complete_fn pause_fn resume_fn block_fn start_round_fn
mutate-IsValid completes g g' v h = ground arith
mutate-IsValid pauses g g' v h = ground arith
mutate-IsValid resumes g g' v h = ground arith
mutate-IsValid rounds g g' v h = ground arith
mutate-IsValid (blocks reason cfg) g g' v h = ground arith
