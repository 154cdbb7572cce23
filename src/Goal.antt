-- ===== src/Goal.antt =====
-- core/goal/goal.go: the goal document and its phases. The closures that the manager's methods hand
-- to `Update` are the functions of this file; Goal/Manager has the methods, Goal/Store the stores.
-- A goal is a value: Go's stores return copies. Times are numbers, counters unbounded integers.
pub mod Store
pub mod Manager
pub mod Phases
use Prim.Native.Char.{code}
use Prim.Native.String.{String}
use gocel.Prelude.{
  ℕ, ◌≡◌, Bool, true, false, ◌&&◌, ◌||◌, not, List, [], ◌∷◌, leb, nat_beq, if◌then◌else◌, ◌==◌,
  string_eq, Result, ok, err,
}
use gocel.Prelude.Int.{ℤ, pos, ◌+ℤ◌, ◌-ℤ◌, ltb_ℤ, leb_ℤ}

-- A phase is a string in Go: a stored document may hold another.
pub data Phase : Type 0 where
  phase_active phase_paused phase_blocked phase_complete : Phase
  phase_other : String → Phase

pub data GoalError : Type 0 where
  err_not_found err_already_exists err_stale_revision err_invalid_transition : GoalError
  err_invalid_objective err_invalid_max_rounds err_invalid_block_reason : GoalError
  err_max_rounds_reached err_block_threshold : GoalError
  err_store : String → GoalError

pub record Goal : Type 0 where
  pub id : String
  pub objective : String
  pub phase : Phase
  pub revision : ℕ
  pub rounds : ℤ
  pub max_rounds : ℤ
  pub blocked_streak : ℤ
  pub blocker_reason : String
  pub created_at : ℕ
  pub updated_at : ℕ

-- Unicode's White_Space, which `strings.TrimSpace` trims.
is_space : ℕ → Bool
is_space c =
    (leb 9 c && leb c 13)
    || (nat_beq c 32 || nat_beq c 133 || nat_beq c 160 || nat_beq c 5760)
    || (leb 8192 c && leb c 8202)
    || (nat_beq c 8232 || nat_beq c 8233 || nat_beq c 8239 || nat_beq c 8287 || nat_beq c 12288)

-- `strings.TrimSpace(s) == ""`
unfoldable pub is_blank : String → Bool
unfolding is_space
is_blank String.[] = true
is_blank (String.◌∷◌ c s) = is_space (code c) && is_blank s

abbrev pub GoalResult : Type 0
GoalResult = Result GoalError Goal

completed : Goal → Goal
completed g = record g { phase = phase_complete; blocker_reason = ""; blocked_streak = pos 0 }

complete_in : Phase → Goal → GoalResult
unfolding completed
complete_in phase_complete g = ok g
complete_in phase_active g = ok (completed g)
complete_in phase_paused g = ok (completed g)
complete_in phase_blocked g = ok (completed g)
complete_in (phase_other p) g = err err_invalid_transition

pub complete_fn : Goal → GoalResult
unfolding complete_in
complete_fn g = complete_in g.phase g

pause_in : Phase → Goal → GoalResult
pause_in phase_active g = ok (record g { phase = phase_paused })
pause_in _ g = err err_invalid_transition

pub pause_fn : Goal → GoalResult
unfolding pause_in
pause_fn g = pause_in g.phase g

resumed : Goal → Goal
resumed g = record g { phase = phase_active; blocked_streak = pos 0; blocker_reason = "" }

resume_in : Phase → Goal → GoalResult
unfolding resumed
resume_in phase_paused g = ok (resumed g)
resume_in phase_blocked g = ok (resumed g)
resume_in _ g = err err_invalid_transition

pub resume_fn : Goal → GoalResult
unfolding resume_in
resume_fn g = resume_in g.phase g

pub record BlockOpts : Type 0 where
  pub autonomous : Bool
  pub min_streak : ℤ

abbrev pub host_block : BlockOpts
host_block = record { autonomous = false; min_streak = pos 0 }

pub with_autonomous_block : ℤ → BlockOpts
with_autonomous_block min_streak = record { autonomous = true; min_streak = min_streak }

extend_streak : Goal → Goal
extend_streak g = record g { blocked_streak = g.blocked_streak +ℤ pos 1 }

restart_streak : String → Goal → Goal
restart_streak reason g = record g { blocker_reason = reason; blocked_streak = pos 1 }

abbrev pub is_blocked : Phase → Bool
is_blocked phase_blocked = true
is_blocked _ = false

autonomous_block : String → ℤ → Goal → GoalResult
unfolding extend_streak ◌-ℤ◌
autonomous_block reason min_streak g =
    if not (is_blocked g.phase)
      || not (g.blocker_reason == reason)
      || ltb_ℤ g.blocked_streak (min_streak -ℤ pos 1)
    then err err_invalid_transition
    else ok (extend_streak g)

block_in : Phase → String → Goal → GoalResult
unfolding extend_streak restart_streak
block_in phase_active reason g =
    ok (record g { phase = phase_blocked; blocker_reason = reason; blocked_streak = pos 1 })
block_in phase_blocked reason g =
    ok (if g.blocker_reason == reason then extend_streak g else restart_streak reason g)
block_in _ reason g = err err_invalid_transition

pub block_fn : String → BlockOpts → Goal → GoalResult
unfolding autonomous_block block_in ◌+ℤ◌
block_fn reason cfg g =
    if cfg.autonomous then autonomous_block reason cfg.min_streak g else block_in g.phase reason g

start_round_in : Phase → Goal → GoalResult
start_round_in phase_active g =
    if ltb_ℤ (pos 0) g.max_rounds && leb_ℤ g.max_rounds g.rounds
    then err err_max_rounds_reached
    else ok (record g { rounds = g.rounds +ℤ pos 1 })
start_round_in _ g = err err_invalid_transition

pub start_round_fn : Goal → GoalResult
unfolding start_round_in ◌+ℤ◌
start_round_fn g = start_round_in g.phase g

-- The mutations that the manager's methods make, by method.
pub data Op : Type 0 where
  completes pauses resumes rounds : Op
  blocks : String → BlockOpts → Op

pub mutate : Op → Goal → GoalResult
mutate completes g = complete_fn g
mutate pauses g = pause_fn g
mutate resumes g = resume_fn g
mutate rounds g = start_round_fn g
mutate (blocks reason cfg) g = block_fn reason cfg g
