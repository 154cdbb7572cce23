-- ===== src/Goal/Manager.antt =====
-- The methods of `Manager` in core/goal/goal.go over any store. The manager's mutex orders its own
-- calls; `Others` is what writers elsewhere (another manager, another process) do to the store at
-- the two points of `Update` between its calls of the store. `now` and `new_id` are arguments.
pub mod Revisions
pub mod History
mod Tests
use gocel.Prelude.{ℕ, ◌+◌, String, Option, none, some, ◌&&◌, if◌then◌else◌, nat_beq, ok, err}
use gocel.Prelude.Int.{ℤ, pos, ltb_ℤ}
use gocel.Goal.{
  Goal, GoalError, GoalResult, Op, completes, pauses, resumes, rounds, blocks, mutate, is_blank,
  phase_active, err_already_exists, err_stale_revision, err_invalid_objective,
  err_invalid_max_rounds, err_invalid_block_reason, err_block_threshold,
}
use gocel.Goal.Store.{Store}

pub record Others (S : Type 0) : Type 0 where
  pub before_reload : S → S
  pub before_save : S → S

-- Nobody else writes.
abbrev pub alone : {S : Type 0} → Others S
alone = record { before_reload = λ s. s; before_save = λ s. s }

pub committed : ℕ → Goal → Goal
committed now g = record g { revision = g.revision + 1; updated_at = now }

abbrev pub fresh_goal : ℕ → String → String → ℤ → Goal
fresh_goal now new_id objective max_rounds = record {
  id = new_id;
  objective = objective;
  phase = phase_active;
  revision = 1;
  rounds = pos 0;
  max_rounds = max_rounds;
  blocked_streak = pos 0;
  blocker_reason = "";
  created_at = now;
  updated_at = now;
}

module _ (st : Store) where
  open st use {S, load, save, delete}

  saved : Goal → Option GoalError × S → GoalResult × S
  saved g (none, s) = (ok g, s)
  saved g (some e, s) = (err e, s)

  -- The second load and the comparison of revisions.
  commit : ℕ → ℕ → Others S → Goal → GoalResult → S → GoalResult × S
  unfolding saved committed
  commit now rev others g (err e) s = (err e, s)
  commit now rev others g (ok cur) s =
      if nat_beq cur.revision rev
      then saved (committed now g) (save (committed now g) (others.before_save s))
      else (err err_stale_revision, s)

  apply : ℕ → ℕ → Others S → String → GoalResult → S → GoalResult × S
  unfolding commit
  apply now rev others id (err e) s = (err e, s)
  apply now rev others id (ok g) s =
      let s' = others.before_reload s in commit now rev others g (load id s') s'

  update_loaded : ℕ → Others S → String → (Goal → GoalResult) → GoalResult → S → GoalResult × S
  unfolding apply
  update_loaded now others id fn (err e) s = (err e, s)
  update_loaded now others id fn (ok g) s = apply now g.revision others id (fn g) s

  pub update : ℕ → Others S → String → (Goal → GoalResult) → S → GoalResult × S
  unfolding update_loaded
  update now others id fn s = update_loaded now others id fn (load id s) s

  -- `Complete`, `Pause`, `Resume`, `Block` and `StartRound`.
  pub perform : ℕ → Others S → String → Op → S → GoalResult × S
  perform now others id completes s = update now others id (mutate completes) s
  perform now others id pauses s = update now others id (mutate pauses) s
  perform now others id resumes s = update now others id (mutate resumes) s
  perform now others id rounds s = update now others id (mutate rounds) s
  perform now others id (blocks reason cfg) s =
      if is_blank reason
      then (err err_invalid_block_reason, s)
      else if cfg.autonomous && ltb_ℤ cfg.min_streak (pos 1)
      then (err err_block_threshold, s)
      else update now others id (mutate (blocks reason cfg)) s

  create_if_absent : Goal → GoalResult → S → GoalResult × S
  unfolding saved
  create_if_absent g (ok old) s = (err err_already_exists, s)
  create_if_absent g (err e) s = saved g (save g s)

  pub create : ℕ → String → String → ℤ → S → GoalResult × S
  unfolding create_if_absent
  create now new_id objective max_rounds s =
      if is_blank objective
      then (err err_invalid_objective, s)
      else if ltb_ℤ max_rounds (pos 0)
      then (err err_invalid_max_rounds, s)
      else create_if_absent (fresh_goal now new_id objective max_rounds) (load new_id s) s

  pub clear : String → S → Option GoalError × S
  clear id s = delete id s
