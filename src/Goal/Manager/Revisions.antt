-- ===== src/Goal/Manager/Revisions.antt =====
-- The compare-and-set of `Update` in core/goal/goal.go, over any store that keeps the seam's promise.
use gocel.Prelude.{
  some, true, beq_self, nat_beq, Option, ℕ, ◌+◌, ◌≡◌, refl, ◌∙◌, ap, ◌≢◌, String, none, arith, ◌==◌,
  string_eq, ok, err, if◌then◌else◌,
}
use gocel.Goal.{
  Goal, GoalError, GoalResult, Op, completes, pauses, resumes, rounds, blocks, mutate, complete_fn,
  pause_fn, resume_fn, block_fn, start_round_fn, phase_complete, err_stale_revision,
}
use gocel.Goal.Store.{Store}
use gocel.Goal.Manager.{
  Others, alone, saved, committed, commit, apply, update_loaded, update, perform,
}
use gocel.Goal.Phases.{Edge, mutate-Edge}

pub mutate_keeps :
    (op : Op) (g g' : Goal) → mutate op g ≡ ok g' → (g'.id ≡ g.id) × (g'.revision ≡ g.revision)
unfolding mutate complete_fn pause_fn resume_fn block_fn start_round_fn
mutate_keeps completes g g' h = ground arith
mutate_keeps pauses g g' h = ground arith
mutate_keeps resumes g g' h = ground arith
mutate_keeps rounds g g' h = ground arith
mutate_keeps (blocks reason cfg) g g' h = ground arith

complete_fn_complete : (g : Goal) → g.phase ≡ phase_complete → mutate completes g ≡ ok g
unfolding mutate complete_fn
complete_fn_complete g p = ground arith

nat_beq_self : (n : ℕ) → nat_beq n n ≡ true
nat_beq_self n = ground arith

module _ (st : Store) where
  open st use {S, load, save, delete, load-save}

  saved-ok :
      (g g' : Goal) (s s' : S)
      → saved st g (save g s) ≡ (ok g', s')
      → (g' ≡ g) × ((save g s).0 ≡ none) × (s' ≡ (save g s).1)
  unfolding saved
  saved-ok g g' s s' h = ground arith

  saved-none : (g : Goal) (r : Option GoalError × S) → r.0 ≡ none → saved st g r ≡ (ok g, r.1)
  unfolding saved
  saved-none g (none, s) h = refl
  saved-none g (some e, s) h = cc

  commit-ok :
      (now rev : ℕ) (others : Others S) (g g' : Goal) (r : GoalResult) (t s' : S)
      → commit st now rev others g r t ≡ (ok g', s')
      → let u = others.before_save t in
        (cur : Goal) × (r ≡ ok cur)
        × (cur.revision ≡ rev)
        × (g' ≡ committed now g)
        × ((save g' u).0 ≡ none)
        × (s' ≡ (save g' u).1)
  unfolding commit
  commit-ok now rev others g g' (ok cur) t s' h =
      (cur, refl, ground arith, ground arith, ground arith, ground arith)
  commit-ok now rev others g g' (err e) t s' h = ground arith

  apply-ok :
      (now rev : ℕ) (others : Others S) (id : String) (r : GoalResult) (s s' : S) (g' : Goal)
      → apply st now rev others id r s ≡ (ok g', s')
      → let t = others.before_reload s in
        let u = others.before_save t in
        (g1 : Goal) × (r ≡ ok g1)
        × ((cur : Goal) × (load id t ≡ ok cur) × (cur.revision ≡ rev))
        × (g' ≡ committed now g1)
        × ((save g' u).0 ≡ none)
        × (s' ≡ (save g' u).1)
  unfolding apply
  apply-ok now rev others id (ok g1) s s' g' h =
      let t = others.before_reload s in
      let (cur, e, same, made, kept, final) = commit-ok now rev others g1 g' (load id t) t s' h in
      (g1, refl, (cur, e, same), made, kept, final)
  apply-ok now rev others id (err e) s s' g' h = ground arith

  update_loaded-ok :
      (now : ℕ) (others : Others S) (id : String) (fn : Goal → GoalResult) (r : GoalResult)
      (s s' : S) (g' : Goal)
      → update_loaded st now others id fn r s ≡ (ok g', s')
      → (g : Goal) × (r ≡ ok g) × (apply st now g.revision others id (fn g) s ≡ (ok g', s'))
  unfolding update_loaded
  update_loaded-ok now others id fn (ok g) s s' g' h = (g, refl, h)
  update_loaded-ok now others id fn (err e) s s' g' h = ground arith

  -- What a successful `Update` went through.
  pub update-ok :
      (now : ℕ) (others : Others S) (id : String) (fn : Goal → GoalResult) (s s' : S) (g' : Goal)
      → update st now others id fn s ≡ (ok g', s')
      → let t = others.before_reload s in
        (g : Goal) × (g1 : Goal) × (load id s ≡ ok g)
        × (fn g ≡ ok g1)
        × ((cur : Goal) × (load id t ≡ ok cur) × (cur.revision ≡ g.revision))
        × (g' ≡ record g1 { revision = g1.revision + 1; updated_at = now })
        × ((save g' (others.before_save t)).0 ≡ none)
        × (s' ≡ (save g' (others.before_save t)).1)
  unfolding update committed
  update-ok now others id fn s s' g' h =
      let (g, e, later) = update_loaded-ok now others id fn (load id s) s s' g' h in
      let (g1, m, again, made, kept, final) =
        apply-ok now g.revision others id (fn g) s s' g' later in
      (g, g1, e, m, again, made, kept, final)

  perform-ok :
      (now : ℕ) (others : Others S) (id : String) (op : Op) (s s' : S) (g' : Goal)
      → perform st now others id op s ≡ (ok g', s')
      → update st now others id (mutate op) s ≡ (ok g', s')
  unfolding perform
  perform-ok now others id completes s s' g' h = h
  perform-ok now others id pauses s s' g' h = h
  perform-ok now others id resumes s s' g' h = h
  perform-ok now others id rounds s s' g' h = h
  perform-ok now others id (blocks reason cfg) s s' g' h = ground arith

  -- A method that succeeds found the goal at a revision that was still current when it looked
  -- again. It moves the goal along an edge of the phase diagram, to the next revision; what it
  -- returns is what the store then holds, and no other document changes at the commit.
  pub perform_commits :
      (now : ℕ) (others : Others S) (id : String) (op : Op) (s s' : S) (g' : Goal)
      → ((g : Goal) → load id s ≡ ok g → g.id ≡ id)
      → perform st now others id op s ≡ (ok g', s')
      → let t = others.before_reload s in
        (g : Goal) × (load id s ≡ ok g)
        × ((cur : Goal) × (load id t ≡ ok cur) × (cur.revision ≡ g.revision))
        × Edge op g.phase g'.phase
        × (g'.revision ≡ g.revision + 1)
        × (g'.updated_at ≡ now)
        × ((j : String) → load j s' ≡ (if id == j then ok g' else load j (others.before_save t)))
  perform_commits now others id op s s' g' keyed h =
      let (g, g1, e, m, again, made, kept, final) =
        update-ok now others id (mutate op) s s' g' (perform-ok now others id op s s' g' h) in
      let k = mutate_keeps op g g1 m in
      let same_id : g'.id ≡ id = ap (λ (x : Goal). x.id) made ∙ k.0 ∙ keyed g e in
      (
        g,
        e,
        again,
        rw made (mutate-Edge op g g1 m),
        ground arith,
        ground arith,
        λ j.
            rw final
              (load-save j g' (others.before_save (others.before_reload s)) kept ∙ rw same_id),
      )

  -- If somebody else moved the revision in between, the mutation is not written.
  pub update_stale :
      (now : ℕ) (others : Others S) (id : String) (fn : Goal → GoalResult) (s : S) (g g1 cur : Goal)
      → load id s ≡ ok g
      → fn g ≡ ok g1
      → load id (others.before_reload s) ≡ ok cur
      → cur.revision ≢ g.revision
      → update st now others id fn s ≡ (err err_stale_revision, others.before_reload s)
  unfolding update update_loaded apply commit
  update_stale now others id fn s g g1 cur e m c ne =
      rw (e, update_loaded) (rw (m, apply) (rw (c, commit) (ground arith)))

  -- `Complete` on a goal that is complete already writes it again, under the next revision and the
  -- present time: it is not the no-op that the comment on `Complete` promises.
  pub complete_again :
      (now : ℕ) (id : String) (s : S) (g again : Goal)
      → load id s ≡ ok g
      → g.phase ≡ phase_complete
      → again ≡ record g { revision = g.revision + 1; updated_at = now }
      → (save again s).0 ≡ none
      → perform st now alone id completes s ≡ (ok again, (save again s).1)
  unfolding perform update update_loaded apply commit committed mutate
  complete_again now id s g again e p made kept =
      rw (e, update_loaded)
        (rw (complete_fn_complete g p, apply)
          (rw (e, commit) (rw (nat_beq_self g.revision) (rw (← made) (saved-none again _ kept)))))

  -- A writer that comes between the second load and the save is overwritten, whatever revision it
  -- reached: there the comparison is not atomic with the write.
  pub overwrites_later_write :
      (now : ℕ) (others : Others S) (id : String) (op : Op) (s : S) (g g1 newer : Goal)
      → g.id ≡ id
      → load id s ≡ ok g
      → mutate op g ≡ ok g1
      → load id (others.before_reload s) ≡ ok g
      → load id (others.before_save (others.before_reload s)) ≡ ok newer
      → newer.revision ≢ g.revision
      → (save (committed now g1) (others.before_save (others.before_reload s))).0 ≡ none
      → let (r, s') = update st now others id (mutate op) s in
        (r ≡ ok (committed now g1)) × (load id s' ≡ ok (committed now g1))
  unfolding update update_loaded apply commit committed
  overwrites_later_write now others id op s g g1 newer k e m c n ne kept =
      let u = others.before_save (others.before_reload s) in
      let written = committed now g1 in
      let same : written.id ≡ id = (mutate_keeps op g g1 m).0 ∙ k in
      let run : update st now others id (mutate op) s ≡ (ok written, (save written u).1) =
        rw (e, update_loaded)
          (rw (m, apply)
            (rw (c, commit) (rw (nat_beq_self g.revision) (saved-none written _ kept)))) in
      rw run (refl, load-save id written u kept ∙ rw same (rw (beq_self id)))
