-- ===== src/Repeats/Streaks.antt =====
-- When module/repeattool/repeattool.go reminds an agent that it repeats a call.
use gocel.Prelude.{
  ℕ, suc, ◌+◌, ◌≡◌, refl, ap, sym, ◌∙◌, subst, Bool, true, false, ◌||◌, List, [], ◌∷◌, String,
  Option, none, some, lookup, lookup-insert, string_eq, ◌==◌, leb, if◌then◌else◌, arith, Bool-cases,
  Option-cases, inl, inr,
}
use gocel.Prelude.Int.{ℤ, pos}
use gocel.Repeats.{
  Chain, Module, Call, new, crossed, key_of, chain_or, put, remind, observe_in, observe,
  observe_all,
}

module _ (normalize : String → String) (render : String → String → ℤ → String) where
  abbrev pub call_key : Call → String
  call_key call = key_of normalize render call.name call.args

  -- The keys of an agent's calls, newest first.
  abbrev pub keys_by : String → List Call → List String
  keys_by agent [] = []
  keys_by agent (call ∷ past) =
      if call.agent == agent then call_key call ∷ keys_by agent past else keys_by agent past

  -- How many of the newest keys are this one, with no other in between.
  abbrev pub streak : String → List String → ℕ
  streak key [] = 0
  streak key (k ∷ ks) = if k == key then suc (streak key ks) else 0

  abbrev is_first : List String → Bool
  is_first [] = true
  is_first (k ∷ ks) = false

  -- The threshold that a call crosses, from the calls before it: the first call of a later streak
  -- crosses none.
  abbrev pub due : List ℤ → String → List String → Option ℤ
  due thresholds key past =
      let n = suc (streak key past) in
      if leb 2 n || is_first past then crossed n thresholds else none

  abbrev FitsChain : Option Chain → List String → Type 0
  FitsChain none [] = Unit
  FitsChain none (k ∷ ks) = ⊥
  FitsChain (some c) [] = ⊥
  FitsChain (some c) (k ∷ ks) =
      (c.key ≡ k) × (c.count ≡ suc (streak k ks)) × (key_of normalize render c.name c.args ≡ k)

  Tracks : List ℤ → List Call → Module → Type 0
  Tracks thresholds past m =
      (m.thresholds ≡ thresholds)
      × ((agent : String) → FitsChain (lookup agent m.chains) (keys_by agent past))

  abbrev pub reminder_of : String → String → Option ℤ → Option String
  reminder_of name args none = none
  reminder_of name args (some th) = some (render name args th)

  -- What a call does, from the keys of the agent's calls before it.
  record Observed (call : Call) (m : Module) (past : List String) (result : Option String × Module)
      : Type 0 where
    chain : Chain
    name : String
    args : String
    stored : result.1 ≡ put normalize render call chain m
    fits : FitsChain (some chain) (call_key call ∷ past)
    alike : key_of normalize render name args ≡ call_key call
    reminder : result.0 ≡ reminder_of name args (due m.thresholds (call_key call) past)

  remind-Observed :
      (call : Call) (c : Chain) (m : Module) (past : List String)
      → FitsChain (some c) (call_key call ∷ past)
      → crossed c.count m.thresholds ≡ due m.thresholds (call_key call) past
      → Observed call m past (remind normalize render call c m)
  remind-Observed call c m past f same = elim (Option-cases (crossed c.count m.thresholds)) [
    | inl calm ↦
        rw (remind, calm)
          (record {
            chain = c;
            name = c.name;
            args = c.args;
            stored = refl;
            fits = f;
            alike = f.2;
            reminder = ap (reminder_of c.name c.args) (sym calm ∙ same);
          })
    | inr (th, hit) ↦
        rw (remind, hit)
          (record {
            chain = record c { reminded = th };
            name = c.name;
            args = c.args;
            stored = refl;
            fits = f;
            alike = f.2;
            reminder = ap (reminder_of c.name c.args) (sym hit ∙ same);
          })
  ]

  streak-hit :
      (key k : String) (ks : List String) → k ≡ key → streak key (k ∷ ks) ≡ suc (streak k ks)
  streak-hit key k ks h = ground (arith, string_eq.beq_iff k key, ap (λ s. streak s ks) h)

  due-hit :
      (thresholds : List ℤ) (key k : String) (ks : List String)
      → k ≡ key
      → due thresholds key (k ∷ ks) ≡ crossed (suc (streak key (k ∷ ks))) thresholds
  due-hit thresholds key k ks h =
      let twice : leb 2 (suc (streak key (k ∷ ks))) ≡ true =
        ground (arith, streak-hit key k ks h) in
      rw twice refl

  due-miss :
      (thresholds : List ℤ) (key k : String) (ks : List String)
      → (k == key) ≡ false
      → due thresholds key (k ∷ ks) ≡ none
  due-miss thresholds key k ks h = rw h refl

  -- The chain that `observe` works on: a new one before the agent's first call.
  abbrev Before : Call → Chain → List String → Type 0
  Before call c [] =
      (c.key ≡ call_key call)
      × (c.count ≡ 0)
      × (key_of normalize render c.name c.args ≡ call_key call)
  Before call c (k ∷ ks) = FitsChain (some c) (k ∷ ks)

  observe_in-Observed :
      (call : Call) (c : Chain) (m : Module) (past : List String)
      → Before call c past
      → Observed call m past (observe_in normalize render call c m)
  observe_in-Observed call c m [] (same, zero_count, alike) =
      let hit : (c.key == call_key call) ≡ true =
        (string_eq.beq_iff c.key (call_key call)).1 same in
      rw (observe_in, hit)
        (remind-Observed call (record c { count = c.count + 1 }) m [] (same, omega arith, alike)
          (ap (λ n. crossed (n + 1) m.thresholds) zero_count))
  observe_in-Observed call c m (k ∷ ks) (same, counted, alike) =
      elim (Bool-cases (c.key == call_key call)) [
        | inl hit ↦
            let here : k ≡ call_key call =
              sym same ∙ (string_eq.beq_iff c.key (call_key call)).0 hit in
            let longer : c.count + 1 ≡ suc (streak (call_key call) (k ∷ ks)) =
              omega (arith, counted, streak-hit (call_key call) k ks here) in
            rw (observe_in, hit)
              (remind-Observed call (record c { count = c.count + 1 }) m (k ∷ ks)
                (same ∙ here, longer, alike ∙ here)
                (ap (λ n. crossed n m.thresholds) longer
                  ∙ sym (due-hit m.thresholds (call_key call) k ks here)))
        | inr miss ↦
            let other : (k == call_key call) ≡ false =
              ap (λ s. s == call_key call) (sym same) ∙ miss in
            rw (observe_in, miss)
              (record {
                chain = record {
                  key = call_key call;
                  name = call.name;
                  args = call.args;
                  count = 1;
                  reminded = pos 0;
                };
                name = call.name;
                args = call.args;
                stored = refl;
                fits = (refl, rw other refl, refl);
                alike = refl;
                reminder =
                    ap (reminder_of call.name call.args)
                      (sym (due-miss m.thresholds (call_key call) k ks other));
              })
      ]

  chain_or-Before :
      (call : Call) (o : Option Chain) (past : List String)
      → FitsChain o past
      → Before call (chain_or normalize render (call_key call) call o) past
  chain_or-Before call none [] f = (refl, refl, refl)
  chain_or-Before call none (k ∷ ks) f = elim f [ ]
  chain_or-Before call (some c) [] f = elim f [ ]
  chain_or-Before call (some c) (k ∷ ks) f = f

  observe-Observed :
      (call : Call) (m : Module) (past : List String)
      → FitsChain (lookup call.agent m.chains) past
      → Observed call m past (observe normalize render call m)
  unfolding observe
  observe-Observed call m past f =
      observe_in-Observed call _ m past (chain_or-Before call (lookup call.agent m.chains) past f)

  tracked :
      (call : Call) (m : Module) (past : List Call)
      → Observed call m (keys_by call.agent past) (observe normalize render call m)
      → ((agent : String) → FitsChain (lookup agent m.chains) (keys_by agent past))
      → (agent : String)
      → FitsChain
          (lookup agent (observe normalize render call m).1.chains)
          (keys_by agent (call ∷ past))
  tracked call m past o v agent =
      let after = (observe normalize render call m).1.chains in
      let now : lookup agent after
          ≡ (if call.agent == agent then some o.chain else lookup agent m.chains) =
        ap (λ x. lookup agent x.chains) o.stored
        ∙ lookup-insert call.agent agent o.chain m.chains in
      elim (Bool-cases (call.agent == agent)) [
        | inl ours ↦
            let here : call.agent ≡ agent = (string_eq.beq_iff call.agent agent).0 ours in
            let found : lookup agent after ≡ some o.chain = now ∙ rw ours refl in
            let kept : FitsChain (some o.chain) (call_key call ∷ keys_by agent past) =
              subst (λ a. FitsChain (some o.chain) (call_key call ∷ keys_by a past)) here o.fits in
            rw (ours, found) kept
        | inr other ↦
            let same : lookup agent after ≡ lookup agent m.chains = now ∙ rw other refl in
            rw (other, same) (v agent)
      ]

  observe_all-Tracks :
      (thresholds : List ℤ) (past : List Call)
      → Tracks thresholds past (observe_all normalize render past (new thresholds))
  unfolding Tracks observe_all new lookup
  observe_all-Tracks thresholds [] = (refl, λ agent. tt)
  observe_all-Tracks thresholds (call ∷ past) =
      let m = observe_all normalize render past (new thresholds) in
      let (same, v) = observe_all-Tracks thresholds past in
      let o = observe-Observed call m (keys_by call.agent past) (v call.agent) in
      (ap (λ x. x.thresholds) o.stored ∙ same, λ agent. tracked call m past o v agent)

  pub observe_lem :
      (thresholds : List ℤ) (past : List Call) (call : Call)
      → (name : String) × (args : String) × (key_of normalize render name args ≡ call_key call)
        × ((observe normalize render call (observe_all normalize render past (new thresholds))).0
            ≡ reminder_of name args (due thresholds (call_key call) (keys_by call.agent past)))
  unfolding Tracks
  observe_lem thresholds past call =
      let m = observe_all normalize render past (new thresholds) in
      let (same, v) = observe_all-Tracks thresholds past in
      let o = observe-Observed call m (keys_by call.agent past) (v call.agent) in
      (
        o.name,
        o.args,
        o.alike,
        o.reminder
            ∙ ap
                (λ ths.
                  reminder_of o.name o.args (due ths (call_key call) (keys_by call.agent past)))
                same,
      )
