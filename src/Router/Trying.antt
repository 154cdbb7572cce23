-- ===== src/Router/Trying.antt =====
-- modelrouter/modelrouter.go: the order in which `generatePriority` tries the routes.
use gocel.Prelude.{
  ℕ, suc, ◌≡◌, refl, ap, sym, ◌∙◌, ◌⊎◌, List, [], ◌∷◌, ◌++◌, none, some, Option-cases, inl, inr,
  Result, Result-cases, ok, err,
}
use mathlib.Core.List.{append_assoc, append-nil}
use gocel.Router.{
  Handler, Route, Failure, not_chat, route_failed, RouteError, all_failed, apply_route_protection,
  try_routes, generate_priority,
}

module _ {ℓ} {S E A : Type ℓ} (with_timeout : ℕ → Handler S E A → Handler S E A)
    (mws : List (Handler S E A → Handler S E A)) where
  -- The routes, numbered from i on, fail one after the other: what they report and what is left.
  pub data AllFail : ℕ → List (Route S E A) → S → List (Failure E) → S → Type ℓ where
    nobody : {i : ℕ} {s : S} → AllFail i [] s [] s
    no_chat :
        {i : ℕ} {route : Route S E A} {routes : List (Route S E A)} {s s' : S}
        {errs : List (Failure E)}
        → route.chat ≡ none
        → AllFail (suc i) routes s errs s'
        → AllFail i (route ∷ routes) s (not_chat ∷ errs) s'
    refuses :
        {i : ℕ} {route : Route S E A} {routes : List (Route S E A)} {s s1 s' : S}
        {errs : List (Failure E)} (h : Handler S E A) (e : E)
        → route.chat ≡ some h
        → apply_route_protection with_timeout mws route h s ≡ (err e, s1)
        → AllFail (suc i) routes s1 errs s'
        → AllFail i (route ∷ routes) s (route_failed i e ∷ errs) s'

  -- The routes before the one that answers fail, in order; none after it is called.
  pub record Answered (i : ℕ) (routes : List (Route S E A)) (s : S) (a : A) (s' : S) : Type ℓ where
    pub before : List (Route S E A)
    pub hit : Route S E A
    pub after : List (Route S E A)
    pub split : routes ≡ before ++ hit ∷ after
    pub middle : S
    pub errs : List (Failure E)
    pub fail : AllFail i before s errs middle
    pub handler : Handler S E A
    pub there : hit.chat ≡ some handler
    pub answers : apply_route_protection with_timeout mws hit handler middle ≡ (ok a, s')

  -- What the loop gives, when it has collected `old` and is at route i.
  abbrev pub Outcome : ℕ → List (Route S E A) → List (Failure E) → S → Type ℓ
  Outcome i routes old s =
      ((a : A) × (s' : S) × (try_routes with_timeout mws i routes old s ≡ (ok a, s'))
        × Answered i routes s a s')
      ⊎ ((errs : List (Failure E)) × (s' : S) × (try_routes with_timeout mws i routes old s
            ≡ (err (all_failed (old ++ errs)), s'))
          × AllFail i routes s errs s')

  -- A route that fails with f, and what comes of the rest.
  after_failure :
      (i : ℕ) (route : Route S E A) (routes : List (Route S E A)) (old : List (Failure E))
      (s s1 : S) (f : Failure E)
      → try_routes with_timeout mws i (route ∷ routes) old s
        ≡ try_routes with_timeout mws (suc i) routes (old ++ f ∷ []) s1
      → ((rs : List (Route S E A)) (errs : List (Failure E)) (s' : S)
          → AllFail (suc i) rs s1 errs s'
          → AllFail i (route ∷ rs) s (f ∷ errs) s')
      → Outcome (suc i) routes (old ++ f ∷ []) s1
      → Outcome i (route ∷ routes) old s
  after_failure i route routes old s s1 f goes grow (inl (a, s', e, found)) = inl (
    a,
    s',
    goes ∙ e,
    record {
      before = route ∷ found.before;
      hit = found.hit;
      after = found.after;
      split = ap (λ rs. route ∷ rs) found.split;
      middle = found.middle;
      errs = f ∷ found.errs;
      fail = grow found.before found.errs found.middle found.fail;
      handler = found.handler;
      there = found.there;
      answers = found.answers;
    },
  )
  after_failure i route routes old s s1 f goes grow (inr (errs, s', e, fail)) = inr (
    f ∷ errs,
    s',
    goes
        ∙ e
        ∙ ap (λ l. let r : Result (RouteError E) A × S = (err (all_failed l), s') in r)
            (append_assoc old (f ∷ []) errs),
    grow routes errs s' fail,
  )

  try_routes-Outcome :
      (i : ℕ) (routes : List (Route S E A)) (old : List (Failure E)) (s : S)
      → Outcome i routes old s
  unfolding try_routes
  try_routes-Outcome i [] old s = inr (
    [],
    s,
    ap (λ l. let r : Result (RouteError E) A × S = (err (all_failed l), s) in r)
        (sym (append-nil old)),
    nobody,
  )
  try_routes-Outcome i (route ∷ routes) old s = elim (Option-cases route.chat) [
    | inl e ↦
        after_failure i route routes old s s not_chat (rw (try_routes, e) refl)
          (λ rs errs s' fail. no_chat e fail)
          (try_routes-Outcome (suc i) routes (old ++ not_chat ∷ []) s)
    | inr (h, e) ↦
        let ran = apply_route_protection with_timeout mws route h s in
        elim (Result-cases ran.0) [
          | inl (a, g) ↦ inl (
            a,
            ran.1,
            rw (try_routes, e, g) refl,
            record {
              before = [];
              hit = route;
              after = routes;
              split = refl;
              middle = s;
              errs = [];
              fail = nobody;
              handler = h;
              there = e;
              answers = ap (λ r. (r, ran.1)) g;
            },
          )
          | inr (x, g) ↦
              after_failure i route routes old s ran.1 (route_failed i x)
                (rw (try_routes, e, g) refl)
                (λ rs errs s' fail. refuses h x e (ap (λ r. (r, ran.1)) g) fail)
                (try_routes-Outcome (suc i) routes (old ++ route_failed i x ∷ []) ran.1)
        ]
  ]

  -- With a route or more, generatePriority returns the answer of a route before which each route
  -- failed, in their order, and calls none after it; or each route failed, and it returns the
  -- failures of all in this order.
  pub generate_priority_lem :
      (first : Route S E A) (rest : List (Route S E A)) (s : S)
      → let routes = first ∷ rest in
        let result = generate_priority with_timeout mws routes s in
        ((a : A) × (s' : S) × (result ≡ (ok a, s')) × Answered 0 routes s a s')
        ⊎ ((errs : List (Failure E)) × (s' : S) × (result ≡ (err (all_failed errs), s'))
            × AllFail 0 routes s errs s')
  unfolding generate_priority
  generate_priority_lem first rest s = try_routes-Outcome 0 (first ∷ rest) [] s
