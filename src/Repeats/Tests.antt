-- ===== src/Repeats/Tests.antt =====
-- Two agents; one of them calls the same tool three times in a row.
use gocel.Prelude.{◌≡◌, refl, String, none, some, List, [], ◌∷◌, lookup, insert}
use gocel.Prelude.Int.{ℤ}
use gocel.Repeats.{Call, new, key_of, observe, observe_all, default_thresholds}
use gocel.Repeats.Streaks.{call_key, keys_by, due, reminder_of, observe_lem}

abbrev as_is : String → String
as_is args = args

abbrev tool_name : String → String → ℤ → String
tool_name name args threshold = name

abbrev reads : String → Call
reads agent = record { agent = agent; name = "read"; args = "a.go" }

abbrev past : List Call
past = reads "ann" ∷ reads "bob" ∷ reads "ann" ∷ []

observe_lem_example :
    (name : String) × (args : String) × (key_of as_is tool_name name args
      ≡ call_key as_is tool_name (reads "ann"))
    × ((observe as_is tool_name
          (reads "ann")
          (observe_all as_is tool_name past (new default_thresholds))).0
        ≡ reminder_of as_is tool_name name args (
            due as_is tool_name default_thresholds
              (call_key as_is tool_name (reads "ann"))
              (keys_by as_is tool_name "ann" past)))
observe_lem_example = observe_lem as_is tool_name default_thresholds past (reads "ann")

third_reminds :
    (observe as_is tool_name
      (reads "ann")
      (observe_all as_is tool_name past (new default_thresholds))).0
    ≡ some "read"
unfolding observe observe_all new lookup insert
third_reminds = refl

first_silent : (observe as_is tool_name (reads "ann") (new default_thresholds)).0 ≡ none
unfolding observe new lookup
first_silent = refl
