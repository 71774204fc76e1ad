-- ===== src/Progress/Tests.antt =====
-- A channel of capacity one, of which the second event is dropped.
use devsec.Base.{ℕ, ◌≤◌, ◌≡◌, refl, List, [], ◌∷◌, ◌++◌, length}
use devsec.Progress.Channel.{
  Action, reports, closes, receives, new_reporter, run, Subsequence, run-Subsequence,
}

abbrev actions : List (Action ℕ)
actions = reports 1 ∷ reports 2 ∷ receives ∷ reports 3 ∷ closes ∷ reports 4 ∷ []

actions-received : (run 1 actions new_reporter).0 ≡ 1 ∷ []
unfolding run
actions-received = refl

run-Subsequence_example :
    Subsequence
      ((run 1 actions new_reporter).0 ++ (run 1 actions new_reporter).1.buffer)
      (1 ∷ 2 ∷ 3 ∷ [])
    × (length (run 1 actions new_reporter).1.buffer ≤ 1)
run-Subsequence_example = run-Subsequence 1 actions
