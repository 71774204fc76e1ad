-- ===== src/Pipeline/Status.antt =====
-- internal/pipeline/executor.go: when the execution goes on, and the status of a whole run.
pub mod Laws
use devsec.Base.{Bool, true, false, List, [], ◌∷◌}
use devsec.Pipeline.Types.{
  StageStatus, success, failed, canceled, is_success, ContinueCondition, on_failure, always,
}
use devsec.Pipeline.Result.{StageResult}

-- shouldContinue
unfoldable pub should_continue : ContinueCondition → StageStatus → Bool
unfolding is_success
should_continue always status = true
should_continue on_failure failed = true
should_continue on_failure _ = false
should_continue _ status = is_success status

-- The statuses that the loop of determineOverallStatus looks for.
pub data Seen : Type 0 where
  seen : (has_failure has_canceled : Bool) → Seen

note_status : StageStatus → Seen → Seen
note_status failed (seen f c) = seen true c
note_status canceled (seen f c) = seen f true
note_status _ s = s

note_all : Seen → List StageResult → Seen
unfolding note_status
note_all s [] = s
note_all s (r ∷ rs) = note_all (note_status r.status s) rs

overall : Seen → StageStatus
overall (seen f true) = canceled
overall (seen true false) = failed
overall (seen false false) = success

unfoldable pub determine_overall_status : List StageResult → StageStatus
unfolding note_all overall
determine_overall_status rs = overall (note_all (seen false false) rs)
