-- ===== src/Pipeline/Result.antt =====
-- internal/pipeline/pipeline.go: the results of stages and of a pipeline, and their counts. Times
-- and durations are left out.
pub mod Lookup
pub mod Counts
use devsec.Base.{
  ℕ, suc, ◌+◌, Bool, true, false, Option, none, some, List, [], ◌∷◌, String, length, if◌then◌else◌,
  text_eq,
}
use devsec.Model.{Finding}
use devsec.Pipeline.Types.{
  StageStatus, success, failed, skipped, canceled, is_success, Stage, Pipeline, PipelineError,
}

-- A value of type any: a finding, or anything else.
pub data Item : Type 0 where
  finding_item : Finding → Item
  other_item : Item

-- An artifact: a []model.Finding, a []any, or a value of any other type.
pub data Artifact : Type 0 where
  findings_artifact : List Finding → Artifact
  items_artifact : List Item → Artifact
  other_artifact : Artifact

-- `artifacts` is a map, in the order in which it is searched, and none for the nil map. An empty
-- error text is no error. A pipeline's result holds the error whose text the program stores.
pub record StageResult : Type 0 where
  pub name : String
  pub status : StageStatus
  pub error : String
  pub artifacts : Option (List (String × Artifact))

pub record PipelineResult : Type 0 where
  pub name : String
  pub status : StageStatus
  pub error : Option PipelineError
  pub stages : List StageResult

-- Pipeline.GetStage
pub get_stage_in : List Stage → String → Option Stage
get_stage_in [] name = none
get_stage_in (s ∷ ss) name = if text_eq s.name name then some s else get_stage_in ss name

unfoldable pub get_stage : Pipeline → String → Option Stage
unfolding get_stage_in
get_stage p name = get_stage_in p.stages name

-- Pipeline.GetStageIndex
get_index_from : ℕ → List Stage → String → Option ℕ
get_index_from i [] name = none
get_index_from i (s ∷ ss) name =
    if text_eq s.name name then some i else get_index_from (suc i) ss name

unfoldable pub get_stage_index : Pipeline → String → Option ℕ
unfolding get_index_from
get_stage_index p name = get_index_from 0 p.stages name

-- PipelineResult.GetStageResult
get_result_in : List StageResult → String → Option StageResult
get_result_in [] name = none
get_result_in (r ∷ rs) name = if text_eq r.name name then some r else get_result_in rs name

pub get_stage_result : PipelineResult → String → Option StageResult
unfolding get_result_in
get_stage_result p name = get_result_in p.stages name

-- PipelineResult.SuccessCount
unfoldable pub success_count : List StageResult → ℕ
unfolding is_success
success_count [] = 0
success_count (r ∷ rs) = if is_success r.status then suc (success_count rs) else success_count rs

-- PipelineResult.FailedCount
is_failed : StageStatus → Bool
is_failed failed = true
is_failed _ = false

unfoldable pub failed_count : List StageResult → ℕ
unfolding is_failed
failed_count [] = 0
failed_count (r ∷ rs) = if is_failed r.status then suc (failed_count rs) else failed_count rs

pub record Summary : Type 0 where
  pub total_stages : ℕ
  pub success_count : ℕ
  pub failed_count : ℕ
  pub skipped_count : ℕ
  pub canceled_count : ℕ

-- The body of the loop of PipelineResult.Summarize.
tally : StageStatus → Summary → Summary
tally success s = record s { success_count = s.success_count + 1 }
tally failed s = record s { failed_count = s.failed_count + 1 }
tally skipped s = record s { skipped_count = s.skipped_count + 1 }
tally canceled s = record s { canceled_count = s.canceled_count + 1 }
tally _ s = s

tally_all : Summary → List StageResult → Summary
unfolding tally
tally_all s [] = s
tally_all s (r ∷ rs) = tally_all (tally r.status s) rs

-- PipelineResult.Summarize
unfoldable pub summarize : PipelineResult → Summary
unfolding tally_all
summarize p =
    tally_all
      (record {
        total_stages = length p.stages;
        success_count = 0;
        failed_count = 0;
        skipped_count = 0;
        canceled_count = 0;
      })
      p.stages
