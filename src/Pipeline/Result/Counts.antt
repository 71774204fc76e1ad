-- ===== src/Pipeline/Result/Counts.antt =====
-- The counts in a summary of a run.
use devsec.Base.{ℕ, suc, ◌+◌, ◌≡◌, refl, ◌∙◌, List, [], ◌∷◌, length, arith, if◌then◌else◌}
use devsec.Pipeline.Types.{is_terminal, is_success}
use devsec.Pipeline.Result.{
  StageResult, PipelineResult, Summary, tally, tally_all, summarize, success_count, failed_count,
  is_failed,
}

-- The stages that have not ended.
abbrev unfinished : List StageResult → ℕ
unfinished [] = 0
unfinished (r ∷ rs) = if is_terminal r.status then unfinished rs else suc (unfinished rs)

-- What the loop adds to a summary.
record Adds (s s' : Summary) (rs : List StageResult) : Type 0 where
  total : s'.total_stages ≡ s.total_stages
  successes : s'.success_count ≡ s.success_count + success_count rs
  failures : s'.failed_count ≡ s.failed_count + failed_count rs
  ended :
      s'.success_count + s'.failed_count + s'.skipped_count + s'.canceled_count + unfinished rs
      ≡ s.success_count + s.failed_count + s.skipped_count + s.canceled_count + length rs

tally_all-Adds : (s : Summary) (rs : List StageResult) → Adds s (tally_all s rs) rs
unfolding tally_all tally is_success is_failed success_count failed_count is_terminal
tally_all-Adds s [] = record {
  total = refl;
  successes = ground arith;
  failures = ground arith;
  ended = ground arith;
}
tally_all-Adds s (r ∷ rs) =
    let rest = tally_all-Adds (tally r.status s) rs in
    record {
      total = rest.total ∙ ground arith;
      successes = ground (arith, rest.successes);
      failures = ground (arith, rest.failures);
      ended = ground (arith, rest.ended);
    }

-- What a summary says of the results of the stages.
pub record IsSummary (s : Summary) (rs : List StageResult) : Type 0 where
  pub total : s.total_stages ≡ length rs
  pub successes : s.success_count ≡ success_count rs
  pub failures : s.failed_count ≡ failed_count rs
  pub ended :
      s.success_count + s.failed_count + s.skipped_count + s.canceled_count + unfinished rs
      ≡ length rs

-- A summary counts all results and agrees with the counts of the successes and of the failures. Its
-- four counts together miss only the stages whose status is not terminal.
pub summarize-IsSummary : (p : PipelineResult) → IsSummary (summarize p) p.stages
unfolding summarize
summarize-IsSummary p =
    let counted =
      tally_all-Adds
        (record {
          total_stages = length p.stages;
          success_count = 0;
          failed_count = 0;
          skipped_count = 0;
          canceled_count = 0;
        })
        p.stages in
    record {
      total = counted.total;
      successes = ground (arith, counted.successes);
      failures = ground (arith, counted.failures);
      ended = ground (arith, counted.ended);
    }
