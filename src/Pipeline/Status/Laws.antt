-- ===== src/Pipeline/Status/Laws.antt =====
-- The status of a whole run, from the statuses of its stages.
use devsec.Base.{◌≡◌, ◌∙◌, ap, Bool, true, false, ◌||◌, List, [], ◌∷◌, arith, if◌then◌else◌}
use devsec.Pipeline.Types.{StageStatus, success, failed, canceled}
use devsec.Pipeline.Result.{StageResult}
use devsec.Pipeline.Status.{seen, note_status, note_all, overall, determine_overall_status}

abbrev fails : StageStatus → Bool
fails failed = true
fails _ = false

abbrev cancels : StageStatus → Bool
cancels canceled = true
cancels _ = false

abbrev pub any_failed : List StageResult → Bool
any_failed [] = false
any_failed (r ∷ rs) = fails r.status || any_failed rs

abbrev pub any_canceled : List StageResult → Bool
any_canceled [] = false
any_canceled (r ∷ rs) = cancels r.status || any_canceled rs

note_status-any :
    (s : StageStatus) (f c : Bool) → note_status s (seen f c) ≡ seen (f || fails s) (c || cancels s)
unfolding note_status
note_status-any s f c = ground arith

note_all-any :
    (f c : Bool) (rs : List StageResult)
    → note_all (seen f c) rs ≡ seen (f || any_failed rs) (c || any_canceled rs)
unfolding note_all
note_all-any f c [] = ground arith
note_all-any f c (r ∷ rs) =
    ap (λ x. note_all x rs) (note_status-any r.status f c)
    ∙ note_all-any (f || fails r.status) (c || cancels r.status) rs
    ∙ ground arith

-- A run is canceled if a stage of it was, failed if one failed and none was canceled, and otherwise a
-- success, skipped stages included.
pub determine_overall_status_lem :
    (rs : List StageResult)
    → determine_overall_status rs
      ≡ (if any_canceled rs then canceled else if any_failed rs then failed else success)
unfolding determine_overall_status overall
determine_overall_status_lem rs = rw (note_all-any false false rs) (ground arith)
