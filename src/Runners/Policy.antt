-- ===== src/Runners/Policy.antt =====
-- internal/pipeline/runner.go: PolicyRunner.Run and loadPolicies. The policy engine and the file system
-- are functions on the world; `E` is the type of the engine's results.
use Prim.Native.String.{◌++◌ as text_append}
use devsec.Base.{
  ℕ, ◌≡◌, ◌⊎◌, inl, inr, refl, Bool, true, false, ◌||◌, not, List, [], ◌∷◌, String, if◌then◌else◌,
  Bool-cases, Option, none, some, ◌==◌, ltb,
}
use devsec.Model.{Finding}
use devsec.Pipeline.Types.{success, failed, Stage}
use devsec.Pipeline.Result.{Artifact, other_artifact}
use devsec.Pipeline.Runner.{RunnerInput}
use devsec.Runners.Common.{
  Tools, config_value, or_default, Ran, fail, cancel, succeed, fail_with, IsCoherent,
  fail-IsCoherent, create_result, cancel-IsCoherent, succeed-IsCoherent, fail_with-IsCoherent,
}
use devsec.Runners.Threshold.{check_threshold, at_least, threshold_rank, check_threshold_lem}

-- safepath.New and ReadDir, whose entries are names with a flag for directories; the suffix test for
-- `.rego`; the engine's LoadPolicy, PolicyCount, Evaluate and Close; strings.ToLower; and %d.
pub record PolicyTools (W E : Type 0) : Type 0 where
  pub open_dir : String → W → Option String
  pub read_dir : String → W → String ⊎ List (String × Bool)
  pub is_rego : String → Bool
  pub load_policy : String → W → Option String × W
  pub policy_count : W → ℕ
  pub evaluate : List Finding → W → (String ⊎ List E) × W
  pub close : W → W
  pub fold : String → String
  pub decimal : ℕ → String

module _ {W E : Type 0} (tools : Tools W) (engine : PolicyTools W E) where
  after_load : String → Option String × W → (W → Option String × W) → Option String × W
  after_load name (none, w) go_on = go_on w
  after_load name (some e, w) go_on =
      (some (text_append (text_append (text_append "failed to load policy " name) ": ") e), w)

  -- The loop of loadPolicies.
  load_entries : String → List (String × Bool) → W → Option String × W
  unfolding after_load
  load_entries dir [] w = (none, w)
  load_entries dir ((name, is_dir) ∷ entries) w =
      if is_dir || not (engine.is_rego name)
      then load_entries dir entries w
      else after_load name (engine.load_policy (tools.join dir name) w) (load_entries dir entries)

  load_listed : String → String ⊎ List (String × Bool) → W → Option String × W
  unfolding load_entries
  load_listed dir (inl e) w = (some (text_append "failed to read policy directory: " e), w)
  load_listed dir (inr entries) w = load_entries dir entries w

  load_opened : String → Option String → W → Option String × W
  unfolding load_listed
  load_opened dir (some e) w = (some (text_append "policy directory not accessible: " e), w)
  load_opened dir none w = load_listed dir (engine.read_dir dir w) w

  -- loadPolicies
  unfoldable pub load_policies : String → W → Option String × W
  unfolding load_opened
  load_policies dir w = load_opened dir (engine.open_dir dir w) w

  module _ (s : Stage) where
    artifacts : List (String × Artifact)
    artifacts =
        ("policy_dir", other_artifact)
        ∷ ("fail_on", other_artifact)
        ∷ ("policy_count", other_artifact)
        ∷ ("eval_results", other_artifact)
        ∷ ("findings_count", other_artifact)
        ∷ ("failed_count", other_artifact)
        ∷ []

    verdict : Bool × ℕ → W → Ran W
    unfolding fail_with succeed artifacts
    verdict (true, count) w =
        fail_with tools s
          (text_append (text_append "policy check failed: " (engine.decimal count))
            " findings exceed threshold")
          artifacts w
    verdict (false, count) w = succeed tools s artifacts w

    evaluated : List Finding → (String ⊎ List E) × W → Ran W
    unfolding fail verdict check_threshold
    evaluated findings (inl e, w) = fail tools s (text_append "policy evaluation failed: " e) w
    evaluated findings (inr results, w) =
        verdict
          (check_threshold engine.fold results (or_default (config_value "fail_on" s.config) "high")
            findings)
          w

    loaded : List Finding → Option String × W → Ran W
    unfolding fail evaluated
    loaded findings (some e, w) = fail tools s (text_append "failed to load policies: " e) w
    loaded findings (none, w) =
        if engine.policy_count w == 0
        then fail tools s "no policies found in directory" w
        else evaluated findings (engine.evaluate findings w)

    -- The directory of the policies.
    unfoldable pub policy_dir : String → String
    unfolding config_value or_default
    policy_dir work_dir =
        let dir = or_default (config_value "policy_dir" s.config) "policies" in
        if tools.is_abs dir then dir else tools.join work_dir dir

    close_engine : Ran W → Ran W
    close_engine (r, err, w) = (r, err, engine.close w)

    -- PolicyRunner.Run
    unfoldable pub run_policy : RunnerInput → W → Ran W
    unfolding cancel loaded load_policies policy_dir close_engine
    run_policy input w =
        if tools.done w
        then cancel tools s w
        else close_engine (loaded input.findings (load_policies (policy_dir input.work_dir) w))

    -- Closing the engine keeps the result.
    close_engine-IsCoherent :
        (ran : Ran W) → IsCoherent tools s ran → IsCoherent tools s (close_engine ran)
    unfolding close_engine
    close_engine-IsCoherent ran c = record { named = c.named; status = c.status }

    verdict-IsCoherent : (v : Bool × ℕ) (w : W) → IsCoherent tools s (verdict v w)
    unfolding verdict
    verdict-IsCoherent (true, count) w = fail_with-IsCoherent tools s _ artifacts w
    verdict-IsCoherent (false, count) w = succeed-IsCoherent tools s artifacts w

    evaluated-IsCoherent :
        (findings : List Finding) (o : String ⊎ List E) (w : W)
        → IsCoherent tools s (evaluated findings (o, w))
    unfolding evaluated
    evaluated-IsCoherent findings (inl e) w = fail-IsCoherent tools s _ w
    evaluated-IsCoherent findings (inr results) w = verdict-IsCoherent _ w

    loaded-IsCoherent :
        (findings : List Finding) (o : Option String) (w : W)
        → IsCoherent tools s (loaded findings (o, w))
    unfolding loaded
    loaded-IsCoherent findings (some e) w = fail-IsCoherent tools s _ w
    loaded-IsCoherent findings none w = elim (Bool-cases (engine.policy_count w == 0)) [
      | inl e ↦ rw e (fail-IsCoherent tools s _ w)
      | inr e ↦
          let ran = engine.evaluate findings w in rw e (evaluated-IsCoherent findings ran.0 ran.1)
    ]

    -- Whatever the engine does, the result of a policy stage is a success exactly when there is no
    -- error.
    pub run_policy-IsCoherent :
        (input : RunnerInput) (w : W) → IsCoherent tools s (run_policy input w)
    unfolding run_policy
    run_policy-IsCoherent input w = elim (Bool-cases (tools.done w)) [
      | inl e ↦ rw e (cancel-IsCoherent tools s w)
      | inr e ↦
          let o = load_policies (policy_dir input.work_dir) w in
          rw e (close_engine-IsCoherent _ (loaded-IsCoherent input.findings o.0 o.1))
    ]

    verdict_lem :
        (n : ℕ) (w : W) → (verdict (ltb 0 n, n) w).0.status ≡ (if ltb 0 n then failed else success)
    unfolding verdict fail_with succeed create_result
    verdict_lem n w = elim (Bool-cases (ltb 0 n)) [ inl e ↦ rw e refl | inr e ↦ rw e refl ]

    evaluated_lem :
        (findings : List Finding) (results : List E) (w : W)
        → let n =
            at_least
              (threshold_rank (engine.fold (or_default (config_value "fail_on" s.config) "high")))
              findings in
          (evaluated findings (inr results, w)).0.status ≡ (if ltb 0 n then failed else success)
    unfolding evaluated
    evaluated_lem findings results w =
        let fail_on = or_default (config_value "fail_on" s.config) "high" in
        rw (check_threshold_lem engine.fold results fail_on findings) (verdict_lem _ w)

    -- Where the policies load and the engine evaluates them, a policy stage fails exactly if some
    -- finding is at or above the threshold of its configuration: the decisions of the policies do not
    -- matter.
    pub run_policy-at_least :
        (input : RunnerInput) (results : List E) (w v : W)
        → tools.done w ≡ false
        → load_policies (policy_dir input.work_dir) w ≡ (none, v)
        → (engine.policy_count v == 0) ≡ false
        → (engine.evaluate input.findings v).0 ≡ inr results
        → let n =
            at_least
              (threshold_rank (engine.fold (or_default (config_value "fail_on" s.config) "high")))
              input.findings in
          (run_policy input w).0.status ≡ (if ltb 0 n then failed else success)
    unfolding run_policy close_engine loaded
    run_policy-at_least input results w v live loads some_loaded evaluates =
        rw (live, loads, loaded, some_loaded, evaluates)
          (evaluated_lem input.findings results (engine.evaluate input.findings v).1)
