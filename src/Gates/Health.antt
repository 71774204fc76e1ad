-- ===== src/Gates/Health.antt =====
-- internal/gates/postcheck.go: the health gate, the readiness gate, and the two combined. A
-- percentage is a float: `at_least` is the machine's comparison.
use devsec.Base.{Bool, true, false, ◌&&◌, Option, none, some, String, if◌then◌else◌, text_eq}
use devsec.Gates.Types.{
  GateError, missing_kube_client, empty_namespace, empty_gate_name, gate_error, Result, ok, err,
  GateDecision, PostGate,
}

-- The calls of KubeClient: the percentage of healthy pods, and the wait for readiness.
pub record KubeClient (W F : Type 0) : Type 0 where
  pub check_pod_health : (namespace deployment : String) → W → Result F × W
  pub wait_for_ready : (namespace deployment : String) → W → Option GateError × W

module _ {W F : Type 0} (at_least : F → F → Bool) where
  health_decision : F → (namespace deployment : String) → Result F × W → Result GateDecision × W
  health_decision threshold ns dep (err e, w) =
      (err (gate_error "check health" "health" ns dep e), w)
  health_decision threshold ns dep (ok percentage, w) =
      (ok (record { gate_name = "health"; passed = at_least percentage threshold }), w)

  -- HealthGate.CheckHealth
  unfoldable pub health_check :
      Option (KubeClient W F) → F → (namespace deployment : String) → W → Result GateDecision × W
  unfolding health_decision
  health_check none threshold ns dep w = (err missing_kube_client, w)
  health_check (some kube) threshold ns dep w =
      if text_eq ns ""
      then (err empty_namespace, w)
      else if text_eq dep ""
      then (err (gate_error "check health" "health" ns "" empty_gate_name), w)
      else health_decision threshold ns dep (kube.check_pod_health ns dep w)

  readiness_decision : Option GateError × W → Result GateDecision × W
  readiness_decision (none, w) = (ok (record { gate_name = "readiness"; passed = true }), w)
  readiness_decision (some e, w) = (ok (record { gate_name = "readiness"; passed = false }), w)

  -- ReadinessGate.CheckHealth
  unfoldable pub readiness_check :
      Option (KubeClient W F) → (namespace deployment : String) → W → Result GateDecision × W
  unfolding readiness_decision
  readiness_check none ns dep w = (err missing_kube_client, w)
  readiness_check (some kube) ns dep w =
      if text_eq ns ""
      then (err empty_namespace, w)
      else if text_eq dep ""
      then (err (gate_error "check readiness" "readiness" ns "" empty_gate_name), w)
      else readiness_decision (kube.wait_for_ready ns dep w)

  combine_health : GateDecision → Result GateDecision × W → Result GateDecision × W
  combine_health ready (err e, w) = (err e, w)
  combine_health ready (ok health, w) =
      (ok (record { gate_name = "combined-health"; passed = ready.passed && health.passed }), w)

  combine_readiness :
      (W → Result GateDecision × W) → Result GateDecision × W → Result GateDecision × W
  unfolding combine_health
  combine_readiness check (err e, w) = (err e, w)
  combine_readiness check (ok ready, w) = combine_health ready (check w)

  -- CombinedHealthGate.CheckHealth
  unfoldable pub combined_check :
      Option (KubeClient W F) → F → (namespace deployment : String) → W → Result GateDecision × W
  unfolding combine_readiness
  combined_check kube threshold ns dep w =
      combine_readiness (health_check kube threshold ns dep) (readiness_check kube ns dep w)

  abbrev pub health_gate : Option (KubeClient W F) → F → PostGate W
  health_gate kube threshold = record {
    name = "health";
    check_health = health_check kube threshold;
  }

  abbrev pub readiness_gate : Option (KubeClient W F) → PostGate W
  readiness_gate kube = record { name = "readiness"; check_health = readiness_check kube }
