-- ===== src/Kubernetes/Tests.antt =====
-- A deployment of one pod that is not ready at first.
use devsec.Base.{ℕ, ◌≡◌, inr, refl, none, [], ◌∷◌, String, ltb, if◌then◌else◌}
use devsec.Kubernetes.Health.{Pod, report_of_pods}
use devsec.Kubernetes.Check.{Cluster, wait_for_healthy}
use devsec.Kubernetes.Check.Laws.{IsReport, report_of_pods-IsReport}

abbrev pod : (status : String) → Pod
pod status = record {
  name = "web-1";
  namespace = "default";
  phase = "Running";
  conditions = (record { kind = "Ready"; status = status; reason = ""; message = "starting" }) ∷ [];
  containers = [];
}

abbrev digits : ℕ → String
digits n = "n"

report_of_pods-IsReport_example :
    IsReport
      (pod "True" ∷ pod "False" ∷ [])
      (report_of_pods digits "default" "web" (pod "True" ∷ pod "False" ∷ []))
report_of_pods-IsReport_example =
    report_of_pods-IsReport digits "default" "web" (pod "True" ∷ pod "False" ∷ [])

-- The pod is ready from the second time on.
abbrev cluster : Cluster ℕ
cluster = record {
  selector = λ namespace deployment time. inr "app=web";
  list_pods = λ namespace selector time. inr (pod (if ltb 1 time then "True" else "False") ∷ []);
}

waited : wait_for_healthy cluster "default" digits "" "web" (1 ∷ 2 ∷ []) 3 ≡ none
unfolding wait_for_healthy
waited = refl
