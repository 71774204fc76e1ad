-- ===== src/Kubernetes/Check.antt =====
-- internal/kubernetes/health.go: the operations of the health client, on a cluster that is a record of
-- functions on the world.
pub mod Laws
use Prim.Native.String.{◌++◌ as text_append}
use devsec.Base.{
  ℕ, Bool, false, Option, none, some, List, [], ◌∷◌, String, if◌then◌else◌, text_eq, ◌⊎◌, inl, inr,
}
use devsec.Kubernetes.Health.{
  Pod, PodCondition, ContainerStatus, StateDetail, HealthReport, report_of_pods,
  extract_unhealthy_pod_names,
}

-- An error of the cluster, and whether it says that nothing was found.
pub data ClusterError : Type 0 where
  not_found : ClusterError
  cluster_error : String → ClusterError

pub data HealthError : Type 0 where
  nil_context empty_namespace empty_name deployment_not_found timed_out : HealthError
  client_error : String → HealthError
  unhealthy : (total healthy : ℕ) → (unhealthy : List String) → HealthError

-- The selector of a deployment, and the pods of a selector.
pub record Cluster (W : Type 0) : Type 0 where
  pub selector : (namespace deployment : String) → W → ClusterError ⊎ String
  pub list_pods : (namespace selector : String) → W → String ⊎ List Pod

pub record PodReadiness : Type 0 where
  pub name : String
  pub namespace : String
  pub message : String
  pub ready : Bool

pub record PodLiveness : Type 0 where
  pub name : String
  pub namespace : String
  pub message : String
  pub alive : Bool

-- The namespace given, or that of the client.
unfoldable pub namespace_or : String → String → String
namespace_or given own = if text_eq given "" then own else given

find_ready : List PodCondition → Option PodCondition
find_ready [] = none
find_ready (c ∷ cs) = if text_eq c.kind "Ready" then some c else find_ready cs

readiness_by : Pod → Option PodCondition → PodReadiness
readiness_by p none = record { name = p.name; namespace = p.namespace; message = ""; ready = false }
readiness_by p (some c) =
    let ready = text_eq c.status "True" in
    record {
      name = p.name;
      namespace = p.namespace;
      message = if ready then "" else c.message;
      ready = ready;
    }

-- The body of the loop of GetReadiness.
readiness : Pod → PodReadiness
unfolding readiness_by find_ready
readiness p = readiness_by p (find_ready p.conditions)

all_readiness : List Pod → List PodReadiness
unfolding readiness
all_readiness [] = []
all_readiness (p ∷ ps) = readiness p ∷ all_readiness ps

stopped_message : String → Option StateDetail → Option StateDetail → String
stopped_message name (some d) terminated =
    text_append (text_append (text_append "container " name) " waiting: ") d.reason
stopped_message name none (some d) =
    text_append (text_append (text_append "container " name) " terminated: ") d.reason
stopped_message name none none = ""

-- The first container that is not running.
find_stopped : List ContainerStatus → Option ContainerStatus
find_stopped [] = none
find_stopped (c ∷ cs) = if c.state.running then find_stopped cs else some c

liveness_by : Pod → Option ContainerStatus → PodLiveness
unfolding stopped_message
liveness_by p none = record {
  name = p.name;
  namespace = p.namespace;
  message = "";
  alive = text_eq p.phase "Running";
}
liveness_by p (some c) = record {
  name = p.name;
  namespace = p.namespace;
  message = stopped_message c.name c.state.waiting c.state.terminated;
  alive = false;
}

-- The body of the loop of GetLiveness.
liveness : Pod → PodLiveness
unfolding liveness_by find_stopped
liveness p = liveness_by p (find_stopped p.containers)

all_liveness : List Pod → List PodLiveness
unfolding liveness
all_liveness [] = []
all_liveness (p ∷ ps) = liveness p ∷ all_liveness ps

-- The error at the timeout.
timeout_error : HealthError ⊎ HealthReport → HealthError
unfolding extract_unhealthy_pod_names
timeout_error (inl e) = timed_out
timeout_error (inr r) = unhealthy r.total_pods r.healthy_pods (extract_unhealthy_pod_names r.pods)

-- Whether a check of the cluster reports health; an error does not.
unfoldable pub reports_health : HealthError ⊎ HealthReport → Bool
reports_health (inl e) = false
reports_health (inr r) = r.healthy

module _ {W : Type 0} (cluster : Cluster W) (own : String) (decimal : ℕ → String) where
  report_listed : (namespace deployment : String) → String ⊎ List Pod → HealthError ⊎ HealthReport
  unfolding report_of_pods
  report_listed namespace deployment (inl e) = inl (client_error e)
  report_listed namespace deployment (inr ps) = inr (report_of_pods decimal namespace deployment ps)

  report_selected :
      (namespace deployment : String) → ClusterError ⊎ String → W → HealthError ⊎ HealthReport
  unfolding report_listed
  report_selected namespace deployment (inl not_found) w = inl deployment_not_found
  report_selected namespace deployment (inl (cluster_error e)) w = inl (client_error e)
  report_selected namespace deployment (inr selector) w =
      report_listed namespace deployment (cluster.list_pods namespace selector w)

  -- CheckPodHealth, behind the test of the context
  unfoldable pub check_pod_health : (given deployment : String) → W → HealthError ⊎ HealthReport
  unfolding report_selected namespace_or
  check_pod_health given deployment w =
      let namespace = namespace_or given own in
      if text_eq namespace ""
      then inl empty_namespace
      else if text_eq deployment ""
      then inl empty_name
      else report_selected namespace deployment (cluster.selector namespace deployment w) w

  -- GetReadiness, behind the test of the context
  unfoldable pub get_readiness : (given selector : String) → W → HealthError ⊎ List PodReadiness
  unfolding all_readiness namespace_or
  get_readiness given selector w =
      let namespace = namespace_or given own in
      if text_eq namespace ""
      then inl empty_namespace
      else elim (cluster.list_pods namespace selector w) [
        | inl e ↦ inl (client_error e)
        | inr ps ↦ inr (all_readiness ps)
      ]

  -- GetLiveness, behind the test of the context
  unfoldable pub get_liveness : (given selector : String) → W → HealthError ⊎ List PodLiveness
  unfolding all_liveness namespace_or
  get_liveness given selector w =
      let namespace = namespace_or given own in
      if text_eq namespace ""
      then inl empty_namespace
      else elim (cluster.list_pods namespace selector w) [
        | inl e ↦ inl (client_error e)
        | inr ps ↦ inr (all_liveness ps)
      ]

  -- The loop of WaitForHealthy, over the worlds that the ticks meet: after them the timeout comes, in
  -- the last world. The result is the nil error, or the error of the timeout.
  unfoldable pub wait_loop : (given deployment : String) → List W → W → Option HealthError
  unfolding reports_health check_pod_health timeout_error
  wait_loop given deployment [] last = some (timeout_error (check_pod_health given deployment last))
  wait_loop given deployment (w ∷ ticks) last =
      let rest = wait_loop given deployment ticks last in
      if reports_health (check_pod_health given deployment w) then none else rest

  -- WaitForHealthy, behind the test of the context
  unfoldable pub wait_for_healthy : (given deployment : String) → List W → W → Option HealthError
  unfolding wait_loop namespace_or
  wait_for_healthy given deployment ticks last =
      if text_eq (namespace_or given own) ""
      then some empty_namespace
      else if text_eq deployment ""
      then some empty_name
      else wait_loop given deployment ticks last
