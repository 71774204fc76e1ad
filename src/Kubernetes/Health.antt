-- ===== src/Kubernetes/Health.antt =====
-- internal/kubernetes/health.go: mapPodToHealth and the report of the pods. Times are left out. A pod
-- has the fields of the cluster's type that the code reads; `decimal` is the verb %d.
use Prim.Native.String.{◌++◌ as text_append}
use devsec.Base.{
  ℕ, ◌+◌, Bool, true, false, ◌&&◌, ◌||◌, not, Option, none, some, List, [], ◌∷◌, ◌++◌, String,
  length, if◌then◌else◌, text_eq, ltb, ◌==◌,
}
use devsec.Base.Int.{ℤ}

-- The three pointers of a container's state. At most one is set in a cluster, but the code does not
-- rely on it.
pub record StateDetail : Type 0 where
  pub reason : String
  pub message : String

pub record RawState : Type 0 where
  pub running : Bool
  pub waiting : Option StateDetail
  pub terminated : Option StateDetail

pub record ContainerStatus : Type 0 where
  pub name : String
  pub image : String
  pub ready : Bool
  pub started : Option Bool
  pub restart_count : ℤ
  pub state : RawState

pub record PodCondition : Type 0 where
  pub kind : String
  pub status : String
  pub reason : String
  pub message : String

pub record Pod : Type 0 where
  pub name : String
  pub namespace : String
  pub phase : String
  pub conditions : List PodCondition
  pub containers : List ContainerStatus

pub record ContainerState : Type 0 where
  pub reason : String
  pub message : String
  pub running : Bool
  pub waiting : Bool
  pub terminated : Bool

pub record ContainerHealth : Type 0 where
  pub name : String
  pub image : String
  pub state : ContainerState
  pub restart_count : ℤ
  pub ready : Bool
  pub started : Bool

pub record PodHealth : Type 0 where
  pub name : String
  pub namespace : String
  pub phase : String
  pub message : String
  pub conditions : List PodCondition
  pub containers : List ContainerHealth
  pub ready : Bool
  pub healthy : Bool

pub record HealthReport : Type 0 where
  pub namespace : String
  pub deployment : String
  pub message : String
  pub pods : List PodHealth
  pub total_pods : ℕ
  pub healthy_pods : ℕ
  pub unhealthy_pods : ℕ
  pub healthy : Bool

abbrev pub is_ready_condition : PodCondition → Bool
is_ready_condition c = text_eq c.kind "Ready" && text_eq c.status "True"

-- The loop over the conditions sets the flag, and never takes it back.
unfoldable pub any_ready : List PodCondition → Bool
any_ready [] = false
any_ready (c ∷ cs) = is_ready_condition c || any_ready cs

detail_state : (waiting terminated : Bool) → StateDetail → ContainerState
detail_state waiting terminated d = record {
  reason = d.reason;
  message = d.message;
  running = false;
  waiting = waiting;
  terminated = terminated;
}

plain_state : Bool → ContainerState
plain_state running = record {
  reason = "";
  message = "";
  running = running;
  waiting = false;
  terminated = false;
}

behind_running : Option StateDetail → Option StateDetail → ContainerState
unfolding detail_state plain_state
behind_running (some d) terminated = detail_state true false d
behind_running none (some d) = detail_state false true d
behind_running none none = plain_state false

container_state : RawState → ContainerState
unfolding behind_running plain_state
container_state s = if s.running then plain_state true else behind_running s.waiting s.terminated

was_started : Option Bool → Bool
was_started none = false
was_started (some b) = b

container_health : ContainerStatus → ContainerHealth
unfolding container_state was_started
container_health c = record {
  name = c.name;
  image = c.image;
  state = container_state c.state;
  restart_count = c.restart_count;
  ready = c.ready;
  started = was_started c.started;
}

containers_health : List ContainerStatus → List ContainerHealth
unfolding container_health
containers_health [] = []
containers_health (c ∷ cs) = container_health c ∷ containers_health cs

pod_message : (healthy ready : Bool) → String → String
pod_message healthy ready phase =
    if healthy
    then ""
    else if not (text_eq phase "Running")
    then text_append "pod phase: " phase
    else if not ready
    then "pod not ready"
    else ""

-- mapPodToHealth
unfoldable pub map_pod_to_health : Pod → PodHealth
unfolding any_ready containers_health pod_message
map_pod_to_health p =
    let ready = any_ready p.conditions in
    let healthy = ready && text_eq p.phase "Running" in
    record {
      name = p.name;
      namespace = p.namespace;
      phase = p.phase;
      message = pod_message healthy ready p.phase;
      conditions = p.conditions;
      containers = containers_health p.containers;
      ready = ready;
      healthy = healthy;
    }

-- The body of the loop of CheckPodHealth.
unfoldable pub count_pod : PodHealth → HealthReport → HealthReport
count_pod h r =
    if h.healthy
    then record r { pods = r.pods ++ h ∷ []; healthy_pods = r.healthy_pods + 1 }
    else record r { pods = r.pods ++ h ∷ []; unhealthy_pods = r.unhealthy_pods + 1 }

unfoldable pub count_pods : List Pod → HealthReport → HealthReport
unfolding count_pod map_pod_to_health
count_pods [] r = r
count_pods (p ∷ ps) r = count_pods ps (count_pod (map_pod_to_health p) r)

unfoldable pub close_report : (decimal : ℕ → String) → HealthReport → HealthReport
close_report decimal r =
    let healthy = r.unhealthy_pods == 0 && ltb 0 r.total_pods in
    record r {
      healthy = healthy;
      message =
          if not healthy && ltb 0 r.unhealthy_pods
          then text_append
              (text_append (text_append (decimal r.unhealthy_pods) " of ") (decimal r.total_pods))
              " pods unhealthy"
          else r.message;
    }

abbrev pub new_report : (namespace deployment : String) → ℕ → HealthReport
new_report namespace deployment n = record {
  namespace = namespace;
  deployment = deployment;
  message = "";
  pods = [];
  total_pods = n;
  healthy_pods = 0;
  unhealthy_pods = 0;
  healthy = false;
}

-- CheckPodHealth, behind the calls of the cluster.
unfoldable pub report_of_pods :
    (decimal : ℕ → String) → (namespace deployment : String) → List Pod → HealthReport
unfolding count_pods close_report
report_of_pods decimal namespace deployment ps =
    close_report decimal (count_pods ps (new_report namespace deployment (length ps)))

-- extractUnhealthyPodNames
unfoldable pub extract_unhealthy_pod_names : List PodHealth → List String
extract_unhealthy_pod_names [] = []
extract_unhealthy_pod_names (h ∷ hs) =
    let rest = extract_unhealthy_pod_names hs in if h.healthy then rest else h.name ∷ rest
