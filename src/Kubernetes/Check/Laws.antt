-- ===== src/Kubernetes/Check/Laws.antt =====
-- What the health client reports, and when waiting for health ends.
use mathlib.Core.Bool.{false≢true}
use devsec.Base.{
  suc, ◌≢◌, ◌≤◌, ◌⊎◌, ap, ◌∙◌, subst, map, append-nil, append_assoc, text_eq_iff, All, ℕ, ◌+◌, ◌≡◌,
  ◌↔◌, ◌<◌, refl, sym, Bool, true, false, ◌||◌, List, [], ◌∷◌, ◌++◌, String, length, if◌then◌else◌,
  arith, Bool-cases, inl, inr,
}
use devsec.Kubernetes.Health.{
  PodCondition, any_ready, Pod, PodHealth, HealthReport, map_pod_to_health, count_pod, count_pods,
  close_report, new_report, report_of_pods, extract_unhealthy_pod_names,
}
use devsec.Kubernetes.Check.{Cluster, check_pod_health, reports_health}

-- The pods that are healthy.
abbrev pub healthy_count : List Pod → ℕ
healthy_count [] = 0
healthy_count (p ∷ ps) = (if (map_pod_to_health p).healthy then 1 else 0) + healthy_count ps

extract-append :
    (xs ys : List PodHealth)
    → length (extract_unhealthy_pod_names (xs ++ ys))
      ≡ length (extract_unhealthy_pod_names xs) + length (extract_unhealthy_pod_names ys)
unfolding extract_unhealthy_pod_names
extract-append [] ys = omega arith
extract-append (x ∷ xs) ys = ground (arith, extract-append xs ys)

count_pod-pods : (h : PodHealth) (r : HealthReport) → (count_pod h r).pods ≡ r.pods ++ h ∷ []
unfolding count_pod
count_pod-pods h r = ground arith

-- What the loop keeps.
abbrev Counted : HealthReport → HealthReport → List Pod → Type 0
Counted r r' ps =
    (r'.healthy_pods ≡ r.healthy_pods + healthy_count ps)
    × (r'.healthy_pods + r'.unhealthy_pods ≡ r.healthy_pods + r.unhealthy_pods + length ps)
    × (r'.total_pods ≡ r.total_pods)
    × (length (extract_unhealthy_pod_names r'.pods) + r.unhealthy_pods
        ≡ length (extract_unhealthy_pod_names r.pods) + r'.unhealthy_pods)

count_pod-Counted :
    (p : Pod) (r : HealthReport) → Counted r (count_pod (map_pod_to_health p) r) (p ∷ [])
unfolding count_pod extract_unhealthy_pod_names
count_pod-Counted p r =
    let h = map_pod_to_health p in
    let names = extract-append r.pods (h ∷ []) in
    elim (Bool-cases h.healthy) [
      | inl e ↦ rw e (ground (arith, e, names))
      | inr e ↦ rw e (ground (arith, e, names))
    ]

count_pods-Counted : (ps : List Pod) (r : HealthReport) → Counted r (count_pods ps r) ps
unfolding count_pods
count_pods-Counted [] r = (omega arith, omega arith, refl, omega arith)
count_pods-Counted (p ∷ ps) r =
    let r1 = count_pod (map_pod_to_health p) r in
    let (a, b, c, d) = count_pod-Counted p r in
    let (a', b', c', d') = count_pods-Counted ps r1 in
    (omega (arith, a, a'), omega (arith, b, b'), omega (arith, c, c'), omega (arith, d, d'))

-- Some condition says that the pod is ready.
abbrev pub SaysReady : List PodCondition → Type 0
SaysReady [] = ⊥
SaysReady (c ∷ cs) = ((c.kind ≡ "Ready") × (c.status ≡ "True")) ⊎ SaysReady cs

-- Ready and running.
abbrev pub IsUp : Pod → Type 0
IsUp p = SaysReady p.conditions × (p.phase ≡ "Running")

any_ready-SaysReady : (cs : List PodCondition) → (any_ready cs ≡ true) ↔ SaysReady cs
unfolding any_ready
any_ready-SaysReady [] = (λ h. absurd (false≢true h), λ h. elim h [ ])
any_ready-SaysReady (c ∷ cs) =
    let (to, from) = any_ready-SaysReady cs in
    ground (arith, to, from, text_eq_iff c.kind "Ready", text_eq_iff c.status "True")

-- What the report says of one pod.
pub record Describes (p : Pod) (h : PodHealth) : Type 0 where
  pub name : h.name ≡ p.name
  pub namespace : h.namespace ≡ p.namespace
  pub phase : h.phase ≡ p.phase
  pub conditions : h.conditions ≡ p.conditions
  pub ready_iff : (h.ready ≡ true) ↔ SaysReady p.conditions
  pub healthy_iff : (h.healthy ≡ true) ↔ IsUp p

map_pod_to_health-Describes : (p : Pod) → Describes p (map_pod_to_health p)
unfolding map_pod_to_health
map_pod_to_health-Describes p =
    let (to, from) = any_ready-SaysReady p.conditions in
    record {
      name = refl;
      namespace = refl;
      phase = refl;
      conditions = refl;
      ready_iff = (to, from);
      healthy_iff = ground (arith, to, from, text_eq_iff p.phase "Running");
    }

abbrev pub DescribesAll : List Pod → List PodHealth → Type 0
DescribesAll [] [] = Unit
DescribesAll (p ∷ ps) (h ∷ hs) = Describes p h × DescribesAll ps hs
DescribesAll _ _ = ⊥

-- The names of the pods that are not up, in order.
pub data DownNames : List Pod → List String → Type 0 where
  ends : DownNames [] []
  is_up :
      {p : Pod} {ps : List Pod} {ns : List String}
      → IsUp p
      → DownNames ps ns
      → DownNames (p ∷ ps) ns
  is_down :
      {p : Pod} {ps : List Pod} {ns : List String}
      → ¬ IsUp p
      → DownNames ps ns
      → DownNames (p ∷ ps) (p.name ∷ ns)

map-DescribesAll : (ps : List Pod) → DescribesAll ps (map map_pod_to_health ps)
map-DescribesAll [] = tt
map-DescribesAll (p ∷ ps) = (map_pod_to_health-Describes p, map-DescribesAll ps)

extract_unhealthy_pod_names-DownNames :
    (ps : List Pod) → DownNames ps (extract_unhealthy_pod_names (map map_pod_to_health ps))
unfolding extract_unhealthy_pod_names
extract_unhealthy_pod_names-DownNames [] = ends
extract_unhealthy_pod_names-DownNames (p ∷ ps) =
    let h = map_pod_to_health p in
    let d = map_pod_to_health-Describes p in
    let rest = extract_unhealthy_pod_names-DownNames ps in
    elim (Bool-cases h.healthy) [
      | inl e ↦ rw e (is_up (d.healthy_iff.0 e) rest)
      | inr e ↦ rw e (
          subst
            (λ n. DownNames (p ∷ ps) (n ∷ extract_unhealthy_pod_names (map map_pod_to_health ps)))
            (sym d.name) (is_down (λ up. false≢true (sym e ∙ d.healthy_iff.1 up)) rest))
    ]

count_pods-pods :
    (ps : List Pod) (r : HealthReport) → (count_pods ps r).pods ≡ r.pods ++ map map_pod_to_health ps
unfolding count_pods
count_pods-pods [] r = sym (append-nil r.pods)
count_pods-pods (p ∷ ps) r =
    count_pods-pods ps (count_pod (map_pod_to_health p) r)
    ∙ ap (λ l. l ++ map map_pod_to_health ps) (count_pod-pods (map_pod_to_health p) r)
    ∙ append_assoc r.pods (map_pod_to_health p ∷ []) (map map_pod_to_health ps)

healthy_count-bound : (ps : List Pod) → healthy_count ps ≤ length ps
healthy_count-bound [] = omega arith
healthy_count-bound (p ∷ ps) = ground (arith, healthy_count-bound ps)

too_many : (k n : ℕ) → k ≤ n → 0 + k ≢ suc n
too_many k n h e = omega arith

healthy_count-IsUp : (ps : List Pod) → (healthy_count ps ≡ length ps) ↔ All IsUp ps
healthy_count-IsUp [] = (λ _. tt, λ _. refl)
healthy_count-IsUp (p ∷ ps) =
    let (to, from) = healthy_count-IsUp ps in
    let bound = healthy_count-bound ps in
    let d = map_pod_to_health-Describes p in
    elim (Bool-cases (map_pod_to_health p).healthy) [
      | inl e ↦
          rw e
            (λ h. (d.healthy_iff.0 e, to (omega (arith, h))), λ (up, all). omega (arith, from all))
      | inr e ↦ rw e (
        λ h. absurd (too_many (healthy_count ps) (length ps) bound h),
        λ (up, all). absurd (false≢true (sym e ∙ d.healthy_iff.1 up)),
      )
    ]

-- What a report says of the pods: it describes each, in order, as healthy exactly if some condition
-- says that it is ready and its phase is running; the counts add up; the names of the unhealthy pods
-- are those of the others; and the report is healthy exactly if there is a pod and all are up.
pub record IsReport (ps : List Pod) (r : HealthReport) : Type 0 where
  pub pods : DescribesAll ps r.pods
  pub names : DownNames ps (extract_unhealthy_pod_names r.pods)
  pub unhealthy_pods : r.unhealthy_pods ≡ length (extract_unhealthy_pod_names r.pods)
  pub counts : r.healthy_pods + r.unhealthy_pods ≡ r.total_pods
  pub total : r.total_pods ≡ length ps
  pub verdict : (r.healthy ≡ true) ↔ ((0 < length ps) × All IsUp ps)

-- The report of CheckPodHealth describes the pods that the cluster lists, in order, each under its name
-- and in its phase: it is healthy exactly if some condition says that it is ready and its phase is
-- Running. The names of the unhealthy pods are those of the others, the counts are theirs and add up
-- to all pods, and the report is healthy exactly if there is a pod and all are healthy.
pub report_of_pods-IsReport :
    (decimal : ℕ → String) (namespace deployment : String) (ps : List Pod)
    → IsReport ps (report_of_pods decimal namespace deployment ps)
unfolding report_of_pods close_report extract_unhealthy_pod_names
report_of_pods-IsReport decimal namespace deployment ps =
    let r = new_report namespace deployment (length ps) in
    let (a, b, c, d) = count_pods-Counted ps r in
    let listed = sym (count_pods-pods ps r) in
    let (to, from) = healthy_count-IsUp ps in
    record {
      pods = subst (DescribesAll ps) listed (map-DescribesAll ps);
      names =
          subst (λ hs. DownNames ps (extract_unhealthy_pod_names hs)) listed
            (extract_unhealthy_pod_names-DownNames ps);
      unhealthy_pods = omega (arith, d);
      counts = omega (arith, b, c);
      total = omega (arith, c);
      verdict = ground (arith, a, b, c, to, from);
    }

module _ {W : Type 0} (cluster : Cluster W) (own : String) (decimal : ℕ → String) where
  -- A tick at which the cluster is reported healthy.
  abbrev pub seen_healthy : (given deployment : String) → List W → Bool
  seen_healthy given deployment [] = false
  seen_healthy given deployment (w ∷ ticks) =
      reports_health (check_pod_health cluster own decimal given deployment w)
      || seen_healthy given deployment ticks
