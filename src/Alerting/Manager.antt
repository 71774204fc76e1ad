-- ===== src/Alerting/Manager.antt =====
-- internal/alerting/manager.go: Manager. SendAsync, whose sends run at once, is left out.
pub mod Laws
use devsec.Base.{
  ℕ, suc, Bool, true, false, not, Option, none, some, List, [], ◌∷◌, ◌++◌, String, length,
  if◌then◌else◌, text_eq, leb, ◌==◌,
}
use devsec.Model.{Severity}
use devsec.Alerting.Types.{Alert, NotifyResult, Notifier, severity_order}

pub record Manager (W : Type 0) : Type 0 where
  pub notifiers : List (Notifier W)
  pub min_severity : Severity
  pub continue_on_error : Bool

-- Whether the loop goes on behind a notifier.
goes_on : (continue_on_error : Bool) → Option String → Bool
goes_on continue_on_error none = true
goes_on continue_on_error (some e) = continue_on_error

abbrev no_notifiers : Alert → NotifyResult
no_notifiers alert = record {
  notifier = "manager";
  alert_id = alert.id;
  error = "no notifiers configured";
  success = false;
}

later_error : Option String → Option String → Option String
later_error e none = e
later_error e (some e') = some e'

module _ {W : Type 0} where
  -- AddNotifier
  unfoldable pub add_notifier : Notifier W → Manager W → Manager W
  add_notifier n m = record m { notifiers = m.notifiers ++ n ∷ [] }

  without : String → List (Notifier W) → List (Notifier W)
  without name [] = []
  without name (n ∷ ns) =
      let rest = without name ns in if text_eq n.name name then rest else n ∷ rest

  -- RemoveNotifier
  unfoldable pub remove_notifier : String → Manager W → Manager W
  unfolding without
  remove_notifier name m = record m { notifiers = without name m.notifiers }

  find_notifier : String → List (Notifier W) → Option (Notifier W)
  find_notifier name [] = none
  find_notifier name (n ∷ ns) = if text_eq n.name name then some n else find_notifier name ns

  -- GetNotifier
  unfoldable pub get_notifier : String → Manager W → Option (Notifier W)
  unfolding find_notifier
  get_notifier name m = find_notifier name m.notifiers

  -- meetsMinSeverity
  unfoldable pub meets_min_severity : Manager W → Severity → Bool
  meets_min_severity m s = leb (severity_order m.min_severity) (severity_order s)

  result_of : Notifier W → Alert → Option String → NotifyResult
  result_of n alert none = record {
    notifier = n.name;
    alert_id = alert.id;
    error = "";
    success = true;
  }
  result_of n alert (some e) = record {
    notifier = n.name;
    alert_id = alert.id;
    error = e;
    success = false;
  }

  -- The loop of Send over the notifiers.
  send_all : (continue_on_error : Bool) → Alert → List (Notifier W) → W → List NotifyResult × W
  unfolding result_of goes_on
  send_all continue_on_error alert [] w = ([], w)
  send_all continue_on_error alert (n ∷ ns) w =
      let (e, w') = n.send alert w in
      let (rest, w'') = send_all continue_on_error alert ns w' in
      if n.is_enabled
      then if goes_on continue_on_error e
        then (result_of n alert e ∷ rest, w'')
        else (result_of n alert e ∷ [], w')
      else send_all continue_on_error alert ns w

  -- Send
  unfoldable pub send : Manager W → Alert → W → List NotifyResult × W
  unfolding send_all meets_min_severity
  send m alert w =
      if length m.notifiers == 0
      then (no_notifiers alert ∷ [], w)
      else if not (meets_min_severity m alert.severity)
      then ([], w)
      else send_all m.continue_on_error alert m.notifiers w

  -- SendBatch
  unfoldable pub send_batch : Manager W → List Alert → W → List NotifyResult × W
  unfolding send
  send_batch m [] w = ([], w)
  send_batch m (alert ∷ alerts) w =
      let (results, w') = send m alert w in
      let (rest, w'') = send_batch m alerts w' in (results ++ rest, w'')

  count_enabled : List (Notifier W) → ℕ
  count_enabled [] = 0
  count_enabled (n ∷ ns) = let rest = count_enabled ns in if n.is_enabled then suc rest else rest

  -- EnabledCount
  unfoldable pub enabled_count : Manager W → ℕ
  unfolding count_enabled
  enabled_count m = count_enabled m.notifiers

  close_all : Option String → List (Notifier W) → W → Option String × W
  unfolding later_error
  close_all e [] w = (e, w)
  close_all e (n ∷ ns) w = elim n.close [
    | none ↦ close_all e ns w
    | some close ↦ let (e', w') = close w in close_all (later_error e e') ns w'
  ]

  -- Close
  unfoldable pub close : Manager W → W → Option String × Manager W × W
  unfolding close_all
  close m w = let (e, w') = close_all none m.notifiers w in (e, record m { notifiers = [] }, w')
