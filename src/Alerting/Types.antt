-- ===== src/Alerting/Types.antt =====
-- internal/alerting/alerting.go: alerts, results, and notifiers as calls into an abstract world. Times
-- and metadata are left out.
use devsec.Base.{ℕ, Bool, Option, String}
use devsec.Model.{Severity, critical, high, medium, low, info, other}

-- SeverityFromModel. The severities of alerts are the same texts as those of findings.
unfoldable pub severity_from_model : Severity → Severity
severity_from_model (other s) = info
severity_from_model s = s

-- severityOrder, with the zero of a missing key.
unfoldable pub severity_order : Severity → ℕ
severity_order critical = 5
severity_order high = 4
severity_order medium = 3
severity_order low = 2
severity_order info = 1
severity_order (other s) = 0

pub record Alert : Type 0 where
  pub id : String
  pub title : String
  pub message : String
  pub source : String
  pub alert_type : String
  pub severity : Severity

pub record NotifyResult : Type 0 where
  pub notifier : String
  pub alert_id : String
  pub error : String
  pub success : Bool

-- Notifier: none is the nil error. `close` is there if the notifier has that method.
pub record Notifier (W : Type 0) : Type 0 where
  pub name : String
  pub is_enabled : Bool
  pub send : Alert → W → Option String × W
  pub close : Option (W → Option String × W)
