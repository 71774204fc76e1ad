-- ===== src/Alerting/Tests.antt =====
-- Three notifiers, one of them disabled and one failing, and the theorems at them. The world counts
-- the messages.
use devsec.Base.{ℕ, suc, ◌≡◌, refl, Bool, true, false, Option, none, some, List, [], ◌∷◌, String}
use devsec.Model.{critical, medium}
use devsec.Alerting.Types.{Alert, Notifier, severity_order}
use devsec.Alerting.Manager.{Manager, send, meets_min_severity}
use devsec.Alerting.Manager.Laws.{enabled_names, result_names, Sends, send-continues}
use devsec.Alerting.Registry.{already_registered, get, is_registered, register}
use devsec.Alerting.Registry.Laws.{register-get}

abbrev notifier : String → Bool → Option String → Notifier ℕ
notifier name is_enabled error = record {
  name = name;
  is_enabled = is_enabled;
  send = λ alert w. (error, suc w);
  close = none;
}

abbrev manager : Bool → Manager ℕ
manager go = record {
  notifiers =
      notifier "slack" true (some "rate limited")
      ∷ notifier "mail" false none
      ∷ notifier "hook" true none
      ∷ [];
  min_severity = medium;
  continue_on_error = go;
}

abbrev alert : Alert
alert = record {
  id = "1";
  title = "t";
  message = "m";
  source = "s";
  alert_type = "custom";
  severity = critical;
}

severe : (go : Bool) → meets_min_severity (manager go) critical ≡ true
unfolding meets_min_severity severity_order
severe go = refl

both-sent : result_names (send (manager true) alert 0).0 ≡ "slack" ∷ "hook" ∷ []
unfolding send meets_min_severity severity_order
both-sent = refl

one-sent : result_names (send (manager false) alert 0).0 ≡ "slack" ∷ []
unfolding send meets_min_severity severity_order
one-sent = refl

send-continues_example :
    Sends alert
      (manager true).notifiers
      0
      (send (manager true) alert 0).0
      (send (manager true) alert 0).1
    × (result_names (send (manager true) alert 0).0 ≡ enabled_names (manager true).notifiers)
send-continues_example = send-continues (manager true) alert 0 (λ e. cc) (severe true) refl

abbrev old : List (String × ℕ)
old = ("hook", 2) ∷ []

abbrev new : List (String × ℕ)
new = ("slack", 1) ∷ old

slack-register : register "slack" (some 1) old ≡ (none, new)
unfolding register is_registered get
slack-register = refl

register-get_example :
    (get "slack" new ≡ some 1)
    × (get "hook" new ≡ get "hook" old)
    × (register "slack" (some 3) new ≡ (some (already_registered "slack"), new))
register-get_example = register-get "slack" "hook" 1 3 old new (λ e. cc) slack-register
