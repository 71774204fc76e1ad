-- ===== src/Compliance/Frameworks.antt =====
-- internal/compliance/framework.go: the tables of controls of the three frameworks. Titles and
-- descriptions are left out.
use devsec.Base.{Option, none, some, List, [], ◌∷◌, String, text_eq, if◌then◌else◌}
use devsec.Compliance.Types.{Control}
use devsec.Compliance.Mapper.{Framework, add_control}
pub mod Known

-- A control as the tables have it, before AddControl sets its framework.
control : (id category : String) → (cwes : List String) → Control
control id category cwes = record {
  id = id;
  framework = "";
  category = category;
  cwe_mappings = cwes;
}

-- The calls of AddControl, in order.
add_controls : List Control → Framework → Framework
unfolding add_control
add_controls [] f = f
add_controls (c ∷ cs) f = add_controls cs (add_control c f)

-- NewFramework, with the categories that are set behind it.
new_framework : (id : String) → (categories : List String) → Framework
new_framework id categories = record { id = id; controls = []; categories = categories }

soc2_controls : List Control
unfolding control
soc2_controls =
    control "CC6.1" "Common Criteria"
      ("CWE-287" ∷ "CWE-306" ∷ "CWE-798" ∷ "CWE-200" ∷ "CWE-312" ∷ "CWE-532" ∷ [])
    ∷ control "CC6.6" "Common Criteria" ("CWE-287" ∷ "CWE-306" ∷ "CWE-862" ∷ "CWE-863" ∷ [])
    ∷ control "CC6.7" "Common Criteria"
        ("CWE-311" ∷ "CWE-319" ∷ "CWE-326" ∷ "CWE-327" ∷ "CWE-328" ∷ [])
    ∷ control "CC7.1" "Common Criteria" ("CWE-78" ∷ "CWE-79" ∷ "CWE-89" ∷ "CWE-94" ∷ "CWE-502" ∷ [])
    ∷ control "CC7.2" "Common Criteria" ("CWE-778" ∷ "CWE-779" ∷ [])
    ∷ control "CC8.1" "Common Criteria" ("CWE-829" ∷ "CWE-494" ∷ [])
    ∷ control "CC9.1" "Common Criteria" ([])
    ∷ []

-- NewSOC2Framework
unfoldable pub new_soc2_framework : Framework
unfolding add_controls new_framework soc2_controls
new_soc2_framework = add_controls soc2_controls (
    new_framework "soc2" (
      "Common Criteria" ∷ "Availability" ∷ "Processing Integrity" ∷ "Confidentiality" ∷ "Privacy"
      ∷ []))

iso27001_controls : List Control
unfolding control
iso27001_controls =
    control "A.5.1" "Organizational Controls" ([])
    ∷ control "A.8.9" "Technological Controls" ("CWE-16" ∷ "CWE-1188" ∷ [])
    ∷ control "A.8.24" "Technological Controls"
        ("CWE-326" ∷ "CWE-327" ∷ "CWE-328" ∷ "CWE-330" ∷ "CWE-338" ∷ [])
    ∷ control "A.8.25" "Technological Controls"
        ("CWE-78" ∷ "CWE-79" ∷ "CWE-89" ∷ "CWE-94" ∷ "CWE-502" ∷ [])
    ∷ control "A.8.26" "Technological Controls"
        ("CWE-20" ∷ "CWE-77" ∷ "CWE-78" ∷ "CWE-79" ∷ "CWE-89" ∷ [])
    ∷ control "A.8.28" "Technological Controls"
        ("CWE-78" ∷ "CWE-79" ∷ "CWE-89" ∷ "CWE-94" ∷ "CWE-119" ∷ "CWE-120" ∷ "CWE-502" ∷ [])
    ∷ control "A.5.33" "Organizational Controls"
        ("CWE-200" ∷ "CWE-312" ∷ "CWE-359" ∷ "CWE-538" ∷ [])
    ∷ control "A.5.34" "Organizational Controls" ("CWE-359" ∷ "CWE-200" ∷ "CWE-312" ∷ [])
    ∷ control "A.8.5" "Technological Controls" ("CWE-287" ∷ "CWE-306" ∷ "CWE-798" ∷ "CWE-521" ∷ [])
    ∷ []

-- NewISO27001Framework
unfoldable pub new_iso27001_framework : Framework
unfolding add_controls new_framework iso27001_controls
new_iso27001_framework = add_controls iso27001_controls (
    new_framework "iso27001" (
      "Organizational Controls" ∷ "People Controls" ∷ "Physical Controls" ∷ "Technological Controls"
      ∷ []))

gdpr_controls : List Control
unfolding control
gdpr_controls =
    control "Art.5" "Principles" ("CWE-359" ∷ "CWE-200" ∷ "CWE-312" ∷ "CWE-538" ∷ [])
    ∷ control "Art.25" "Controller and Processor" ("CWE-359" ∷ "CWE-200" ∷ "CWE-312" ∷ [])
    ∷ control "Art.32" "Security" (
        "CWE-78" ∷ "CWE-79" ∷ "CWE-89" ∷ "CWE-94" ∷ "CWE-287" ∷ "CWE-306" ∷ "CWE-798" ∷ "CWE-326"
        ∷ "CWE-327" ∷ "CWE-328" ∷ "CWE-200" ∷ "CWE-312" ∷ "CWE-532" ∷ [])
    ∷ control "Art.33" "Data Breach" ("CWE-200" ∷ "CWE-312" ∷ "CWE-532" ∷ [])
    ∷ control "Art.34" "Data Breach" ("CWE-200" ∷ "CWE-312" ∷ [])
    ∷ []

-- NewGDPRFramework
unfoldable pub new_gdpr_framework : Framework
unfolding add_controls new_framework gdpr_controls
new_gdpr_framework = add_controls gdpr_controls (
    new_framework "gdpr" (
      "Principles" ∷ "Rights of Data Subjects" ∷ "Controller and Processor" ∷ "Security"
      ∷ "Data Breach" ∷ []))

-- AllFrameworks, under their names, as NewMapper stores them.
unfoldable pub all_frameworks : List (String × Framework)
unfolding new_soc2_framework new_iso27001_framework new_gdpr_framework
all_frameworks =
    ("soc2", new_soc2_framework)
    ∷ ("iso27001", new_iso27001_framework)
    ∷ ("gdpr", new_gdpr_framework)
    ∷ []

-- GetFramework
unfoldable pub get_framework : String → Option Framework
unfolding new_soc2_framework new_iso27001_framework new_gdpr_framework
get_framework id =
    if text_eq id "soc2"
    then some new_soc2_framework
    else if text_eq id "iso27001"
    then some new_iso27001_framework
    else if text_eq id "gdpr"
    then some new_gdpr_framework
    else none
