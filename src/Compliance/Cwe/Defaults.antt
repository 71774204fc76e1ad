-- ===== src/Compliance/Cwe/Defaults.antt =====
-- internal/compliance/cwe.go, loadDefaultMappings: the weaknesses of each kind, and their controls.
use devsec.Base.{List, [], ◌∷◌, String}
use devsec.Compliance.Cwe.{
  ControlRef, CweMapper, add_all, IsConsistent, empty-IsConsistent, add_all-IsConsistent,
}

unfoldable pub soc2 : String → ControlRef
soc2 id = record { framework = "soc2"; control_id = id }

unfoldable pub iso27001 : String → ControlRef
iso27001 id = record { framework = "iso27001"; control_id = id }

unfoldable pub gdpr : String → ControlRef
gdpr id = record { framework = "gdpr"; control_id = id }

unfoldable pub empty_mapper : CweMapper
empty_mapper = record { cwe_to_controls = []; control_to_cwes = [] }

pub injection_cwes : List String
injection_cwes = "CWE-78" ∷ "CWE-79" ∷ "CWE-89" ∷ "CWE-94" ∷ "CWE-77" ∷ []

unfoldable pub injection_controls : List ControlRef
unfolding soc2 iso27001 gdpr
injection_controls =
    soc2 "CC6.1"
    ∷ soc2 "CC7.1"
    ∷ iso27001 "A.8.25"
    ∷ iso27001 "A.8.26"
    ∷ iso27001 "A.8.28"
    ∷ gdpr "Art.32"
    ∷ []

pub auth_cwes : List String
auth_cwes = "CWE-287" ∷ "CWE-306" ∷ "CWE-798" ∷ "CWE-862" ∷ "CWE-863" ∷ "CWE-521" ∷ []

unfoldable pub auth_controls : List ControlRef
unfolding soc2 iso27001 gdpr
auth_controls = soc2 "CC6.1" ∷ soc2 "CC6.6" ∷ iso27001 "A.8.5" ∷ gdpr "Art.32" ∷ []

pub crypto_cwes : List String
crypto_cwes = "CWE-326" ∷ "CWE-327" ∷ "CWE-328" ∷ "CWE-330" ∷ "CWE-338" ∷ "CWE-311" ∷ "CWE-319" ∷ []

unfoldable pub crypto_controls : List ControlRef
unfolding soc2 iso27001 gdpr
crypto_controls = soc2 "CC6.7" ∷ iso27001 "A.8.24" ∷ gdpr "Art.32" ∷ []

pub disclosure_cwes : List String
disclosure_cwes = "CWE-200" ∷ "CWE-312" ∷ "CWE-532" ∷ "CWE-359" ∷ "CWE-538" ∷ []

unfoldable pub disclosure_controls : List ControlRef
unfolding soc2 iso27001 gdpr
disclosure_controls =
    soc2 "CC6.1"
    ∷ soc2 "CC6.7"
    ∷ iso27001 "A.5.33"
    ∷ iso27001 "A.5.34"
    ∷ gdpr "Art.5"
    ∷ gdpr "Art.32"
    ∷ gdpr "Art.33"
    ∷ []

pub input_cwes : List String
input_cwes = "CWE-20" ∷ "CWE-22" ∷ "CWE-73" ∷ []

unfoldable pub input_controls : List ControlRef
unfolding soc2 iso27001 gdpr
input_controls = soc2 "CC6.1" ∷ iso27001 "A.8.26" ∷ gdpr "Art.32" ∷ []

pub memory_cwes : List String
memory_cwes = "CWE-119" ∷ "CWE-120" ∷ "CWE-125" ∷ "CWE-787" ∷ []

unfoldable pub memory_controls : List ControlRef
unfolding soc2 iso27001 gdpr
memory_controls = soc2 "CC7.1" ∷ iso27001 "A.8.28" ∷ gdpr "Art.32" ∷ []

pub deserialization_cwes : List String
deserialization_cwes = "CWE-502" ∷ "CWE-915" ∷ []

unfoldable pub deserialization_controls : List ControlRef
unfolding soc2 iso27001 gdpr
deserialization_controls = soc2 "CC7.1" ∷ iso27001 "A.8.25" ∷ gdpr "Art.32" ∷ []

pub supply_cwes : List String
supply_cwes = "CWE-829" ∷ "CWE-494" ∷ "CWE-1104" ∷ []

unfoldable pub supply_controls : List ControlRef
unfolding soc2 iso27001 gdpr
supply_controls = soc2 "CC8.1" ∷ iso27001 "A.8.9" ∷ gdpr "Art.32" ∷ []

pub logging_cwes : List String
logging_cwes = "CWE-778" ∷ "CWE-779" ∷ []

unfoldable pub logging_controls : List ControlRef
unfolding soc2 iso27001 gdpr
logging_controls = soc2 "CC7.2" ∷ iso27001 "A.8.9" ∷ []

pub config_cwes : List String
config_cwes = "CWE-16" ∷ "CWE-1188" ∷ []

unfoldable pub config_controls : List ControlRef
unfolding soc2 iso27001 gdpr
config_controls = soc2 "CC8.1" ∷ iso27001 "A.8.9" ∷ []

-- NewCWEMapper
unfoldable pub new_cwe_mapper : (fold : String → String) → CweMapper
unfolding empty_mapper
new_cwe_mapper fold =
    let m1 = add_all fold injection_cwes injection_controls empty_mapper in
    let m2 = add_all fold auth_cwes auth_controls m1 in
    let m3 = add_all fold crypto_cwes crypto_controls m2 in
    let m4 = add_all fold disclosure_cwes disclosure_controls m3 in
    let m5 = add_all fold input_cwes input_controls m4 in
    let m6 = add_all fold memory_cwes memory_controls m5 in
    let m7 = add_all fold deserialization_cwes deserialization_controls m6 in
    let m8 = add_all fold supply_cwes supply_controls m7 in
    let m9 = add_all fold logging_cwes logging_controls m8 in
    let m10 = add_all fold config_cwes config_controls m9 in m10

-- The mapper of the default mappings is consistent: a control is mapped to a weakness exactly if the
-- weakness is mapped to the control.
pub new_cwe_mapper-IsConsistent : (fold : String → String) → IsConsistent (new_cwe_mapper fold)
unfolding new_cwe_mapper
new_cwe_mapper-IsConsistent fold =
    let m1 = add_all fold injection_cwes injection_controls empty_mapper in
    let h1 =
      add_all-IsConsistent fold injection_cwes injection_controls empty_mapper empty-IsConsistent in
    let m2 = add_all fold auth_cwes auth_controls m1 in
    let h2 = add_all-IsConsistent fold auth_cwes auth_controls m1 h1 in
    let m3 = add_all fold crypto_cwes crypto_controls m2 in
    let h3 = add_all-IsConsistent fold crypto_cwes crypto_controls m2 h2 in
    let m4 = add_all fold disclosure_cwes disclosure_controls m3 in
    let h4 = add_all-IsConsistent fold disclosure_cwes disclosure_controls m3 h3 in
    let m5 = add_all fold input_cwes input_controls m4 in
    let h5 = add_all-IsConsistent fold input_cwes input_controls m4 h4 in
    let m6 = add_all fold memory_cwes memory_controls m5 in
    let h6 = add_all-IsConsistent fold memory_cwes memory_controls m5 h5 in
    let m7 = add_all fold deserialization_cwes deserialization_controls m6 in
    let h7 = add_all-IsConsistent fold deserialization_cwes deserialization_controls m6 h6 in
    let m8 = add_all fold supply_cwes supply_controls m7 in
    let h8 = add_all-IsConsistent fold supply_cwes supply_controls m7 h7 in
    let m9 = add_all fold logging_cwes logging_controls m8 in
    let h9 = add_all-IsConsistent fold logging_cwes logging_controls m8 h8 in
    add_all-IsConsistent fold config_cwes config_controls m9 h9
