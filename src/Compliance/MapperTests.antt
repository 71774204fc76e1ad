-- ===== src/Compliance/MapperTests.antt =====
-- A finding that names a weakness, a report, and the theorems at them.
use devsec.Base.{
  ◌≡◌, ◌≢◌, refl, true, List, [], ◌∷◌, String, arith, All, has, string_discrete, text_eq_iff,
}
use devsec.Model.{Finding, Severity}
use devsec.Compliance.Types.{Control, Gap, low}
use devsec.Compliance.Assess.{matches}
use devsec.Compliance.Extract.{
  extract_cwe_from_string, extract_cve_from_string, search, chars, cwe_prefix, cwe_number,
}
use devsec.Compliance.Extract.Laws.{first_name, search_cwe-first_name}
use devsec.Compliance.Cwe.{
  ControlRef, ref_key, ref_keys, CweMapper, get_controls, add_mapping, IsConsistent,
  add_mapping-IsConsistent, empty-IsConsistent,
}
use devsec.Compliance.Cwe.Defaults.{new_cwe_mapper}
use devsec.Compliance.Frameworks.Known.{IsKnown, get_controls-IsKnown}
use devsec.Compliance.Mapper.{enrich_finding}
use devsec.Compliance.Mapper.Laws.{enrich_finding-matches}

a_cwe : extract_cwe_from_string "x CWE-CWE-79: y" ≡ "CWE-79"
unfolding extract_cwe_from_string
a_cwe = refl

a_cve : extract_cve_from_string "CVE-20 CVE-2021-44228." ≡ "CVE-2021-44228"
unfolding extract_cve_from_string
a_cve = refl

search_cwe-first_name_example :
    search cwe_prefix cwe_number 0 (chars "CWE-CWE-79")
    ≡ first_name cwe_prefix cwe_number (chars "CWE-CWE-79")
search_cwe-first_name_example = search_cwe-first_name (chars "CWE-CWE-79")

abbrev same : String → String
same s = s

abbrev keep : List String → List String
keep names = names

abbrev access : ControlRef
access = record { framework = "soc2"; control_id = "CC6.1" }

abbrev empty : CweMapper
empty = record { cwe_to_controls = []; control_to_cwes = [] }

abbrev cwes : CweMapper
cwes = add_mapping same "79" access empty

add_mapping-IsConsistent_example : IsConsistent cwes
add_mapping-IsConsistent_example =
    add_mapping-IsConsistent same "79" access empty empty-IsConsistent

abbrev control : Control
control = record {
  id = "CC6.1";
  framework = "soc2";
  category = "Common Criteria";
  cwe_mappings = [];
}

abbrev finding : Finding
finding = record {
  id = "1";
  title = "";
  description = "";
  rule = "go/CWE-79";
  scanner = "semgrep";
  severity = Severity.low;
  location = record { file = "a.go"; start_line = 1; end_line = 1; column = 1 };
}

finding-named : extract_cwe_from_string finding.rule ≢ ""
unfolding extract_cwe_from_string
finding-named = ground (arith, text_eq_iff "CWE-79" "")

access-mapped :
    has (ref_key access) (ref_keys (get_controls same (extract_cwe_from_string finding.rule) cwes))
    ≡ true
unfolding extract_cwe_from_string get_controls add_mapping string_discrete
access-mapped = refl

enrich_finding-matches_example : matches control (enrich_finding keep same cwes finding) ≡ true
enrich_finding-matches_example =
    enrich_finding-matches keep (λ names n. refl) same cwes finding access control finding-named
      access-mapped refl

abbrev gap : Gap
gap = record { severity = low; control = control; finding_ids = "1" ∷ []; finding_count = 1 }

get_controls-IsKnown_example :
    All IsKnown (get_controls (λ s. s) "CWE-79" (new_cwe_mapper (λ s. s)))
get_controls-IsKnown_example = get_controls-IsKnown (λ s. s) "CWE-79"
