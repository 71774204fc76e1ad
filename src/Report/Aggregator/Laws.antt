-- ===== src/Report/Aggregator/Laws.antt =====
-- What the aggregator holds, and what its report counts.
use devsec.Base.{
  ◌+◌, ◌≤◌, ◌≡◌, ◌≢◌, refl, Option, none, some, List, [], ◌∷◌, ◌++◌, String, length, length-append,
  arith, if◌then◌else◌, text_eq, text_eq_iff, ltb, Bool-cases, inl, inr, ◌⊎◌,
}
use devsec.Report.Aggregator.{
  Aggregator, ScannerResult, AddError, add_result, store, max_findings, max_scanner_name_length,
  empty_scanner_name, scanner_name_too_long, findings_limit_exceeded,
}
use Prim.Native.String.{len}

-- The result of a scanner.
abbrev pub result_for : String → List (String × ScannerResult) → Option ScannerResult
result_for n [] = none
result_for n ((m, r) ∷ rs) = if text_eq m n then some r else result_for n rs

result_for-store :
    (n m : String) (r : ScannerResult) (rs : List (String × ScannerResult))
    → result_for m (store n r rs) ≡ (if text_eq n m then some r else result_for m rs)
unfolding store
result_for-store n m r [] = refl
result_for-store n m r ((k, q) ∷ rs) =
    ground (arith, result_for-store n m r rs, text_eq_iff k n, text_eq_iff k m, text_eq_iff n m)

-- What an addition does: an error changes nothing, and otherwise the findings come behind the others
-- and the result is that of its scanner.
pub record IsAdded (r : ScannerResult) (a : Aggregator) (v : Option AddError × Aggregator)
    : Type 0 where
  pub bounded : length v.1.findings ≤ max_findings
  pub same_mode : v.1.dedupe_enabled ≡ a.dedupe_enabled
  pub cases :
      ((v.0 ≢ none) × (v.1 ≡ a))
      ⊎ ((v.0 ≡ none)
          × (v.1.findings ≡ a.findings ++ r.findings)
          × ((m : String)
              → result_for m v.1.scanner_results
                ≡ (if text_eq r.scanner m then some r else result_for m a.scanner_results)))

refused-IsAdded :
    (r : ScannerResult) (a : Aggregator) (e : AddError)
    → length a.findings ≤ max_findings
    → IsAdded r a (some e, a)
refused-IsAdded r a e k = record { bounded = k; same_mode = refl; cases = inl ((λ q. cc), refl) }

stored-IsAdded :
    (r : ScannerResult) (a : Aggregator)
    → length a.findings + length r.findings ≤ max_findings
    → IsAdded r a (
      none,
      record a {
        scanner_results = store r.scanner r a.scanner_results;
        findings = a.findings ++ r.findings;
      },
    )
stored-IsAdded r a k = record {
  bounded = ground (arith, length-append a.findings r.findings);
  same_mode = refl;
  cases = inr (refl, refl, λ m. result_for-store r.scanner m r a.scanner_results);
}

-- An addition to an aggregator within the limit keeps it within the limit. One that fails leaves the
-- aggregator as it was. One that succeeds puts the findings behind the others, and replaces the
-- result of its scanner and no other.
pub add_result-IsAdded :
    (r : ScannerResult) (a : Aggregator)
    → length a.findings ≤ max_findings
    → IsAdded r a (add_result r a)
unfolding add_result
add_result-IsAdded r a k = elim (Bool-cases (text_eq r.scanner "")) [
  | inl e ↦ rw e (refused-IsAdded r a empty_scanner_name k)
  | inr e ↦ elim (Bool-cases (ltb max_scanner_name_length (len r.scanner))) [
    | inl q ↦ rw (e, q) (refused-IsAdded r a scanner_name_too_long k)
    | inr q ↦ elim (Bool-cases (ltb max_findings (length a.findings + length r.findings))) [
      | inl x ↦ rw (e, q, x) (refused-IsAdded r a findings_limit_exceeded k)
      | inr x ↦ rw (e, q, x) (stored-IsAdded r a (ground arith))
    ]
  ]
]
