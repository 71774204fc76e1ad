-- ===== src/Compliance/Mapper/Laws.antt =====
-- What DefaultMapper promises: every finding is enriched, and findings reach the controls that their
-- weaknesses are mapped to.
use devsec.Base.{
  ℕ, ◌+◌, ◌≡◌, ◌≢◌, refl, ◌∙◌, Bool, true, false, ◌||◌, none, some, List, [], ◌∷◌, String, length,
  if◌then◌else◌, text_eq_iff, has, has-append, ltb, inr, arith, map, string_discrete, ite, subst,
  ◌≤◌, ◌==◌,
}
use devsec.Model.{Finding}
use devsec.Compliance.Types.{Control}
use devsec.Compliance.Assess.{matches, control_key, names_control}
use devsec.Compliance.Extract.{extract_cwe_from_string}
use devsec.Compliance.Cwe.{ControlRef, ref_key, ref_keys, CweMapper, get_controls}
use devsec.Compliance.Mapper.{
  insert, insert_found, insert_refs, insert_all, extract_cwes_from_finding, map_cwes_to_controls,
  enrich_finding, enrich_from, enrich, Framework, map_to_controls, max_findings,
}

-- The members of a set that grows.
has-insert :
    (m n : String) (names : List String)
    → has m (insert n names) ≡ (ite (string_discrete m n) true false || has m names)
unfolding insert
has-insert m n names = ground (arith, has-append m names (n ∷ []))

has-insert_found :
    (m n : String) (names : List String)
    → n ≢ ""
    → has m (insert_found n names) ≡ (ite (string_discrete m n) true false || has m names)
unfolding insert_found
has-insert_found m n names h = ground (arith, has-insert m n names, text_eq_iff n "")

has-insert_found_of :
    (m n : String) (names : List String) → has m names ≡ true → has m (insert_found n names) ≡ true
unfolding insert_found
has-insert_found_of m n names h = ground (arith, has-insert m n names)

-- The iteration of a set meets all of its members.
abbrev pub Meets : (List String → List String) → Type 0
Meets order = (names : List String) (n : String) → has n (order names) ≡ has n names

has-length : (n : String) (names : List String) → has n names ≡ true → ltb 0 (length names) ≡ true
has-length n [] h = ground arith
has-length n (m ∷ names) h = ground arith

module _ (order : List String → List String) (meets : Meets order) (fold : String → String)
    (cwes : CweMapper) where
  extract_cwes_from_finding-has :
      (f : Finding)
      → extract_cwe_from_string f.rule ≢ ""
      → has (extract_cwe_from_string f.rule) (extract_cwes_from_finding order f) ≡ true
  unfolding extract_cwes_from_finding
  extract_cwes_from_finding-has f named =
      let w = extract_cwe_from_string f.rule in
      meets _ w
      ∙ has-insert_found_of w (extract_cwe_from_string f.description) _
          (has-insert_found w w [] named ∙ ground arith)

  has-insert_refs_of :
      (key : String) (rs : List ControlRef) (keys : List String)
      → (has key (ref_keys rs) || has key keys) ≡ true
      → has key (insert_refs rs keys) ≡ true
  unfolding insert_refs
  has-insert_refs_of key [] keys h = h
  has-insert_refs_of key (r ∷ rs) keys h =
      has-insert_refs_of key rs (insert (ref_key r) keys)
        (ground (arith, has-insert key (ref_key r) keys))

  has-insert_all_kept :
      (key : String) (ids keys : List String)
      → has key keys ≡ true
      → has key (insert_all fold cwes ids keys) ≡ true
  unfolding insert_all
  has-insert_all_kept key [] keys h = h
  has-insert_all_kept key (id ∷ ids) keys h =
      has-insert_all_kept key ids _
        (has-insert_refs_of key (get_controls fold id cwes) keys (ground arith))

  has-insert_all_of :
      (key w : String) (ids keys : List String)
      → has w ids ≡ true
      → has key (ref_keys (get_controls fold w cwes)) ≡ true
      → has key (insert_all fold cwes ids keys) ≡ true
  unfolding insert_all
  has-insert_all_of key w [] keys h mapped = ground arith
  has-insert_all_of key w (id ∷ ids) keys h mapped = elim (string_discrete w id) [
    | yes e ↦
        let mapped' : has key (ref_keys (get_controls fold id cwes)) ≡ true =
          subst (λ x. has key (ref_keys (get_controls fold x cwes)) ≡ true) e mapped in
        has-insert_all_kept key ids _
          (has-insert_refs_of key (get_controls fold id cwes) keys (ground arith))
    | no ne ↦ has-insert_all_of key w ids _ (ground arith) mapped
  ]

  names_control-has :
      (c : Control) (ids : List String)
      → has (control_key c) ids ≡ true
      → names_control c ids ≡ true
  unfolding names_control
  names_control-has c [] h = h
  names_control-has c (i ∷ ids) h =
      ground (arith, names_control-has c ids, text_eq_iff i (control_key c))

  -- A finding whose rule names a weakness is matched with every control that the weakness is mapped
  -- to, once it is enriched.
  pub enrich_finding-matches :
      (f : Finding) (r : ControlRef) (c : Control)
      → extract_cwe_from_string f.rule ≢ ""
      → has (ref_key r) (ref_keys (get_controls fold (extract_cwe_from_string f.rule) cwes)) ≡ true
      → control_key c ≡ ref_key r
      → matches c (enrich_finding order fold cwes f) ≡ true
  unfolding enrich_finding matches map_cwes_to_controls
  enrich_finding-matches f r c named mapped same =
      let ids = extract_cwes_from_finding order f in
      let w = extract_cwe_from_string f.rule in
      let found = extract_cwes_from_finding-has f named in
      let some_id : ltb 0 (length ids) ≡ true = has-length w ids found in
      let key : has (control_key c) (map_cwes_to_controls order fold cwes ids) ≡ true =
        rw same (meets _ (ref_key r) ∙ has-insert_all_of (ref_key r) w ids [] found mapped) in
      rw (some_id, names_control-has c (map_cwes_to_controls order fold cwes ids) key) refl

  enrich_from-map :
      (stopped : ℕ → Bool) (n : ℕ) (fs : List Finding)
      → ((k : ℕ) → stopped k ≡ false)
      → enrich_from order fold cwes stopped n fs ≡ some (map (enrich_finding order fold cwes) fs)
  unfolding enrich_from
  enrich_from-map stopped n [] live = refl
  enrich_from-map stopped n (f ∷ fs) live =
      rw (live n, enrich_from-map stopped (n + 1) fs live) refl

  -- Within the limit and without cancellation, Enrich returns every finding enriched, in order; where
  -- there is no finding, it returns a nil slice, for which MapToControls assesses no control.
  pub enrich-map :
      (stopped : ℕ → Bool) (fs : List Finding) (frameworks : List (String × Framework))
      (ids : List String)
      → ((k : ℕ) → stopped k ≡ false)
      → length fs ≤ max_findings
      → (enrich order fold cwes false stopped fs
          ≡ inr (if length fs == 0 then none else some (map (enrich_finding order fold cwes) fs)))
        × (map_to_controls false stopped frameworks none ids ≡ inr [])
  unfolding enrich map_to_controls
  enrich-map stopped [] frameworks ids live within = (refl, refl)
  enrich-map stopped (f ∷ fs) frameworks ids live within =
      let room : ltb max_findings (length (f ∷ fs)) ≡ false = ground arith in
      (rw (room, enrich_from-map stopped 0 (f ∷ fs) live) (ground arith), refl)
