-- ===== src/Report/Dedup/Laws.antt =====
-- What the removal of duplicates leaves.
use devsec.Base.{
  ℕ, ◌≤◌, ◌≡◌, refl, ◌∙◌, ap, true, false, not, ◌&&◌, List, [], ◌∷◌, String, length, arith, has,
  IsDistinct, string_discrete, Bool-cases, inl, inr, text_eq_iff,
}
use devsec.Model.{Finding}
use devsec.Report.Dedup.{generate_finding_key, dedup_from, deduplicate}

module _ (hash : String → String) (itoa : ℕ → String) where
  abbrev pub keys : List Finding → List String
  keys [] = []
  keys (f ∷ fs) = generate_finding_key hash itoa f ∷ keys fs

  dedup_from-has :
      (seen : List String) (fs : List Finding) (k : String)
      → has k (keys (dedup_from hash itoa seen fs)) ≡ (has k (keys fs) && not (has k seen))
  unfolding dedup_from
  dedup_from-has seen [] k = refl
  dedup_from-has seen (f ∷ fs) k =
      let key = generate_finding_key hash itoa f in
      elim (Bool-cases (has key seen)) [
        | inr e ↦ ground (arith, e, dedup_from-has (key ∷ seen) fs k)
        | inl e ↦ elim (string_discrete k key) [
          | yes p ↦
              let known = ap (λ x. has x seen) p ∙ e in
              ground (arith, e, known, dedup_from-has seen fs k)
          | no q ↦ ground (arith, e, q, dedup_from-has seen fs k)
        ]
      ]

  dedup_from-IsDistinct :
      (seen : List String) (fs : List Finding) → IsDistinct (keys (dedup_from hash itoa seen fs))
  unfolding dedup_from
  dedup_from-IsDistinct seen [] = tt
  dedup_from-IsDistinct seen (f ∷ fs) =
      let key = generate_finding_key hash itoa f in
      elim (Bool-cases (has key seen)) [
        | inl e ↦ rw e (dedup_from-IsDistinct seen fs)
        | inr e ↦ rw e (
          ground (arith, dedup_from-has (key ∷ seen) fs key, text_eq_iff key key),
          dedup_from-IsDistinct (key ∷ seen) fs,
        )
      ]

  dedup_from-length :
      (seen : List String) (fs : List Finding) → length (dedup_from hash itoa seen fs) ≤ length fs
  unfolding dedup_from
  dedup_from-length seen [] = ground arith
  dedup_from-length seen (f ∷ fs) = ground (
    arith,
    dedup_from-length seen fs,
    dedup_from-length (generate_finding_key hash itoa f ∷ seen) fs,
  )

  dedup_from-distinct :
      (seen : List String) (fs : List Finding)
      → IsDistinct (keys fs)
      → ((k : String) → has k (keys fs) ≡ true → has k seen ≡ false)
      → dedup_from hash itoa seen fs ≡ fs
  unfolding dedup_from
  dedup_from-distinct seen [] d new = refl
  dedup_from-distinct seen (f ∷ fs) (fresh, d) new =
      let key = generate_finding_key hash itoa f in
      let first = new key (ground arith) in
      let later : (k : String) → has k (keys fs) ≡ true → has k (key ∷ seen) ≡ false = λ k h.
        elim (string_discrete k key) [
          | yes p ↦ let absent = ap (λ x. has x (keys fs)) p ∙ fresh in cc (h, absent)
          | no q ↦ let old = new k (ground arith) in ground arith
        ] in
      rw first (ap (λ gs. f ∷ gs) (dedup_from-distinct (key ∷ seen) fs d later))

  -- What the removal of duplicates leaves of a list of findings.
  pub record IsDeduplicated (fs gs : List Finding) : Type 0 where
    pub distinct : IsDistinct (keys gs)
    pub found_iff : (k : String) → has k (keys gs) ≡ has k (keys fs)
    pub bounded : length gs ≤ length fs

  -- The findings that are left have distinct keys, each key of a finding is still there, and there are
  -- no more findings than before.
  pub deduplicate-IsDeduplicated :
      (fs : List Finding) → IsDeduplicated fs (deduplicate hash itoa fs)
  unfolding deduplicate
  deduplicate-IsDeduplicated fs = record {
    distinct = dedup_from-IsDistinct [] fs;
    found_iff = λ k. ground (arith, dedup_from-has [] fs k);
    bounded = dedup_from-length [] fs;
  }

  -- A second removal of duplicates changes nothing.
  pub deduplicate-idempotent :
      (fs : List Finding)
      → deduplicate hash itoa (deduplicate hash itoa fs) ≡ deduplicate hash itoa fs
  unfolding deduplicate
  deduplicate-idempotent fs =
      dedup_from-distinct [] (dedup_from hash itoa [] fs) (dedup_from-IsDistinct [] fs)
        (λ k h. refl)
