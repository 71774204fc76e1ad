-- ===== src/Gates/Rollback/Laws.antt =====
-- What a rollback calls.
use devsec.Base.{ℕ, zero, suc, ap, subst, ◌≡◌, refl, true, Option, none, some, String, arith}
use devsec.Base.Int.{ℤ, pos, negsuc, is_zero}
use devsec.Gates.Types.{GateError, Result, ok, err, RollbackOptions, HelmClient, validate_rollback}
use devsec.Gates.Rollback.{
  previous_of, get_previous_revision, rollback_result, roll_to, target_revision, execute_valid,
  execute_rollback,
}

module _ {W : Type 0} (helm : HelmClient W) (ns release : String) where
  previous_of-positive :
      (r : Result ℤ) (revision : ℤ)
      → previous_of ns release r ≡ ok revision
      → (n : ℕ) × (revision ≡ pos (suc n)) × (r ≡ ok (pos (suc (suc n))))
  unfolding previous_of
  previous_of-positive (err e) revision eq = cc
  previous_of-positive (ok (pos zero)) revision eq = cc
  previous_of-positive (ok (pos (suc zero))) revision eq = cc
  previous_of-positive (ok (pos (suc (suc n)))) revision eq = (n, cc, refl)
  previous_of-positive (ok (negsuc n)) revision eq = cc

  get_previous_revision-asks :
      (w w' : W) (revision : ℤ)
      → get_previous_revision (some helm) ns release w ≡ (ok revision, w')
      → (previous_of ns release (helm.get_current_revision ns release w).0 ≡ ok revision)
        × ((helm.get_current_revision ns release w).1 ≡ w')
  unfolding get_previous_revision
  get_previous_revision-asks w w' revision eq = ground arith

  -- The previous revision is one below the current one, and at least 1. Behind the first revision
  -- there is none.
  pub get_previous_revision-positive :
      (w w' : W) (revision : ℤ)
      → get_previous_revision (some helm) ns release w ≡ (ok revision, w')
      → (n : ℕ) × (revision ≡ pos (suc n))
        × (helm.get_current_revision ns release w ≡ (ok (pos (suc (suc n))), w'))
  get_previous_revision-positive w w' revision eq =
      let (found, after) = get_previous_revision-asks w w' revision eq in
      let (n, previous, current) = previous_of-positive _ revision found in (n, previous, cc)

  rollback_result-none :
      (opts : RollbackOptions) (v : Option GateError × W) (w : W)
      → rollback_result opts v ≡ (none, w)
      → v ≡ (none, w)
  unfolding rollback_result
  rollback_result-none opts (none, w') w eq = eq
  rollback_result-none opts (some e, w') w eq = cc

module _ {W : Type 0} (helm : HelmClient W) (opts : RollbackOptions) where
  roll_to-none :
      (v : Result ℤ × W) (w : W)
      → roll_to helm opts v ≡ (none, w)
      → (revision : ℤ) × (v.0 ≡ ok revision)
        × (helm.rollback opts.namespace opts.release_name revision v.1 ≡ (none, w))
  unfolding roll_to
  roll_to-none (err e, w') w eq = cc
  roll_to-none (ok revision, w') w eq =
      (revision, refl, rollback_result-none helm "" "" opts _ w eq)

  execute_valid-none :
      (e : Option GateError) (w w' : W)
      → execute_valid helm opts e w ≡ (none, w')
      → roll_to helm opts (target_revision helm opts w) ≡ (none, w')
  unfolding execute_valid
  execute_valid-none none w w' eq = eq
  execute_valid-none (some e) w w' eq = cc

  target_revision-previous :
      (w : W)
      → is_zero opts.revision ≡ true
      → target_revision helm opts w
        ≡ get_previous_revision (some helm) opts.namespace opts.release_name w
  unfolding target_revision
  target_revision-previous w zero_revision = rw zero_revision refl

  execute_rollback-calls :
      (w w' : W)
      → is_zero opts.revision ≡ true
      → execute_rollback (some helm) opts w ≡ (none, w')
      → roll_to helm opts (get_previous_revision (some helm) opts.namespace opts.release_name w)
        ≡ (none, w')
  unfolding execute_rollback
  execute_rollback-calls w w' zero_revision eq =
      subst (λ v. roll_to helm opts v ≡ (none, w')) (target_revision-previous w zero_revision)
        (execute_valid-none (validate_rollback opts) w w' eq)

  -- A rollback without a revision of its own that succeeds has asked for the current revision, which
  -- is 2 at least, and has rolled back to the revision below it.
  pub execute_rollback-previous :
      (w w' : W)
      → is_zero opts.revision ≡ true
      → execute_rollback (some helm) opts w ≡ (none, w')
      → (n : ℕ) × (w1 : W) × (helm.get_current_revision opts.namespace opts.release_name w
          ≡ (ok (pos (suc (suc n))), w1))
        × (helm.rollback opts.namespace opts.release_name (pos (suc n)) w1 ≡ (none, w'))
  execute_rollback-previous w w' zero_revision eq =
      let asked = get_previous_revision (some helm) opts.namespace opts.release_name w in
      let (revision, found, back) =
        roll_to-none asked w' (execute_rollback-calls w w' zero_revision eq) in
      let (n, previous, current) =
        get_previous_revision-positive helm opts.namespace opts.release_name w asked.1 revision
          (ap (λ r. (r, asked.1)) found) in
      (
        n,
        asked.1,
        current,
        subst (λ z. helm.rollback opts.namespace opts.release_name z asked.1 ≡ (none, w')) previous
            back,
      )
