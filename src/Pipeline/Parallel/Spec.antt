-- ===== src/Pipeline/Parallel/Spec.antt =====
-- What executing the stages of a pipeline in parallel means, without goroutines: a stage is started
-- when all of its dependencies have a result, and gets its own result later.
use devsec.Base.{
  ◌≡◌, refl, true, false, List, [], ◌∷◌, ◌++◌, String, All, has, has-append, IsDistinct, arith,
  subst, sym, append-nil, append_assoc, string_discrete,
}
use mathlib.Core.Bool.{false≢true}
use devsec.Pipeline.Order.{Satisfied}

-- The names of the stages that have been started, and of those that have a result, in order.
pub record State : Type 0 where
  pub started : List String
  pub done : List String

-- One step of the specification, for the dependencies `deps` of each name.
pub data Step (deps : String → List String) (s : State) : State → Type 0 where
  starts :
      (n : String)
      → has n s.started ≡ false
      → Satisfied s.done (deps n)
      → Step deps s (record s { started = s.started ++ n ∷ [] })
  finishes :
      (n : String)
      → has n s.started ≡ true
      → has n s.done ≡ false
      → Step deps s (record s { done = s.done ++ n ∷ [] })

abbrev pub begin : State
begin = record { started = []; done = [] }

pub data Reach (deps : String → List String) : State → Type 0 where
  start : Reach deps begin
  later : {s t : State} → Reach deps s → Step deps s t → Reach deps t

-- Each name stands behind its dependencies.
abbrev pub Behind : (String → List String) → List String → List String → Type 0
Behind deps before [] = Unit
Behind deps before (n ∷ order) = Satisfied before (deps n) × Behind deps (before ++ n ∷ []) order

pub record IsSound (deps : String → List String) (s : State) : Type 0 where
  pub started_once : IsDistinct s.started
  pub done_once : IsDistinct s.done
  pub done_started : (n : String) → has n s.done ≡ true → has n s.started ≡ true
  pub allowed : All (λ n. Satisfied s.done (deps n)) s.started
  pub ordered : Behind deps [] s.done

pub Satisfied-append : (xs ys ds : List String) → Satisfied xs ds → Satisfied (xs ++ ys) ds
Satisfied-append xs ys [] h = tt
Satisfied-append xs ys (d ∷ ds) h =
    (ground (arith, has-append d xs ys, h.0), Satisfied-append xs ys ds h.1)

pub IsDistinct-snoc :
    (n : String) (xs : List String) → IsDistinct xs → has n xs ≡ false → IsDistinct (xs ++ n ∷ [])
IsDistinct-snoc n [] d h = (refl, tt)
IsDistinct-snoc n (x ∷ xs) d h =
    (ground (arith, has-append x xs (n ∷ []), d.0), IsDistinct-snoc n xs d.1 (ground arith))

module _ (deps : String → List String) where
  Behind-snoc :
      (before order : List String) (n : String)
      → Behind deps before order
      → Satisfied (before ++ order) (deps n)
      → Behind deps before (order ++ n ∷ [])
  Behind-snoc before [] n b h = (subst (λ l. Satisfied l (deps n)) (append-nil before) h, tt)
  Behind-snoc before (m ∷ order) n b h = (
    b.0,
    Behind-snoc (before ++ m ∷ []) order n b.1
        (subst (λ l. Satisfied l (deps n)) (sym (append_assoc before (m ∷ []) order)) h),
  )

  abbrev Allowed : List String → List String → Type 0
  Allowed done started = All (λ n. Satisfied done (deps n)) started

  Allowed-append : (done more xs : List String) → Allowed done xs → Allowed (done ++ more) xs
  Allowed-append done more [] h = tt
  Allowed-append done more (x ∷ xs) h =
      (Satisfied-append done more (deps x) h.0, Allowed-append done more xs h.1)

  Allowed-snoc :
      (done xs : List String) (n : String)
      → Allowed done xs
      → Satisfied done (deps n)
      → Allowed done (xs ++ n ∷ [])
  Allowed-snoc done [] n h new = (new, tt)
  Allowed-snoc done (x ∷ xs) n h new = (h.0, Allowed-snoc done xs n h.1 new)

  Allowed-has :
      (done xs : List String) (n : String)
      → Allowed done xs
      → has n xs ≡ true
      → Satisfied done (deps n)
  Allowed-has done [] n h m = absurd (false≢true m)
  Allowed-has done (x ∷ xs) n h m = elim (string_discrete n x) [
    | yes e ↦ subst (λ k. Satisfied done (deps k)) (sym e) h.0
    | no ne ↦ Allowed-has done xs n h.1 (ground arith)
  ]

  Step-IsSound : {s t : State} → Step deps s t → IsSound deps s → IsSound deps t
  Step-IsSound {s} (starts n new ready) i = record {
    started_once = IsDistinct-snoc n s.started i.started_once new;
    done_once = i.done_once;
    done_started = λ m h. ground (arith, has-append m s.started (n ∷ []), i.done_started m h);
    allowed = Allowed-snoc s.done s.started n i.allowed ready;
    ordered = i.ordered;
  }
  Step-IsSound {s} (finishes n on new) i = record {
    started_once = i.started_once;
    done_once = IsDistinct-snoc n s.done i.done_once new;
    done_started = λ m h. ground (arith, has-append m s.done (n ∷ []), i.done_started m);
    allowed = Allowed-append s.done (n ∷ []) s.started i.allowed;
    ordered = Behind-snoc [] s.done n i.ordered (Allowed-has s.done s.started n i.allowed on);
  }

  -- Whatever the order of the steps, the specification stays sound.
  pub Reach-IsSound : {s : State} → Reach deps s → IsSound deps s
  Reach-IsSound start = record {
    started_once = tt;
    done_once = tt;
    done_started = λ m h. absurd (false≢true h);
    allowed = tt;
    ordered = tt;
  }
  Reach-IsSound (later r s) = Step-IsSound s (Reach-IsSound r)
