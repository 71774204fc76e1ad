-- ===== src/Alerting/Manager/Laws.antt =====
-- What the manager sends, and how its list of notifiers changes.
use devsec.Base.{
  ◌≡◌, ◌≢◌, refl, sym, ◌∙◌, ap, subst, Bool, true, false, ◌&&◌, Option, none, some, List, [], ◌∷◌,
  ◌++◌, String, length, arith, text_eq_iff, if◌then◌else◌, ◌==◌, Bool-cases, inl, inr,
}
use devsec.Alerting.Types.{Alert, NotifyResult, Notifier}
use devsec.Alerting.Manager.{
  Manager, send_all, result_of, goes_on, send, meets_min_severity, without, remove_notifier,
  find_notifier, get_notifier,
}

abbrev pub result_names : List NotifyResult → List String
result_names [] = []
result_names (r ∷ rs) = r.notifier ∷ result_names rs

-- Every result but the last is a success.
abbrev pub only_last_fails : List NotifyResult → Bool
only_last_fails [] = true
only_last_fails (r ∷ rs) =
    let rest = only_last_fails rs in elim rs [ [] ↦ true | _ ∷ _ ↦ r.success && rest ]

goes_on-true : (e : Option String) → goes_on true e ≡ true
unfolding goes_on
goes_on-true none = refl
goes_on-true (some e) = refl

only_last_fails-cons :
    (r : NotifyResult) (rs : List NotifyResult)
    → r.success ≡ true
    → only_last_fails rs ≡ true
    → only_last_fails (r ∷ rs) ≡ true
only_last_fails-cons r [] s k = refl
only_last_fails-cons r (q ∷ rs) s k = ground (arith, s, k)

-- Some names of notifiers are left out at the end.
abbrev Begins : List String → List String → Type 0
Begins xs ys = (left : List String) × (ys ≡ xs ++ left)

Begins-cons : (x : String) (xs ys : List String) → Begins xs ys → Begins (x ∷ xs) (x ∷ ys)
Begins-cons x xs ys (left, e) = (left, ap (λ zs. x ∷ zs) e)

module _ {W : Type 0} where
  abbrev pub enabled_names : List (Notifier W) → List String
  enabled_names [] = []
  enabled_names (n ∷ ns) =
      let rest = enabled_names ns in if n.is_enabled then n.name ∷ rest else rest

  result_of-name :
      (n : Notifier W) (alert : Alert) (e : Option String) → (result_of n alert e).notifier ≡ n.name
  unfolding result_of
  result_of-name n alert none = refl
  result_of-name n alert (some e) = refl

  goes_on-success :
      (n : Notifier W) (alert : Alert) (e : Option String)
      → goes_on false e ≡ true
      → (result_of n alert e).success ≡ true
  unfolding goes_on result_of
  goes_on-success n alert none k = refl
  goes_on-success n alert (some e) k = cc

  send_all-continues :
      (alert : Alert) (ns : List (Notifier W)) (w : W)
      → result_names (send_all true alert ns w).0 ≡ enabled_names ns
  unfolding send_all
  send_all-continues alert [] w = refl
  send_all-continues alert (n ∷ ns) w = elim (Bool-cases n.is_enabled) [
    | inl e ↦ ground (
      arith,
      e,
      goes_on-true (n.send alert w).0,
      result_of-name n alert (n.send alert w).0,
      send_all-continues alert ns (n.send alert w).1,
    )
    | inr e ↦ ground (arith, e, send_all-continues alert ns w)
  ]

  -- What a result says of the answer of a notifier.
  abbrev pub Answers : Alert → Notifier W → Option String → NotifyResult → Type 0
  Answers alert n none r =
      (r.notifier ≡ n.name) × (r.alert_id ≡ alert.id) × (r.success ≡ true) × (r.error ≡ "")
  Answers alert n (some e) r =
      (r.notifier ≡ n.name) × (r.alert_id ≡ alert.id) × (r.success ≡ false) × (r.error ≡ e)

  -- Every enabled notifier is sent the alert once, in order, in the world that the one before it
  -- leaves; its result says what it answers. Nothing else changes the world.
  pub data Sends (alert : Alert) : List (Notifier W) → W → List NotifyResult → W → Type 0 where
    ends : {w : W} → Sends alert [] w [] w
    passes_over :
        {n : Notifier W} {ns : List (Notifier W)} {w w' : W} {rs : List NotifyResult}
        → n.is_enabled ≡ false
        → Sends alert ns w rs w'
        → Sends alert (n ∷ ns) w rs w'
    sends :
        {n : Notifier W} {ns : List (Notifier W)} {w v w' : W} {rs : List NotifyResult}
        {r : NotifyResult} (e : Option String)
        → n.is_enabled ≡ true
        → n.send alert w ≡ (e, v)
        → Answers alert n e r
        → Sends alert ns v rs w'
        → Sends alert (n ∷ ns) w (r ∷ rs) w'

  result_of-Answers :
      (n : Notifier W) (alert : Alert) (e : Option String) → Answers alert n e (result_of n alert e)
  unfolding result_of
  result_of-Answers n alert none = (refl, refl, refl, refl)
  result_of-Answers n alert (some e) = (refl, refl, refl, refl)

  send_all-Sends :
      (alert : Alert) (ns : List (Notifier W)) (w : W)
      → Sends alert ns w (send_all true alert ns w).0 (send_all true alert ns w).1
  unfolding send_all
  send_all-Sends alert [] w = ends
  send_all-Sends alert (n ∷ ns) w =
      let (e, v) = n.send alert w in
      elim (Bool-cases n.is_enabled) [
        | inl on ↦
            let rest = send_all true alert ns v in
            let same : send_all true alert (n ∷ ns) w ≡ (result_of n alert e ∷ rest.0, rest.1) =
              rw (on, goes_on-true e) refl in
            subst (λ x. Sends alert (n ∷ ns) w x.0 x.1) (sym same)
              (sends e on refl (result_of-Answers n alert e) (send_all-Sends alert ns v))
        | inr off ↦
            let same : send_all true alert (n ∷ ns) w ≡ send_all true alert ns w = rw off refl in
            subst (λ x. Sends alert (n ∷ ns) w x.0 x.1) (sym same)
              (passes_over off (send_all-Sends alert ns w))
      ]

  send_all-stops :
      (alert : Alert) (ns : List (Notifier W)) (w : W)
      → only_last_fails (send_all false alert ns w).0 ≡ true
  unfolding send_all
  send_all-stops alert [] w = refl
  send_all-stops alert (n ∷ ns) w = elim (Bool-cases n.is_enabled) [
    | inr e ↦ ground (arith, e, send_all-stops alert ns w)
    | inl e ↦ elim (Bool-cases (goes_on false (n.send alert w).0)) [
      | inr q ↦ ground (arith, e, q)
      | inl q ↦ ground (
        arith,
        e,
        q,
        only_last_fails-cons (result_of n alert (n.send alert w).0)
            (send_all false alert ns (n.send alert w).1).0
            (goes_on-success n alert (n.send alert w).0 q)
            (send_all-stops alert ns (n.send alert w).1),
      )
    ]
  ]

  send_all-Begins :
      (continue_on_error : Bool) (alert : Alert) (ns : List (Notifier W)) (w : W)
      → Begins (result_names (send_all continue_on_error alert ns w).0) (enabled_names ns)
  unfolding send_all
  send_all-Begins go alert [] w = ([], refl)
  send_all-Begins go alert (n ∷ ns) w =
      let sent = n.send alert w in
      let name = result_of-name n alert sent.0 in
      elim (Bool-cases n.is_enabled) [
        | inr e ↦ rw e (send_all-Begins go alert ns w)
        | inl e ↦ elim (Bool-cases (goes_on go sent.0)) [
          | inr q ↦ rw (e, q, name) (enabled_names ns, refl)
          | inl q ↦ rw (e, q, name) (Begins-cons n.name _ _ (send_all-Begins go alert ns sent.1))
        ]
      ]

  without-find :
      (name : String) (ns : List (Notifier W)) → find_notifier name (without name ns) ≡ none
  unfolding without find_notifier
  without-find name [] = refl
  without-find name (n ∷ ns) = ground (arith, without-find name ns)

  without-others :
      (name other : String) (ns : List (Notifier W))
      → name ≢ other
      → find_notifier other (without name ns) ≡ find_notifier other ns
  unfolding without find_notifier
  without-others name other [] ne = refl
  without-others name other (n ∷ ns) ne =
      ground
        (arith, without-others name other ns ne, text_eq_iff n.name name, text_eq_iff n.name other)

  send-loop :
      (m : Manager W) (alert : Alert) (w : W)
      → length m.notifiers ≢ 0
      → meets_min_severity m alert.severity ≡ true
      → send m alert w ≡ send_all m.continue_on_error alert m.notifiers w
  unfolding send
  send-loop m alert w some_notifier severe =
      let filled : (length m.notifiers == 0) ≡ false = ground arith in rw (filled, severe) refl

  -- A manager that continues on errors sends an alert that is severe enough to every enabled notifier,
  -- once and in order, whatever the ones before it answer. It returns one result for each, which bears
  -- its name and says whether it succeeded and, if not, its error. Nothing else changes the world.
  pub send-continues :
      (m : Manager W) (alert : Alert) (w : W)
      → length m.notifiers ≢ 0
      → meets_min_severity m alert.severity ≡ true
      → m.continue_on_error ≡ true
      → Sends alert m.notifiers w (send m alert w).0 (send m alert w).1
        × (result_names (send m alert w).0 ≡ enabled_names m.notifiers)
  send-continues m alert w some_notifier severe go =
      let same =
        send-loop m alert w some_notifier severe ∙ ap (λ b. send_all b alert m.notifiers w) go in
      (
        subst (λ v. Sends alert m.notifiers w v.0 v.1) (sym same)
            (send_all-Sends alert m.notifiers w),
        ap (λ v. result_names v.0) same ∙ send_all-continues alert m.notifiers w,
      )

  -- A manager that stops on errors returns the results of a beginning of its enabled notifiers, of
  -- which only the last one can be a failure.
  pub send-stops :
      (m : Manager W) (alert : Alert) (w : W)
      → length m.notifiers ≢ 0
      → meets_min_severity m alert.severity ≡ true
      → m.continue_on_error ≡ false
      → ((left : List String) × (enabled_names m.notifiers
            ≡ result_names (send m alert w).0 ++ left))
        × (only_last_fails (send m alert w).0 ≡ true)
  send-stops m alert w some_notifier severe stop =
      let same =
        send-loop m alert w some_notifier severe ∙ ap (λ b. send_all b alert m.notifiers w) stop in
      (
        subst (λ v. Begins (result_names v.0) (enabled_names m.notifiers)) (sym same)
            (send_all-Begins false alert m.notifiers w),
        ap (λ v. only_last_fails v.0) same ∙ send_all-stops alert m.notifiers w,
      )

  -- Behind the removal of a name no notifier of that name is found, and the search for any other name
  -- finds what it found before.
  pub remove_notifier-get_notifier :
      (m : Manager W) (name other : String)
      → name ≢ other
      → (get_notifier name (remove_notifier name m) ≡ none)
        × (get_notifier other (remove_notifier name m) ≡ get_notifier other m)
  unfolding remove_notifier get_notifier
  remove_notifier-get_notifier m name other ne =
      (without-find name m.notifiers, without-others name other m.notifiers ne)
