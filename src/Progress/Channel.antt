-- ===== src/Progress/Channel.antt =====
-- internal/progress/channel.go: ChannelReporter, whose lock makes each operation one step. Its channel
-- is the buffer of the events sent and not yet received, of a capacity that is fixed. `E` is the type
-- of the events.
use devsec.Base.{
  ℕ, ◌≤◌, inl, inr, Bool, true, false, List, [], ◌∷◌, ◌++◌, length, length-append, append-nil,
  append_assoc, if◌then◌else◌, arith, ltb, Bool-cases, subst,
}

pub record Reporter (E : Type 0) : Type 0 where
  pub buffer : List E
  pub is_closed : Bool

-- NewChannelReporter
abbrev pub new_reporter : {E : Type 0} → Reporter E
new_reporter = record { buffer = []; is_closed = false }

-- What happens to a channel: a report of an event, Close, and the receiver taking an event.
pub data Action (E : Type 0) : Type 0 where
  reports : E → Action E
  closes receives : Action E

module _ {E : Type 0} where
  -- Close
  unfoldable pub close : Reporter E → Reporter E
  close r = record r { is_closed = true }

  behind : List E → List E
  behind [] = []
  behind (e ∷ es) = es

  -- The receiver takes the first event of the buffer, if there is one, also from a closed channel.
  receive : Reporter E → Reporter E
  unfolding behind
  receive r = record r { buffer = behind r.buffer }

  first : List E → List E
  first [] = []
  first (e ∷ es) = e ∷ []

  -- What an action hands to the receiver.
  handed : Action E → Reporter E → List E
  unfolding first
  handed receives r = first r.buffer
  handed _ r = []

  -- The events that are reported before the first Close.
  abbrev pub reported : List (Action E) → List E
  reported [] = []
  reported (closes ∷ as') = []
  reported (reports e ∷ as') = e ∷ reported as'
  reported (receives ∷ as') = reported as'

module _ {E : Type 0} (capacity : ℕ) where
  -- send: the event is dropped where the channel is full or closed
  unfoldable pub send : E → Reporter E → Reporter E
  send e r =
      if r.is_closed
      then r
      else if ltb (length r.buffer) capacity
      then record r { buffer = r.buffer ++ e ∷ [] }
      else r

  unfoldable pub act : Action E → Reporter E → Reporter E
  unfolding send close receive
  act (reports e) r = send e r
  act closes r = close r
  act receives r = receive r

  -- A run of a reporter: the events received, and the reporter behind it.
  unfoldable pub run : List (Action E) → Reporter E → List E × Reporter E
  unfolding act handed
  run [] r = ([], r)
  run (a ∷ as') r = let (received, r') = run as' (act a r) in (handed a r ++ received, r')

-- A list without some of its members, in order.
pub data Subsequence {E : Type 0} : List E → List E → Type 0 where
  done : Subsequence [] []
  skip : {x : E} {xs ys : List E} → Subsequence xs ys → Subsequence xs (x ∷ ys)
  keep : {x : E} {xs ys : List E} → Subsequence xs ys → Subsequence (x ∷ xs) (x ∷ ys)

module _ {E : Type 0} where
  Subsequence-refl : (xs : List E) → Subsequence xs xs
  Subsequence-refl [] = done
  Subsequence-refl (x ∷ xs) = keep (Subsequence-refl xs)

  Subsequence-insert :
      (e : E) (ys zs : List E) {xs : List E}
      → Subsequence xs (ys ++ zs)
      → Subsequence xs (ys ++ e ∷ zs)
  Subsequence-insert e [] zs s = skip s
  Subsequence-insert e (y ∷ ys) zs (skip s) = skip (Subsequence-insert e ys zs s)
  Subsequence-insert e (y ∷ ys) zs (keep s) = keep (Subsequence-insert e ys zs s)

  -- What a reporter that is closed or not is still to send.
  abbrev pub to_send : Bool → List (Action E) → List E
  to_send true as' = []
  to_send false as' = reported as'

module _ {E : Type 0} (capacity : ℕ) where
  -- What a run keeps of the events of the buffer and of those that are reported.
  abbrev Delivers : List (Action E) → Reporter E → Type 0
  Delivers as' r =
      Subsequence ((run capacity as' r).0 ++ (run capacity as' r).1.buffer)
        (r.buffer ++ to_send r.is_closed as')
      × (length (run capacity as' r).1.buffer ≤ capacity)

  run-Delivers :
      (as' : List (Action E)) (buffer : List E) (closed : Bool)
      → length buffer ≤ capacity
      → Delivers as' (record { buffer = buffer; is_closed = closed })
  unfolding run act send close receive behind handed first
  run-Delivers [] buffer true h = (rw (append-nil buffer) (Subsequence-refl buffer), h)
  run-Delivers [] buffer false h = (rw (append-nil buffer) (Subsequence-refl buffer), h)
  run-Delivers (closes ∷ as') buffer true h = run-Delivers as' buffer true h
  run-Delivers (closes ∷ as') buffer false h = run-Delivers as' buffer true h
  run-Delivers (receives ∷ as') [] true h = run-Delivers as' [] true h
  run-Delivers (receives ∷ as') [] false h = run-Delivers as' [] false h
  run-Delivers (receives ∷ as') (e ∷ es) true h =
      let (s, w) = run-Delivers as' es true (omega (arith, h)) in (keep s, w)
  run-Delivers (receives ∷ as') (e ∷ es) false h =
      let (s, w) = run-Delivers as' es false (omega (arith, h)) in (keep s, w)
  run-Delivers (reports e ∷ as') buffer true h = run-Delivers as' buffer true h
  run-Delivers (reports e ∷ as') buffer false h = elim (Bool-cases (ltb (length buffer) capacity)) [
    | inl room ↦
        let (s, w) =
          run-Delivers as' (buffer ++ e ∷ []) false
            (ground (arith, room, length-append buffer (e ∷ []))) in
        rw room (subst (Subsequence _) (append_assoc buffer (e ∷ []) (reported as')) s, w)
    | inr full ↦
        let (s, w) = run-Delivers as' buffer false h in
        rw full (Subsequence-insert e buffer (reported as') s, w)
  ]

  -- Whatever the order of reports, receptions and Close, the receiver gets the reported events in
  -- their order, each at most once and only those reported before Close; the buffer never holds more
  -- than its capacity.
  pub run-Subsequence :
      (as' : List (Action E))
      → let (received, r) = run capacity as' new_reporter in
        Subsequence (received ++ r.buffer) (reported as') × (length r.buffer ≤ capacity)
  run-Subsequence as' = run-Delivers as' [] false (omega arith)
