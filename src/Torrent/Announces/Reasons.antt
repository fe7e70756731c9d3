-- ===== src/Torrent/Announces/Reasons.antt =====
-- When there is a reason to ask a tracker, and for how many peers.
use native.Mathlib.Decide.{dec_lt}
use cratetorrent.Prelude.{
  ◌↔◌, max, ℕ, ◌+◌, ◌-◌, ◌^◌, ◌<◌, ◌≤◌, ◌≡◌, ◌⊎◌, inl, inr, refl, arith, Bool, true, false, ◌&&◌,
  ◌||◌, Bool-cases, Option, none, some, List, ret, leb, lt→ltb, le→leb, length, subst,
}
use cratetorrent.Download.{debug_assert_ret}
use cratetorrent.Codec.Wire.{WireApi}
use cratetorrent.Tracker.{TrackerApi, Event}
use cratetorrent.Torrent.Announces.{
  Conf, is_some, some_needed, is_stopped, needed_peers, TrackerEntry, Pass, should_announce,
  can_announce, is_due,
}

-- The configuration asks for no more peers than it connects to.
pub record IsConf (conf : Conf) : Type 0 where
  pub enough_room : conf.min_requested_peer_count ≤ conf.max_connected_peer_count
  pub word : conf.tracker_error_threshold < 2 ^ 64

-- The torrent has too few peers, and is not about to stop.
abbrev pub NeedsPeers : Conf → ℕ → Option Event → Type 0
NeedsPeers conf peer_count event =
    (peer_count < conf.min_requested_peer_count) × (is_stopped event ≡ false)

-- How many peers are asked for: as many as one may connect to, but at least the least number.
pub record Wants (conf : Conf) (peer_count : ℕ) (event : Option Event) (needed : Option ℕ)
    : Type 0 where
  pub some_peers :
      NeedsPeers conf peer_count event
      → needed
        ≡ some (max conf.min_requested_peer_count (conf.max_connected_peer_count - peer_count))
  pub no_peers : (NeedsPeers conf peer_count event → ⊥) → needed ≡ none

pub needed_peers-Wants :
    (dev : Bool) (conf : Conf) (n : ℕ) (event : Option Event)
    → IsConf conf
    → (needed : Option ℕ) × (needed_peers dev conf n event ≡ ret needed) × Wants conf n event needed
unfolding needed_peers
needed_peers-Wants dev conf n event v = elim (Bool-cases (leb conf.min_requested_peer_count n)) [
  | inl e ↦ rw e (
    none,
    refl,
    record { some_peers = λ (few, _). absurd (ground arith); no_peers = λ enough. refl },
  )
  | inr e ↦ elim (Bool-cases (is_stopped event)) [
    | inl st ↦
        rw e
          (rw st (none, refl, record { some_peers = λ (_, going). cc; no_peers = λ enough. refl }))
    | inr st ↦
        let few : n < conf.min_requested_peer_count = ground arith in
        let room = v.enough_room in
        let fits = le→leb n conf.max_connected_peer_count (omega arith) in
        rw e (
          rw st (
            rw (debug_assert_ret dev _ fits) (
              rw fits (
                _,
                refl,
                record { some_peers = λ needs. refl; no_peers = λ h. absurd (h (few, st)) },
              ))))
  ]
]

module _ (w : WireApi) (api : TrackerApi) (Client : Type 0) where
  abbrev pub Entry : Type 0
  Entry = TrackerEntry w api Client

  -- A reason to ask the tracker, when there are `available` peers to connect to: an event, the usual
  -- interval that is over, or the need for peers after the least interval.
  abbrev pub IsReason : Pass w api Client → List ℕ → Entry → Type 0
  IsReason p available t =
      (is_some p.event ≡ true)
      ⊎ ((should_announce w api Client t p.now p.conf.announce_interval ≡ true)
          ⊎ (NeedsPeers p.conf (p.connected + length available) p.event
              × (can_announce w api Client t p.now p.conf.announce_interval ≡ true)))

  due_cases :
      (event some_needed can should : Bool)
      → (event || ((some_needed && can) || should)) ≡ true
      → (event ≡ true) ⊎ ((should ≡ true) ⊎ ((some_needed ≡ true) × (can ≡ true)))
  due_cases true some_needed can should h = inl refl
  due_cases false some_needed can true h = inr (inl refl)
  due_cases false true true false h = inr (inr (refl, refl))
  due_cases false true false false h = cc
  due_cases false false can false h = cc

  not_due_cases :
      (event some_needed can should : Bool)
      → (event || ((some_needed && can) || should)) ≡ false
      → (event ≡ true) ⊎ ((should ≡ true) ⊎ ((some_needed ≡ true) × (can ≡ true)))
      → ⊥
  not_due_cases true some_needed can should h k = cc
  not_due_cases false some_needed can true h (inl k) = cc
  not_due_cases false true true true h k = cc
  not_due_cases false true false true h k = cc
  not_due_cases false false can true h k = cc
  not_due_cases false some_needed can false h (inl k) = cc
  not_due_cases false some_needed can false h (inr (inl k)) = cc
  not_due_cases false true true false h (inr (inr k)) = cc
  not_due_cases false true false false h (inr (inr (a, b))) = cc
  not_due_cases false false can false h (inr (inr (a, b))) = cc

  -- Peers are asked for exactly where they are needed.
  some_needed-Wants :
      (conf : Conf) (n : ℕ) (event : Option Event) (needed : Option ℕ)
      → Wants conf n event needed
      → (some_needed needed ≡ true) ↔ NeedsPeers conf n event
  some_needed-Wants conf n event needed wants = elim (dec_lt n conf.min_requested_peer_count) [
    | yes few ↦ elim (Bool-cases (is_stopped event)) [
      | inl st ↦
          let none_at : needed ≡ none = wants.no_peers (λ (_, going). cc) in
          (
            λ h. absurd (none_needed (subst (λ k. some_needed k ≡ true) none_at h)),
            λ (_, going). cc,
          )
      | inr st ↦
          let some_at = wants.some_peers (few, st) in
          (
            λ _. (few, st),
            λ _. rw some_at (
                lt→ltb 0 (max conf.min_requested_peer_count (conf.max_connected_peer_count - n))
                  (omega arith)),
          )
    ]
    | no many ↦
        let none_at : needed ≡ none = wants.no_peers (λ (few, _). many few) in
        (
          λ h. absurd (none_needed (subst (λ k. some_needed k ≡ true) none_at h)),
          λ (few, _). absurd (many few),
        )
  ]
    where
      none_needed : false ≡ true → ⊥
      none_needed e = cc

  pub is_due-IsReason :
      (p : Pass w api Client) (t : Entry) (available : List ℕ) (needed : Option ℕ)
      → Wants p.conf (p.connected + length available) p.event needed
      → is_due w api Client p.conf p.now p.event needed t ≡ true
      → IsReason p available t
  unfolding is_due
  is_due-IsReason p t available needed wants h =
      elim (due_cases (is_some p.event) (some_needed needed) _ _ h) [
        | inl e ↦ inl e
        | inr (inl e) ↦ inr (inl e)
        | inr (inr (a, b)) ↦ inr (inr ((some_needed-Wants p.conf _ p.event needed wants).0 a, b))
      ]

  pub not_due-IsReason :
      (p : Pass w api Client) (t : Entry) (available : List ℕ) (needed : Option ℕ)
      → Wants p.conf (p.connected + length available) p.event needed
      → is_due w api Client p.conf p.now p.event needed t ≡ false
      → IsReason p available t
      → ⊥
  unfolding is_due
  not_due-IsReason p t available needed wants h reason =
      not_due_cases (is_some p.event) (some_needed needed) _ _ h (elim reason [
        | inl e ↦ inl e
        | inr (inl e) ↦ inr (inl e)
        | inr (inr (a, b)) ↦ inr (inr ((some_needed-Wants p.conf _ p.event needed wants).1 a, b))
      ])
