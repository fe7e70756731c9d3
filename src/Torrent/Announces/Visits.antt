-- ===== src/Torrent/Announces/Visits.antt =====
-- Which trackers one pass of announces asks.
use cratetorrent.Prelude.{
  ℕ, suc, ◌+◌, ◌<◌, ◌≤◌, ◌≡◌, ◌⊎◌, false, Option, none, some, List, [], ◌∷◌, ◌++◌, Checked, ret,
  panic, length,
}
use cratetorrent.Codec.Wire.{WireApi}
use cratetorrent.Tracker.{TrackerApi, Announce}
use cratetorrent.Torrent.Announces.{or_else, Response, Outcome, done, alert_failed, Pass, params_of}
use cratetorrent.Torrent.Announces.Reasons.{Wants, Entry, IsReason}

module _ (w : WireApi) (api : TrackerApi) (Client : Type 0) where
  -- What is left of an entry, and the peers that are won, when the tracker answers so. A failure is
  -- counted.
  abbrev pub Answered :
      Pass w api Client
      → Entry w api Client
      → Option (Response w api Client)
      → Entry w api Client
      → List ℕ
      → Type 0
  Answered p t (some r) t' more =
      (t' ≡ record {
        client = t.client;
        id = or_else r.tracker_id t.id;
        last_announce_time = some p.now;
        interval = or_else r.interval t.interval;
        min_interval = or_else r.min_interval t.min_interval;
        error_count = t.error_count;
      })
      × (more ≡ r.peers)
  Answered p t none t' more =
      (t' ≡ record t { error_count = suc t.error_count; last_announce_time = some p.now })
      × (more ≡ [])

  -- The tracker is asked, since it has not failed too often and there is a reason to.
  pub record Asked (p : Pass w api Client) (left : ℕ) (available : List ℕ) (t : Entry w api Client)
      (params : Announce w api) : Type 0 where
    pub below : t.error_count < p.conf.tracker_error_threshold
    pub reason : IsReason w api Client p available t
    pub needed : Option ℕ
    pub wants : Wants p.conf (p.connected + length available) p.event needed
    pub params_are : params ≡ params_of w api Client p left t needed

  -- The tracker is left alone: it failed too often, or there is no reason to ask it.
  abbrev pub Skipped : Pass w api Client → List ℕ → Entry w api Client → Type 0
  Skipped p available t =
      (p.conf.tracker_error_threshold ≤ t.error_count) ⊎ (IsReason w api Client p available t → ⊥)

  abbrev pub Requests : Type 0
  Requests = List (Client × Announce w api)

  -- What a pass does to one tracker: it is asked and answers, or nothing happens.
  abbrev pub Visited :
      Pass w api Client
      → ℕ
      → List ℕ
      → Entry w api Client
      → Entry w api Client
      → List ℕ
      → Requests
      → Type 0
  Visited p left available t t' more sent =
      ((params : Announce w api) × Asked p left available t params
        × (sent ≡ (t.client, params) ∷ [])
        × Answered p t (p.answer t.client params) t' more)
      ⊎ (Skipped p available t × (t' ≡ t) × (more ≡ []) × (sent ≡ []))

  -- What a pass does to the trackers in turn; each finds the peers that those before it gave.
  abbrev pub AllVisited :
      Pass w api Client
      → ℕ
      → List (Entry w api Client)
      → List ℕ
      → List (Entry w api Client)
      → List ℕ
      → Requests
      → Type 0
  AllVisited p left [] available [] available' requests = (available' ≡ available) × (requests ≡ [])
  AllVisited p left (t ∷ ts) available (t' ∷ ts') available' requests =
      (more : List ℕ) × (sent : Requests) × (later : Requests) × (requests ≡ sent ++ later)
      × Visited p left available t t' more sent
      × AllVisited p left ts (available ++ more) ts' available' later
  AllVisited p left _ available _ available' requests = ⊥

  -- A pass that ends at a tracker that is asked and does not answer: the failure is counted, and the
  -- trackers behind it are as before.
  abbrev pub Breaks :
      Pass w api Client
      → ℕ
      → List (Entry w api Client)
      → List ℕ
      → List (Entry w api Client)
      → List ℕ
      → Requests
      → Type 0
  Breaks p left (t ∷ ts) available (t' ∷ ts') available' requests =
      ((params : Announce w api) × Asked p left available t params
        × (requests ≡ (t.client, params) ∷ [])
        × (p.answer t.client params ≡ none)
        × (t' ≡ record t { error_count = suc t.error_count })
        × (ts' ≡ ts)
        × (available' ≡ available))
      ⊎ ((more : List ℕ) × (sent : Requests) × (later : Requests) × (requests ≡ sent ++ later)
          × Visited p left available t t' more sent
          × Breaks p left ts (available ++ more) ts' available' later)
  Breaks p left _ available _ available' requests = ⊥

  -- What a pass leaves of the trackers and the peers that one may connect to.
  abbrev pub Announces :
      Pass w api Client
      → ℕ
      → List (Entry w api Client)
      → List ℕ
      → Checked (Outcome w api Client)
      → Type 0
  Announces p left ts available panic = ⊥
  Announces p left ts available (ret (done a)) =
      AllVisited p left ts available a.trackers a.available_peers a.requests
  Announces p left ts available (ret (alert_failed a)) =
      (p.alert_open ≡ false) × Breaks p left ts available a.trackers a.available_peers a.requests
