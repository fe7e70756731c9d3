-- ===== src/Torrent/Task/Kept.antt =====
-- What the task of a torrent keeps, whatever happens.
use cratetorrent.Prelude.{
  ℕ, ◌≡◌, refl, Bool, true, false, Option, none, some, List, [], ◌∷◌, map, Checked, ret, IfReturns,
  IfReturns-bind, IfReturns-after, sub_checked, ◌==◌, if◌then◌else◌,
}
use cratetorrent.Codec.Wire.{WireApi}
use cratetorrent.Tracker.{TrackerApi, Event, completed, stopped, started}
use cratetorrent.Counter.{FloatApi, add_counters}
use cratetorrent.Peer.{SessionTick}
use cratetorrent.Peer.Filling.{IsShared}
use cratetorrent.Torrent.{
  Torrent, update_peer, change_peer, find_peer, PeerSessionEntry, handle_peer_state_change,
  handle_piece_completion, connect_peers,
}
use cratetorrent.Torrent.Completion.{SharedAfter, completion-keeps}
use cratetorrent.Torrent.Announces.{Outcome, done, alert_failed, announce_to_trackers}
use cratetorrent.Torrent.Announces.Kept.{AllBelow, announced_of, announce-Keeps}
use cratetorrent.Torrent.Task.{
  Task, Surroundings, Step, goes_on, ended, fails, notice, announce, after_announce, pass_of,
  build_stats,
}
use cratetorrent.Torrent.Task.Run.{
  Happening, ticks, accepted, peer_connected, peer_state, piece_written, write_failed, read_failed,
  shut_down, begin_tick, end_tick, tick, handle_piece, after_piece, react, goes_on_with, run,
  run_anyway, start, log,
}

module _ ⦃api : FloatApi⦄ (w : WireApi) (tracker_api : TrackerApi) (Client : Type 0) where
  -- What the sessions share is valid, and no tracker failed more often than the threshold.
  pub record IsTask (t : Task w tracker_api Client) : Type 0 where
    pub shared : IsShared t.torrent.storage t.torrent.piece_picker t.torrent.downloads
    pub below : AllBelow w tracker_api Client t.conf.tracker_error_threshold t.trackers

  abbrev pub task_of : Step w tracker_api Client → Task w tracker_api Client
  task_of (goes_on t) = t
  task_of (ended t) = t
  task_of (fails t) = t

  abbrev pub Keeps : Checked (Step w tracker_api Client) → Type 0
  Keeps = IfReturns (λ r. IsTask (task_of r))

  announce-Keeps-task :
      (s : Surroundings w tracker_api Client) (event : Option Event)
      (next : Task w tracker_api Client → Checked (Step w tracker_api Client))
      → ((t : Task w tracker_api Client) → IsTask t → Keeps (next t))
      → (t : Task w tracker_api Client) → IsTask t
      → Keeps (announce w tracker_api Client s event next t)
  unfolding announce
  announce-Keeps-task s event next k t v =
      IfReturns-bind
        (λ o.
          AllBelow w tracker_api Client t.conf.tracker_error_threshold
            (announced_of w tracker_api Client o).trackers)
        (λ r. IsTask (task_of r))
        (announce_to_trackers w tracker_api Client (pass_of w tracker_api Client s event t)
          t.torrent.storage.download_len t.trackers t.torrent.available_peers)
        _
        (announce-Keeps w tracker_api Client (pass_of w tracker_api Client s event t)
          t.torrent.storage.download_len t.trackers t.torrent.available_peers v.below)
        go
    where
      go :
          (o : Outcome w tracker_api Client)
          → AllBelow w tracker_api Client t.conf.tracker_error_threshold
              (announced_of w tracker_api Client o).trackers
          → Keeps (after_announce w tracker_api Client next t o)
      go (done a) h = k _ (record { shared = v.shared; below = h })
      go (alert_failed a) h = record { shared = v.shared; below = h }

  -- The state of a session changes neither.
  state_change-keeps :
      (t : Torrent) (addr : ℕ) (info : SessionTick)
      → IfReturns
          (λ t'.
            (t'.storage ≡ t.storage)
            × (t'.piece_picker ≡ t.piece_picker)
            × (t'.downloads ≡ t.downloads))
          (handle_peer_state_change t addr info)
  unfolding handle_peer_state_change update_peer
  state_change-keeps t addr info = go (find_peer t.peers addr)
    where
      go :
          (p : Option PeerSessionEntry)
          → IfReturns
              (λ t'.
                (t'.storage ≡ t.storage)
                × (t'.piece_picker ≡ t.piece_picker)
                × (t'.downloads ≡ t.downloads))
              (change_peer t addr info p)
      go none = (refl, refl, refl)
      go (some peer) =
          IfReturns-after
            (λ t'.
              (t'.storage ≡ t.storage)
              × (t'.piece_picker ≡ t.piece_picker)
              × (t'.downloads ≡ t.downloads))
            (add_counters api t.counters info.counters) _ λ counters. (refl, refl, refl)

  begin_tick-IsTask :
      (s : Surroundings w tracker_api Client) (t : Task w tracker_api Client)
      → IsTask t
      → IsTask (begin_tick w tracker_api Client s t)
  unfolding begin_tick connect_peers
  begin_tick-IsTask s t v = record { shared = v.shared; below = v.below }

  build_stats-IsTask :
      (t : Task w tracker_api Client)
      → IsTask t
      → IfReturns (λ r. IsTask r.1) (build_stats w tracker_api Client t)
  unfolding build_stats
  build_stats-IsTask t v =
      IfReturns-after (λ r. IsTask r.1)
        (sub_checked t.torrent.storage.piece_count t.torrent.piece_picker.missing_count) _
        λ complete. record { shared = v.shared; below = v.below }

  end_tick-Keeps :
      (t : Task w tracker_api Client) → IsTask t → Keeps (end_tick w tracker_api Client t)
  unfolding end_tick
  end_tick-Keeps t v =
      IfReturns-bind (λ r. IsTask r.1) (λ r. IsTask (task_of r))
        (build_stats w tracker_api Client t) _ (build_stats-IsTask t v)
        λ (stats, t') k. record { shared = k.shared; below = k.below }

  handle_piece-Keeps :
      (s : Surroundings w tracker_api Client) (i : ℕ) (valid : Bool) (t : Task w tracker_api Client)
      → IsTask t
      → Keeps (handle_piece w tracker_api Client s i valid t)
  unfolding handle_piece
  handle_piece-Keeps s i valid t v =
      IfReturns-bind (SharedAfter t.torrent) (λ r. IsTask (task_of r))
        (handle_piece_completion t.torrent i valid) _ (completion-keeps t.torrent i valid v.shared)
        λ (torrent, notices) (same, shared).
          last (log w tracker_api Client (map notice notices) (record t { torrent = torrent }))
            (record { shared = shared; below = v.below })
            (if valid then torrent.piece_picker.missing_count == 0 else false)
    where
      last :
          (t' : Task w tracker_api Client)
          → IsTask t'
          → (b : Bool) → Keeps (after_piece w tracker_api Client s t' b)
      last t' v' true =
          announce-Keeps-task s (some completed) (λ u. ret (goes_on u)) (λ u h. h) t' v'
      last t' v' false = v'

  react-Keeps :
      (s : Surroundings w tracker_api Client) (h : Happening w tracker_api Client)
      (t : Task w tracker_api Client)
      → IsTask t
      → Keeps (react w tracker_api Client s h t)
  unfolding react tick
  react-Keeps s ticks t v =
      announce-Keeps-task s none (λ t'. end_tick w tracker_api Client t') end_tick-Keeps
        (begin_tick w tracker_api Client s t) (begin_tick-IsTask s t v)
  react-Keeps s (accepted addr) t v = record { shared = v.shared; below = v.below }
  react-Keeps s (peer_connected addr id) t v = record { shared = v.shared; below = v.below }
  react-Keeps s (peer_state addr info) t v =
      IfReturns-bind
        (λ t'.
          (t'.storage ≡ t.torrent.storage)
          × (t'.piece_picker ≡ t.torrent.piece_picker)
          × (t'.downloads ≡ t.torrent.downloads))
        (λ r. IsTask (task_of r)) (handle_peer_state_change t.torrent addr info) _
        (state_change-keeps t.torrent addr info)
        λ t' (storage, picker, downloads). record {
          shared = rw storage (rw picker (rw downloads v.shared));
          below = v.below;
        }
  react-Keeps s (piece_written i valid) t v = handle_piece-Keeps s i valid t v
  react-Keeps s write_failed t v = v
  react-Keeps s read_failed t v = v
  react-Keeps s shut_down t v =
      announce-Keeps-task s (some stopped) (λ t'. ret (ended t')) (λ t' h. h) _
        (record { shared = v.shared; below = v.below })

  run-Keeps :
      (hs : List (Surroundings w tracker_api Client × Happening w tracker_api Client))
      (t : Task w tracker_api Client)
      → IsTask t
      → Keeps (run w tracker_api Client hs t)
  unfolding run
  run-Keeps [] t v = v
  run-Keeps ((s, h) ∷ hs) t v =
      IfReturns-bind (λ r. IsTask (task_of r)) (λ r. IsTask (task_of r))
        (react w tracker_api Client s h t) _ (react-Keeps s h t v)
        λ r k. go (λ t' k'. run-Keeps hs t' k') r k
    where
      go :
          ((t' : Task w tracker_api Client) → IsTask t' → Keeps (run w tracker_api Client hs t'))
          → (r : Step w tracker_api Client) → IsTask (task_of r)
          → Keeps (goes_on_with w tracker_api Client (λ t'. run w tracker_api Client hs t') r)
      go rest (goes_on t') k = rest t' k
      go rest (ended t') k = k
      go rest (fails t') k = record { shared = k.shared; below = k.below }

  -- From a task whose piece picker and downloads are valid and whose trackers failed no more often than
  -- the threshold, `start` keeps both, whatever happens in whatever order, whatever the trackers answer
  -- and whether the user's channel is open or not: they hold when the loop is left, and wherever it is
  -- at, unless the task has panicked.
  pub start_lem :
      (s : Surroundings w tracker_api Client) (peers : List ℕ)
      → (hs : List (Surroundings w tracker_api Client × Happening w tracker_api Client))
      → (t : Task w tracker_api Client) → IsTask t
      → IfReturns (λ r. IsTask (task_of r)) (start w tracker_api Client s peers hs t)
  unfolding start
  start_lem s peers hs t v =
      IfReturns-bind (λ r. IsTask (task_of r)) (λ r. IsTask (task_of r))
        (announce w tracker_api Client s
          (if t.torrent.piece_picker.missing_count == 0 then none else some started)
          (λ t'. ret (goes_on t')) _)
        _
        (announce-Keeps-task s
          (if t.torrent.piece_picker.missing_count == 0 then none else some started)
          (λ t'. ret (goes_on t')) (λ t' k. k) _ (record { shared = v.shared; below = v.below }))
        go
    where
      go :
          (r : Step w tracker_api Client)
          → IsTask (task_of r)
          → Keeps (run_anyway w tracker_api Client hs r)
      go (goes_on t') k = run-Keeps hs t' k
      go (ended t') k = run-Keeps hs t' k
      go (fails t') k = run-Keeps hs _ (record { shared = k.shared; below = k.below })
