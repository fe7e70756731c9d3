-- ===== src/Torrent/Task/Tick.antt =====
-- The tick of a torrent's task.
use cratetorrent.Prelude.{
  ℕ, ◌+◌, ◌-◌, ◌≤◌, max, ◌≡◌, false, none, some, List, [], ◌∷◌, ◌++◌, Checked, ret, panic, length,
}
use cratetorrent.Codec.Wire.{WireApi}
use cratetorrent.Tracker.{TrackerApi}
use cratetorrent.Counter.{FloatApi, reset_all}
use cratetorrent.Torrent.{Torrent}
use cratetorrent.Torrent.Announces.{TrackerEntry}
use cratetorrent.Torrent.Announces.Visits.{Requests, AllVisited, Announces}
use cratetorrent.Torrent.Task.{
  Task, Surroundings, Step, goes_on, ended, fails, TorrentStats, torrent_stats, saturating_since,
  first_of, pass_of,
}
use cratetorrent.Torrent.Task.Run.{begin_tick}

module _ ⦃api : FloatApi⦄ (w : WireApi) (tracker_api : TrackerApi) (Client : Type 0) where
  -- The trackers are visited after the sessions are started.
  abbrev pub Visits :
      Surroundings w tracker_api Client
      → Task w tracker_api Client
      → Task w tracker_api Client
      → List (TrackerEntry w tracker_api Client)
      → List ℕ
      → Requests w tracker_api Client
      → Type 0
  Visits s t begun trackers available requests =
      AllVisited w tracker_api Client (pass_of w tracker_api Client s none begun)
        (begun.torrent.storage.download_len - begun.torrent.counters.payload.down.total) t.trackers
        begun.torrent.available_peers trackers available requests

  -- A tick: the time since the last one is counted, the trackers are visited, no more peers are
  -- connected than may be unless there were more, the user is told, and the counters begin a new round.
  pub record Ticked (s : Surroundings w tracker_api Client) (t t' : Task w tracker_api Client)
      : Type 0 where
    pub ran :
        t'.run_duration
        ≡ t.run_duration + saturating_since s.now (first_of t.last_tick_time t.start_time)
    pub ticked_at : t'.last_tick_time ≡ some s.now
    pub connected :
        length t'.torrent.peers ≤ max (length t.torrent.peers) t.torrent.max_connected_peer_count
    pub requests : Requests w tracker_api Client
    pub visited :
        Visits s t
          (begin_tick w tracker_api Client s t)
          t'.trackers
          t'.torrent.available_peers
          requests
    pub fresh : t'.torrent.counters ≡ reset_all api t.torrent.counters
    pub stats : TorrentStats
    pub told : t'.sent ≡ t.sent ++ (torrent_stats stats ∷ [])
    pub counted : stats.pieces.complete + t.torrent.piece_picker.missing_count ≡ stats.pieces.total

  abbrev pub TickOutcome :
      Surroundings w tracker_api Client
      → Task w tracker_api Client
      → Checked (Step w tracker_api Client)
      → Type 0
  TickOutcome s t panic = ⊥
  TickOutcome s t (ret (goes_on t')) = Ticked s t t'
  TickOutcome s t (ret (ended t')) = ⊥
  TickOutcome s t (ret (fails t')) = s.alert_open ≡ false
