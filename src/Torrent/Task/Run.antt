-- ===== src/Torrent/Task/Run.antt =====
-- The events of a torrent's task, and its loop.
use cratetorrent.Prelude.{
  ℕ, ◌+◌, Bool, true, false, Option, none, some, List, [], ◌∷◌, ◌++◌, map, Checked, ret, ◌>>=◌,
  ◌==◌, if◌then◌else◌,
}
use cratetorrent.Codec.Wire.{WireApi}
use cratetorrent.Tracker.{TrackerApi, started, completed, stopped}
use cratetorrent.Counter.{FloatApi, reset_all}
use cratetorrent.Peer.{SessionTick}
use cratetorrent.Torrent.{
  PeerSessionEntry, Peers, find_peer, insert_peer, new_entry, handle_peer_state_change,
  handle_piece_completion, connect_peers,
}
use cratetorrent.Torrent.Task.{
  Task, Surroundings, Step, goes_on, ended, fails, Sent, notice, torrent_stats, peer_shutdown,
  torrent_error, saturating_since, first_of, announce, build_stats,
}

module _ ⦃api : FloatApi⦄ (w : WireApi) (tracker_api : TrackerApi) (Client : Type 0) where
  -- What the loop selects from: the timer, the listener, and the commands.
  pub data Happening : Type 0 where
    ticks : Happening
    accepted : ℕ → Happening
    peer_connected : ℕ → List ℕ → Happening
    peer_state : ℕ → SessionTick → Happening
    piece_written : ℕ → Bool → Happening
    write_failed read_failed : Happening
    shut_down : Happening

  abbrev pub log : List Sent → Task w tracker_api Client → Task w tracker_api Client
  log sent t = record t { sent = t.sent ++ sent }

  -- `tick` up to the announces.
  unfoldable pub begin_tick :
      Surroundings w tracker_api Client → Task w tracker_api Client → Task w tracker_api Client
  begin_tick s t = record t {
    run_duration = t.run_duration + saturating_since s.now (first_of t.last_tick_time t.start_time);
    last_tick_time = some s.now;
    torrent = connect_peers t.torrent;
  }

  -- `tick` after the announces.
  unfoldable pub end_tick : Task w tracker_api Client → Checked (Step w tracker_api Client)
  end_tick t = do
    (stats, t') ← build_stats w tracker_api Client t
    ret (
        goes_on (
          log (torrent_stats stats ∷ []) (record t' {
            torrent = record t'.torrent { counters = reset_all api t'.torrent.counters };
          })))

  unfoldable pub tick :
      Surroundings w tracker_api Client
      → Task w tracker_api Client
      → Checked (Step w tracker_api Client)
  unfolding begin_tick end_tick
  tick s t = announce w tracker_api Client s none (λ t'. end_tick t') (begin_tick s t)

  abbrev pub set_id : Peers → ℕ → List ℕ → Option PeerSessionEntry → Peers
  set_id peers addr id none = peers
  set_id peers addr id (some peer) = insert_peer peers addr (record peer { id = some id })

  -- The last piece is announced.
  abbrev pub after_piece :
      Surroundings w tracker_api Client
      → Task w tracker_api Client
      → Bool
      → Checked (Step w tracker_api Client)
  after_piece s t true = announce w tracker_api Client s (some completed) (λ t'. ret (goes_on t')) t
  after_piece s t false = ret (goes_on t)

  unfoldable pub handle_piece :
      Surroundings w tracker_api Client
      → ℕ
      → Bool
      → Task w tracker_api Client
      → Checked (Step w tracker_api Client)
  handle_piece s i valid t = do
    (torrent, notices) ← handle_piece_completion t.torrent i valid
    after_piece s (log (map notice notices) (record t { torrent = torrent }))
        (if valid then torrent.piece_picker.missing_count == 0 else false)

  -- The sessions with a channel are told.
  abbrev pub shutdowns : Peers → List Sent
  shutdowns [] = []
  shutdowns ((a, p) ∷ ps) = (if p.has_tx then peer_shutdown a ∷ [] else []) ++ shutdowns ps

  -- One round of `run`.
  unfoldable pub react :
      Surroundings w tracker_api Client
      → Happening
      → Task w tracker_api Client
      → Checked (Step w tracker_api Client)
  unfolding tick handle_piece
  react s ticks t = tick s t
  react s (accepted addr) t = ret (
      goes_on (record t {
        torrent = record t.torrent { peers = insert_peer t.torrent.peers addr new_entry };
      }))
  react s (peer_connected addr id) t = ret (
      goes_on (record t {
        torrent = record t.torrent {
          peers = set_id t.torrent.peers addr id (find_peer t.torrent.peers addr);
        };
      }))
  react s (peer_state addr info) t = do
    torrent ← handle_peer_state_change t.torrent addr info
    ret (goes_on (record t { torrent = torrent }))
  react s (piece_written i valid) t = handle_piece s i valid t
  react s write_failed t = ret (goes_on t)
  react s read_failed t = ret (goes_on t)
  react s shut_down t =
      announce w tracker_api Client s (some stopped) (λ t'. ret (ended t'))
        (log (shutdowns t.torrent.peers) t)

  -- `run`, over what happens.
  abbrev pub goes_on_with :
      (Task w tracker_api Client → Checked (Step w tracker_api Client))
      → Step w tracker_api Client
      → Checked (Step w tracker_api Client)
  goes_on_with next (goes_on t) = next t
  goes_on_with next (ended t) = ret (ended t)
  goes_on_with next (fails t) = ret (fails (log (torrent_error ∷ []) t))

  unfoldable pub run :
      List (Surroundings w tracker_api Client × Happening)
      → Task w tracker_api Client
      → Checked (Step w tracker_api Client)
  run [] t = ret (goes_on t)
  run ((s, h) ∷ hs) t = do r ← react s h t; goes_on_with (λ t'. run hs t') r

  -- `start`: an error of the first announce is only reported.
  abbrev pub run_anyway :
      List (Surroundings w tracker_api Client × Happening)
      → Step w tracker_api Client
      → Checked (Step w tracker_api Client)
  run_anyway hs (goes_on t) = run hs t
  run_anyway hs (ended t) = run hs t
  run_anyway hs (fails t) = run hs (log (torrent_error ∷ []) t)

  unfoldable pub start :
      Surroundings w tracker_api Client
      → List ℕ
      → List (Surroundings w tracker_api Client × Happening)
      → Task w tracker_api Client
      → Checked (Step w tracker_api Client)
  start s peers hs t = do
    let t0 = record t {
      torrent = record t.torrent { available_peers = t.torrent.available_peers ++ peers };
      start_time = some s.now;
    }
    r ←
        announce w tracker_api Client s
          (if t.torrent.piece_picker.missing_count == 0 then none else some started)
          (λ t'. ret (goes_on t')) t0
    run_anyway hs r
