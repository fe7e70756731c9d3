-- ===== src/Torrent/Task/Tests.antt =====
-- The torrent of two pieces as a task with one tracker: it starts, a peer connects, and it ticks.
use cratetorrent.Prelude.{ℕ, arith, true, none, some, List, [], ◌∷◌, IfReturns}
use cratetorrent.Tracker.Tests.{wire, api}
use cratetorrent.Torrent.Tests.{naturals, torrent, torrent-IsShared}
use cratetorrent.Torrent.Announces.Tests.{conf, entry, response}
use cratetorrent.Torrent.Task.{Task, Surroundings}
use cratetorrent.Torrent.Task.Run.{Happening, ticks, accepted, piece_written, shut_down, start}
use cratetorrent.Torrent.Task.Kept.{IsTask, task_of, start_lem}

abbrev task : Task wire api ℕ
task = record {
  torrent = torrent;
  trackers = entry ∷ [];
  start_time = none;
  last_tick_time = none;
  run_duration = 0;
  port = 6881;
  conf = conf;
  alert_peers = true;
  sent = [];
}

task-IsTask : IsTask wire api ℕ task
task-IsTask = record { shared = torrent-IsShared; below = (omega arith, tt) }

abbrev at_100 : Surroundings wire api ℕ
at_100 = record {
  now = 100;
  answer = λ client params. some response;
  alert_open = true;
  dev = true;
}

abbrev happenings : List (Surroundings wire api ℕ × Happening wire api ℕ)
happenings =
    (at_100, accepted 5)
    ∷ (at_100, ticks)
    ∷ (at_100, piece_written 1 true)
    ∷ (at_100, shut_down)
    ∷ []

start_lem_example :
    IfReturns
      (λ r. IsTask wire api ℕ (task_of wire api ℕ r))
      (start wire api ℕ at_100 (3 ∷ []) happenings task)
start_lem_example = start_lem wire api ℕ at_100 (3 ∷ []) happenings task task-IsTask
