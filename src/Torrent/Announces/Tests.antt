-- ===== src/Torrent/Announces/Tests.antt =====
-- Two trackers, one of which failed too often; the other answers with one peer.
use cratetorrent.Prelude.{ℕ, ◌≡◌, refl, true, none, some, [], ◌∷◌, ret}
use cratetorrent.Tracker.{Announce, started}
use cratetorrent.Tracker.Tests.{wire, api}
use cratetorrent.Torrent.Announces.{
  Conf, TrackerEntry, Pass, Response, done, announce_to_trackers, announce_loop, after_answer,
  take_response, needed_peers, is_due, should_announce, can_announce,
}
use cratetorrent.Torrent.Announces.Visits.{Announces}

abbrev pub conf : Conf
conf = record {
  min_requested_peer_count = 10;
  max_connected_peer_count = 50;
  announce_interval = 3600;
  tracker_error_threshold = 15;
}

abbrev pub response : Response wire api ℕ
response = record {
  tracker_id = none;
  failure_reason = none;
  interval = some 60;
  min_interval = none;
  peers = 7 ∷ [];
}

abbrev pass : Pass wire api ℕ
pass = record {
  dev = true;
  conf = conf;
  now = 100;
  event = some started;
  port = 6881;
  connected = 0;
  uploaded = 0;
  downloaded = 5;
  alert_open = true;
  answer = λ client params. some response;
}

abbrev pub entry : TrackerEntry wire api ℕ
entry = record {
  client = 1;
  id = none;
  last_announce_time = none;
  interval = none;
  min_interval = none;
  error_count = 0;
}

abbrev failing : TrackerEntry wire api ℕ
failing = record entry { client = 2; error_count = 15 }

abbrev request : Announce wire api
request = record {
  port = 6881;
  ip = none;
  downloaded = 5;
  uploaded = 0;
  left = 6;
  peer_count = some 50;
  tracker_id = none;
  event = some started;
}

abbrev asked : TrackerEntry wire api ℕ
asked = record entry { last_announce_time = some 100; interval = some 60 }

asks_first :
    announce_to_trackers wire api ℕ pass 11 (entry ∷ failing ∷ []) []
    ≡ ret (
        done (record {
          trackers = asked ∷ failing ∷ [];
          available_peers = 7 ∷ [];
          requests = (1, request) ∷ [];
        }))
unfolding announce_to_trackers announce_loop after_answer take_response needed_peers is_due
    should_announce can_announce
asks_first = refl
