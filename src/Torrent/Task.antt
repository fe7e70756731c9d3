-- ===== src/Torrent/Task.antt =====
-- cratetorrent/src/torrent.rs: the task of a torrent, as a function on its state for each event of its
-- loop. Waiting for the sessions to end and logging are left out, and so is the log's debug level. A
-- user's channel that is closed is an error only where the code uses `?`.
pub mod Run
pub mod Kept
pub mod Tick
mod Tests
use cratetorrent.Prelude.{
  ℕ, ◌+◌, ◌-◌, Bool, true, false, Option, none, some, List, [], ◌∷◌, ◌++◌, map, Checked, ret, panic,
  ◌>>=◌, ◌>>◌, sub_checked, if◌then◌else◌, length,
}
use cratetorrent.Codec.Wire.{WireApi}
use cratetorrent.Tracker.{TrackerApi, Announce, Event, started, completed, stopped}
use cratetorrent.PiecePicker.{PiecePicker}
use cratetorrent.Counter.{
  FloatApi, Counter, ChannelCounter, ThruputCounters, reset_all, avg_rounded, peak_rounded,
}
use cratetorrent.Session.{SessionState}
use cratetorrent.Peer.{SessionTick}
use cratetorrent.Torrent.{
  Torrent, PeerSessionEntry, Notice, torrent_complete, announce_completed, piece_completion, Peers,
  find_peer, insert_peer, handle_peer_state_change, handle_piece_completion, connect_peers,
}
use cratetorrent.Torrent.Announces.{
  Conf, TrackerEntry, Response, Pass, Outcome, done, alert_failed, Announced, announce_to_trackers,
}

-- torrent/stats.rs.
pub record PieceStats : Type 0 where
  pub total : ℕ
  pub pending : ℕ
  pub complete : ℕ
  pub latest_completed : Option (List ℕ)

pub record Thruput : Type 0 where
  pub total : ℕ
  pub rate : ℕ
  pub peak : ℕ

pub record Channel : Type 0 where
  pub down : Thruput
  pub up : Thruput

pub record ThruputStats : Type 0 where
  pub protocol : Channel
  pub payload : Channel
  pub waste : ℕ

pub record PeerSessionStats : Type 0 where
  pub addr : ℕ
  pub id : Option (List ℕ)
  pub state : SessionState
  pub piece_count : ℕ

pub data PeersStats : Type 0 where
  count : ℕ → PeersStats
  full : List PeerSessionStats → PeersStats

pub record TorrentStats : Type 0 where
  pub start_time : Option ℕ
  pub run_duration : ℕ
  pub pieces : PieceStats
  pub thruput : ThruputStats
  pub peers : PeersStats

-- What the task hands to its sessions and to the user.
pub data Sent : Type 0 where
  notice : Notice → Sent
  torrent_stats : TorrentStats → Sent
  peer_shutdown : ℕ → Sent
  torrent_error : Sent

-- The time since an earlier one, or nothing.
abbrev pub saturating_since : ℕ → Option ℕ → ℕ
saturating_since now none = 0
saturating_since now (some t) = now - t

abbrev pub first_of : Option ℕ → Option ℕ → Option ℕ
first_of none b = b
first_of (some a) b = some a

module _ ⦃api : FloatApi⦄ where
  abbrev pub thruput_of : Counter api → Thruput
  thruput_of c = record { total = c.total; rate = avg_rounded api c; peak = peak_rounded api c }

  abbrev pub channel_of : ChannelCounter api → Channel
  channel_of c = record { down = thruput_of c.down; up = thruput_of c.up }

  -- `From<&ThruputCounters>`.
  unfoldable pub thruput_stats : ThruputCounters api → ThruputStats
  thruput_stats c = record {
    protocol = channel_of c.protocol;
    payload = channel_of c.payload;
    waste = c.waste.round;
  }

  abbrev pub peer_stats : ℕ × PeerSessionEntry → PeerSessionStats
  peer_stats (addr, entry) = record {
    addr = addr;
    id = entry.id;
    state = entry.state;
    piece_count = entry.piece_count;
  }

  module _ (w : WireApi) (tracker_api : TrackerApi) (Client : Type 0) where
    -- A torrent with its trackers, times and configuration.
    pub record Task : Type 0 where
      pub torrent : Torrent
      pub trackers : List (TrackerEntry w tracker_api Client)
      pub start_time : Option ℕ
      pub last_tick_time : Option ℕ
      pub run_duration : ℕ
      pub port : ℕ
      pub conf : Conf
      pub alert_peers : Bool
      pub sent : List Sent

    -- What the environment answers during an event: the time, the trackers' answers, and whether the
    -- user's channel is open; `dev` says whether there are debug assertions.
    pub record Surroundings : Type 0 where
      pub now : ℕ
      pub answer : Client → Announce w tracker_api → Option (Response w tracker_api Client)
      pub alert_open : Bool
      pub dev : Bool

    -- What an event leaves: the loop goes on, has ended, or fails.
    pub data Step : Type 0 where
      goes_on : Task → Step
      ended : Task → Step
      fails : Task → Step

    abbrev pub pass_of : Surroundings → Option Event → Task → Pass w tracker_api Client
    pass_of s event t = record {
      dev = s.dev;
      conf = t.conf;
      now = s.now;
      event = event;
      port = t.port;
      connected = length t.torrent.peers;
      uploaded = t.torrent.counters.payload.up.total;
      downloaded = t.torrent.counters.payload.down.total;
      alert_open = s.alert_open;
      answer = s.answer;
    }

    abbrev pub with_announced : Task → Announced w tracker_api Client → Task
    with_announced t a = record t {
      trackers = a.trackers;
      torrent = record t.torrent { available_peers = a.available_peers };
    }

    -- What follows the announces: `next`, unless they fail.
    abbrev pub after_announce :
        (Task → Checked Step) → Task → Outcome w tracker_api Client → Checked Step
    after_announce next t (done a) = next (with_announced t a)
    after_announce next t (alert_failed a) = ret (fails (with_announced t a))

    unfoldable pub announce :
        Surroundings → Option Event → (Task → Checked Step) → Task → Checked Step
    announce s event next t = do
      outcome ←
          announce_to_trackers w tracker_api Client (pass_of s event t)
            t.torrent.storage.download_len t.trackers t.torrent.available_peers
      after_announce next t outcome

    -- `build_stats`, which takes the pieces that were completed.
    abbrev pub emptied : Option (List ℕ) → Option (List ℕ)
    emptied none = none
    emptied (some pieces) = some []

    unfoldable pub build_stats : Task → Checked (TorrentStats × Task)
    unfolding thruput_stats
    build_stats t = do
      complete ← sub_checked t.torrent.storage.piece_count t.torrent.piece_picker.missing_count
      ret (
        record {
          start_time = t.start_time;
          run_duration = t.run_duration;
          pieces = record {
            total = t.torrent.storage.piece_count;
            pending = length t.torrent.downloads;
            complete = complete;
            latest_completed = t.torrent.completed_pieces;
          };
          thruput = thruput_stats t.torrent.counters;
          peers =
              if t.alert_peers
              then full (map peer_stats t.torrent.peers)
              else count (length t.torrent.peers);
        },
        record t {
          torrent = record t.torrent { completed_pieces = emptied t.torrent.completed_pieces };
        },
      )
