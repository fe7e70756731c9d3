-- ===== src/Torrent/Announces.antt =====
-- cratetorrent/src/torrent.rs: when a torrent asks its trackers, and what it does with their answers.
-- The answer of a tracker is an argument, since the request is one of the crate `reqwest`. The counts
-- and the warning of a response, which are only logged, are left out; its failure reason is only
-- logged, too.
pub mod Reasons
pub mod Visits
pub mod Kept
pub mod Tests
use cratetorrent.Prelude.{
  ℕ, zero, suc, ◌+◌, ◌-◌, max, Bool, true, false, not, ◌&&◌, ◌||◌, Option, none, some, List, [],
  ◌∷◌, ◌++◌, Checked, ret, panic, ◌>>=◌, ◌>>◌, add_bits, sub_checked, ltb, leb, if◌then◌else◌,
  length,
}
use cratetorrent.Download.{debug_assert}
use cratetorrent.Codec.Wire.{WireApi}
use cratetorrent.Tracker.{TrackerApi, Announce, Event, started, completed, stopped}

abbrev pub unwrap_or : Option ℕ → ℕ → ℕ
unwrap_or none n = n
unwrap_or (some m) n = m

abbrev pub or_else : {A : Type 0} → Option A → Option A → Option A
or_else none b = b
or_else (some a) b = some a

abbrev pub is_some : {A : Type 0} → Option A → Bool
is_some none = false
is_some (some a) = true

-- `needed_peer_count > Some(0)`, where `None` is less than every `Some`.
abbrev pub some_needed : Option ℕ → Bool
some_needed none = false
some_needed (some n) = ltb 0 n

abbrev pub is_stopped : Option Event → Bool
is_stopped (some stopped) = true
is_stopped _ = false

-- The fields of `TorrentConf` that the announces read.
pub record Conf : Type 0 where
  pub min_requested_peer_count : ℕ
  pub max_connected_peer_count : ℕ
  pub announce_interval : ℕ
  pub tracker_error_threshold : ℕ

-- Whether the time is past the interval after the last announce, if there was one.
abbrev pub is_past : Option ℕ → ℕ → ℕ → Bool
is_past none interval now = true
is_past (some last) interval now = ltb (last + interval) now

-- How many peers to ask for, when there are `peer_count`.
unfoldable pub needed_peers : Bool → Conf → ℕ → Option Event → Checked (Option ℕ)
needed_peers dev conf peer_count event =
    let needs : Checked (Option ℕ) = (do
      debug_assert dev (leb peer_count conf.max_connected_peer_count)
      needed ← sub_checked conf.max_connected_peer_count peer_count
      ret (some (max conf.min_requested_peer_count needed))) in
    if leb conf.min_requested_peer_count peer_count || is_stopped event then ret none else needs

module _ (w : WireApi) (api : TrackerApi) (Client : Type 0) where
  open api use {Text}

  pub record TrackerEntry : Type 0 where
    pub client : Client
    pub id : Option Text
    pub last_announce_time : Option ℕ
    pub interval : Option ℕ
    pub min_interval : Option ℕ
    pub error_count : ℕ

  -- `TrackerEntry::new`.
  unfoldable pub new_entry : Client → TrackerEntry
  new_entry client = record {
    client = client;
    id = none;
    last_announce_time = none;
    interval = none;
    min_interval = none;
    error_count = 0;
  }

  pub record Response : Type 0 where
    pub tracker_id : Option Text
    pub failure_reason : Option Text
    pub interval : Option ℕ
    pub min_interval : Option ℕ
    pub peers : List ℕ

  unfoldable pub should_announce : TrackerEntry → ℕ → ℕ → Bool
  should_announce e now default_interval =
      is_past e.last_announce_time (unwrap_or e.interval default_interval) now

  unfoldable pub can_announce : TrackerEntry → ℕ → ℕ → Bool
  can_announce e now default_interval =
      is_past e.last_announce_time
        (unwrap_or (or_else e.min_interval e.min_interval) default_interval) now

  -- Whether the tracker is asked now.
  unfoldable pub is_due : Conf → ℕ → Option Event → Option ℕ → TrackerEntry → Bool
  unfolding should_announce can_announce
  is_due conf now event needed t =
      is_some event
      || ((some_needed needed && can_announce t now conf.announce_interval)
          || should_announce t now conf.announce_interval)

  -- What a response changes in the entry.
  unfoldable pub take_response : TrackerEntry → Response → TrackerEntry
  take_response t r = record t {
    id = or_else r.tracker_id t.id;
    interval = or_else r.interval t.interval;
    min_interval = or_else r.min_interval t.min_interval;
  }

  -- What the announces leave: the trackers, the peers that one may connect to, and the requests.
  pub record Announced : Type 0 where
    pub trackers : List TrackerEntry
    pub available_peers : List ℕ
    pub requests : List (Client × Announce w api)

  -- The second is the early return of `?`, if the user's channel is closed.
  pub data Outcome : Type 0 where
    done : Announced → Outcome
    alert_failed : Announced → Outcome

  abbrev pub put_first : TrackerEntry → List (Client × Announce w api) → Announced → Announced
  put_first t sent a = record a { trackers = t ∷ a.trackers; requests = sent ++ a.requests }

  abbrev pub with_first : TrackerEntry → List (Client × Announce w api) → Outcome → Outcome
  with_first t sent (done a) = done (put_first t sent a)
  with_first t sent (alert_failed a) = alert_failed (put_first t sent a)

  abbrev pub keep_going :
      TrackerEntry → List (Client × Announce w api) → Checked Outcome → Checked Outcome
  keep_going t sent rest = do r ← rest; ret (with_first t sent r)

  -- One pass: what is the same for all trackers.
  pub record Pass : Type 0 where
    pub dev : Bool
    pub conf : Conf
    pub now : ℕ
    pub event : Option Event
    pub port : ℕ
    pub connected : ℕ
    pub uploaded : ℕ
    pub downloaded : ℕ
    pub alert_open : Bool
    pub answer : Client → Announce w api → Option Response

  abbrev pub params_of : Pass → ℕ → TrackerEntry → Option ℕ → Announce w api
  params_of p left t needed = record {
    port = p.port;
    ip = none;
    downloaded = p.downloaded;
    uploaded = p.uploaded;
    left = left;
    peer_count = needed;
    tracker_id = t.id;
    event = p.event;
  }

  -- After the request: `next` goes on with the other trackers `ts`, from the peers that it is given.
  unfoldable pub after_answer :
      Pass
      → TrackerEntry
      → List TrackerEntry
      → List ℕ
      → Announce w api
      → (List ℕ → Checked Outcome)
      → Option Response
      → Checked Outcome
  unfolding take_response
  after_answer p t ts available params next (some r) =
      keep_going (record (take_response t r) { last_announce_time = some p.now })
        ((t.client, params) ∷ []) (next (available ++ r.peers))
  after_answer p t ts available params next none = do
    error_count ← add_bits 64 t.error_count 1
    if p.alert_open
        then keep_going (record t { error_count = error_count; last_announce_time = some p.now })
            ((t.client, params) ∷ []) (next available)
        else ret (
            alert_failed (record {
              trackers = record t { error_count = error_count } ∷ ts;
              available_peers = available;
              requests = (t.client, params) ∷ [];
            }))

  unfoldable pub announce_loop : Pass → ℕ → List TrackerEntry → List ℕ → Checked Outcome
  unfolding is_due after_answer
  announce_loop p left [] available =
      ret (done (record { trackers = []; available_peers = available; requests = [] }))
  announce_loop p left (t ∷ ts) available =
      let skip = keep_going t [] (announce_loop p left ts available) in
      let ask : Option ℕ → Checked Outcome = λ needed.
        after_answer p t ts available (params_of p left t needed) (λ a. announce_loop p left ts a)
          (p.answer t.client (params_of p left t needed)) in
      let visit : Checked Outcome = (do
        needed ← needed_peers p.dev p.conf (p.connected + length available) p.event
        if is_due p.conf p.now p.event needed t then ask needed else skip) in
      if ltb t.error_count p.conf.tracker_error_threshold then visit else skip

  -- `announce_to_trackers`, for a download of so many bytes.
  unfoldable pub announce_to_trackers : Pass → ℕ → List TrackerEntry → List ℕ → Checked Outcome
  unfolding announce_loop
  announce_to_trackers p download_len trackers available = do
    left ← sub_checked download_len p.downloaded
    announce_loop p left trackers available
