-- ===== src/Session.antt =====
-- cratetorrent/src/peer/state.rs: the state of a peer session. An `Instant` and a `Duration` are
-- numbers of nanoseconds, and the time of a call is an argument. The log target is left out.
pub mod State
pub mod Queue
mod Tests
use cratetorrent.Prelude.{
  ℕ, ◌+◌, ◌-◌, ◌*◌, ◌/◌, ◌^◌, max, Bool, true, false, not, ◌&&◌, Option, none, some, Checked, ret,
  panic, ◌>>=◌, ◌>>◌, assert, add_bits, ltb, leb, if◌then◌else◌,
}
use cratetorrent.Block.{full_block_len}
use cratetorrent.Counter as Counter
use cratetorrent.Counter.{FloatApi, ThruputCounters}
use cratetorrent.Avg as Avg
use cratetorrent.Avg.{SlidingAvg}

pub data ConnectionState : Type 0 where
  disconnected connecting handshaking availability_exchange connected : ConnectionState

pub record SessionState : Type 0 where
  pub connection : ConnectionState
  pub is_choked : Bool
  pub is_interested : Bool
  pub is_peer_choked : Bool
  pub is_peer_interested : Bool

abbrev pub default_state : SessionState
default_state = record {
  connection = disconnected;
  is_choked = true;
  is_interested = false;
  is_peer_choked = true;
  is_peer_interested = false;
}

abbrev pub slow_start_error_margin : ℕ
slow_start_error_margin = 10000

abbrev pub start_request_queue_len : ℕ
start_request_queue_len = 4

-- Two seconds.
abbrev pub min_timeout : ℕ
min_timeout = 2_000_000_000

abbrev pub is_some {ℓ} : {A : Type ℓ} → Option A → Bool
is_some none = false
is_some (some a) = true

module _ ⦃api : FloatApi⦄ where
  pub record SessionContext : Type 0 where
    pub state : SessionState
    pub counters : ThruputCounters api
    pub changed : Bool
    pub in_slow_start : Bool
    pub in_endgame : Bool
    pub target_request_queue_len : Option ℕ
    pub last_outgoing_request_time : Option ℕ
    pub last_incoming_block_time : Option ℕ
    pub last_outgoing_block_time : Option ℕ
    pub avg_request_rtt : SlidingAvg
    pub request_timed_out : Bool
    pub timed_out_request_count : ℕ
    pub connected_time : Option ℕ

  -- `SessionContext::default()`.
  unfoldable pub default_context : SessionContext
  default_context = record {
    state = default_state;
    counters = Counter.default_counters api;
    changed = false;
    in_slow_start = false;
    in_endgame = false;
    target_request_queue_len = none;
    last_outgoing_request_time = none;
    last_incoming_block_time = none;
    last_outgoing_block_time = none;
    avg_request_rtt = Avg.new 20;
    request_timed_out = false;
    timed_out_request_count = 0;
    connected_time = none;
  }

  unfoldable pub request_timeout : SessionContext → Checked ℕ
  request_timeout c = do
    mean ← Avg.mean_duration c.avg_request_rtt
    deviation ← Avg.deviation_duration c.avg_request_rtt
    ret (max (mean + 4 * deviation) min_timeout)

  unfoldable pub register_request_timeout : SessionContext → Checked SessionContext
  register_request_timeout c = do
    count ← add_bits 64 c.timed_out_request_count 1
    ret (record c {
      target_request_queue_len = some 1;
      timed_out_request_count = count;
      request_timed_out = true;
      in_slow_start = false;
      changed = true;
    })

  unfoldable pub prepare_for_download : SessionContext → Checked SessionContext
  prepare_for_download c = do
    assert c.state.is_interested
    assert (not c.state.is_choked)
    ret (record c { in_slow_start = true; target_request_queue_len = some start_request_queue_len })

  unfoldable pub update_state : SessionContext → (SessionState → SessionState) → SessionContext
  update_state c f = record c { state = f c.state; changed = true }

  unfoldable pub set_connection_state : SessionContext → ConnectionState → SessionContext
  set_connection_state c s = record c { state = record c.state { connection = s }; changed = true }

  abbrev pub count_payload_down : SessionContext → ℕ → Checked SessionContext
  count_payload_down c bytes = do
    down ← Counter.add api c.counters.payload.down bytes
    ret (record c {
      counters = record c.counters { payload = record c.counters.payload { down = down } };
    })

  -- Whether a block that arrives in time ends a timeout.
  abbrev pub recovers : SessionContext → ℕ → Checked Bool
  recovers c elapsed =
      let in_time : Checked Bool = (do timeout ← request_timeout c; ret (leb elapsed timeout)) in
      if c.request_timed_out then in_time else ret false

  -- The request's round trip, if a request was ever sent.
  abbrev pub record_round_trip : SessionContext → ℕ → Option ℕ → Checked SessionContext
  record_round_trip c now none = ret c
  record_round_trip c now (some last) = do
    recovered ← recovers c (now - last)
    avg ← Avg.update_duration c.avg_request_rtt (now - last)
    ret (record c {
      request_timed_out = c.request_timed_out && not recovered;
      avg_request_rtt = avg;
    })

  -- One more request in slow start, if there is a queue.
  abbrev pub grow_queue : Bool → Option ℕ → Checked (Option ℕ)
  grow_queue true (some n) = do n' ← add_bits 64 n 1; ret (some n')
  grow_queue _ queue = ret queue

  unfoldable pub update_download_stats : SessionContext → ℕ → ℕ → Checked SessionContext
  update_download_stats c now block_len = do
    c1 ← record_round_trip c now c.last_outgoing_request_time
    c2 ← count_payload_down c1 block_len
    queue ← grow_queue c2.in_slow_start c2.target_request_queue_len
    ret (record c2 {
      last_incoming_block_time = some now;
      target_request_queue_len = queue;
      changed = true;
    })

  unfoldable pub record_waste : SessionContext → ℕ → Checked SessionContext
  record_waste c block_len = do
    waste ← Counter.add api c.counters.waste block_len
    ret (record c { counters = record c.counters { waste = waste }; changed = true })

  unfoldable pub update_upload_stats : SessionContext → ℕ → ℕ → Checked SessionContext
  update_upload_stats c now block_len = do
    up ← Counter.add api c.counters.payload.up block_len
    ret (record c {
      last_outgoing_block_time = some now;
      counters = record c.counters { payload = record c.counters.payload { up = up } };
      changed = true;
    })

  -- The comparison of the rates; the sum is made only if the conditions before it hold.
  abbrev pub rate_stalls : SessionContext → Checked Bool
  rate_stalls c = do
    limit ← add_bits 64 c.counters.payload.down.round slow_start_error_margin
    ret (ltb limit (Counter.avg_rounded api c.counters.payload.down))

  unfoldable pub maybe_exit_slow_start : SessionContext → Checked SessionContext
  maybe_exit_slow_start c =
      let stalled : Checked SessionContext = (do
        stalls ← rate_stalls c
        ret (if stalls then record c { in_slow_start = false } else c)) in
      if not c.state.is_choked
        && (c.in_slow_start
            && (is_some c.target_request_queue_len && ltb 0 c.counters.payload.down.round))
      then stalled
      else ret c

  -- The length that the download rate asks for, rounded up, out of slow start.
  abbrev pub wanted_queue_len : SessionContext → ℕ → Checked ℕ
  wanted_queue_len c n =
      let by_rate : Checked ℕ = (do
        rate ← add_bits 64 (Counter.avg_rounded api c.counters.payload.down) (full_block_len - 1)
        ret (rate / full_block_len)) in
      if c.in_slow_start then ret n else by_rate

  abbrev pub adjusted_queue : SessionContext → Option ℕ → Checked (Option ℕ)
  adjusted_queue c none = ret none
  adjusted_queue c (some n) = do n' ← wanted_queue_len c n; ret (some (if ltb n' 1 then 1 else n'))

  unfoldable pub update_target_request_queue_len : SessionContext → Checked SessionContext
  update_target_request_queue_len c = do
    queue ← adjusted_queue c c.target_request_queue_len
    ret (record c { target_request_queue_len = queue })

  unfoldable pub tick : SessionContext → Checked SessionContext
  tick c = do
    c1 ← maybe_exit_slow_start c
    let c2 = record c1 { counters = Counter.reset_all api c1.counters }
    let adjusted = update_target_request_queue_len c2
    c3 ← if c2.request_timed_out then ret c2 else adjusted
    ret (record c3 { changed = false })
