-- ===== src/Session/Tests.antt =====
-- A session that starts to download, and whose first requests time out.
use cratetorrent.Prelude.{ℕ, ◌+◌, ◌*◌, ◌/◌, ◌≡◌, refl, true, false, some, ret, ltb}
use cratetorrent.Counter.{FloatApi}
use cratetorrent.Session.{
  SessionState, SessionContext, default_context, update_state, prepare_for_download,
  register_request_timeout,
}
use cratetorrent.Session.Queue.{
  IsTarget, started, step, counted, connected, changed_state, prepared, timed_out, queue_lem,
}

instance abbrev naturals : FloatApi
naturals = record {
  Float = ℕ;
  of_u64 = λ n. n;
  plus = λ a b. a + b;
  times = λ a b. a * b;
  over = λ a b. a / b;
  greater = λ a b. ltb b a;
  round_u64 = λ n. n;
}

abbrev unchoke : SessionState → SessionState
unchoke s = record s { is_choked = false; is_interested = true }

-- A session that is connected, and has sent the 68 bytes of a handshake.
abbrev greeted : SessionContext
greeted = record default_context {
  connected_time = some 5;
  counters = record default_context.counters {
    protocol = record default_context.counters.protocol {
      up = record default_context.counters.protocol.up { total = 68; round = 68 };
    };
  };
}

abbrev unchoked : SessionContext
unchoked = update_state greeted unchoke

abbrev downloading : SessionContext
downloading = record unchoked { in_slow_start = true; target_request_queue_len = some 4 }

abbrev slowed : SessionContext
slowed = record downloading {
  target_request_queue_len = some 1;
  timed_out_request_count = 1;
  request_timed_out = true;
  in_slow_start = false;
  changed = true;
}

download_prepared : prepare_for_download unchoked ≡ ret downloading
unfolding prepare_for_download update_state default_context
download_prepared = refl

timeout_registered : register_request_timeout downloading ≡ ret slowed
unfolding register_request_timeout update_state default_context
timeout_registered = refl

queue_lem_example : IsTarget slowed.target_request_queue_len
queue_lem_example = queue_lem slowed (
    step
      (step
        (step (step (step started (connected default_context 5)) (counted _ greeted.counters))
          (changed_state greeted unchoke))
        (prepared download_prepared))
      (timed_out timeout_registered))
