-- ===== src/Session/State.antt =====
-- No statistic of a session changes what the session and its peer have agreed on.
use cratetorrent.Prelude.{
  ℕ, ◌-◌, ◌≡◌, refl, Bool, true, false, not, Option, none, some, Checked, ret, ◌>>=◌, IfReturns,
  IfReturns-bind, IfReturns-after, add_bits, assert, if◌then◌else◌,
}
use cratetorrent.Counter as Counter
use cratetorrent.Counter.{FloatApi}
use cratetorrent.Avg.{update_duration}
use cratetorrent.Session.{
  SessionContext, recovers, record_round_trip, count_payload_down, grow_queue,
  update_download_stats, record_waste, update_upload_stats, register_request_timeout,
  prepare_for_download, maybe_exit_slow_start, rate_stalls, update_target_request_queue_len,
  adjusted_queue, tick,
}

module _ ⦃api : FloatApi⦄ where
  -- The context, if it is returned, has the state of the one before.
  abbrev pub KeepsState : SessionContext → Checked SessionContext → Type 0
  KeepsState c = IfReturns (λ c'. c'.state ≡ c.state)

  after {ℓ} :
      {A : Type ℓ} (c : SessionContext) (m : Checked A) (f : A → Checked SessionContext)
      → ((a : A) → KeepsState c (f a))
      → KeepsState c (m >>= f)
  after c = IfReturns-after (λ c'. c'.state ≡ c.state)

  bind :
      (c : SessionContext) (m : Checked SessionContext)
      (f : SessionContext → Checked SessionContext)
      → KeepsState c m
      → ((c' : SessionContext) → c'.state ≡ c.state → KeepsState c (f c'))
      → KeepsState c (m >>= f)
  bind c = IfReturns-bind (λ c'. c'.state ≡ c.state) (λ c'. c'.state ≡ c.state)

  either :
      (c : SessionContext) (b : Bool) (r q : Checked SessionContext)
      → KeepsState c r
      → KeepsState c q
      → KeepsState c (if b then r else q)
  either c true r q h k = h
  either c false r q h k = k

  record_round_trip-KeepsState :
      (c : SessionContext) (now : ℕ) (last : Option ℕ) → KeepsState c (record_round_trip c now last)
  record_round_trip-KeepsState c now none = refl
  record_round_trip-KeepsState c now (some last) =
      after c (recovers c (now - last)) _
        (λ timeout. after c (update_duration c.avg_request_rtt (now - last)) _ (λ avg. refl))

  pub update_download_stats-KeepsState :
      (c : SessionContext) (now len : ℕ) → KeepsState c (update_download_stats c now len)
  unfolding update_download_stats
  update_download_stats-KeepsState c now len =
      bind c (record_round_trip c now c.last_outgoing_request_time) _
        (record_round_trip-KeepsState c now c.last_outgoing_request_time)
        (λ c1 e.
          bind c (count_payload_down c1 len) _
            (after c (Counter.add api c1.counters.payload.down len) _ (λ down. e))
            (λ c2 e2.
              after c (grow_queue c2.in_slow_start c2.target_request_queue_len) _ (λ queue. e2)))

  pub record_waste-KeepsState : (c : SessionContext) (len : ℕ) → KeepsState c (record_waste c len)
  unfolding record_waste
  record_waste-KeepsState c len = after c (Counter.add api c.counters.waste len) _ (λ waste. refl)

  pub update_upload_stats-KeepsState :
      (c : SessionContext) (now len : ℕ) → KeepsState c (update_upload_stats c now len)
  unfolding update_upload_stats
  update_upload_stats-KeepsState c now len =
      after c (Counter.add api c.counters.payload.up len) _ (λ up. refl)

  pub register_request_timeout-KeepsState :
      (c : SessionContext) → KeepsState c (register_request_timeout c)
  unfolding register_request_timeout
  register_request_timeout-KeepsState c =
      after c (add_bits 64 c.timed_out_request_count 1) _ (λ count. refl)

  pub prepare_for_download-KeepsState : (c : SessionContext) → KeepsState c (prepare_for_download c)
  unfolding prepare_for_download
  prepare_for_download-KeepsState c =
      after c (assert c.state.is_interested) _
        (λ u. after c (assert (not c.state.is_choked)) _ (λ v. refl))

  maybe_exit_slow_start-KeepsState : (c : SessionContext) → KeepsState c (maybe_exit_slow_start c)
  unfolding maybe_exit_slow_start
  maybe_exit_slow_start-KeepsState c = either c _ _ (ret c) (after c (rate_stalls c) _ by_case) refl
    where
      by_case : (b : Bool) → (if b then record c { in_slow_start = false } else c).state ≡ c.state
      by_case true = refl
      by_case false = refl

  pub tick-KeepsState : (c : SessionContext) → KeepsState c (tick c)
  unfolding tick update_target_request_queue_len
  tick-KeepsState c =
      bind c (maybe_exit_slow_start c) _ (maybe_exit_slow_start-KeepsState c) (λ c1 e.
        bind c (adjust c1) _
          (either c c1.request_timed_out _ _ e
            (after c (adjusted_queue (rotated c1) c1.target_request_queue_len) _ (λ queue. e)))
          (λ c3 e3. e3))
    where
      rotated : SessionContext → SessionContext
      rotated c1 = record c1 { counters = Counter.reset_all api c1.counters }

      adjust : SessionContext → Checked SessionContext
      adjust c1 =
          if c1.request_timed_out
          then ret (rotated c1)
          else update_target_request_queue_len (rotated c1)
