-- ===== src/Session/Queue.antt =====
-- The target of pending requests, over all that may happen in a session.
use cratetorrent.Prelude.{
  ℕ, ◌+◌, ◌-◌, ◌^◌, ◌<◌, ◌≡◌, subst, arith, inl, inr, Bool, true, false, not, Option, none, some,
  Checked, ret, ◌>>=◌, IfReturns, IfReturns-bind, IfReturns-after, Bool-cases, ltb, add_bits,
  assert, if◌then◌else◌,
}
use cratetorrent.Counter as Counter
use cratetorrent.Counter.{FloatApi, ThruputCounters}
use cratetorrent.Avg.{update_duration}
use cratetorrent.Session.{
  SessionState, SessionContext, default_context, recovers, register_request_timeout,
  prepare_for_download, update_state, update_download_stats, record_round_trip, count_payload_down,
  grow_queue, record_waste, update_upload_stats, maybe_exit_slow_start, rate_stalls, adjusted_queue,
  wanted_queue_len, update_target_request_queue_len, tick,
}

-- A target that asks for a block.
abbrev pub IsTarget : Option ℕ → Type 0
IsTarget none = Unit
IsTarget (some n) = 0 < n

module _ ⦃api : FloatApi⦄ where
  -- What happens to the context of a session: the methods of the context, and the fields that the
  -- session sets itself. The counters it changes there are those of the protocol, to any value here.
  pub data Step : SessionContext → SessionContext → Type 0 where
    requested :
        (c : SessionContext) (now : ℕ) → Step c (record c { last_outgoing_request_time = some now })
    changed_state :
        (c : SessionContext) (f : SessionState → SessionState) → Step c (update_state c f)
    counted :
        (c : SessionContext) (counters : ThruputCounters api)
        → Step c (record c { counters = counters })
    connected : (c : SessionContext) (now : ℕ) → Step c (record c { connected_time = some now })
    endgame_is :
        (c : SessionContext) (in_endgame : Bool) → Step c (record c { in_endgame = in_endgame })
    timed_out : {c c' : SessionContext} → register_request_timeout c ≡ ret c' → Step c c'
    prepared : {c c' : SessionContext} → prepare_for_download c ≡ ret c' → Step c c'
    downloaded :
        {c c' : SessionContext} (now len : ℕ) → update_download_stats c now len ≡ ret c' → Step c c'
    wasted : {c c' : SessionContext} (len : ℕ) → record_waste c len ≡ ret c' → Step c c'
    uploaded :
        {c c' : SessionContext} (now len : ℕ) → update_upload_stats c now len ≡ ret c' → Step c c'
    ticked : {c c' : SessionContext} → tick c ≡ ret c' → Step c c'

  pub data Reaches : SessionContext → Type 0 where
    started : Reaches default_context
    step : {c c' : SessionContext} → Reaches c → Step c c' → Reaches c'

  abbrev HasTarget : SessionContext → Type 0
  HasTarget c = IsTarget c.target_request_queue_len

  after {ℓ} :
      {A : Type ℓ} (m : Checked A) (f : A → Checked SessionContext)
      → ((a : A) → IfReturns HasTarget (f a))
      → IfReturns HasTarget (m >>= f)
  after = IfReturns-after HasTarget

  bind :
      (m : Checked SessionContext) (f : SessionContext → Checked SessionContext)
      → IfReturns HasTarget m
      → ((c : SessionContext) → HasTarget c → IfReturns HasTarget (f c))
      → IfReturns HasTarget (m >>= f)
  bind = IfReturns-bind HasTarget HasTarget

  either :
      (b : Bool) (r q : Checked SessionContext)
      → IfReturns HasTarget r
      → IfReturns HasTarget q
      → IfReturns HasTarget (if b then r else q)
  either true r q h k = h
  either false r q h k = k

  grow_queue-IsTarget : (b : Bool) (q : Option ℕ) → IsTarget q → IfReturns IsTarget (grow_queue b q)
  grow_queue-IsTarget true (some n) h =
      IfReturns-bind (λ m. 0 < m) IsTarget (add_bits 64 n 1) _ positive (λ m p. p)
    where
      positive : IfReturns (λ m. 0 < m) (add_bits 64 n 1)
      positive = elim (Bool-cases (ltb (n + 1) (2 ^ 64))) [
        | inl l ↦ rw l (omega arith)
        | inr l ↦ rw l tt
      ]
  grow_queue-IsTarget true none h = h
  grow_queue-IsTarget false none h = h
  grow_queue-IsTarget false (some n) h = h

  record_round_trip-HasTarget :
      (c : SessionContext) (now : ℕ) (last : Option ℕ)
      → HasTarget c
      → IfReturns HasTarget (record_round_trip c now last)
  record_round_trip-HasTarget c now none h = h
  record_round_trip-HasTarget c now (some last) h =
      after (recovers c (now - last)) _
        (λ timeout. after (update_duration c.avg_request_rtt (now - last)) _ (λ avg. h))

  update_download_stats-HasTarget :
      (c : SessionContext) (now len : ℕ)
      → HasTarget c
      → IfReturns HasTarget (update_download_stats c now len)
  unfolding update_download_stats
  update_download_stats-HasTarget c now len h =
      bind (record_round_trip c now c.last_outgoing_request_time) _
        (record_round_trip-HasTarget c now c.last_outgoing_request_time h)
        (λ c1 h1.
          bind (count_payload_down c1 len) _
            (after (Counter.add api c1.counters.payload.down len) _ (λ down. h1))
            (λ c2 h2.
              IfReturns-bind IsTarget HasTarget
                (grow_queue c2.in_slow_start c2.target_request_queue_len) _
                (grow_queue-IsTarget c2.in_slow_start c2.target_request_queue_len h2)
                (λ queue q. q)))

  adjusted_queue-IsTarget :
      (c : SessionContext) (q : Option ℕ) → IfReturns IsTarget (adjusted_queue c q)
  adjusted_queue-IsTarget c none = tt
  adjusted_queue-IsTarget c (some n) =
      IfReturns-after IsTarget (wanted_queue_len c n) _ (λ m. at_least_one m)
    where
      at_least_one : (m : ℕ) → 0 < (if ltb m 1 then 1 else m)
      at_least_one m = ground arith

  tick-HasTarget : (c : SessionContext) → HasTarget c → IfReturns HasTarget (tick c)
  unfolding tick maybe_exit_slow_start update_target_request_queue_len
  tick-HasTarget c h =
      bind (maybe_exit_slow_start c) _
        (either _ _ (ret c) (after (rate_stalls c) _ (λ stalls. same stalls)) h)
        (λ c1 h1.
          bind (adjust c1) _
            (either c1.request_timed_out _ _ h1 (
              IfReturns-bind IsTarget HasTarget
                (adjusted_queue (rotated c1) c1.target_request_queue_len) _
                (adjusted_queue-IsTarget (rotated c1) c1.target_request_queue_len) (λ queue q. q)))
            (λ c3 h3. h3))
    where
      same : (b : Bool) → HasTarget (if b then record c { in_slow_start = false } else c)
      same true = h
      same false = h

      rotated : SessionContext → SessionContext
      rotated c1 = record c1 { counters = Counter.reset_all api c1.counters }

      adjust : SessionContext → Checked SessionContext
      adjust c1 =
          if c1.request_timed_out
          then ret (rotated c1)
          else update_target_request_queue_len (rotated c1)

  Step-HasTarget : (c c' : SessionContext) → HasTarget c → Step c c' → HasTarget c'
  unfolding register_request_timeout prepare_for_download record_waste update_upload_stats
      update_state
  Step-HasTarget c _ h (requested _ now) = h
  Step-HasTarget c _ h (changed_state _ f) = h
  Step-HasTarget c _ h (counted _ counters) = h
  Step-HasTarget c _ h (connected _ now) = h
  Step-HasTarget c _ h (endgame_is _ in_endgame) = h
  Step-HasTarget c c' h (timed_out e) =
      subst (IfReturns HasTarget) e
        (after (add_bits 64 c.timed_out_request_count 1) _ (λ count. omega arith))
  Step-HasTarget c c' h (prepared e) = subst (IfReturns HasTarget) e (
      after (assert c.state.is_interested) _
        (λ u. after (assert (not c.state.is_choked)) _ (λ v. omega arith)))
  Step-HasTarget c c' h (downloaded now len e) =
      subst (IfReturns HasTarget) e (update_download_stats-HasTarget c now len h)
  Step-HasTarget c c' h (wasted len e) =
      subst (IfReturns HasTarget) e (after (Counter.add api c.counters.waste len) _ (λ waste. h))
  Step-HasTarget c c' h (uploaded now len e) =
      subst (IfReturns HasTarget) e (after (Counter.add api c.counters.payload.up len) _ (λ up. h))
  Step-HasTarget c c' h (ticked e) = subst (IfReturns HasTarget) e (tick-HasTarget c h)

  -- Whatever a session does to its context, by the context's methods or by setting its counters, its
  -- times of connection and of the last request or its endgame mode, in any order from its start on:
  -- the target of pending requests, once it is set, asks for one block at least.
  pub queue_lem : (c : SessionContext) → Reaches c → IsTarget c.target_request_queue_len
  unfolding default_context
  queue_lem _ started = tt
  queue_lem _ (step {c = c} {c' = c'} r s) = Step-HasTarget c c' (queue_lem c r) s
