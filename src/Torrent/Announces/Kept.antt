-- ===== src/Torrent/Announces/Kept.antt =====
-- No tracker's count of errors passes the threshold.
use cratetorrent.Prelude.{
  ℕ, ◌+◌, ◌≤◌, ◌<◌, ◌≡◌, arith, Bool, true, false, Option, none, some, List, [], ◌∷◌, ◌++◌, All,
  Checked, ret, panic, IfReturns, IfReturns-bind, IfReturns-after, add_bits, sub_checked, ◌^◌, refl,
  ltb, ltb→lt, if◌then◌else◌, length,
}
use cratetorrent.Codec.Wire.{WireApi}
use cratetorrent.Tracker.{TrackerApi, Announce}
use cratetorrent.Torrent.Announces.{
  TrackerEntry, Response, Outcome, done, alert_failed, Pass, Announced, keep_going, needed_peers,
  is_due, params_of, after_answer, announce_loop, announce_to_trackers, take_response,
}

module _ (w : WireApi) (api : TrackerApi) (Client : Type 0) where
  abbrev pub AllBelow : ℕ → List (TrackerEntry w api Client) → Type 0
  AllBelow threshold = All (λ t. t.error_count ≤ threshold)

  abbrev pub announced_of : Outcome w api Client → Announced w api Client
  announced_of (done a) = a
  announced_of (alert_failed a) = a

  abbrev Keeps : ℕ → Outcome w api Client → Type 0
  Keeps threshold o = AllBelow threshold (announced_of o).trackers

  keep_going-Keeps :
      (threshold : ℕ) (t : TrackerEntry w api Client) (sent : List (Client × Announce w api))
      → t.error_count ≤ threshold
      → (r : Checked (Outcome w api Client)) → IfReturns (Keeps threshold) r
      → IfReturns (Keeps threshold) (keep_going w api Client t sent r)
  keep_going-Keeps threshold t sent h panic k = tt
  keep_going-Keeps threshold t sent h (ret (done a)) k = (h, k)
  keep_going-Keeps threshold t sent h (ret (alert_failed a)) k = (h, k)

  IfReturns-if :
      {A : Type 0} (P : A → Type 0) (b : Bool) (x y : Checked A)
      → (b ≡ true → IfReturns P x)
      → (b ≡ false → IfReturns P y)
      → IfReturns P (if b then x else y)
  IfReturns-if P true x y h k = h refl
  IfReturns-if P false x y h k = k refl

  add_one : (n : ℕ) → IfReturns (λ m. m ≡ n + 1) (add_bits 64 n 1)
  add_one n =
      IfReturns-if (λ m. m ≡ n + 1) (ltb (n + 1) (2 ^ 64)) (ret (n + 1)) panic (λ _. refl) (λ _. tt)

  after_answer-Keeps :
      (threshold : ℕ) (p : Pass w api Client) (t : TrackerEntry w api Client)
      (ts : List (TrackerEntry w api Client))
      → (available : List ℕ) (params : Announce w api)
        (next : List ℕ → Checked (Outcome w api Client))
      → t.error_count < threshold
      → AllBelow threshold ts
      → ((a : List ℕ) → IfReturns (Keeps threshold) (next a))
      → (r : Option (Response w api Client))
      → IfReturns (Keeps threshold) (after_answer w api Client p t ts available params next r)
  unfolding after_answer take_response
  after_answer-Keeps threshold p t ts available params next h below k (some r) =
      keep_going-Keeps threshold _ ((t.client, params) ∷ []) (omega arith)
        (next (available ++ r.peers)) (k (available ++ r.peers))
  after_answer-Keeps threshold p t ts available params next h below k none =
      IfReturns-bind (λ m. m ≡ t.error_count + 1) (Keeps threshold) (add_bits 64 t.error_count 1) _
        (add_one t.error_count)
        λ n e.
          IfReturns-if (Keeps threshold) p.alert_open _ _
            (λ _.
              keep_going-Keeps threshold _ ((t.client, params) ∷ []) (omega arith) (next available)
                (k available))
            (λ _. (omega arith, below))

  loop-Keeps :
      (p : Pass w api Client) (left : ℕ) (ts : List (TrackerEntry w api Client))
      (available : List ℕ)
      → AllBelow p.conf.tracker_error_threshold ts
      → IfReturns
          (Keeps p.conf.tracker_error_threshold)
          (announce_loop w api Client p left ts available)
  unfolding announce_loop
  loop-Keeps p left [] available h = tt
  loop-Keeps p left (t ∷ ts) available (h, hs) =
      let threshold = p.conf.tracker_error_threshold in
      let skip = keep_going-Keeps threshold t [] h _ (loop-Keeps p left ts available hs) in
      IfReturns-if (Keeps threshold) (ltb t.error_count threshold) _ _
        (λ below.
          IfReturns-after (Keeps threshold)
            (needed_peers p.dev p.conf (p.connected + length available) p.event) _
            λ needed.
              IfReturns-if (Keeps threshold) (is_due w api Client p.conf p.now p.event needed t) _ _
                (λ _.
                  after_answer-Keeps threshold p t ts available
                    (params_of w api Client p left t needed)
                    (λ a. announce_loop w api Client p left ts a)
                    (ltb→lt t.error_count threshold below) hs (λ a. loop-Keeps p left ts a hs)
                    (p.answer t.client (params_of w api Client p left t needed)))
                (λ _. skip))
        (λ _. skip)

  pub announce-Keeps :
      (p : Pass w api Client) (download_len : ℕ) (ts : List (TrackerEntry w api Client))
      (available : List ℕ)
      → AllBelow p.conf.tracker_error_threshold ts
      → IfReturns
          (λ o. AllBelow p.conf.tracker_error_threshold (announced_of o).trackers)
          (announce_to_trackers w api Client p download_len ts available)
  unfolding announce_to_trackers
  announce-Keeps p download_len ts available h =
      IfReturns-after (Keeps p.conf.tracker_error_threshold) (sub_checked download_len p.downloaded)
        _ λ left. loop-Keeps p left ts available h
