-- ===== src/Peer/Downloading.antt =====
-- The handlers that download keep the invariant of a session.
use cratetorrent.Prelude.{
  ℕ, ◌≡◌, refl, sym, ap, ◌∙◌, inl, inr, true, false, not, Option, none, some, List, [], ◌∷◌,
  Checked, ret, panic, All, Bool-cases,
}
use cratetorrent.Block.{BlockInfo}
use cratetorrent.Counter.{FloatApi}
use cratetorrent.Codec.{Message}
use cratetorrent.Codec.Id.{MessageId, header_len}
use cratetorrent.Session.{SessionContext}
use cratetorrent.Peer.{Torrent, PeerSession, to_peer, io, insert}
use cratetorrent.Peer.Pipeline.{Filled, fill, count_protocol_up}
use cratetorrent.Peer.Effects.{then_do, checked}
use cratetorrent.Peer.Requests.{is_empty, or_zero, send_requests, request_filled, make_requests}
use cratetorrent.Peer.Valid.{IsBlockOf}
use cratetorrent.Peer.Sets.{All-insert}
use cratetorrent.Peer.Filling.{IsSized}
use cratetorrent.Peer.Filled.{Fills, fill_lem}
use cratetorrent.Peer.Orderly.{IsKept, IsSound-log, IsSound-shared}
use cratetorrent.Peer.Rules.{
  Keeps, IsKept-ctx, Runs-with_ctx, Runs-send, Keeps-when, count_protocol_up-KeepsState,
}

module _ ⦃api : FloatApi⦄ (t : Torrent) where
  -- The state in which requests are made.
  record IsAsking (s : PeerSession) : Type 0 where
    kept : IsKept t.storage s
    free_to_ask : s.ctx.state.is_choked ≡ false
    eager : s.ctx.state.is_interested ≡ true

  IsAsking-ctx :
      (s : PeerSession) (c : SessionContext)
      → c.state ≡ s.ctx.state
      → IsAsking s
      → IsAsking (record s { ctx = c })
  IsAsking-ctx s c e v = record {
    kept = IsKept-ctx t.storage s c e v.kept;
    free_to_ask = ap (λ st. st.is_choked) e ∙ v.free_to_ask;
    eager = ap (λ st. st.is_interested) e ∙ v.eager;
  }

  -- A request that is sent.
  IsAsking-request :
      (s : PeerSession) (b : BlockInfo)
      → IsBlockOf t.storage b
      → IsAsking s
      → IsAsking (record s {
        outgoing_requests = insert s.outgoing_requests b;
        log = to_peer (Message.request b) ∷ s.log;
      })
  IsAsking-request s b h v = record {
    kept = record {
      sound =
          let w =
            IsSound-log t.storage s (to_peer (Message.request b))
              (h, sym v.kept.agreed ∙ v.free_to_ask, v.kept.sound.interested v.eager)
              v.kept.sound in
          record {
            orderly = w.orderly;
            pending = w.pending;
            asked = All-insert _ s.outgoing_requests b w.asked (inl refl);
            unchoked = w.unchoked;
            interested = w.interested;
            idle = λ e. cc (e, v.free_to_ask);
            shared = w.shared;
            counted = w.counted;
            sized = w.sized;
          };
      agreed = v.kept.agreed;
    };
    free_to_ask = v.free_to_ask;
    eager = v.eager;
  }

  send_requests-Keeps :
      (requests : List BlockInfo) (s : PeerSession)
      → All (IsBlockOf t.storage) requests
      → IsAsking s
      → Keeps t.storage (send_requests t requests s)
  unfolding send_requests
  send_requests-Keeps [] s h v = v.kept
  send_requests-Keeps (b ∷ bs) s (h, hs) v =
      let w = IsAsking-request s b h v in
      Runs-send t.storage (λ u s'. IsKept t.storage s') t io (to_peer (Message.request b)) _ _
        w.kept
        (Runs-with_ctx t.storage (λ u s'. IsKept t.storage s')
          (λ c. count_protocol_up c (header_len MessageId.request)) _ _
          (count_protocol_up-KeepsState _ _)
          (λ c same. send_requests-Keeps bs _ hs (IsAsking-ctx _ c same w)))

  request_filled-Keeps :
      (now target : ℕ) (outgoing : List BlockInfo) (s : PeerSession) (filled : Option Filled)
      → Fills t.storage target outgoing (ret filled)
      → IsAsking s
      → Keeps t.storage (request_filled t now filled s)
  unfolding request_filled
  request_filled-Keeps now target outgoing s none h v = v.kept
  request_filled-Keeps now target outgoing s (some f) h v =
      let w : IsAsking (record s { picker = f.picker; downloads = f.downloads }) = record {
        kept = record {
          sound = IsSound-shared t.storage s f.picker f.downloads (h.0).shared v.kept.sound;
          agreed = v.kept.agreed;
        };
        free_to_ask = v.free_to_ask;
        eager = v.eager;
      } in
      Keeps-when t.storage (not (is_empty f.requests)) _ _ w.kept (λ e.
        send_requests-Keeps f.requests _ (h.0).blocks
          (IsAsking-ctx _ (record s.ctx { last_outgoing_request_time = some now }) refl w))

  pub make_requests-Keeps :
      (now : ℕ) (s : PeerSession)
      → IsSized t.storage
      → IsKept t.storage s
      → Keeps t.storage (make_requests t now s)
  unfolding make_requests
  make_requests-Keeps now s z v = elim (Bool-cases s.ctx.state.is_choked) [
    | inl c ↦ simp c v
    | inr c ↦ simp c (elim (Bool-cases s.ctx.state.is_interested) [
      | inr i ↦ simp i v
      | inl i ↦ simp i (
          go (fill t.storage target s.ctx.in_endgame s.outgoing_requests s.picker s.downloads)
            (fill_lem t.storage target s.ctx.in_endgame s.outgoing_requests s.picker s.downloads z
              v.sound.shared)
            (record { kept = v; free_to_ask = c; eager = i }))
    ])
  ]
    where
      target : ℕ
      target = or_zero s.ctx.target_request_queue_len

      go :
          (r : Checked (Option Filled))
          → Fills t.storage target s.outgoing_requests r
          → IsAsking s
          → Keeps t.storage (then_do (checked r s) (request_filled t now))
      go panic k w = tt
      go (ret f) k w = request_filled-Keeps now target s.outgoing_requests s f k w
