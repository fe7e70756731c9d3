-- ===== src/Peer/Answering.antt =====
-- The handlers of the peer's other messages keep the invariant of a session.
use cratetorrent.Prelude.{
  ℕ, ◌≡◌, refl, inl, inr, true, false, Option, none, some, List, ◌∷◌, Checked, ret, panic,
  Bool-cases,
}
use cratetorrent.Block.{BlockInfo}
use cratetorrent.Download.{contains}
use cratetorrent.Counter.{FloatApi}
use cratetorrent.Codec.{Message}
use cratetorrent.Session.{update_state, update_upload_stats}
use cratetorrent.Session.State.{update_upload_stats-KeepsState}
use cratetorrent.Peer.{
  PeerError, validate_block_info, Torrent, PeerSession, to_peer, read_block, block_info, channel,
  io, remove,
}
use cratetorrent.Peer.Effects.{◌>>◌, then_do, modify, checked, require}
use cratetorrent.Peer.Messages.{
  handle_valid_request, handle_request_msg, send_read_block, handle_interested,
  handle_not_interested, handle_cancel,
}
use cratetorrent.Peer.Valid.{IsBlockOf, Validates, validate_block_info_lem}
use cratetorrent.Peer.Sets.{All-contains}
use cratetorrent.Peer.Orderly.{Happened, IsKept, IsSound-log, IsSound-served}
use cratetorrent.Peer.Rules.{Keeps, IsKept-log, Keeps-with_ctx, Runs-send, Keeps-send, Keeps-when}

module _ ⦃api : FloatApi⦄ (t : Torrent) where
  -- A request of the peer, once it is noted and handed to the disk task.
  IsKept-requested :
      (s : PeerSession) (b : BlockInfo)
      → IsBlockOf t.storage b
      → s.ctx.state.is_peer_choked ≡ false
      → IsKept t.storage s
      → IsKept t.storage
          (record s { incoming_requests = b ∷ s.incoming_requests; log = read_block b ∷ s.log })
  IsKept-requested s b h c v =
      let w = IsSound-log t.storage s (read_block b) (h, v.sound.unchoked c) v.sound in
      record {
        sound = record {
          orderly = w.orderly;
          pending = (inl refl, w.pending);
          asked = w.asked;
          unchoked = w.unchoked;
          interested = w.interested;
          idle = w.idle;
          shared = w.shared;
          counted = w.counted;
          sized = w.sized;
        };
        agreed = v.agreed;
      }

  handle_valid_request-Keeps :
      (b : BlockInfo) (s : PeerSession)
      → IsBlockOf t.storage b
      → IsKept t.storage s
      → Keeps t.storage (handle_valid_request t b s)
  unfolding handle_valid_request
  handle_valid_request-Keeps b s h v = elim (Bool-cases s.ctx.state.is_peer_choked) [
    | inl c ↦ simp c v
    | inr c ↦ simp c (elim (Bool-cases (contains s.incoming_requests b)) [
      | inl d ↦ simp d v
      | inr d ↦ simp d (
          Keeps-send t.storage t channel (read_block b)
            (record s { incoming_requests = b ∷ s.incoming_requests }) (IsKept-requested s b h c v))
    ])
  ]

  pub handle_request_msg-Keeps :
      (b : BlockInfo) (s : PeerSession)
      → IsKept t.storage s
      → Keeps t.storage (handle_request_msg t b s)
  unfolding handle_request_msg
  handle_request_msg-Keeps b s v =
      go (validate_block_info t.storage b) (validate_block_info_lem t.storage b)
    where
      go :
          (r : Checked (Option PeerError))
          → Validates t.storage b r
          → Keeps t.storage (then_do (checked r s) (λ e. require e >> handle_valid_request t b))
      go panic w = tt
      go (ret none) w = handle_valid_request-Keeps b s w v
      go (ret (some e)) w = v

  IsKept-served :
      (b : BlockInfo) (s : PeerSession)
      → IsKept t.storage s
      → IsKept t.storage (record s { incoming_requests = remove s.incoming_requests b })
  IsKept-served b s v = record { sound = IsSound-served t.storage s b v.sound; agreed = v.agreed }

  pub handle_cancel-Keeps :
      (b : BlockInfo) (s : PeerSession) → IsKept t.storage s → Keeps t.storage (handle_cancel t b s)
  unfolding handle_cancel
  handle_cancel-Keeps b s v = go (validate_block_info t.storage b)
    where
      go :
          (r : Checked (Option PeerError))
          → Keeps t.storage (
              then_do (checked r s) (λ e.
                require e
                >> modify (λ s'. record s' { incoming_requests = remove s'.incoming_requests b })))
      go panic = tt
      go (ret none) = IsKept-served b s v
      go (ret (some e)) = v

  pub send_read_block-Keeps :
      (now p o : ℕ) (bytes : List ℕ) (s : PeerSession)
      → IsKept t.storage s
      → Keeps t.storage (send_read_block t now p o bytes s)
  unfolding send_read_block
  send_read_block-Keeps now p o bytes s v =
      let info = block_info p o bytes in
      let w = IsKept-served info s v in
      Keeps-when t.storage (contains s.incoming_requests info) _ _ w (λ c.
        let read =
          All-contains (λ b. Happened s.log (read_block b)) s.incoming_requests info v.sound.pending
            c in
        let sent = IsKept-log t.storage _ (to_peer (Message.block p o bytes)) refl read w in
        Runs-send t.storage (λ u s'. IsKept t.storage s') t io (to_peer (Message.block p o bytes)) _
          _ sent
          (Keeps-with_ctx t.storage (λ c'. update_upload_stats c' now info.len) _
            (update_upload_stats-KeepsState s.ctx now info.len) sent))

  -- The peer is unchoked, and told so.
  IsKept-unchoked :
      (s : PeerSession)
      → IsKept t.storage s
      → IsKept t.storage (record s {
        ctx =
            update_state s.ctx
              (λ state. record state { is_peer_interested = true; is_peer_choked = false });
        log = to_peer Message.unchoke ∷ s.log;
      })
  unfolding update_state
  IsKept-unchoked s v =
      let w = IsSound-log t.storage s (to_peer Message.unchoke) tt v.sound in
      record {
        sound = record {
          orderly = w.orderly;
          pending = w.pending;
          asked = w.asked;
          unchoked = λ e. inl refl;
          interested = w.interested;
          idle = w.idle;
          shared = w.shared;
          counted = w.counted;
          sized = w.sized;
        };
        agreed = v.agreed;
      }

  pub handle_interested-Keeps :
      (s : PeerSession) → IsKept t.storage s → Keeps t.storage (handle_interested t s)
  unfolding handle_interested
  handle_interested-Keeps s v = elim (Bool-cases s.ctx.state.is_peer_interested) [
    | inl e ↦ simp e v
    | inr e ↦ simp e (Keeps-send t.storage t io (to_peer Message.unchoke) _ (IsKept-unchoked s v))
  ]

  pub handle_not_interested-Keeps :
      (s : PeerSession) → IsKept t.storage s → Keeps t.storage (handle_not_interested t s)
  unfolding handle_not_interested update_state
  handle_not_interested-Keeps s v = elim (Bool-cases s.ctx.state.is_peer_interested) [
    | inr e ↦ simp e v
    | inl e ↦ simp e record {
      sound = record {
        orderly = v.sound.orderly;
        pending = v.sound.pending;
        asked = v.sound.asked;
        unchoked = v.sound.unchoked;
        interested = v.sound.interested;
        idle = v.sound.idle;
        shared = v.sound.shared;
        counted = v.sound.counted;
        sized = v.sound.sized;
      };
      agreed = v.agreed;
    }
  ]
