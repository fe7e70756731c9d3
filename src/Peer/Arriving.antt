-- ===== src/Peer/Arriving.antt =====
-- The handlers of a block that arrives, of a timeout and of a completed piece keep the invariant of a
-- session.
use cratetorrent.Prelude.{
  ℕ, ◌-◌, ◌≡◌, refl, sym, ap, subst, ◌∙◌, arith, inl, inr, Bool, true, false, not, Option, none,
  some, List, [], ◌∷◌, Checked, ret, panic, IfReturns, All, Bool-cases, leb, ◌==◌, if◌then◌else◌,
  length,
}
use cratetorrent.Prelude as Prelude
use cratetorrent.Block.{BlockInfo}
use cratetorrent.Storage.{StorageInfo}
use cratetorrent.Download.{PieceDownload, BlockStatus, received_block}
use cratetorrent.PiecePicker.{PiecePicker}
use cratetorrent.Counter.{FloatApi}
use cratetorrent.Codec.{Message}
use cratetorrent.Session.{
  request_timeout, register_request_timeout, update_download_stats, record_waste,
}
use cratetorrent.Session.State.{
  update_download_stats-KeepsState, record_waste-KeepsState, register_request_timeout-KeepsState,
}
use cratetorrent.Peer.{
  Torrent, PeerSession, received, to_peer, write_block, block_info, channel, io, lookup,
  insert_download, Downloads,
}
use cratetorrent.Peer.Pipeline.{free_blocks}
use cratetorrent.Peer.Effects.{
  Handler, ◌>>◌, then_do, modify, checked, with_ctx, send_msg, send_command,
}
use cratetorrent.Peer.Requests.{
  is_received, free_pending_blocks, check_timeout_since, check_request_timeout,
  handle_arrived_block, handle_block_msg, cancel_requests, handle_piece_completion,
}
use cratetorrent.Peer.Filling.{
  IsSized, IsShared, AreDownloads, IsDownloadOf, lookup-IsDownloadOf, insert_download-AreDownloads,
}
use cratetorrent.Peer.Freed.{received_block-IsDownloadOf, free_blocks-AreDownloads}
use cratetorrent.Peer.Orderly.{Happened, IsKept, IsSound-shared, IsSound-answered, IsSound-freed}
use cratetorrent.Peer.Rules.{
  Runs, Keeps, Runs-checked, IsKept-ctx, IsKept-log, Runs-with_ctx, Keeps-with_ctx, Runs-send,
  Keeps-send, Keeps-when,
}
use cratetorrent.Peer.Downloading.{make_requests-Keeps}

-- The same picker with other downloads.
IsShared-downloads :
    (storage : StorageInfo) (picker : PiecePicker) (ds ds' : Downloads)
    → IsShared storage picker ds
    → AreDownloads storage ds'
    → IsShared storage picker ds'
IsShared-downloads storage picker ds ds' v h = record {
  picking = v.picking;
  same_count = v.same_count;
  downloading = h;
}

module _ ⦃api : FloatApi⦄ (t : Torrent) where
  -- A handler that goes on after the pending requests are freed.
  pub Runs-free_pending_blocks :
      {B : Type 0} (R : B → PeerSession → Type 0) (s : PeerSession) (k : Unit {0} → Handler B)
      → IsShared t.storage s.picker s.downloads
      → ((ds : Downloads)
          → IsShared t.storage s.picker ds
          → Runs t.storage R (k tt (record s { outgoing_requests = []; downloads = ds })))
      → Runs t.storage R (then_do (free_pending_blocks t s) k)
  unfolding free_pending_blocks
  Runs-free_pending_blocks R s k v next =
      go (free_blocks t.dev s.outgoing_requests s.downloads)
        (free_blocks-AreDownloads t.storage t.dev s.outgoing_requests s.downloads v.downloading)
    where
      go :
          (r : Checked Downloads)
          → IfReturns (AreDownloads t.storage) r
          → Runs t.storage R (
              then_do
                (then_do
                  (checked r s)
                  (λ ds. modify (λ s'. record s' { outgoing_requests = []; downloads = ds })))
                k)
      go (ret ds) h = next ds (IsShared-downloads t.storage s.picker s.downloads ds v h)
      go panic h = tt

  pub IsKept-freed :
      (s : PeerSession) (ds : Downloads)
      → IsShared t.storage s.picker ds
      → IsKept t.storage s
      → IsKept t.storage (record s { outgoing_requests = []; downloads = ds })
  IsKept-freed s ds h v = record {
    sound = IsSound-freed t.storage s ds h v.sound;
    agreed = v.agreed;
  }

  pub check_request_timeout-Keeps :
      (now : ℕ) (s : PeerSession)
      → IsSized t.storage
      → IsKept t.storage s
      → Keeps t.storage (check_request_timeout t now s)
  unfolding check_request_timeout check_timeout_since
  check_request_timeout-Keeps now s z v = go s.ctx.last_outgoing_request_time
    where
      go : (last : Option ℕ) → Keeps t.storage (check_timeout_since t now last s)
      go none = v
      go (some last) =
          Runs-checked t.storage (λ _. Unit {0}) (λ u s'. IsKept t.storage s')
            (request_timeout s.ctx) s _ (anything (request_timeout s.ctx))
            (λ timeout _. Keeps-when t.storage (not (leb (now - last) timeout)) _ s v (λ e.
              Runs-free_pending_blocks (λ u s'. IsKept t.storage s') s _ v.sound.shared
                (λ ds h.
                  Runs-with_ctx t.storage (λ u s'. IsKept t.storage s') register_request_timeout _ _
                    (register_request_timeout-KeepsState s.ctx)
                    (λ c same.
                      make_requests-Keeps t now _ z
                        (IsKept-ctx t.storage _ c same (IsKept-freed s ds h v))))))
        where
          anything : (r : Checked ℕ) → IfReturns (λ _. Unit {0}) r
          anything (ret n) = tt
          anything panic = tt

  -- A block of the message that was received last, for the download that it is of.
  handle_arrived_block-Keeps :
      (now p o : ℕ) (bytes : List ℕ) (d : Option PieceDownload) (s : PeerSession)
      → Happened s.log (received (Message.block p o bytes))
      → lookup s.downloads p ≡ d
      → IsKept t.storage s
      → Keeps t.storage (handle_arrived_block t now (block_info p o bytes) bytes d s)
  unfolding handle_arrived_block
  handle_arrived_block-Keeps now p o bytes none s h e v =
      let info = block_info p o bytes in
      Keeps-with_ctx t.storage (λ c. record_waste c info.len) s
        (record_waste-KeepsState s.ctx info.len) v
  handle_arrived_block-Keeps now p o bytes (some d) s h e v =
      let info = block_info p o bytes in
      Runs-checked t.storage (λ r. IsDownloadOf t.storage p (r.0)) (λ u s'. IsKept t.storage s')
        (received_block t.dev d info) s _
        (received_block-IsDownloadOf t.storage p t.dev d info
          (lookup-IsDownloadOf t.storage s.downloads p d v.sound.shared.downloading e))
        (λ r k. arrived (r.1) (r.0) k)
    where
      arrived :
          (prev : BlockStatus) (d' : PieceDownload)
          → IsDownloadOf t.storage p d'
          → Keeps t.storage (
              (if is_received prev
                  then with_ctx (λ c. record_waste c (block_info p o bytes).len)
                  else with_ctx (λ c. update_download_stats c now (block_info p o bytes).len)
                    >> send_command t (write_block (block_info p o bytes) bytes))
                (record s { downloads = insert_download s.downloads p d' }))
      arrived prev d' k =
          let w : IsKept t.storage (record s { downloads = insert_download s.downloads p d' }) =
            record {
              sound =
                  IsSound-shared t.storage s s.picker (insert_download s.downloads p d')
                    (IsShared-downloads t.storage s.picker s.downloads _ v.sound.shared (
                      insert_download-AreDownloads t.storage s.downloads p d'
                        v.sound.shared.downloading k))
                    v.sound;
              agreed = v.agreed;
            } in
          elim (Bool-cases (is_received prev)) [
            | inl e ↦ rw e (
                Keeps-with_ctx t.storage (λ c. record_waste c (block_info p o bytes).len) _
                  (record_waste-KeepsState s.ctx _) w)
            | inr e ↦ rw e (
                Runs-with_ctx t.storage (λ u s'. IsKept t.storage s')
                  (λ c. update_download_stats c now (block_info p o bytes).len) _ _
                  (update_download_stats-KeepsState s.ctx now _)
                  (λ c same.
                    let w' = IsKept-ctx t.storage _ c same w in
                    Keeps-send t.storage t channel (write_block (block_info p o bytes) bytes) _
                      (IsKept-log t.storage _ _ refl (refl, h) w')))
          ]

  pub handle_block_msg-Keeps :
      (now p o : ℕ) (bytes : List ℕ) (s : PeerSession)
      → Happened s.log (received (Message.block p o bytes))
      → IsKept t.storage s
      → Keeps t.storage (handle_block_msg t now (block_info p o bytes) bytes s)
  unfolding handle_block_msg
  handle_block_msg-Keeps now p o bytes s h v =
      handle_arrived_block-Keeps now p o bytes (lookup s.downloads p) _ h refl (record {
        sound = IsSound-answered t.storage s (block_info p o bytes) v.sound;
        agreed = v.agreed;
      })

  cancel_requests-Keeps :
      (i : ℕ) (bs : List BlockInfo) (s : PeerSession)
      → IsKept t.storage s
      → Keeps t.storage (cancel_requests t i bs s)
  unfolding cancel_requests
  cancel_requests-Keeps i [] s v = v
  cancel_requests-Keeps i (b ∷ bs) s v = elim (Bool-cases (b.piece_index == i)) [
    | inl e ↦ rw e (
        let w = IsKept-log t.storage s (to_peer (Message.cancel b)) refl tt v in
        Runs-send t.storage (λ u s'. IsKept t.storage s') t io (to_peer (Message.cancel b)) s _ w
          (cancel_requests-Keeps i bs _ w))
    | inr e ↦ rw e (cancel_requests-Keeps i bs s v)
  ]

  pub handle_piece_completion-Keeps :
      (i : ℕ) (s : PeerSession)
      → IsKept t.storage s
      → Keeps t.storage (handle_piece_completion t i s)
  unfolding handle_piece_completion
  handle_piece_completion-Keeps i s v = go (Prelude.index s.pieces i)
    where
      go :
          (r : Checked Bool)
          → Keeps t.storage (
              then_do (checked r s) (λ has_piece.
                if not has_piece
                then send_msg t (Message.have i)
                else cancel_requests t i s.outgoing_requests))
      go (ret true) = cancel_requests-Keeps i s.outgoing_requests s v
      go (ret false) =
          Keeps-send t.storage t io (to_peer (Message.have i)) s
            (IsKept-log t.storage s (to_peer (Message.have i)) refl tt v)
      go panic = tt
