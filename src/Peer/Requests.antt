-- ===== src/Peer/Requests.antt =====
-- How a session downloads: `make_requests`, `handle_block_msg`, the timeout of requests, and what
-- frees or cancels them.
use cratetorrent.Prelude.{
  ℕ, ◌-◌, Bool, true, false, not, Option, none, some, List, [], ◌∷◌, leb, ◌==◌, if◌then◌else◌,
  length,
}
use cratetorrent.Prelude as Prelude
use cratetorrent.Block.{BlockInfo}
use cratetorrent.Download.{PieceDownload, BlockStatus, received_block}
use cratetorrent.Counter.{FloatApi}
use cratetorrent.Codec.{Message}
use cratetorrent.Codec.Id.{MessageId, header_len}
use cratetorrent.Session.{
  request_timeout, register_request_timeout, update_download_stats, record_waste,
}
use cratetorrent.Peer.{Torrent, write_block, insert, remove, lookup, insert_download}
use cratetorrent.Peer.Pipeline.{Filled, fill, free_blocks, count_protocol_up}
use cratetorrent.Peer.Effects.{
  Handler, pure, ◌>>=◌, ◌>>◌, get, modify, checked, when, with_ctx, send_msg, send_command,
}

-- `Vec::is_empty` and `HashSet::is_empty`.
abbrev pub is_empty {ℓ} : {A : Type ℓ} → List A → Bool
is_empty [] = true
is_empty (x ∷ xs) = false

-- `unwrap_or_default` of a number.
abbrev pub or_zero : Option ℕ → ℕ
or_zero none = 0
or_zero (some n) = n

abbrev pub is_received : BlockStatus → Bool
is_received BlockStatus.received = true
is_received _ = false

module _ ⦃api : FloatApi⦄ (t : Torrent) where
  -- The loop that makes the actual requests.
  unfoldable pub send_requests : List BlockInfo → Handler (Unit {0})
  send_requests [] = pure tt
  send_requests (req ∷ requests) = do
    modify (λ s. record s { outgoing_requests = insert s.outgoing_requests req })
    send_msg t (Message.request req)
    with_ctx (λ c. count_protocol_up c (header_len MessageId.request))
    send_requests requests

  -- What `make_requests` does once it has picked the blocks.
  unfoldable pub request_filled : ℕ → Option Filled → Handler (Unit {0})
  request_filled now none = pure tt
  request_filled now (some f) = do
    modify (λ s. record s { picker = f.picker; downloads = f.downloads })
    when (not (is_empty f.requests)) (do
      modify (λ s. record s { ctx = record s.ctx { last_outgoing_request_time = some now } })
      send_requests f.requests)

  unfoldable pub make_requests : ℕ → Handler (Unit {0})
  make_requests now = do
    s ← get
    if s.ctx.state.is_choked then pure tt else if not s.ctx.state.is_interested then pure tt else do
      filled ← checked (
          fill t.storage (or_zero s.ctx.target_request_queue_len) s.ctx.in_endgame
            s.outgoing_requests s.picker s.downloads)
      request_filled now filled

  unfoldable pub free_pending_blocks : Handler (Unit {0})
  free_pending_blocks = do
    s ← get
    downloads ← checked (free_blocks t.dev s.outgoing_requests s.downloads)
    modify (λ s. record s { outgoing_requests = []; downloads = downloads })

  -- The test of a request that was sent at `last`.
  unfoldable pub check_timeout_since : ℕ → Option ℕ → Handler (Unit {0})
  check_timeout_since now none = pure tt
  check_timeout_since now (some last) = do
    s ← get
    timeout ← checked (request_timeout s.ctx)
    when (not (leb (now - last) timeout))
        (do free_pending_blocks; with_ctx register_request_timeout; make_requests now)

  unfoldable pub check_request_timeout : ℕ → Handler (Unit {0})
  check_request_timeout now = do s ← get; check_timeout_since now s.ctx.last_outgoing_request_time

  -- A block that was received for a download.
  unfoldable pub handle_arrived_block :
      ℕ → BlockInfo → List ℕ → Option PieceDownload → Handler (Unit {0})
  handle_arrived_block now info bytes none = with_ctx (λ c. record_waste c info.len)
  handle_arrived_block now info bytes (some d) = do
    (d', prev_status) ← checked (received_block t.dev d info)
    modify (λ s. record s { downloads = insert_download s.downloads info.piece_index d' })
    if is_received prev_status then with_ctx (λ c. record_waste c info.len) else do
      with_ctx (λ c. update_download_stats c now info.len)
      send_command t (write_block info bytes)

  unfoldable pub handle_block_msg : ℕ → BlockInfo → List ℕ → Handler (Unit {0})
  handle_block_msg now info bytes = do
    modify (λ s. record s { outgoing_requests = remove s.outgoing_requests info })
    s ← get
    handle_arrived_block now info bytes (lookup s.downloads info.piece_index)

  -- The loop of `handle_piece_completion` over our pending requests.
  unfoldable pub cancel_requests : ℕ → List BlockInfo → Handler (Unit {0})
  cancel_requests piece_index [] = pure tt
  cancel_requests piece_index (b ∷ bs) = do
    when (b.piece_index == piece_index) (send_msg t (Message.cancel b))
    cancel_requests piece_index bs

  unfoldable pub handle_piece_completion : ℕ → Handler (Unit {0})
  handle_piece_completion piece_index = do
    s ← get
    has_piece ← checked (Prelude.index s.pieces piece_index)
    if not has_piece
        then send_msg t (Message.have piece_index)
        else cancel_requests piece_index s.outgoing_requests
