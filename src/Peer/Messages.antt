-- ===== src/Peer/Messages.antt =====
-- How a session answers the messages of its peer, and the blocks that are read for it.
use cratetorrent.Prelude.{
  ℕ, ◌+◌, ◌-◌, Bool, true, false, not, ◌&&◌, none, some, List, [], ◌∷◌, ◌++◌, ◌==◌, if◌then◌else◌,
  length, take, replicate, set, add_bits, assert,
}
use cratetorrent.Prelude as Prelude
use cratetorrent.Block.{BlockInfo}
use cratetorrent.Download.{contains, debug_assert}
use cratetorrent.Counter.{FloatApi}
use cratetorrent.PiecePicker.{register_peer_pieces, register_peer_piece}
use cratetorrent.Codec.{Message, protocol_len}
use cratetorrent.Codec.Id.{MessageId, header_len}
use cratetorrent.Session.{
  ConnectionState, SessionState, update_state, prepare_for_download, update_upload_stats,
}
use cratetorrent.Peer.{
  bitfield_not_after_handshake, request_while_choked, validate_piece_index, validate_block_info,
  Torrent, read_block, block_info, insert, remove,
}
use cratetorrent.Peer.Pipeline.{count_protocol_up, count_protocol_down}
use cratetorrent.Peer.Requests.{make_requests, free_pending_blocks, handle_block_msg}
use cratetorrent.Peer.Effects.{
  Handler, pure, ◌>>=◌, ◌>>◌, get, modify, fail, checked, require, when, with_ctx, send_msg,
  send_command,
}

-- `Bitfield::count_ones` and `Bitfield::resize`.
abbrev pub count_ones : List Bool → ℕ
count_ones [] = 0
count_ones (b ∷ bs) = (if b then 1 else 0) + count_ones bs

abbrev pub resize : List Bool → ℕ → List Bool
resize bits n = take n bits ++ replicate (n - length bits) false

abbrev pub is_availability_exchange : ConnectionState → Bool
is_availability_exchange ConnectionState.availability_exchange = true
is_availability_exchange _ = false

module _ ⦃api : FloatApi⦄ (t : Torrent) where
  abbrev pub set_state : (SessionState → SessionState) → Handler (Unit {0})
  set_state f = modify (λ s. record s { ctx = update_state s.ctx f })

  unfoldable pub update_interest : Bool → Handler (Unit {0})
  update_interest is_interested = do
    s ← get
    if not s.ctx.state.is_interested && is_interested
        then (do
          with_ctx (λ c. count_protocol_up c (header_len MessageId.interested))
          set_state (λ state. record state { is_interested = is_interested })
          send_msg t Message.interested)
        else when (s.ctx.state.is_interested && not is_interested)
            (set_state (λ state. record state { is_interested = is_interested }))

  unfoldable pub handle_bitfield_msg : List Bool → Handler (Unit {0})
  handle_bitfield_msg bitfield = do
    s ← get
    checked (debug_assert t.dev (is_availability_exchange s.ctx.state.connection))
    let pieces = resize bitfield t.storage.piece_count
    (picker, is_interested) ← checked (register_peer_pieces s.picker pieces)
    modify (λ s. record s { picker = picker; pieces = pieces; piece_count = count_ones pieces })
    update_interest is_interested

  -- A piece that the peer did not have before.
  unfoldable pub handle_new_piece : ℕ → Handler (Unit {0})
  handle_new_piece piece_index = do
    s ← get
    piece_count ← checked (add_bits 64 s.piece_count 1)
    (picker, is_interested) ← checked (register_peer_piece s.picker piece_index)
    modify (λ s. record s {
      picker = picker;
      pieces = set s.pieces piece_index true;
      piece_count = piece_count;
    })
    update_interest is_interested

  unfoldable pub handle_have_msg : ℕ → Handler (Unit {0})
  handle_have_msg piece_index = do
    require (validate_piece_index t.storage piece_index)
    s ← get
    has_piece ← checked (Prelude.index s.pieces piece_index)
    if has_piece then pure tt else handle_new_piece piece_index

  -- A request, once its block is valid.
  unfoldable pub handle_valid_request : BlockInfo → Handler (Unit {0})
  handle_valid_request info = do
    s ← get
    if s.ctx.state.is_peer_choked
        then fail request_while_choked
        else if contains s.incoming_requests info
        then pure tt
        else do
          modify (λ s. record s { incoming_requests = insert s.incoming_requests info })
          send_command t (read_block info)

  unfoldable pub handle_request_msg : BlockInfo → Handler (Unit {0})
  handle_request_msg info = do
    e ← checked (validate_block_info t.storage info)
    require e
    handle_valid_request info

  -- `PeerSession::send_block`, with the block that the disk task has read.
  unfoldable pub send_read_block : ℕ → ℕ → ℕ → List ℕ → Handler (Unit {0})
  send_read_block now piece_index offset bytes = do
    s ← get
    let info = block_info piece_index offset bytes
    modify (λ s. record s { incoming_requests = remove s.incoming_requests info })
    when (contains s.incoming_requests info) (do
      send_msg t (Message.block piece_index offset bytes)
      with_ctx (λ c. update_upload_stats c now info.len))

  -- The arms of `handle_msg` that change whether a side is choked or interested, and `Cancel`.
  unfoldable pub handle_choke : Handler (Unit {0})
  handle_choke = do
    s ← get
    when (not s.ctx.state.is_choked)
        (do free_pending_blocks t; set_state (λ state. record state { is_choked = true }))

  unfoldable pub handle_unchoke : ℕ → Handler (Unit {0})
  handle_unchoke now = do
    s ← get
    when s.ctx.state.is_choked (do
      set_state (λ state. record state { is_choked = false })
      when s.ctx.state.is_interested (do with_ctx prepare_for_download; make_requests t now))

  unfoldable pub handle_interested : Handler (Unit {0})
  handle_interested = do
    s ← get
    when (not s.ctx.state.is_peer_interested) (do
      set_state (λ state. record state { is_peer_interested = true; is_peer_choked = false })
      send_msg t Message.unchoke)

  unfoldable pub handle_not_interested : Handler (Unit {0})
  handle_not_interested = do
    s ← get
    when s.ctx.state.is_peer_interested
        (set_state (λ state. record state { is_peer_interested = false }))

  unfoldable pub handle_cancel : BlockInfo → Handler (Unit {0})
  handle_cancel info = do
    e ← checked (validate_block_info t.storage info)
    require e
    modify (λ s. record s { incoming_requests = remove s.incoming_requests info })

  unfoldable pub dispatch : ℕ → Message (List Bool) → Handler (Unit {0})
  dispatch now (Message.bitfield b) = fail bitfield_not_after_handshake
  dispatch now Message.keep_alive = pure tt
  dispatch now Message.choke = handle_choke
  dispatch now Message.unchoke = handle_unchoke now
  dispatch now Message.interested = handle_interested
  dispatch now Message.not_interested = handle_not_interested
  dispatch now (Message.block piece_index offset bytes) = do
    handle_block_msg t now (block_info piece_index offset bytes) bytes
    make_requests t now
  dispatch now (Message.request info) = handle_request_msg info
  dispatch now (Message.have piece_index) = handle_have_msg piece_index
  dispatch now (Message.cancel info) = handle_cancel info

  unfoldable pub handle_msg : ℕ → Message (List Bool) → Handler (Unit {0})
  handle_msg now msg = do with_ctx (λ c. count_protocol_down c (protocol_len msg)); dispatch now msg
