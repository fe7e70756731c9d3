-- ===== src/Peer/Run.antt =====
-- The loop of a session: its ticks, the messages and commands that it receives, and its end.
use cratetorrent.Prelude.{
  ℕ, ◌-◌, Bool, true, false, not, ◌&&◌, ◌||◌, Option, none, some, List, [], ◌∷◌, leb, if◌then◌else◌,
  expect, replicate,
}
use cratetorrent.Counter.{FloatApi}
use cratetorrent.Codec.{Message}
use cratetorrent.Codec.Handshake as Handshake
use cratetorrent.Codec.Handshake.{Handshake, bytes_eq, protocol_string}
use cratetorrent.Download.{debug_assert}
use cratetorrent.Peer.Pipeline.{count_protocol_up, count_protocol_down}
use cratetorrent.PiecePicker.{PiecePicker}
use cratetorrent.Session as Session
use cratetorrent.Session.{ConnectionState, SessionContext, default_context, set_connection_state}
use cratetorrent.Peer.{
  PeerError, inactivity_timeout, invalid_info_hash, io, sent_handshake, peer_connected, Torrent,
  PeerSession, received, peer_state, alert, SessionTick, Downloads,
}
use cratetorrent.Peer.Effects.{
  Handler, pure, ◌>>=◌, ◌>>◌, get, modify, fail, checked, when, with_ctx, send, send_msg,
  send_command, record_event,
}
use cratetorrent.Peer.Requests.{
  check_request_timeout, free_pending_blocks, handle_piece_completion, is_empty,
}
use cratetorrent.Peer.Messages.{
  handle_bitfield_msg, handle_msg, send_read_block, is_availability_exchange,
}

-- `INACTIVITY_TIMEOUT`, a minute.
abbrev pub inactivity_limit : ℕ
inactivity_limit = 60_000_000_000

-- `Bitfield::any`.
abbrev pub any : List Bool → Bool
any [] = false
any (b ∷ bs) = b || any bs

pub data Direction : Type 0 where
  outbound inbound : Direction

abbrev pub is_outbound : Direction → Bool
is_outbound outbound = true
is_outbound inbound = false

-- What is first read from the socket: nothing before it is closed, an error, or a handshake.
pub data Greeting : Type 0 where
  closed undecodable : Greeting
  greeted : Handshake → Greeting

-- The commands of the torrent and the disk task.
pub data Command : Type 0 where
  block : ℕ → ℕ → List ℕ → Command
  piece_completion : ℕ → Bool → Command
  shutdown : Command

-- What the loop of `run` selects from; a message may be one that the codec refuses.
pub data Input : Type 0 where
  ticked unreadable : Input
  message : Message (List Bool) → Input
  command : Command → Input

module _ ⦃api : FloatApi⦄ (t : Torrent) where
  abbrev pub session_info : PeerSession → SessionTick
  session_info s = record {
    state = s.ctx.state;
    counters = s.ctx.counters;
    piece_count = s.piece_count;
  }

  abbrev pub send_info : Handler (Unit {0})
  send_info = get >>= λ s. send_command t (peer_state (session_info s))

  -- The check that either side is interested, before the session has lasted too long.
  unfoldable pub check_activity : ℕ → Handler (Unit {0})
  check_activity now = do
    s ← get
    when (not s.ctx.state.is_interested && not s.ctx.state.is_peer_interested) (do
      connected_time ← checked (expect s.ctx.connected_time)
      when (leb inactivity_limit (now - connected_time)) (fail inactivity_timeout))

  unfoldable pub tick : ℕ → Handler (Unit {0})
  tick now = do
    check_activity now
    s ← get
    when (not (is_empty s.outgoing_requests)) (check_request_timeout t now)
    s' ← get
    when s'.ctx.changed send_info
    with_ctx Session.tick

  abbrev pub set_connection : ConnectionState → Handler (Unit {0})
  set_connection state = modify (λ s. record s { ctx = set_connection_state s.ctx state })

  abbrev pub send_handshake : Handler (Unit {0})
  send_handshake = do
    with_ctx (λ c. count_protocol_up c (Handshake.len (Handshake.new t.info_hash t.client_id)))
    send t io (sent_handshake (Handshake.new t.info_hash t.client_id))

  -- The handshakes at the start of `start`, once the peer's is there.
  unfoldable pub answer_handshake : Direction → Handshake → Handler (Unit {0})
  answer_handshake direction h = do
    checked (debug_assert t.dev (bytes_eq h.prot protocol_string))
    with_ctx (λ c. count_protocol_down c (Handshake.len h))
    when (not (bytes_eq h.info_hash t.info_hash)) (fail invalid_info_hash)
    modify (λ s. record s { id = some h.peer_id })
    when (not (is_outbound direction)) send_handshake
    send_command t (peer_connected h.peer_id)
    set_connection ConnectionState.availability_exchange

  -- What the socket gives; the result says whether the session is run. `finish` follows either way.
  unfoldable pub handle_greeting : Direction → Greeting → Handler Bool
  handle_greeting direction closed = do
    set_connection ConnectionState.disconnected
    send_info
    pure false
  handle_greeting direction undecodable = fail io
  handle_greeting direction (greeted h) = do answer_handshake direction h; pure true

  -- The start of `start`, after `start_outbound` or `start_inbound`.
  unfoldable pub shake_hands : Direction → Greeting → Handler Bool
  shake_hands direction greeting = do
    set_connection ConnectionState.connecting
    set_connection ConnectionState.handshaking
    when (is_outbound direction) send_handshake
    handle_greeting direction greeting

  -- What `run` does before its loop.
  unfoldable pub begin : ℕ → Handler (Unit {0})
  begin now = do
    modify (λ s. record s { ctx = record s.ctx { connected_time = some now } })
    s ← get
    when (any s.picker.own_pieces) (send_msg t (Message.bitfield s.picker.own_pieces))

  -- The first message, which may be a bitfield.
  unfoldable pub handle_first : ℕ → Message (List Bool) → Handler (Unit {0})
  handle_first now (Message.bitfield b) = handle_bitfield_msg t b
  handle_first now msg = handle_msg t now msg

  -- The arms of the loop in `run`; the result says whether the loop goes on.
  unfoldable pub on_msg : ℕ → Message (List Bool) → Handler Bool
  on_msg now msg = do
    record_event (received msg)
    s ← get
    if is_availability_exchange s.ctx.state.connection
        then (do
          handle_first now msg
          s' ← get
          if not (any s'.picker.own_pieces) && not (any s'.pieces)
              then pure false
              else do set_connection ConnectionState.connected; pure true)
        else (do handle_msg t now msg; pure true)

  unfoldable pub on_command : ℕ → Command → Handler Bool
  on_command now (block piece_index offset bytes) = do
    send_read_block t now piece_index offset bytes
    pure true
  on_command now (piece_completion index in_endgame) = do
    modify (λ s. record s { ctx = record s.ctx { in_endgame = in_endgame } })
    handle_piece_completion t index
    pure true
  on_command now shutdown = pure false

  unfoldable pub react : ℕ → Input → Handler Bool
  react now ticked = do tick now; pure true
  react now unreadable = fail io
  react now (message msg) = on_msg now msg
  react now (command c) = on_command now c

  -- What `start` does with an error of `run`.
  abbrev pub report : Option PeerError → Handler (Unit {0})
  report none = pure tt
  report (some e) = do
    set_connection ConnectionState.disconnected
    send_info
    send_command t (alert e)

  -- What `start` does after `run`.
  unfoldable pub finish : Option PeerError → Handler (Unit {0})
  finish e = do
    report e
    s ← get
    when (not (is_empty s.outgoing_requests)) (free_pending_blocks t)
    set_connection ConnectionState.disconnected
    send_info

-- `PeerSession::new`, with what the torrent shares.
unfoldable pub new : ⦃api : FloatApi⦄ → Torrent → PiecePicker → Downloads → PeerSession
new t picker downloads = record {
  ctx = default_context;
  pieces = replicate t.storage.piece_count false;
  piece_count = 0;
  id = none;
  outgoing_requests = [];
  incoming_requests = [];
  picker = picker;
  downloads = downloads;
  log = [];
}
