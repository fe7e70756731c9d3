-- ===== src/Peer.antt =====
-- cratetorrent/src/peer.rs and peer/error.rs: a session with a peer. The handlers run on the session
-- and on what the torrent shares with it, its piece picker and its downloads. The locks are held for
-- the whole of a handler. A `HashSet` and a `HashMap` are lists of their members, in the order in
-- which they are walked. Whether a send succeeds is a parameter. The code takes the time more than
-- once in a handler; here one time is given to the handler. The log messages are left out.
pub mod Effects
pub mod Pipeline
pub mod Requests
pub mod Messages
pub mod Run
pub mod Valid
pub mod Sets
pub mod Filling
pub mod Filled
pub mod Orderly
pub mod Rules
pub mod Freed
pub mod Downloading
pub mod Arriving
pub mod Announced
pub mod Answering
pub mod Dispatched
pub mod Running
pub mod Starting
pub mod Serving
mod Tests
use cratetorrent.Prelude.{
  ℕ, ◌+◌, ◌%◌, ◌^◌, Bool, true, false, Option, none, some, List, [], ◌∷◌, Checked, ret, panic,
  ◌>>=◌, add_bits, ltb, leb, ◌==◌, if◌then◌else◌, length, replicate,
}
use cratetorrent.Block.{BlockInfo}
use cratetorrent.Storage.{StorageInfo, piece_len}
use cratetorrent.Download.{PieceDownload, contains, info_eq}
use cratetorrent.Counter.{FloatApi, ThruputCounters}
use cratetorrent.PiecePicker.{PiecePicker}
use cratetorrent.Codec.{Message}
use cratetorrent.Codec.Handshake.{Handshake}
use cratetorrent.Session.{SessionState, SessionContext}

pub data PeerError : Type 0 where
  bitfield_not_after_handshake channel request_while_choked inactivity_timeout : PeerError
  invalid_block_info invalid_piece_index invalid_info_hash io : PeerError

unfoldable pub validate_piece_index : StorageInfo → ℕ → Option PeerError
validate_piece_index storage index =
    if ltb index storage.piece_count then none else some invalid_piece_index

-- The check of the block once the piece index is valid; `info.offset + info.len` is a sum of `u32`.
unfoldable pub validate_in_piece : StorageInfo → BlockInfo → Checked (Option PeerError)
validate_in_piece storage info = do
  len ← piece_len storage info.piece_index
  if ltb 0 info.len
      then (do
        block_end ← add_bits 32 info.offset info.len
        ret (if leb block_end len then none else some invalid_block_info))
      else ret (some invalid_block_info)

unfoldable pub validate_block_info : StorageInfo → BlockInfo → Checked (Option PeerError)
unfolding validate_in_piece
validate_block_info storage info =
    let in_piece = validate_in_piece storage info in
    if ltb info.piece_index storage.piece_count then in_piece else ret (some invalid_piece_index)

-- `Block::info`.
abbrev pub block_info : ℕ → ℕ → List ℕ → BlockInfo
block_info piece_index offset bytes = record {
  piece_index = piece_index;
  offset = offset;
  len = length bytes % 2 ^ 32;
}

-- `HashSet::insert` and `HashSet::remove`.
abbrev pub insert : List BlockInfo → BlockInfo → List BlockInfo
insert set b = if contains set b then set else b ∷ set

abbrev pub remove : List BlockInfo → BlockInfo → List BlockInfo
remove [] b = []
remove (a ∷ set) b = if info_eq a b then remove set b else a ∷ remove set b

-- The downloads of the torrent, by piece index: `HashMap::get` and `HashMap::insert`.
abbrev pub Downloads : Type 0
Downloads = List (ℕ × PieceDownload)

abbrev pub lookup : Downloads → ℕ → Option PieceDownload
lookup [] i = none
lookup ((j, d) ∷ ds) i = if j == i then some d else lookup ds i

abbrev pub insert_download : Downloads → ℕ → PieceDownload → Downloads
insert_download [] i d = (i, d) ∷ []
insert_download ((j, e) ∷ ds) i d = if j == i then (i, d) ∷ ds else (j, e) ∷ insert_download ds i d

module _ ⦃api : FloatApi⦄ where
  pub record SessionTick : Type 0 where
    pub state : SessionState
    pub counters : ThruputCounters api
    pub piece_count : ℕ

  -- What a session receives from its peer, and what it hands to the socket, the disk task, the torrent
  -- and the alert channel.
  pub data Event : Type 0 where
    received : Message (List Bool) → Event
    to_peer : Message (List Bool) → Event
    read_block : BlockInfo → Event
    write_block : BlockInfo → List ℕ → Event
    peer_state : SessionTick → Event
    alert : PeerError → Event
    sent_handshake : Handshake → Event
    peer_connected : List ℕ → Event

  -- What a session reads of the `TorrentContext`. `dev` says whether the debug assertions are compiled
  -- in, `accepts` whether the receiver of an event takes it, after the events before.
  pub record Torrent : Type 0 where
    pub storage : StorageInfo
    pub dev : Bool
    pub info_hash : List ℕ
    pub client_id : List ℕ
    pub accepts : List Event → Event → Bool

  -- The session, what it shares with the others, and its events so far, the newest first.
  pub record PeerSession : Type 0 where
    pub ctx : SessionContext
    pub pieces : List Bool
    pub piece_count : ℕ
    pub id : Option (List ℕ)
    pub outgoing_requests : List BlockInfo
    pub incoming_requests : List BlockInfo
    pub picker : PiecePicker
    pub downloads : Downloads
    pub log : List Event
