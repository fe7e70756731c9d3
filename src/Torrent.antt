-- ===== src/Torrent.antt =====
-- cratetorrent/src/torrent.rs: what a torrent does with completed pieces, with the state that its
-- sessions report and with new peers. An address is a number, and a `HashMap` is the list of its
-- entries. The tasks and the cached thruput statistics are left out.
pub mod Completion
pub mod Announces
pub mod Task
pub mod Tests
use cratetorrent.Prelude.{
  ℕ, ◌+◌, ◌-◌, min, Bool, true, false, not, ◌&&◌, Option, none, some, List, [], ◌∷◌, ◌++◌, map,
  Checked, ret, panic, ◌>>=◌, ltb, ◌==◌, if◌then◌else◌, length, take, drop,
}
use cratetorrent.Storage.{StorageInfo}
use cratetorrent.Download.{PieceDownload, free_all_blocks}
use cratetorrent.PiecePicker.{PiecePicker, received_piece, all_pieces_picked}
use cratetorrent.Counter.{FloatApi, ThruputCounters, add_counters}
use cratetorrent.Session.{SessionState, ConnectionState, default_state}
use cratetorrent.Peer.{Downloads, lookup, insert_download, SessionTick}

-- A session's entry; `has_tx` says whether there is a channel to the session.
pub record PeerSessionEntry : Type 0 where
  pub has_tx : Bool
  pub id : Option (List ℕ)
  pub state : SessionState
  pub piece_count : ℕ

-- `PeerSessionEntry::new`.
abbrev pub new_entry : PeerSessionEntry
new_entry = record {
  has_tx = true;
  id = none;
  state = record default_state { connection = ConnectionState.connecting };
  piece_count = 0;
}

abbrev pub Peers : Type 0
Peers = List (ℕ × PeerSessionEntry)

-- `HashMap::get`, `insert` and `remove`.
abbrev pub find_peer : Peers → ℕ → Option PeerSessionEntry
find_peer [] a = none
find_peer ((b, p) ∷ ps) a = if b == a then some p else find_peer ps a

abbrev pub insert_peer : Peers → ℕ → PeerSessionEntry → Peers
insert_peer [] a p = (a, p) ∷ []
insert_peer ((b, q) ∷ ps) a p = if b == a then (a, p) ∷ ps else (b, q) ∷ insert_peer ps a p

abbrev pub remove_peer : Peers → ℕ → Peers
remove_peer [] a = []
remove_peer ((b, q) ∷ ps) a = if b == a then remove_peer ps a else (b, q) ∷ remove_peer ps a

abbrev pub remove_download : Downloads → ℕ → Downloads
remove_download [] i = []
remove_download ((j, d) ∷ ds) i =
    if j == i then remove_download ds i else (j, d) ∷ remove_download ds i

abbrev pub is_disconnected : ConnectionState → Bool
is_disconnected ConnectionState.disconnected = true
is_disconnected _ = false

-- What the torrent tells its sessions, the user and its trackers.
pub data Notice : Type 0 where
  piece_completion : ℕ → ℕ → Bool → Notice
  torrent_complete : Notice
  announce_completed : Notice

module _ ⦃api : FloatApi⦄ where
  pub record Torrent : Type 0 where
    pub peers : Peers
    pub available_peers : List ℕ
    pub storage : StorageInfo
    pub piece_picker : PiecePicker
    pub downloads : Downloads
    pub in_endgame : Bool
    pub counters : ThruputCounters api
    pub max_connected_peer_count : ℕ
    pub completed_pieces : Option (List ℕ)

  -- The update of an entry that is there.
  unfoldable pub update_peer : Torrent → ℕ → SessionTick → PeerSessionEntry → Checked Torrent
  update_peer t addr info peer = do
    counters ← add_counters api t.counters info.counters
    ret (record t {
      counters = counters;
      peers =
          if is_disconnected info.state.connection
          then remove_peer t.peers addr
          else insert_peer t.peers addr
              (record peer { state = info.state; piece_count = info.piece_count });
    })

  abbrev pub change_peer : Torrent → ℕ → SessionTick → Option PeerSessionEntry → Checked Torrent
  change_peer t addr info none = ret t
  change_peer t addr info (some peer) = update_peer t addr info peer

  unfoldable pub handle_peer_state_change : Torrent → ℕ → SessionTick → Checked Torrent
  handle_peer_state_change t addr info = change_peer t addr info (find_peer t.peers addr)

  abbrev pub insert_all : Peers → List ℕ → Peers
  insert_all ps [] = ps
  insert_all ps (a ∷ as') = insert_all (insert_peer ps a new_entry) as'

  -- `connect_peers`, which starts a session for each of the first available addresses.
  unfoldable pub connect_peers : Torrent → Torrent
  connect_peers t =
      let connect_count =
        min (t.max_connected_peer_count - length t.peers) (length t.available_peers) in
      record t {
        peers = insert_all t.peers (take connect_count t.available_peers);
        available_peers = drop connect_count t.available_peers;
      }

  abbrev pub push_completed : ℕ → Option (List ℕ) → Option (List ℕ)
  push_completed i none = none
  push_completed i (some pieces) = some (pieces ++ (i ∷ []))

  -- The notices to the sessions with a channel.
  abbrev pub tell_peers : ℕ → Bool → Peers → List Notice
  tell_peers i in_endgame [] = []
  tell_peers i in_endgame ((a, p) ∷ ps) =
      (if p.has_tx then piece_completion a i in_endgame ∷ [] else []) ++ tell_peers i in_endgame ps

  -- A valid piece.
  unfoldable pub complete_piece : Torrent → ℕ → Checked (Torrent × List Notice)
  complete_piece t i = do
    picker ← received_piece t.piece_picker i
    let in_endgame =
        if not t.in_endgame && (ltb 0 picker.missing_count && all_pieces_picked picker)
        then true
        else t.in_endgame
    ret (
      record t {
        downloads = remove_download t.downloads i;
        piece_picker = picker;
        in_endgame = in_endgame;
        completed_pieces = push_completed i t.completed_pieces;
      },
      tell_peers i in_endgame t.peers
          ++ (if picker.missing_count == 0 then torrent_complete ∷ announce_completed ∷ [] else []),
    )

  -- A piece whose hash is wrong: all of its blocks are free again.
  abbrev pub free_download : Downloads → ℕ → Option PieceDownload → Downloads
  free_download ds i none = ds
  free_download ds i (some d) = insert_download ds i (free_all_blocks d)

  unfoldable pub handle_piece_completion : Torrent → ℕ → Bool → Checked (Torrent × List Notice)
  handle_piece_completion t i true = complete_piece t i
  handle_piece_completion t i false =
      ret (record t { downloads = free_download t.downloads i (lookup t.downloads i) }, [])
