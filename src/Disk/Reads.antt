-- ===== src/Disk/Reads.antt =====
-- `Torrent::read_block` of cratetorrent/src/disk/io/torrent.rs: a block for a peer, from the read
-- cache or from the files. The cache of the crate `lru` is a parameter. The worker thread that reads
-- a piece is a function of its own, `read_line`, since other blocks may be read before it runs. Logs
-- and statistics are left out.
pub mod Bytes
pub mod Served
pub mod Tests
use cratetorrent.Prelude.{
  ℕ, ◌<◌, ◌≡◌, ◌⊎◌, Bool, true, false, Option, none, some, List, [], ◌∷◌, Checked, ret, panic,
  ◌>>=◌, ◌>>◌, index, leb, if◌then◌else◌, length,
}
use cratetorrent.Block.{BlockInfo, index_in_piece}
use cratetorrent.Storage.{
  StorageInfo, Range, piece_len, torrent_piece_offset, files_intersecting_piece,
}
use cratetorrent.Disk.Read.{
  ReadApi, ReadError, ReadResult, got, failed, out_of_fuel, Files, read_piece,
}

-- `LruCache`: `get` may move an entry, and `put` may drop one.
pub record CacheApi : Type 1 where
  pub Cache : Type 0
  pub get : Cache → ℕ → Option (List (List ℕ)) × Cache
  pub put : Cache → ℕ → List (List ℕ) → Cache

-- What `read_block` or its thread sends: to the peer, or to the torrent.
pub data Sent : Type 0 where
  block : BlockInfo → List ℕ → Sent
  invalid_block_offset : BlockInfo → Sent
  read_error : BlockInfo → ReadError → Sent

-- What the thread is given.
pub record Job : Type 0 where
  pub block_info : BlockInfo
  pub block_index : ℕ
  pub torrent_piece_offset : ℕ
  pub file_range : Range
  pub piece_len : ℕ

-- What `read_block` does beside looking into the cache: it sends, or fails to, or starts the thread.
pub data Action : Type 0 where
  sends : Sent → Action
  send_fails : Action
  spawns : Job → Action

module _ (cache_api : CacheApi) where
  open cache_api use {Cache, get, put}

  -- On a hit: `peer_open` and `torrent_open` say whether the receivers are there.
  unfoldable pub on_hit : Bool → Bool → BlockInfo → ℕ → List (List ℕ) → Checked Action
  on_hit peer_open torrent_open info block_index blocks =
      let found : Checked Action = (do
        b ← index blocks block_index
        ret (if peer_open then sends (block info b) else send_fails)) in
      if leb (length blocks) block_index
      then ret (if torrent_open then sends (invalid_block_offset info) else send_fails)
      else found

  unfoldable pub on_miss : StorageInfo → BlockInfo → ℕ → Checked Action
  on_miss storage info block_index = do
    file_range ← files_intersecting_piece storage info.piece_index
    offset ← torrent_piece_offset storage info.piece_index
    len ← piece_len storage info.piece_index
    ret (
        spawns (record {
          block_info = info;
          block_index = block_index;
          torrent_piece_offset = offset;
          file_range = file_range;
          piece_len = len;
        }))

  abbrev pub look_up :
      Bool → Bool → StorageInfo → BlockInfo → ℕ → Option (List (List ℕ)) → Checked Action
  look_up peer_open torrent_open storage info block_index (some blocks) =
      on_hit peer_open torrent_open info block_index blocks
  look_up peer_open torrent_open storage info block_index none = on_miss storage info block_index

  -- `read_block`, and the cache after it.
  unfoldable pub read_block :
      Bool → Bool → StorageInfo → BlockInfo → Cache → Checked (Action × Cache)
  unfolding on_hit on_miss
  read_block peer_open torrent_open storage info cache = do
    block_index ← index_in_piece info
    let (line, cache') = get cache info.piece_index
    action ← look_up peer_open torrent_open storage info block_index line
    ret (action, cache')

  module _ (api : ReadApi) (dev : Bool) where
    abbrev pub after_read : Job → Cache → ReadResult (List (List ℕ)) → Checked (Option Sent × Cache)
    after_read job cache (got blocks) = do
      b ← index blocks job.block_index
      ret (some (block job.block_info b), put cache job.block_info.piece_index blocks)
    after_read job cache (failed e) = ret (some (read_error job.block_info e), cache)
    after_read job cache out_of_fuel = ret (none, cache)

    -- The thread: what it sends, if its read comes to an end. A receiver that is gone is only logged.
    unfoldable pub read_line : Files api → Job → Cache → Checked (Option Sent × Cache)
    read_line files job cache = do
      r ← read_piece api dev job.torrent_piece_offset job.file_range files job.piece_len
      after_read job cache r
