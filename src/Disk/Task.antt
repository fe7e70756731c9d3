-- ===== src/Disk/Task.antt =====
-- cratetorrent/src/disk.rs: the disk task, as a function on its state for each command. Creating
-- directories and opening files are I/O, of which a command says whether they succeed. Logs are left
-- out.
pub mod Isolated
mod Tests
use cratetorrent.Prelude.{
  ℕ, Bool, true, false, not, Option, none, some, List, [], ◌∷◌, ◌||◌, Checked, ret, panic, ◌>>=◌,
  ◌>>◌, ◌==◌, if◌then◌else◌, length,
}
use cratetorrent.Block.{BlockInfo}
use cratetorrent.Storage.{StorageInfo}
use cratetorrent.Download.{debug_assert}
use cratetorrent.Disk.Torrent as Writes
use cratetorrent.Disk.Reads.{CacheApi, Action, sends, send_fails, spawns}
use cratetorrent.Disk.Reads as Reads

-- `NewTorrentError`.
pub data NewTorrentError : Type 0 where
  already_exists io : NewTorrentError

-- Why the task ends with an error.
pub data DiskError : Type 0 where
  invalid_torrent_id channel : DiskError

module _ (cache_api : CacheApi) where
  open cache_api use {Cache}

  -- A torrent with its read cache.
  pub record Torrent : Type 0 where
    pub writes : Writes.Torrent
    pub read_cache : Cache

  abbrev pub Torrents : Type 0
  Torrents = List (ℕ × Torrent)

  -- `HashMap::get` and `insert`.
  abbrev pub find : Torrents → ℕ → Option Torrent
  find [] i = none
  find ((j, t) ∷ ts) i = if j == i then some t else find ts i

  abbrev pub put : Torrents → ℕ → Torrent → Torrents
  put [] i t = (i, t) ∷ []
  put ((j, u) ∷ ts) i t = if j == i then (i, t) ∷ ts else (j, u) ∷ put ts i t

  -- How the files of a new torrent are opened: its directory cannot be made, or, after that, whether the
  -- paths of several files are absolute and new, and whether all files are opened. A file that was
  -- opened exists.
  pub data Opening : Type 0 where
    no_directory : Opening
    opens : Bool → Bool → Opening

  -- A command; the Booleans say whether the I/O succeeds and whether the receivers are there.
  pub data Command : Type 0 where
    new_torrent : ℕ → StorageInfo → List ℕ → Opening → Command
    write_block : ℕ → BlockInfo → List ℕ → Command
    read_block : ℕ → BlockInfo → Bool → Bool → Command
    shutdown : Command

  -- What a command leads to outside the task: a message to the engine, a thread that writes a piece,
  -- and what a read does.
  pub data Effect : Type 0 where
    allocation : ℕ → Option NewTorrentError → Effect
    saves : ℕ → Writes.Entry → Effect
    reads : Action → Effect

  -- The loop goes on, has ended, or fails.
  pub data Step : Type 0 where
    goes_on : Torrents → Option Effect → Step
    ended : Torrents → Step
    fails : DiskError → Torrents → Step

  -- `Torrent::new`, with an empty cache.
  unfoldable pub new : Bool → Cache → StorageInfo → List ℕ → Opening → Checked (Option Torrent)
  new dev empty storage piece_hashes no_directory = ret none
  new dev empty storage piece_hashes (opens fresh succeeds) = do
    debug_assert dev (not (length storage.files == 0))
    debug_assert dev (length storage.files == 1 || fresh)
    ret (
        if succeeds
        then some (record {
          writes = record { info = storage; write_buf = []; piece_hashes = piece_hashes };
          read_cache = empty;
        })
        else none)

  -- The engine is told of the allocation.
  abbrev pub tell_engine : Bool → ℕ → Option NewTorrentError → Torrents → Step
  tell_engine engine_open id result ts =
      if engine_open then goes_on ts (some (allocation id result)) else fails channel ts

  abbrev pub allocated : Bool → ℕ → Torrents → Option Torrent → Step
  allocated engine_open id ts none = tell_engine engine_open id (some io) ts
  allocated engine_open id ts (some t) = tell_engine engine_open id none (put ts id t)

  abbrev pub allocate :
      Bool
      → Bool
      → Cache
      → ℕ
      → StorageInfo
      → List ℕ
      → Opening
      → Torrents
      → Option Torrent
      → Checked Step
  allocate dev engine_open empty id storage piece_hashes opening ts (some t) =
      ret (tell_engine engine_open id (some already_exists) ts)
  allocate dev engine_open empty id storage piece_hashes opening ts none = do
    t ← new dev empty storage piece_hashes opening
    ret (allocated engine_open id ts t)

  abbrev pub job_of : ℕ → Option Writes.Entry → Option Effect
  job_of i none = none
  job_of i (some e) = some (saves i e)

  -- `Disk::write_block`.
  abbrev pub write_to : ℕ → BlockInfo → List ℕ → Torrents → Option Torrent → Checked Step
  write_to id info data_bytes ts none = ret (fails invalid_torrent_id ts)
  write_to id info data_bytes ts (some t) = do
    (writes, job) ← Writes.write_block t.writes info data_bytes
    ret (goes_on (put ts id (record t { writes = writes })) (job_of info.piece_index job))

  -- `Disk::read_block`.
  abbrev pub after_reading : Torrents → Action → Step
  after_reading ts send_fails = fails channel ts
  after_reading ts (sends m) = goes_on ts (some (reads (sends m)))
  after_reading ts (spawns job) = goes_on ts (some (reads (spawns job)))

  abbrev pub read_from : ℕ → BlockInfo → Bool → Bool → Torrents → Option Torrent → Checked Step
  read_from id info peer_open torrent_open ts none = ret (fails invalid_torrent_id ts)
  read_from id info peer_open torrent_open ts (some t) = do
    (action, cache) ←
        Reads.read_block cache_api peer_open torrent_open t.writes.info info t.read_cache
    ret (after_reading (put ts id (record t { read_cache = cache })) action)

  -- One round of `start`. `dev` says whether there are debug assertions, `engine_open` whether the
  -- engine is there.
  unfoldable pub handle : Bool → Bool → Cache → Command → Torrents → Checked Step
  unfolding new
  handle dev engine_open empty (new_torrent id storage piece_hashes opening) ts =
      allocate dev engine_open empty id storage piece_hashes opening ts (find ts id)
  handle dev engine_open empty (write_block id info data_bytes) ts =
      write_to id info data_bytes ts (find ts id)
  handle dev engine_open empty (read_block id info peer_open torrent_open) ts =
      read_from id info peer_open torrent_open ts (find ts id)
  handle dev engine_open empty shutdown ts = ret (ended ts)

  -- `start`, over the commands that it receives, with what they lead to.
  abbrev pub with_effect : Option Effect → List Effect → List Effect
  with_effect none es = es
  with_effect (some e) es = e ∷ es

  abbrev pub continue_with :
      (Torrents → Checked (Step × List Effect)) → Step → Checked (Step × List Effect)
  continue_with next (goes_on ts e) = do (r, es) ← next ts; ret (r, with_effect e es)
  continue_with next (ended ts) = ret (ended ts, [])
  continue_with next (fails e ts) = ret (fails e ts, [])

  unfoldable pub start :
      Bool → Bool → Cache → List Command → Torrents → Checked (Step × List Effect)
  start dev engine_open empty [] ts = ret (ended ts, [])
  start dev engine_open empty (c ∷ cs) ts = do
    r ← handle dev engine_open empty c ts
    continue_with (λ ts'. start dev engine_open empty cs ts') r
