-- ===== src/Disk/Task/Isolated.antt =====
-- A command for one torrent leaves the others alone, and the task fails for two reasons only.
use cratetorrent.Prelude.{ℕ, ◌≡◌, ◌⊎◌, Bool, false, Option, none, some}
use cratetorrent.Disk.Torrent as Writes
use cratetorrent.Disk.Reads as Reads
use cratetorrent.Disk.Reads.{CacheApi, Action, send_fails}
use cratetorrent.Disk.Task.{
  already_exists, io, invalid_torrent_id, channel, Torrent, Torrents, find, Opening, no_directory,
  opens, Command, new_torrent, write_block, read_block, shutdown, Effect, allocation, Step, goes_on,
  ended, fails,
}

module _ (cache_api : CacheApi) where
  open cache_api use {Cache}

  -- The torrent that a command is for.
  abbrev pub IsFor : ℕ → Command cache_api → Type 0
  IsFor i (new_torrent j storage hashes opening) = i ≡ j
  IsFor i (write_block j info bytes) = i ≡ j
  IsFor i (read_block j info peer_open torrent_open) = i ≡ j
  IsFor i shutdown = ⊥

  -- The other torrents are as before.
  abbrev pub LeavesOthers : Command cache_api → Torrents cache_api → Torrents cache_api → Type 0
  LeavesOthers c ts ts' = (j : ℕ) → (IsFor j c → ⊥) → find cache_api ts' j ≡ find cache_api ts j

  -- A receiver is gone: the engine for an allocation, the peer or the torrent for a read.
  abbrev pub IsClosed : Bool → Command cache_api → Type 0
  IsClosed engine_open (new_torrent id storage hashes opening) = engine_open ≡ false
  IsClosed engine_open (read_block id info peer_open torrent_open) =
      (peer_open ≡ false) ⊎ (torrent_open ≡ false)
  IsClosed engine_open _ = ⊥

  -- The command is for a torrent that is not there.
  abbrev pub IsUnknown : Torrents cache_api → Command cache_api → Type 0
  IsUnknown ts (write_block id info bytes) = find cache_api ts id ≡ none
  IsUnknown ts (read_block id info peer_open torrent_open) = find cache_api ts id ≡ none
  IsUnknown ts _ = ⊥

  abbrev pub IsFailure : Opening cache_api → Type 0
  IsFailure no_directory = Unit
  IsFailure (opens fresh succeeds) = succeeds ≡ false

  -- A new torrent is there afterwards, or the engine is told why not; one that was there stays.
  abbrev pub IsAllocated :
      Command cache_api
      → Torrents cache_api
      → Torrents cache_api
      → Option (Effect cache_api)
      → Type 0
  IsAllocated (new_torrent id storage hashes opening) ts ts'
        (some (allocation i (some already_exists))) =
      (i ≡ id) × (ts' ≡ ts) × (t : Torrent cache_api) × (find cache_api ts id ≡ some t)
  IsAllocated (new_torrent id storage hashes opening) ts ts' (some (allocation i (some io))) =
      (i ≡ id) × (ts' ≡ ts) × IsFailure opening
  IsAllocated (new_torrent id storage hashes opening) ts ts' (some (allocation i none)) =
      (i ≡ id)
      × (find cache_api ts id ≡ none)
      × (t : Torrent cache_api) × (find cache_api ts' id ≡ some t)
      × (t.writes.info ≡ storage)
  IsAllocated (new_torrent id storage hashes opening) ts ts' _ = ⊥
  IsAllocated _ ts ts' e = Unit

  abbrev pub IsShutdown : Command cache_api → Type 0
  IsShutdown shutdown = Unit
  IsShutdown _ = ⊥

  -- What a command may lead to.
  abbrev pub Handles : Bool → Command cache_api → Torrents cache_api → Step cache_api → Type 0
  Handles engine_open c ts (goes_on ts' e) =
      (IsShutdown c → ⊥) × LeavesOthers c ts ts' × IsAllocated c ts ts' e
  Handles engine_open c ts (ended ts') = (ts' ≡ ts) × (c ≡ shutdown)
  Handles engine_open c ts (fails invalid_torrent_id ts') =
      (IsShutdown c → ⊥) × (ts' ≡ ts) × IsUnknown ts c
  Handles engine_open c ts (fails channel ts') =
      (IsShutdown c → ⊥) × LeavesOthers c ts ts' × IsClosed engine_open c

  -- A read fails to send only where a receiver is gone.
  abbrev Fits : Bool → Bool → Action → Type 0
  Fits peer_open torrent_open send_fails = (peer_open ≡ false) ⊎ (torrent_open ≡ false)
  Fits peer_open torrent_open _ = Unit
