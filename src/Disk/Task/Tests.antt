-- ===== src/Disk/Task/Tests.antt =====
-- A disk task with no torrent, and one with a torrent.
use cratetorrent.Prelude.{◌≡◌, refl, true, none, some, [], ◌∷◌, ret}
use cratetorrent.Disk.Reads.Tests.{one_piece, storage}
use cratetorrent.Disk.Task.{
  Torrents, opens, new_torrent, write_block, shutdown, allocation, already_exists, ended, fails,
  invalid_torrent_id, handle, start, new,
}

abbrev no_torrents : Torrents one_piece
no_torrents = []

-- A second torrent with the same id is refused, and the task goes on to its shutdown.
allocates_once :
    start one_piece true true none
      (new_torrent 3 storage [] (opens true true)
        ∷ new_torrent 3 storage [] (opens true true)
        ∷ shutdown
        ∷ [])
      no_torrents
    ≡ ret (
      ended (
          (
            3,
            record {
              writes = record { info = storage; write_buf = []; piece_hashes = [] };
              read_cache = none;
            },
          )
          ∷ []),
      allocation 3 none ∷ allocation 3 (some already_exists) ∷ [],
    )
unfolding start handle new
allocates_once = refl

-- A write to a torrent that is not there ends the task with an error.
unknown_torrent :
    handle one_piece true true none
      (write_block 4 (record { piece_index = 0; offset = 0; len = 1 }) (7 ∷ []))
      no_torrents
    ≡ ret (fails invalid_torrent_id [])
unfolding handle
unknown_torrent = refl
