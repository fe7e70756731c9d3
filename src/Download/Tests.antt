-- ===== src/Download/Tests.antt =====
-- A download of a piece of three blocks.
use cratetorrent.Prelude.{◌+◌, ◌*◌, ◌≡◌, ◌≢◌, refl, arith, true, false, [], ◌∷◌, ret}
use cratetorrent.Block.{full_block_len, block_len, block_count}
use cratetorrent.Download.{
  free, requested, received, PieceDownload, make_info, pick_block, pick_from, pick_blocks,
}
use cratetorrent.Download.Picked.{IsValid, PickOutcome, pick_blocks_lem}

abbrev download : PieceDownload
download = record {
  index = 4;
  len = 2 * full_block_len + 100;
  blocks = received ∷ requested ∷ free ∷ [];
}

download-IsValid : IsValid download
unfolding block_count
download-IsValid = omega arith

picks_last :
    pick_blocks download 5 [] false []
    ≡ ret (
      record download { blocks = received ∷ requested ∷ requested ∷ [] },
      record { piece_index = 4; offset = 2 * full_block_len; len = 100 } ∷ [],
    )
unfolding pick_blocks pick_from pick_block make_info block_len
picks_last = refl

pick_blocks_lem_example : PickOutcome download 5 [] true [] (pick_blocks download 5 [] true [])
pick_blocks_lem_example = pick_blocks_lem download 5 [] true [] download-IsValid

free-ne-requested : free ≢ requested
free-ne-requested e = cc
