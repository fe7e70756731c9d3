-- ===== src/Block/Tests.antt =====
-- The lengths of cratetorrent/src/lib.rs's own tests, and instances of the theorems.
use cratetorrent.Prelude.{◌+◌, ◌*◌, ◌≡◌, refl, arith, ret, panic, ℕ}
use cratetorrent.Block.{full_block_len, block_len, block_count}
use cratetorrent.Block.Partition.{total_len, blocks_partition}

abbrev uneven_piece_len : ℕ
uneven_piece_len = 2 * full_block_len + 234

last_block : block_len uneven_piece_len 2 ≡ ret 234
unfolding block_len
last_block = refl

past_the_end : block_len (2 * full_block_len) 2 ≡ panic
unfolding block_len
past_the_end = refl

uneven_count : block_count uneven_piece_len ≡ 3
unfolding block_count
uneven_count = refl

blocks_partition_example :
    total_len uneven_piece_len (block_count uneven_piece_len) ≡ ret uneven_piece_len
blocks_partition_example = blocks_partition uneven_piece_len (omega arith)
