-- ===== src/Block.antt =====
-- cratetorrent/src/lib.rs: the blocks of a piece.
pub mod Partition
mod Tests
use cratetorrent.Prelude.{
  ℕ, ◌+◌, ◌-◌, ◌*◌, ◌/◌, ◌%◌, ◌^◌, ◌<◌, min, Bool, Checked, ret, panic, ◌>>=◌, ◌>>◌, assert,
  mul_bits, ltb, leb,
}

-- `BLOCK_LEN`, 16 KiB.
abbrev pub full_block_len : ℕ
full_block_len = 0x4000

pub record BlockInfo : Type 0 where
  pub piece_index : ℕ
  pub offset : ℕ
  pub len : ℕ

unfoldable pub index_in_piece : BlockInfo → Checked ℕ
index_in_piece b = do
  assert (leb b.len full_block_len)
  assert (ltb 0 b.len)
  ret (b.offset / full_block_len)

-- `block_index as u32` truncates, the product is a `u32`.
unfoldable pub block_len : ℕ → ℕ → Checked ℕ
block_len piece_len block_index = do
  block_offset ← mul_bits 32 (block_index % 2 ^ 32) full_block_len
  assert (ltb block_offset piece_len)
  ret (min (piece_len - block_offset) full_block_len)

-- The arithmetic is on `usize`, where a `u32` length leaves room.
unfoldable pub block_count : ℕ → ℕ
block_count piece_len = (piece_len + (full_block_len - 1)) / full_block_len
