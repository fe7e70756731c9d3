-- ===== src/Block/Partition.antt =====
-- The blocks of a piece make up the piece: `block_len` over `0..block_count`.
use cratetorrent.Prelude.{
  ℕ, zero, suc, ◌+◌, ◌-◌, ◌*◌, ◌^◌, ◌≤◌, ◌<◌, min, ◌≡◌, Checked, ret, panic, ◌>>=◌, arith,
}
use cratetorrent.Block.{full_block_len, block_len, block_count, index_in_piece}

pub block_len-ret :
    (len i : ℕ)
    → len < 2 ^ 32
    → i < block_count len
    → block_len len i ≡ ret (min (len - i * full_block_len) full_block_len)
unfolding block_len block_count
block_len-ret len i h k = ground arith

-- `block_len` panics exactly on the indices from `block_count` on.
pub block_len-panic :
    (len i : ℕ) → len < 2 ^ 32 → i < 2 ^ 32 → block_count len ≤ i → block_len len i ≡ panic
unfolding block_len block_count
block_len-panic len i h k l = ground arith

-- The lengths of the first `n` blocks, added up.
pub total_len : ℕ → ℕ → Checked ℕ
total_len len zero = ret 0
total_len len (suc n) = do before ← total_len len n; here ← block_len len n; ret (before + here)

total_len_below :
    (len n : ℕ)
    → len < 2 ^ 32
    → n ≤ block_count len
    → total_len len n ≡ ret (min len (n * full_block_len))
unfolding total_len
total_len_below len zero h k = ground arith
total_len_below len (suc n) h k =
    rw (total_len_below len n h (omega arith), block_len-ret len n h k) (ground arith)

-- For every `u32` piece length, the blocks at the indices below `block_count` have a length each,
-- none of them panics, and the lengths add up to the piece's.
pub blocks_partition : (len : ℕ) → len < 2 ^ 32 → total_len len (block_count len) ≡ ret len
unfolding block_count
blocks_partition len h = rw (total_len_below len (block_count len) h (omega arith)) (ground arith)

-- For an index below `block_count`, the block at that index has a length from 1 to `BLOCK_LEN`, and
-- `index_in_piece` recovers the index from the block's offset.
index_in_piece-block_len :
    (len i p l : ℕ)
    → len < 2 ^ 32
    → i < block_count len
    → block_len len i ≡ ret l
    → (0 < l)
      × (l ≤ full_block_len)
      × (index_in_piece (record { piece_index = p; offset = i * full_block_len; len = l }) ≡ ret i)
unfolding block_len block_count index_in_piece
index_in_piece-block_len len i p l h k e = ground arith
