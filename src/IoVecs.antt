-- ===== src/IoVecs.antt =====
-- cratetorrent/src/iovecs.rs: buffers bounded by a byte count, with a cursor. An `IoVec` is the bytes
-- that it points to, and so is the `RawBuf` that keeps the second half of a split buffer: the code
-- moves the ends of slices and never writes to the memory behind them.
pub mod Bytes
pub mod Bound
pub mod Cursor
pub mod Tail
pub mod Boundary
pub mod Mutable
mod Tests
use cratetorrent.Prelude.{
  ℕ, zero, suc, ◌+◌, ◌-◌, ◌*◌, Bool, true, false, not, ◌&&◌, Option, none, some, List, [], ◌∷◌,
  Checked, ret, panic, ◌>>=◌, ◌>>◌, assert, index, sub_checked, ltb, leb, ◌==◌, if◌then◌else◌,
  length, set, take, drop,
}

-- `IoVec<&[u8]>`.
abbrev pub IoVec : Type 0
IoVec = List ℕ

pub record Split : Type 0 where
  pub pos : ℕ
  pub split_buf_second_half : Option IoVec

pub record IoVecs : Type 0 where
  pub bufs : List IoVec
  pub split : Option Split

unfoldable pub unbounded : List IoVec → IoVecs
unbounded bufs = record { bufs = bufs; split = none }

unfoldable pub split_at_buffer_boundary : List IoVec → ℕ → IoVecs
split_at_buffer_boundary bufs pos = record {
  bufs = bufs;
  split = some (record { pos = pos; split_buf_second_half = none });
}

unfoldable pub split_within_buffer : List IoVec → ℕ → ℕ → Checked IoVecs
split_within_buffer bufs split_pos buf_split_pos = do
  buf_to_split ← index bufs split_pos
  assert (leb buf_split_pos (length buf_to_split))
  ret (record {
    bufs = set bufs split_pos (take buf_split_pos buf_to_split);
    split = some (record {
      pos = split_pos;
      split_buf_second_half = some (drop buf_split_pos buf_to_split);
    });
  })

-- `iter().position(…)` with the running total: the first buffer at which the bytes from the start,
-- `bufs_len` so far, reach `max_len`, and their number there.
unfoldable pub find_split : List IoVec → ℕ → ℕ → ℕ → Option (ℕ × ℕ)
find_split [] pos bufs_len max_len = none
find_split (b ∷ bs) pos bufs_len max_len =
    let rest = find_split bs (suc pos) (bufs_len + length b) max_len in
    if leb max_len (bufs_len + length b) then some (pos, bufs_len + length b) else rest

-- What `bounded` does with the position.
unfoldable pub bound_at : List IoVec → ℕ → Option (ℕ × ℕ) → Checked IoVecs
bound_at bufs max_len none = ret (unbounded bufs)
bound_at bufs max_len (some (pos, bufs_len)) =
    let within : Checked IoVecs = (do
      buf_to_split ← index bufs pos
      buf_offset ← sub_checked bufs_len (length buf_to_split)
      buf_split_pos ← sub_checked max_len buf_offset
      assert (ltb buf_split_pos (length buf_to_split))
      split_within_buffer bufs pos buf_split_pos) in
    if bufs_len == max_len
    then if (pos + 1) == length bufs
      then ret (unbounded bufs)
      else ret (split_at_buffer_boundary bufs pos)
    else within

unfoldable pub bounded : List IoVec → ℕ → Checked IoVecs
unfolding find_split bound_at split_within_buffer
bounded bufs max_len = do
  assert (ltb 0 max_len)
  bound_at bufs max_len (find_split bufs 0 0 max_len)

-- The mark that the first half is used up: an empty buffer at split position 0.
abbrev pub is_used_up : ℕ → List IoVec → Bool
is_used_up pos [] = false
is_used_up pos (b ∷ bs) = pos == 0 && length b == 0

-- `&bufs[0..=pos]` panics if the position is out of range.
abbrev pub slice_of : List IoVec → Option Split → Checked (List IoVec)
slice_of bufs none = ret bufs
slice_of bufs (some split) =
    if is_used_up split.pos bufs
    then ret []
    else if ltb split.pos (length bufs)
    then ret (take (suc split.pos) bufs)
    else panic

unfoldable pub as_slice : IoVecs → Checked (List IoVec)
as_slice s = slice_of s.bufs s.split

-- The loop that counts the whole buffers among the first `n` bytes, and their bytes.
unfoldable pub count_whole : List IoVec → ℕ → ℕ → ℕ → ℕ × ℕ
count_whole [] n count total = (count, total)
count_whole (b ∷ bs) n count total =
    let rest = count_whole bs n (count + 1) (total + length b) in
    if ltb n (total + length b) then (count, total) else rest

-- `last().map(len).unwrap_or(0)`.
abbrev pub last_len : List IoVec → ℕ
last_len [] = 0
last_len (b ∷ []) = length b
last_len (b ∷ c ∷ bs) = last_len (c ∷ bs)

-- A split keeps the buffer at its position, so at most the ones before it are removed.
unfoldable pub keep_split_buf : List IoVec → Option Split → ℕ → ℕ × ℕ → Checked (ℕ × ℕ)
keep_split_buf slice none n (count, total) = ret (count, total)
keep_split_buf slice (some split) n (count, total) =
    let keep : Checked (ℕ × ℕ) = (do
      assert (leb n total)
      count' ← sub_checked count 1
      total' ← sub_checked total (last_len slice)
      ret (count', total')) in
    if count == (split.pos + 1) then keep else ret (count, total)

-- The split position after `count` buffers are removed.
abbrev pub move_split : ℕ → Option Split → Option Split
move_split count none = none
move_split count (some split) =
    some (record split { pos = (if leb split.pos count then 0 else split.pos - count) })

-- The first buffer left loses what is left of the `n` bytes.
unfoldable pub trim_first : List IoVec → ℕ → ℕ → Checked (List IoVec)
trim_first [] n total = ret []
trim_first (b ∷ bs) n total = do
  n' ← sub_checked n total
  assert (leb n' (length b))
  ret (drop n' b ∷ bs)

unfoldable pub advance : IoVecs → ℕ → Checked IoVecs
advance s n = do
  slice ← as_slice s
  (count, total) ← keep_split_buf slice s.split n (count_whole slice n 0 0)
  assert (leb count (length s.bufs))
  bufs ← trim_first (drop count s.bufs) n total
  ret (record { bufs = bufs; split = move_split count s.split })

-- The buffers at the split position, restored if it was split.
abbrev pub restore : List IoVec → ℕ → Option IoVec → Checked (List IoVec)
restore bufs pos none = if leb pos (length bufs) then ret (drop pos bufs) else panic
restore bufs pos (some half) =
    if ltb pos (length bufs) then ret (drop pos (set bufs pos half)) else panic

abbrev pub tail_of : List IoVec → Option Split → Checked (List IoVec)
tail_of bufs none = ret []
tail_of bufs (some split) = restore bufs split.pos split.split_buf_second_half

unfoldable pub into_tail : IoVecs → Checked (List IoVec)
into_tail s = tail_of s.bufs s.split
