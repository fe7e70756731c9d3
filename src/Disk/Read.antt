-- ===== src/Disk/Read.antt =====
-- `TorrentFile::read` of cratetorrent/src/disk/io/file.rs and `read` of piece.rs. The buffers are
-- slices of the blocks that a piece is read into: a buffer is its bytes, and the bytes before the
-- cursor, which were read, are kept beside the buffers. The file and the system call `preadv` are
-- parameters.
pub mod Loop
pub mod Whole
pub mod Files
pub mod Piece
pub mod Span
pub mod Tests
use cratetorrent.Prelude.{
  ℕ, zero, suc, ◌+◌, ◌-◌, Bool, true, false, not, ◌||◌, Option, none, some, List, [], ◌∷◌, ◌++◌,
  Checked, ret, panic, ◌>>=◌, ◌>>◌, assert, add_bits, sub_checked, ltb, leb, ◌==◌, if◌then◌else◌,
  length, replicate, take, drop,
}
use cratetorrent.Block.{block_len, block_count}
use cratetorrent.Storage.{FileInfo, FileSlice, Range, get_slice}
use cratetorrent.Download.{debug_assert}
use cratetorrent.IoVecs.{IoVec}
use cratetorrent.IoVecs.Bytes.{flatten}
use cratetorrent.IoVecs.Mutable.{advance}
use cratetorrent.Disk.File.{is_empty}

-- A file, its bytes, and the system call: the bytes that it has put into the buffers, from the front,
-- or an error.
pub record ReadApi : Type 1 where
  pub File : Type 0
  pub contents : File → List ℕ
  pub preadv : File → List IoVec → ℕ → Option (List ℕ)

-- `ReadError`, without the error that `read_block` finds in its argument.
pub data ReadError : Type 0 where
  io missing_data : ReadError

pub data ReadResult (A : Type 0) : Type 0 where
  got : A → ReadResult A
  failed : ReadError → ReadResult A
  out_of_fuel : ReadResult A

-- The bytes that were read, and the buffers that were not filled.
abbrev pub Filled : Type 0
Filled = List ℕ × List IoVec

module _ (api : ReadApi) where
  open api use {File, preadv}

  -- What follows a system call: the loop goes on with `next`.
  unfoldable pub after_read :
      (List ℕ → List IoVec → ℕ → Checked (ReadResult Filled))
      → List ℕ
      → List IoVec
      → ℕ
      → Option (List ℕ)
      → Checked (ReadResult Filled)
  after_read next done bufs total none = ret (failed io)
  after_read next done bufs total (some []) = ret (failed missing_data)
  after_read next done bufs total (some (b ∷ bs)) = do
    total' ← add_bits 64 total (length (b ∷ bs))
    bufs' ← advance bufs (length (b ∷ bs))
    next (done ++ b ∷ bs) bufs' total'

  -- The loop's condition does not hold.
  abbrev pub is_over : FileSlice → List IoVec → ℕ → Bool
  is_over slice bufs total = is_empty bufs || not (ltb total slice.len)

  -- The loop, with a bound on its rounds.
  unfoldable pub read_loop :
      ℕ → FileSlice → File → List ℕ → List IoVec → ℕ → Checked (ReadResult Filled)
  unfolding after_read
  read_loop zero slice f done bufs total =
      if is_over slice bufs total then ret (got (done, bufs)) else ret out_of_fuel
  read_loop (suc fuel) slice f done bufs total =
      let again =
        after_read (λ done' bufs' total'. read_loop fuel slice f done' bufs' total') done bufs
          total in
      if is_over slice bufs total
      then ret (got (done, bufs))
      else again (preadv f bufs slice.offset)

  -- `TorrentFile::read`.
  unfoldable pub read : ℕ → FileSlice → File → List IoVec → Checked (ReadResult Filled)
  unfolding read_loop
  read fuel slice f bufs = read_loop fuel slice f [] bufs 0

  abbrev pub Files : Type 0
  Files = List (FileInfo × File)

  -- What comes after the read from one file.
  abbrev pub after_file :
      (List ℕ → List IoVec → Checked (ReadResult Filled))
      → ReadResult Filled
      → Checked (ReadResult Filled)
  after_file next (got (bytes, bufs)) = next bytes bufs
  after_file next (failed e) = ret (failed e)
  after_file next out_of_fuel = ret out_of_fuel

  -- The loop of `piece::read` over the files that the piece overlaps with.
  unfoldable pub read_files :
      Bool → ℕ → ℕ → ℕ → List ℕ → List IoVec → Files → Checked (ReadResult Filled)
  read_files dev len offset total done bufs [] = do
    debug_assert dev (total == len)
    ret (got (done, bufs))
  read_files dev len offset total done bufs ((info, f) ∷ fs) = do
    debug_assert dev (ltb total len)
    remaining ← sub_checked len total
    slice ← get_slice info offset remaining
    debug_assert dev (ltb 0 slice.len)
    r ← read slice.len slice f bufs
    after_file
        (λ bytes bufs'. (do
          offset' ← add_bits 64 offset slice.len
          total' ← add_bits 64 total slice.len
          read_files dev len offset' total' (done ++ bytes) bufs' fs))
        r

  -- The blocks of a piece, filled with zeros: those from index `i` on, `n` of them.
  unfoldable pub new_blocks : ℕ → ℕ → ℕ → Checked (List IoVec)
  new_blocks len i zero = ret []
  new_blocks len i (suc n) = do
    block_len ← block_len len i
    rest ← new_blocks len (suc i) n
    ret (replicate block_len 0 ∷ rest)

  -- The memory of all blocks, cut into the blocks.
  unfoldable pub cut : List IoVec → List ℕ → List (List ℕ)
  cut [] bytes = []
  cut (b ∷ bs) bytes = take (length b) bytes ∷ cut bs (drop (length b) bytes)

  abbrev pub into_blocks : List IoVec → ReadResult Filled → ReadResult (List (List ℕ))
  into_blocks blocks (got (bytes, bufs)) = got (cut blocks (bytes ++ flatten bufs))
  into_blocks blocks (failed e) = failed e
  into_blocks blocks out_of_fuel = out_of_fuel

  -- `piece::read`.
  unfoldable pub read_piece : Bool → ℕ → Range → Files → ℕ → Checked (ReadResult (List (List ℕ)))
  unfolding cut
  read_piece dev offset range files len = do
    blocks ← new_blocks len 0 (block_count len)
    assert (leb range.start range.end)
    assert (leb range.end (length files))
    debug_assert dev (ltb range.start range.end)
    r ←
        read_files dev len offset 0 [] blocks
          (take (range.end - range.start) (drop range.start files))
    ret (into_blocks blocks r)
