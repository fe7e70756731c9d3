-- ===== src/Disk/File.antt =====
-- `TorrentFile::write` of cratetorrent/src/disk/io/file.rs. The file and the system call `pwritev`
-- are parameters.
pub mod Write
pub mod Whole
pub mod Tests
use cratetorrent.Prelude.{
  ℕ, zero, suc, ◌+◌, Bool, true, false, Option, none, some, List, [], ◌∷◌, Checked, ret, panic,
  ◌>>=◌, ◌>>◌, assert, add_bits, leb, ◌==◌, if◌then◌else◌, length,
}
use cratetorrent.Storage.{FileSlice}
use cratetorrent.IoVecs.{IoVec, IoVecs, bounded, as_slice, advance, into_tail}

-- The state of a file, the byte at an offset, and the system call, which returns the new state and the
-- number of bytes that it has written, or an error.
pub record FileApi : Type 1 where
  pub File : Type 0
  pub byte_at : File → ℕ → Option ℕ
  pub pwritev : File → List IoVec → ℕ → Option (File × ℕ)

-- The result of a write: the file and the buffers that were not written, or the error.
pub data WriteResult (F : Type 0) : Type 0 where
  written : F → List IoVec → WriteResult F
  io_error : WriteResult F
  out_of_fuel : WriteResult F

abbrev pub total_len : List IoVec → ℕ
total_len [] = 0
total_len (b ∷ bs) = length b + total_len bs

abbrev pub is_empty : List IoVec → Bool
is_empty [] = true
is_empty (b ∷ bs) = false

module _ (api : FileApi) where
  open api use {File, pwritev}

  -- After the loop.
  abbrev pub finish : File → IoVecs → Checked (WriteResult File)
  finish f s = do tail ← into_tail s; ret (written f tail)

  -- What follows a system call: the loop goes on with `next`, unless all bytes are written.
  unfoldable pub after_call :
      (File → IoVecs → ℕ → Checked (WriteResult File))
      → ℕ
      → IoVecs
      → ℕ
      → Option (File × ℕ)
      → Checked (WriteResult File)
  after_call next len s total none = ret io_error
  after_call next len s total (some (f, n)) = do
    total' ← add_bits 64 total n
    if total' == len then finish f s else (advance s n >>= λ s'. next f s' total')

  -- The loop, with a bound on its rounds.
  unfoldable pub write_loop : ℕ → FileSlice → File → IoVecs → ℕ → Checked (WriteResult File)
  unfolding after_call
  write_loop zero slice f s total = ret out_of_fuel
  write_loop (suc fuel) slice f s total =
      let again =
        after_call (λ f' s' total'. write_loop fuel slice f' s' total') slice.len s total in
      do
        bufs ← as_slice s
        if is_empty bufs then finish f s else again (pwritev f bufs slice.offset)

  -- `TorrentFile::write`.
  unfoldable pub write : ℕ → FileSlice → File → List IoVec → Checked (WriteResult File)
  unfolding write_loop
  write fuel slice f blocks = do
    s ← bounded blocks slice.len
    bufs ← as_slice s
    assert (leb (total_len bufs) slice.len)
    write_loop fuel slice f s 0
