-- ===== src/Disk/Read/Tests.antt =====
-- Files that are lists of bytes, with a system call that reads as much as it can, and one that reads at
-- most two bytes.
use cratetorrent.Prelude.{
  ℕ, zero, suc, ◌≡◌, refl, ap, arith, min, true, Option, some, List, [], ◌∷◌, ret, length,
  length-take, subst, take, drop,
}
use cratetorrent.Block.{block_count, block_len}
use cratetorrent.Storage.{FileSlice, Range, get_slice, torrent_end_offset}
use cratetorrent.IoVecs.{count_whole, trim_first}
use cratetorrent.IoVecs.Bytes.{flatten}
use cratetorrent.IoVecs.Mutable.{advance}
use cratetorrent.Disk.Read.{
  ReadApi, got, failed, missing_data, Files, read, read_loop, after_read, read_piece, read_files,
  new_blocks, cut,
}
use cratetorrent.Disk.Read.Loop.{ReadsFile, Reads, read_lem}
use cratetorrent.Disk.Read.Files.{Spans}
use cratetorrent.Disk.Read.Piece.{ReadsPiece, files_of, read_piece_lem}

abbrev pub whole_api : ReadApi
whole_api = record {
  File = List ℕ;
  contents = λ f. f;
  preadv = λ f bufs offset. some (take (length (flatten bufs)) (drop offset f));
}

take-length-take : (n : ℕ) (xs : List ℕ) → take n xs ≡ take (length (take n xs)) xs
take-length-take zero xs = refl
take-length-take (suc n) [] = refl
take-length-take (suc n) (x ∷ xs) = ap (λ ys. x ∷ ys) (take-length-take n xs)

some_inj : {xs ys : List ℕ} → ◌≡◌ {A = Option (List ℕ)} (some xs) (some ys) → xs ≡ ys
some_inj e = cc

pub whole_api-ReadsFile : ReadsFile whole_api
whole_api-ReadsFile = record {
  fits = λ f bufs offset e.
      omega (arith, ap length (some_inj e), length-take (length (flatten bufs)) (drop offset f));
  there = λ f bufs offset e.
      subst (λ ys. ys ≡ take (length ys) (drop offset f)) (some_inj e)
        (take-length-take (length (flatten bufs)) (drop offset f));
}

abbrev short_api : ReadApi
short_api = record {
  File = List ℕ;
  contents = λ f. f;
  preadv = λ f bufs offset. some (take (min 2 (length (flatten bufs))) (drop offset f));
}

short_api-ReadsFile : ReadsFile short_api
short_api-ReadsFile = record {
  fits = λ f bufs offset e.
      omega (
        arith,
        ap length (some_inj e),
        length-take (min 2 (length (flatten bufs))) (drop offset f),
      );
  there = λ f bufs offset e.
      subst (λ ys. ys ≡ take (length ys) (drop offset f)) (some_inj e)
        (take-length-take (min 2 (length (flatten bufs))) (drop offset f));
}

abbrev slice : FileSlice
slice = record { offset = 1; len = 4 }

read_lem_example :
    Reads short_api slice
      (1 ∷ 2 ∷ 3 ∷ 4 ∷ 5 ∷ [])
      ((0 ∷ 0 ∷ 0 ∷ []) ∷ (0 ∷ []) ∷ [])
      (read short_api 4 slice (1 ∷ 2 ∷ 3 ∷ 4 ∷ 5 ∷ []) ((0 ∷ 0 ∷ 0 ∷ []) ∷ (0 ∷ []) ∷ []))
read_lem_example =
    read_lem short_api short_api-ReadsFile slice (1 ∷ 2 ∷ 3 ∷ 4 ∷ 5 ∷ [])
      ((0 ∷ 0 ∷ 0 ∷ []) ∷ (0 ∷ []) ∷ []) (omega arith)

-- After a call that transfers less, the next call reads from the same offset again.
reads_again :
    read short_api 4 slice (1 ∷ 2 ∷ 3 ∷ 4 ∷ 5 ∷ []) ((0 ∷ 0 ∷ 0 ∷ []) ∷ (0 ∷ []) ∷ [])
    ≡ ret (got (2 ∷ 3 ∷ 2 ∷ 3 ∷ [], []))
unfolding read read_loop after_read advance count_whole trim_first
reads_again = refl

-- So a file that lacks the slice's last bytes is not found out.
reads_part :
    read whole_api 4 slice (1 ∷ 2 ∷ 3 ∷ []) ((0 ∷ 0 ∷ 0 ∷ []) ∷ (0 ∷ []) ∷ [])
    ≡ ret (got (2 ∷ 3 ∷ 2 ∷ 3 ∷ [], []))
unfolding read read_loop after_read advance count_whole trim_first
reads_part = refl

reads_nothing :
    read whole_api 4 slice (1 ∷ []) ((0 ∷ 0 ∷ 0 ∷ 0 ∷ []) ∷ []) ≡ ret (failed missing_data)
unfolding read read_loop after_read
reads_nothing = refl

abbrev pub two_files : Files whole_api
two_files =
    (record { path = "a"; len = 3; torrent_offset = 0 }, 1 ∷ 2 ∷ 3 ∷ [])
    ∷ (record { path = "b"; len = 5; torrent_offset = 3 }, 4 ∷ 5 ∷ 6 ∷ 7 ∷ 8 ∷ [])
    ∷ []

abbrev both : Range
both = record { start = 0; end = 2 }

piece-Spans : Spans whole_api true 0 2 4 (files_of whole_api both two_files)
piece-Spans = record {
  stored = (refl, omega arith, refl, (refl, omega arith, refl, tt));
  after_start = omega arith;
  first_has = omega arith;
  all_before = (omega arith, (omega arith, tt));
  inside = omega arith;
  word = omega arith;
}

read_piece_lem_example :
    ReadsPiece whole_api true 0 2 4
      (files_of whole_api both two_files)
      (read_piece whole_api true 2 both two_files 4)
read_piece_lem_example =
    read_piece_lem whole_api true whole_api-ReadsFile 2 0 4 both two_files (omega arith)
      (omega arith) (omega arith) (omega arith) piece-Spans

reads_two_files :
    read_piece whole_api true 2 both two_files 4 ≡ ret (got ((3 ∷ 4 ∷ 5 ∷ 6 ∷ []) ∷ []))
unfolding read_piece read_files new_blocks cut read read_loop after_read advance count_whole
    trim_first get_slice torrent_end_offset block_count block_len
reads_two_files = refl
