-- ===== src/Storage/Tests.antt =====
-- Two files of 5 and 7 bytes, in pieces of 4.
use cratetorrent.Prelude.{◌≡◌, refl, arith, List, [], ◌∷◌, ret, panic}
use Prim.Native.String.{String}
use cratetorrent.Storage.{
  FileInfo, Metainfo, StorageInfo, byte_range, torrent_end_offset, find_start, extend_end,
  files_intersecting_bytes, files_intersecting_piece, piece_len, get_slice, new,
}
use cratetorrent.Storage.Intersect.{Intersects, files_intersecting_bytes_lem}
use cratetorrent.Storage.Pieces.{IsValid, IsConsistent, NewOutcome, new_lem}

abbrev two_files : List FileInfo
two_files =
    record { path = "a"; len = 5; torrent_offset = 0 }
    ∷ record { path = "b"; len = 7; torrent_offset = 5 }
    ∷ []

abbrev info : StorageInfo
info = record {
  piece_count = 3;
  piece_len = 4;
  last_piece_len = 4;
  download_len = 12;
  download_dir = "d";
  files = two_files;
}

abbrev metainfo : Metainfo
metainfo = record { name = "t"; pieces_len = 60; piece_len = 4; files = two_files }

abbrev first_dir : String → String → String
first_dir dir name = dir

info-IsValid : IsValid info
info-IsValid = omega arith

metainfo-IsConsistent : IsConsistent metainfo
metainfo-IsConsistent = omega arith

second_piece : files_intersecting_piece info 1 ≡ ret (record { start = 0; end = 2 })
unfolding files_intersecting_piece files_intersecting_bytes piece_len find_start extend_end
    byte_range torrent_end_offset
second_piece = refl

file_slice :
    get_slice (record { path = "f"; len = 500; torrent_offset = 200 }) 300 1000
    ≡ ret (record { offset = 100; len = 400 })
unfolding get_slice torrent_end_offset
file_slice = refl

before_file : get_slice (record { path = "f"; len = 500; torrent_offset = 200 }) 100 400 ≡ panic
unfolding get_slice
before_file = refl

files_intersecting_bytes_lem_example :
    Intersects two_files
      (record { start = 4; end = 6 })
      (files_intersecting_bytes two_files (record { start = 4; end = 6 }))
files_intersecting_bytes_lem_example =
    files_intersecting_bytes_lem two_files (record { start = 4; end = 6 }) (omega arith)
      (omega arith) (omega arith) (omega arith)

new_lem_example : NewOutcome metainfo (new first_dir metainfo "d")
new_lem_example = new_lem first_dir metainfo "d" metainfo-IsConsistent
