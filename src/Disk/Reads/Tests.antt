-- ===== src/Disk/Reads/Tests.antt =====
-- A cache of one piece, and a torrent of two files.
use cratetorrent.Prelude.{
  ℕ, ◌≡◌, inl, inr, refl, arith, true, Bool-cases, ==_iff, ◌==◌, if◌then◌else◌, Option, none, some,
  List, [], ◌∷◌, ret, map,
}
use cratetorrent.Block.{BlockInfo, block_count, index_in_piece}
use cratetorrent.Storage.{StorageInfo, piece_len}
use cratetorrent.Disk.Read.Tests.{whole_api, whole_api-ReadsFile, two_files}
use cratetorrent.Disk.Reads.{CacheApi, block, sends, read_block, on_hit}
use cratetorrent.Disk.Reads.Bytes.{IsCache, IsSeed}
use cratetorrent.Disk.Reads.Served.{IsBlock, IsCoherent, Serves, read_block_lem}

abbrev found : Option (ℕ × List (List ℕ)) → ℕ → Option (List (List ℕ))
found none j = none
found (some (i, line)) j = if i == j then some line else none

abbrev pub one_piece : CacheApi
one_piece = record {
  Cache = Option (ℕ × List (List ℕ));
  get = λ cache i. (found cache i, cache);
  put = λ cache i line. some (i, line);
}

found_put :
    (i j : ℕ) {line blocks : List (List ℕ)}
    → found (some (i, line)) j ≡ some blocks
    → (i ≡ j) × (line ≡ blocks)
found_put i j e = elim (Bool-cases (i == j)) [
  | inl t ↦ ((==_iff i j).0 t, ground arith)
  | inr t ↦ absurd (ground arith)
]

one_piece-IsCache : IsCache one_piece
one_piece-IsCache = record {
  get_keeps = λ cache i j e. e;
  put_holds = λ cache i j e. inl (found_put i j e);
}

abbrev pub storage : StorageInfo
storage = record {
  piece_count = 2;
  piece_len = 4;
  last_piece_len = 4;
  download_len = 8;
  download_dir = "d";
  files = map (λ x. x.0) two_files;
}

two_files-IsSeed : IsSeed whole_api true storage two_files
two_files-IsSeed = record {
  valid = omega arith;
  same = refl;
  stored = (refl, omega arith, refl, (refl, omega arith, refl, tt));
}

abbrev request : BlockInfo
request = record { piece_index = 1; offset = 0; len = 4 }

request-IsBlock : IsBlock one_piece whole_api true storage two_files request
unfolding piece_len block_count
request-IsBlock = record {
  at = 0;
  len = 4;
  len_ret = refl;
  in_torrent = omega arith;
  in_piece = omega arith;
  offset_at = refl;
  len_is = refl;
}

none-IsCoherent : IsCoherent one_piece whole_api true storage two_files none
none-IsCoherent i len blocks e f = cc

read_block_lem_example :
    Serves one_piece whole_api true storage two_files true request
      (read_block one_piece true true storage request none)
read_block_lem_example =
    read_block_lem one_piece whole_api true storage two_files one_piece-IsCache whole_api-ReadsFile
      two_files-IsSeed true true request none none-IsCoherent request-IsBlock

-- A request for a part of a block is answered with the whole block.
part_of_block :
    read_block one_piece true true storage
      (record { piece_index = 1; offset = 1; len = 2 })
      (some (1, (5 ∷ 6 ∷ 7 ∷ 8 ∷ []) ∷ []))
    ≡ ret (
      sends (block (record { piece_index = 1; offset = 1; len = 2 }) (5 ∷ 6 ∷ 7 ∷ 8 ∷ [])),
      some (1, (5 ∷ 6 ∷ 7 ∷ 8 ∷ []) ∷ []),
    )
unfolding read_block on_hit index_in_piece
part_of_block = refl
