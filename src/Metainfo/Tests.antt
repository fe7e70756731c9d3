-- ===== src/Metainfo/Tests.antt =====
-- A metainfo of two files in one piece, from a parser that yields it for every buffer.
use Prim.Native.String.{String}
use cratetorrent.Prelude.{
  ℕ, ◌≡◌, ◌<◌, ◌^◌, subst, refl, arith, false, true, none, some, [], ◌∷◌, ret, replicate,
}
use cratetorrent.Storage as Storage
use cratetorrent.Storage.Pieces.{NewOutcome}
use cratetorrent.Metainfo.{
  ParseApi, RawMetainfo, Metainfo, ok, from_bytes, files_of, trackers_of, from_raw, files_from,
}
use cratetorrent.Metainfo.Parsed.{
  ParsesWords, ParseOutcome, storage_part, from_bytes_lem, from_bytes-new,
}

abbrev two_files : RawMetainfo
two_files = record {
  info = record {
    name = "t";
    pieces = replicate 20 1;
    piece_len = 8;
    len = none;
    files = some (record { path = "a" ∷ []; len = 3 } ∷ record { path = "b" ∷ []; len = 4 } ∷ []);
    private = none;
  };
  announce = some "http://x";
  announce_list = [];
}

abbrev api : ParseApi
api = record {
  Url = String;
  collect = λ parts. "p";
  into_path = λ name. name;
  is_empty_path = λ path. false;
  is_absolute = λ path. false;
  is_root = λ path. false;
  parse_url = λ url. some url;
  is_http = λ url. true;
  is_https = λ url. false;
  parse_raw = λ buf. some two_files;
  info_hash = λ info. some (9 ∷ []);
}

abbrev parsed : Metainfo api
parsed = record {
  name = "t";
  info_hash = 9 ∷ [];
  pieces = replicate 20 1;
  piece_len = 8;
  files =
      record { path = "p"; len = 3; torrent_offset = 0 }
      ∷ record { path = "p"; len = 4; torrent_offset = 3 }
      ∷ [];
  trackers = "http://x" ∷ [];
}

api-ParsesWords : ParsesWords api
api-ParsesWords buf raw e =
    let same : two_files ≡ raw = cc in subst Fits same (λ len f. cc, omega arith)
  where
    Fits : RawMetainfo → Type 0
    Fits raw = ((len : ℕ) → raw.info.len ≡ some len → len < 2 ^ 64) × (raw.info.piece_len < 2 ^ 32)

from_bytes-parsed : from_bytes api [] ≡ ret (ok parsed)
unfolding from_bytes from_raw files_of files_from trackers_of
from_bytes-parsed = refl

from_bytes_lem_example : ParseOutcome api [] (from_bytes api [])
from_bytes_lem_example = from_bytes_lem api api-ParsesWords []

from_bytes-new_example :
    NewOutcome (storage_part api parsed) (Storage.new (λ a b. b) (storage_part api parsed) "d")
from_bytes-new_example =
    from_bytes-new api api-ParsesWords [] parsed from_bytes-parsed (omega arith) (omega arith)
      (λ a b. b) "d"
