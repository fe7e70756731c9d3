-- ===== src/Metainfo.antt =====
-- `Metainfo::from_bytes` of cratetorrent/src/metainfo.rs: the checks of a parsed metainfo file. The
-- bencode parser, paths, URLs and SHA-1 are parameters; a path is a string.
pub mod Structure
pub mod Parsed
mod Tests
use Prim.Native.String.{String}
use cratetorrent.Prelude.{
  ℕ, ◌+◌, ◌%◌, Bool, true, false, ◌||◌, Option, none, some, List, [], ◌∷◌, ◌++◌, Checked, ret,
  panic, ◌>>=◌, add_bits, ◌==◌, if◌then◌else◌, length,
}
use cratetorrent.Storage.{FileInfo}

pub record RawFile : Type 0 where
  pub path : List String
  pub len : ℕ

pub record Info : Type 0 where
  pub name : String
  pub pieces : List ℕ
  pub piece_len : ℕ
  pub len : Option ℕ
  pub files : Option (List RawFile)
  pub private : Option ℕ

pub record RawMetainfo : Type 0 where
  pub info : Info
  pub announce : Option String
  pub announce_list : List (List String)

-- `collect` of a path's components, `into` of a name, the tests on paths, the parser of URLs and the
-- test of the scheme, and bencode with the hash of the encoded info.
pub record ParseApi : Type 1 where
  pub Url : Type 0
  pub collect : List String → String
  pub into_path : String → String
  pub is_empty_path : String → Bool
  pub is_absolute : String → Bool
  pub is_root : String → Bool
  pub parse_url : String → Option Url
  pub is_http : Url → Bool
  pub is_https : Url → Bool
  pub parse_raw : List ℕ → Option RawMetainfo
  pub info_hash : Info → Option (List ℕ)

pub data MetainfoError : Type 0 where
  bencode invalid_metainfo invalid_pieces invalid_tracker_url : MetainfoError

pub data ParseResult {ℓ} (A : Type ℓ) : Type ℓ where
  ok : A → ParseResult A
  err : MetainfoError → ParseResult A

-- The operator `?` of Rust, on a result of code that may panic.
abbrev pub and_then {ℓ κ} :
    {A : Type ℓ} {B : Type κ}
    → Checked (ParseResult A)
    → (A → Checked (ParseResult B))
    → Checked (ParseResult B)
and_then panic k = panic
and_then (ret (err e)) k = ret (err e)
and_then (ret (ok a)) k = k a

abbrev pub or_err {ℓ} : {A : Type ℓ} → MetainfoError → Option A → Checked (ParseResult A)
or_err e none = ret (err e)
or_err e (some a) = ret (ok a)

module _ (api : ParseApi) where
  open api use {
    Url, collect, into_path, is_empty_path, is_absolute, is_root, parse_url, is_http, is_https,
    parse_raw, info_hash,
  }

  pub record Metainfo : Type 0 where
    pub name : String
    pub info_hash : List ℕ
    pub pieces : List ℕ
    pub piece_len : ℕ
    pub files : List FileInfo
    pub trackers : List Url

  -- What makes a file of the list invalid.
  abbrev pub is_invalid : RawFile → Bool
  is_invalid f =
      f.len == 0
      || (is_empty_path (collect f.path)
          || (is_absolute (collect f.path) || is_root (collect f.path)))

  -- The loop over the files, from a torrent offset on.
  unfoldable pub files_from : ℕ → List RawFile → Checked (ParseResult (List FileInfo))
  files_from torrent_offset [] = ret (ok [])
  files_from torrent_offset (f ∷ fs) =
      let rest : Checked (ParseResult (List FileInfo)) =
        (add_bits 64 torrent_offset f.len >>= λ next. and_then (files_from next fs) λ files. ret (
          ok (
            record { path = collect f.path; len = f.len; torrent_offset = torrent_offset }
            ∷ files))) in
      if is_invalid f then ret (err invalid_metainfo) else rest

  -- The structure of the download: a single file, or a list of files.
  unfoldable pub files_of :
      String → Option ℕ → Option (List RawFile) → Checked (ParseResult (List FileInfo))
  files_of name (some len) (some files) = ret (err invalid_metainfo)
  files_of name (some len) none =
      if len == 0
      then ret (err invalid_metainfo)
      else ret (ok (record { path = into_path name; len = len; torrent_offset = 0 } ∷ []))
  files_of name none (some []) = ret (err invalid_metainfo)
  files_of name none (some (f ∷ fs)) = files_from 0 (f ∷ fs)
  files_of name none none = ret (err invalid_metainfo)

  -- A tracker is kept if it is reached by HTTP.
  abbrev pub push_http : Url → List Url → List Url
  push_http u us = if is_http u || is_https u then u ∷ us else us

  unfoldable pub tier_urls : List String → Checked (ParseResult (List Url))
  tier_urls [] = ret (ok [])
  tier_urls (t ∷ ts) =
      and_then (or_err invalid_tracker_url (parse_url t))
        λ u. and_then (tier_urls ts) λ us. ret (ok (push_http u us))

  unfoldable pub list_urls : List (List String) → Checked (ParseResult (List Url))
  list_urls [] = ret (ok [])
  list_urls (tier ∷ tiers) =
      and_then (tier_urls tier) λ us. and_then (list_urls tiers) λ vs. ret (ok (us ++ vs))

  -- The announce list, or the one tracker if there is no list.
  unfoldable pub trackers_of : Option String → List (List String) → Checked (ParseResult (List Url))
  trackers_of none [] = ret (ok [])
  trackers_of (some t) [] =
      and_then (or_err invalid_tracker_url (parse_url t)) λ u. ret (ok (push_http u []))
  trackers_of announce (tier ∷ tiers) = list_urls (tier ∷ tiers)

  -- After the pieces have been checked.
  unfoldable pub from_raw : RawMetainfo → Checked (ParseResult Metainfo)
  from_raw raw = and_then (files_of raw.info.name raw.info.len raw.info.files) λ files.
      and_then (trackers_of raw.announce raw.announce_list) λ trackers.
        and_then (or_err bencode (info_hash raw.info)) λ hash. ret (
          ok (record {
            name = raw.info.name;
            info_hash = hash;
            pieces = raw.info.pieces;
            piece_len = raw.info.piece_len;
            files = files;
            trackers = trackers;
          }))

  -- `Metainfo::from_bytes`.
  unfoldable pub from_bytes : List ℕ → Checked (ParseResult Metainfo)
  from_bytes buf =
      and_then (or_err bencode (parse_raw buf))
        λ raw. if length raw.info.pieces % 20 == 0 then from_raw raw else ret (err invalid_pieces)
