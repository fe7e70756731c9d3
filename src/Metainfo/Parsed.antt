-- ===== src/Metainfo/Parsed.antt =====
-- What a metainfo that `from_bytes` returns guarantees, and the storage that is made from it.
use Prim.Native.String.{String}
use cratetorrent.Prelude.{
  ℕ, ◌-◌, ◌*◌, ◌/◌, ◌%◌, ◌^◌, ◌<◌, ◌≤◌, ◌≡◌, inl, inr, refl, subst, Option, none, some, List, [],
  ◌∷◌, Checked, ret, panic, Bool-cases, ==_iff, ◌==◌, if◌then◌else◌, length,
}
use cratetorrent.Storage.{FileInfo, StorageInfo}
use cratetorrent.Storage as Storage
use cratetorrent.Storage.Layout.{IsLaidOut, sum_len}
use cratetorrent.Storage.Pieces.{NewOutcome, new_lem}
use cratetorrent.Metainfo.Structure.{raw_total, StructureOutcome, files_of-StructureOutcome}
use cratetorrent.Metainfo.{
  RawFile, RawMetainfo, ParseApi, ParseResult, ok, err, MetainfoError, bencode, invalid_pieces,
  invalid_tracker_url, and_then, or_err, Metainfo, files_of, tier_urls, list_urls, trackers_of,
  from_raw, from_bytes,
}

-- The part of the metainfo that the storage is computed from.
abbrev pub storage_part : (api : ParseApi) → Metainfo api → Storage.Metainfo
storage_part api m = record {
  name = m.name;
  pieces_len = length m.pieces;
  piece_len = m.piece_len;
  files = m.files;
}

module _ (api : ParseApi) where
  -- The parser yields numbers of the types that they are parsed to.
  abbrev pub ParsesWords : Type 0
  ParsesWords =
      (buf : List ℕ) (raw : RawMetainfo)
      → api.parse_raw buf ≡ some raw
      → ((len : ℕ) → raw.info.len ≡ some len → len < 2 ^ 64) × (raw.info.piece_len < 2 ^ 32)

  abbrev pub ParseOutcome : List ℕ → Checked (ParseResult (Metainfo api)) → Type 0
  ParseOutcome buf panic =
      (raw : RawMetainfo) × (fs : List RawFile) × (api.parse_raw buf ≡ some raw)
      × (raw.info.files ≡ some fs)
      × (2 ^ 64 ≤ raw_total fs)
  ParseOutcome buf (ret (err e)) = Unit
  ParseOutcome buf (ret (ok m)) =
      IsLaidOut 0 m.files
      × (0 < length m.files)
      × (sum_len m.files < 2 ^ 64)
      × (length m.pieces % 20 ≡ 0)
      × (m.piece_len < 2 ^ 32)

  -- Nothing about the trackers panics.
  abbrev Returns {ℓ} : {A : Type ℓ} → Checked (ParseResult A) → Type 0
  Returns panic = ⊥
  Returns (ret r) = Unit

  and_then-Returns {ℓ κ} :
      {A : Type ℓ} {B : Type κ} (m : Checked (ParseResult A)) (k : A → Checked (ParseResult B))
      → Returns m
      → ((a : A) → Returns (k a))
      → Returns (and_then m k)
  and_then-Returns panic k r h = r
  and_then-Returns (ret (err e)) k r h = tt
  and_then-Returns (ret (ok a)) k r h = h a

  or_err-Returns {ℓ} : {A : Type ℓ} (e : MetainfoError) (o : Option A) → Returns (or_err e o)
  or_err-Returns e none = tt
  or_err-Returns e (some a) = tt

  tier_urls-Returns : (ts : List String) → Returns (tier_urls api ts)
  unfolding tier_urls
  tier_urls-Returns [] = tt
  tier_urls-Returns (t ∷ ts) =
      and_then-Returns (or_err invalid_tracker_url (api.parse_url t)) _
        (or_err-Returns invalid_tracker_url (api.parse_url t))
        λ u. and_then-Returns (tier_urls api ts) _ (tier_urls-Returns ts) λ us. tt

  list_urls-Returns : (tiers : List (List String)) → Returns (list_urls api tiers)
  unfolding list_urls
  list_urls-Returns [] = tt
  list_urls-Returns (tier ∷ tiers) =
      and_then-Returns (tier_urls api tier) _ (tier_urls-Returns tier)
        λ us. and_then-Returns (list_urls api tiers) _ (list_urls-Returns tiers) λ vs. tt

  trackers_of-Returns :
      (announce : Option String) (tiers : List (List String))
      → Returns (trackers_of api announce tiers)
  unfolding trackers_of
  trackers_of-Returns none [] = tt
  trackers_of-Returns (some t) [] =
      and_then-Returns (or_err invalid_tracker_url (api.parse_url t)) _
        (or_err-Returns invalid_tracker_url (api.parse_url t)) λ u. tt
  trackers_of-Returns none (tier ∷ tiers) = list_urls-Returns (tier ∷ tiers)
  trackers_of-Returns (some t) (tier ∷ tiers) = list_urls-Returns (tier ∷ tiers)

  from_raw-ParseOutcome :
      (buf : List ℕ) (raw : RawMetainfo)
      → api.parse_raw buf ≡ some raw
      → ((len : ℕ) → raw.info.len ≡ some len → len < 2 ^ 64)
      → raw.info.piece_len < 2 ^ 32
      → length raw.info.pieces % 20 ≡ 0
      → ParseOutcome buf (from_raw api raw)
  unfolding from_raw
  from_raw-ParseOutcome buf raw e w wp p =
      by_files (files_of api raw.info.name raw.info.len raw.info.files)
        (files_of-StructureOutcome api raw.info.name raw.info.len raw.info.files w)
    where
      hashed :
          (files : List FileInfo) (trackers : List api.Url) (o : Option (List ℕ))
          → StructureOutcome api raw.info.files (ret (ok files))
          → ParseOutcome buf (
              and_then (or_err bencode o) λ hash. ret (
                ok (record {
                  name = raw.info.name;
                  info_hash = hash;
                  pieces = raw.info.pieces;
                  piece_len = raw.info.piece_len;
                  files = files;
                  trackers = trackers;
                })))
      hashed files trackers none a = tt
      hashed files trackers (some hash) (laid, some_file, fits) = (laid, some_file, fits, p, wp)

      by_trackers :
          (files : List FileInfo) (r : Checked (ParseResult (List api.Url)))
          → Returns r
          → StructureOutcome api raw.info.files (ret (ok files))
          → ParseOutcome buf (
              and_then r λ trackers. and_then (or_err bencode (api.info_hash raw.info)) λ hash.
                ret (
                  ok (record {
                    name = raw.info.name;
                    info_hash = hash;
                    pieces = raw.info.pieces;
                    piece_len = raw.info.piece_len;
                    files = files;
                    trackers = trackers;
                  })))
      by_trackers files panic r a = elim r [ ]
      by_trackers files (ret (err t)) r a = tt
      by_trackers files (ret (ok trackers)) r a = hashed files trackers (api.info_hash raw.info) a

      by_files :
          (r : Checked (ParseResult (List FileInfo)))
          → StructureOutcome api raw.info.files r
          → ParseOutcome buf (
              and_then r λ files.
                and_then (trackers_of api raw.announce raw.announce_list) λ trackers.
                  and_then (or_err bencode (api.info_hash raw.info)) λ hash. ret (
                    ok (record {
                      name = raw.info.name;
                      info_hash = hash;
                      pieces = raw.info.pieces;
                      piece_len = raw.info.piece_len;
                      files = files;
                      trackers = trackers;
                    })))
      by_files panic (fs, same, over) = (raw, fs, e, same, over)
      by_files (ret (err x)) a = tt
      by_files (ret (ok files)) a =
          by_trackers files (trackers_of api raw.announce raw.announce_list)
            (trackers_of-Returns raw.announce raw.announce_list) a

  -- With a parser that yields numbers of their types, `from_bytes` on any buffer panics only if the
  -- lengths of the listed files add up to 2^64 or more. The metainfo that it returns has at least one
  -- file, its files each have bytes and lie one after the other from offset 0 to below 2^64, and its
  -- hashes take a multiple of 20 bytes.
  pub from_bytes_lem : ParsesWords → (buf : List ℕ) → ParseOutcome buf (from_bytes api buf)
  unfolding from_bytes
  from_bytes_lem words buf = parsed (api.parse_raw buf) refl
    where
      parsed :
          (o : Option RawMetainfo)
          → api.parse_raw buf ≡ o
          → ParseOutcome buf (
              and_then (or_err bencode o) λ raw.
                if length raw.info.pieces % 20 == 0
                then from_raw api raw
                else ret (err invalid_pieces))
      parsed none e = tt
      parsed (some raw) e = elim (Bool-cases (length raw.info.pieces % 20 == 0)) [
        | inl z ↦ rw z (
            let (w, wp) = words buf raw e in
            from_raw-ParseOutcome buf raw e w wp ((==_iff (length raw.info.pieces % 20) 0).0 z))
        | inr z ↦ rw z tt
      ]

  -- For a metainfo that `from_bytes` has returned, with a parser that yields numbers of their types: if
  -- its hashes are as many as the pieces that its files' bytes take, `StorageInfo::new` does not
  -- panic, and its pieces make up the files.
  pub from_bytes-new :
      ParsesWords
      → (buf : List ℕ) (m : Metainfo api) → from_bytes api buf ≡ ret (ok m)
      → sum_len m.files ≤ (length m.pieces / 20) * m.piece_len
      → (length m.pieces / 20 - 1) * m.piece_len < sum_len m.files
      → (join : String → String → String) (dir : String)
      → NewOutcome (storage_part api m) (Storage.new join (storage_part api m) dir)
  from_bytes-new words buf m e enough needed join dir =
      let (laid, _, fits, _, wp) : ParseOutcome buf (ret (ok m)) =
        subst (ParseOutcome buf) e (from_bytes_lem words buf) in
      new_lem join (storage_part api m) dir
        record { laid_out = laid; fits = fits; word = wp; enough = enough; needed = needed }
