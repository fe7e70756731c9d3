-- ===== src/Metainfo/Structure.antt =====
-- The files of a metainfo that `from_bytes` accepts lie one after the other.
use Prim.Native.String.{String}
use cratetorrent.Prelude.{
  ℕ, ◌+◌, ◌^◌, ◌<◌, ◌≤◌, ◌≡◌, ◌⊎◌, inl, inr, refl, ap, map, arith, true, false, Option, none, some,
  List, [], ◌∷◌, Checked, ret, panic, Bool-cases, ltb, ltb→lt, ltb_false→le, ◌==◌, length,
}
use cratetorrent.Storage.{FileInfo}
use cratetorrent.Storage.Layout.{IsLaidOut, sum_len}
use cratetorrent.Metainfo.{
  RawFile, ParseApi, ParseResult, ok, err, invalid_metainfo, and_then, is_invalid, files_from,
  files_of,
}

-- The bytes of all files that the metainfo lists.
abbrev pub raw_total : List RawFile → ℕ
raw_total [] = 0
raw_total (f ∷ fs) = f.len + raw_total fs

-- The lengths of files.
abbrev pub raw_lens : List RawFile → List ℕ
raw_lens fs = map (λ f. f.len) fs

abbrev pub lens : List FileInfo → List ℕ
lens fs = map (λ f. f.len) fs

module _ (api : ParseApi) where
  abbrev AnyInvalid : List RawFile → Type 0
  AnyInvalid [] = ⊥
  AnyInvalid (f ∷ fs) = (is_invalid api f ≡ true) ⊎ AnyInvalid fs

  -- What the loop over the files may return.
  abbrev FilesOutcome : ℕ → List RawFile → Checked (ParseResult (List FileInfo)) → Type 0
  FilesOutcome o fs panic = 2 ^ 64 ≤ o + raw_total fs
  FilesOutcome o fs (ret (err e)) = (e ≡ invalid_metainfo) × AnyInvalid fs
  FilesOutcome o fs (ret (ok files)) =
      IsLaidOut o files × (o + sum_len files < 2 ^ 64) × (lens files ≡ raw_lens fs)

  files_from-FilesOutcome :
      (o : ℕ) (fs : List RawFile) → o < 2 ^ 64 → FilesOutcome o fs (files_from api o fs)
  unfolding files_from
  files_from-FilesOutcome o [] h = (tt, omega arith, refl)
  files_from-FilesOutcome o (f ∷ fs) h = elim (Bool-cases (is_invalid api f)) [
    | inl i ↦ rw i (refl, inl i)
    | inr v ↦ rw v (elim (Bool-cases (ltb (o + f.len) (2 ^ 64))) [
      | inl t ↦ rw t (
          let lt = ltb→lt (o + f.len) (2 ^ 64) t in
          more v (files_from api (o + f.len) fs) (files_from-FilesOutcome (o + f.len) fs lt))
      | inr t ↦ rw t (let le = ltb_false→le (o + f.len) (2 ^ 64) t in omega arith)
    ])
  ]
    where
      pos : is_invalid api f ≡ false → 0 < f.len
      pos v = ground arith

      more :
          is_invalid api f ≡ false
          → (r : Checked (ParseResult (List FileInfo))) → FilesOutcome (o + f.len) fs r
          → FilesOutcome o (f ∷ fs) (
              and_then r λ files. ret (
                ok (record { path = api.collect f.path; len = f.len; torrent_offset = o } ∷ files)))
      more v panic a = omega arith
      more v (ret (err e)) (same, a) = (same, inr a)
      more v (ret (ok files)) (laid, fits, same) =
          ((refl, pos v, laid), omega arith, ap (λ ls. f.len ∷ ls) same)

  -- What the structure of the download may be.
  abbrev pub StructureOutcome :
      Option (List RawFile) → Checked (ParseResult (List FileInfo)) → Type 0
  StructureOutcome files panic = (fs : List RawFile) × (files ≡ some fs) × (2 ^ 64 ≤ raw_total fs)
  StructureOutcome files (ret (err e)) = Unit
  StructureOutcome files (ret (ok fs)) = IsLaidOut 0 fs × (0 < length fs) × (sum_len fs < 2 ^ 64)

  FilesOutcome-StructureOutcome :
      (f : RawFile) (fs : List RawFile) (r : Checked (ParseResult (List FileInfo)))
      → FilesOutcome 0 (f ∷ fs) r
      → StructureOutcome (some (f ∷ fs)) r
  FilesOutcome-StructureOutcome f fs panic a = (f ∷ fs, refl, omega arith)
  FilesOutcome-StructureOutcome f fs (ret (err e)) a = tt
  FilesOutcome-StructureOutcome f fs (ret (ok [])) (laid, fits, same) = cc
  FilesOutcome-StructureOutcome f fs (ret (ok (x ∷ xs))) (laid, fits, same) =
      (laid, omega arith, omega arith)

  pub files_of-StructureOutcome :
      (name : String) (len : Option ℕ) (files : Option (List RawFile))
      → ((l : ℕ) → len ≡ some l → l < 2 ^ 64)
      → StructureOutcome files (files_of api name len files)
  unfolding files_of
  files_of-StructureOutcome name (some len) (some fs) w = tt
  files_of-StructureOutcome name (some len) none w = elim (Bool-cases (len == 0)) [
    | inl z ↦ rw z tt
    | inr z ↦ let h = w len refl in rw z ((refl, ground arith, tt), omega arith, omega arith)
  ]
  files_of-StructureOutcome name none (some []) w = tt
  files_of-StructureOutcome name none (some (f ∷ fs)) w =
      FilesOutcome-StructureOutcome f fs _ (files_from-FilesOutcome 0 (f ∷ fs) (omega arith))
  files_of-StructureOutcome name none none w = tt
