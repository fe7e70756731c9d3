-- ===== src/Disk/Reads/Bytes.antt =====
-- The blocks that peers are sent are the torrent's bytes at the places that they asked for.
use cratetorrent.Prelude.{
  inl, inr, ℕ, zero, suc, ◌+◌, ◌-◌, ◌*◌, ◌≤◌, ◌≡◌, ◌⊎◌, refl, sym, ap, subst, ◌∙◌, arith, Bool,
  some, List, [], ◌∷◌, map, ret, length, take, drop, get_elem?, length-append,
}
use cratetorrent.Storage.{StorageInfo}
use cratetorrent.Storage.Layout.{sum_len}
use cratetorrent.Storage.Pieces.{IsValid}
use cratetorrent.Storage.Within.{IsPlaced}
use cratetorrent.Disk.Read.Span.{range-IsRangeOf}
use cratetorrent.Disk.Piece.Complete.{drop-drop}
use cratetorrent.Disk.Read.{ReadApi, got, failed, io, Files, read_piece}
use cratetorrent.Disk.Read.Loop.{ReadsFile}
use cratetorrent.Disk.Read.Files.{AreStored, bytes_of, Spans, Interrupts}
use cratetorrent.Disk.Read.Piece.{AreBlocksOf, files_of, read_piece_lem}
use cratetorrent.Disk.Reads.{CacheApi}

take-take : (n m : ℕ) (xs : List ℕ) → n ≤ m → take n (take m xs) ≡ take n xs
take-take zero m xs h = refl
take-take (suc n) zero xs h = absurd (omega arith)
take-take (suc n) (suc m) [] h = refl
take-take (suc n) (suc m) (x ∷ xs) h = ap (λ ys. x ∷ ys) (take-take n m xs (omega arith))

take_nil : (n : ℕ) → ◌≡◌ {A = List ℕ} [] (take n [])
take_nil zero = refl
take_nil (suc n) = refl

zero_sub : (k : ℕ) → 0 ≡ 0 - suc k
zero_sub k = omega arith

drop-take : (k m : ℕ) (xs : List ℕ) → drop k (take m xs) ≡ take (m - k) (drop k xs)
drop-take zero m xs = ap (λ n. take n xs) (omega arith)
drop-take (suc k) zero xs = ap (λ n. take n (drop (suc k) xs)) (zero_sub k)
drop-take (suc k) (suc m) [] = take_nil (suc m - suc k)
drop-take (suc k) (suc m) (x ∷ xs) = drop-take k m xs ∙ ap (λ n. take n (drop k xs)) (omega arith)

-- A part of a part.
pub take-drop-part :
    (n k m at : ℕ) (xs : List ℕ)
    → n ≤ m - k
    → take n (drop k (take m (drop at xs))) ≡ take n (drop (at + k) xs)
take-drop-part n k m at xs h =
    ap (take n) (drop-take k m (drop at xs))
    ∙ take-take n (m - k) (drop k (drop at xs)) h
    ∙ ap (take n) (drop-drop k at xs)

module _ (c : CacheApi) where
  open c use {Cache, get, put}

  -- The crate's cache: what `get` finds was put there, and finding it changes no entry; what is put is
  -- there for its key or nowhere, and an entry may be gone.
  pub record IsCache : Type 0 where
    pub get_keeps :
        (cache : Cache) (i j : ℕ) {blocks : List (List ℕ)}
        → (get (get cache i).1 j).0 ≡ some blocks
        → (get cache j).0 ≡ some blocks
    pub put_holds :
        (cache : Cache) (i j : ℕ) {line blocks : List (List ℕ)}
        → (get (put cache i line) j).0 ≡ some blocks
        → ((i ≡ j) × (line ≡ blocks)) ⊎ ((get cache j).0 ≡ some blocks)

module _ (api : ReadApi) (dev : Bool) where
  -- The torrent is all there.
  pub record IsSeed (s : StorageInfo) (files : Files api) : Type 0 where
    pub valid : IsValid s
    pub same : map (λ x. x.0) files ≡ s.files
    pub stored : AreStored api dev 0 files

  -- The bytes of the piece.
  abbrev pub piece_bytes : StorageInfo → Files api → ℕ → ℕ → List ℕ
  piece_bytes s files i len = take len (drop (i * s.piece_len) (bytes_of api dev files))

  length-bytes_of :
      (o : ℕ) (files : Files api)
      → AreStored api dev o files
      → length (bytes_of api dev files) ≡ sum_len (map (λ x. x.0) files)
  length-bytes_of o [] st = refl
  length-bytes_of o ((info, f) ∷ fs) (at, pos, len, st) = omega (
    arith,
    length-append (contents_of f) (bytes_of api dev fs),
    length-bytes_of (o + info.len) fs st,
  )
    where
      contents_of : api.File → List ℕ
      contents_of g = api.contents g

  length-infos : (files : Files api) → length (map (λ x. x.0) files) ≡ length files
  length-infos [] = refl
  length-infos (x ∷ xs) = ap suc (length-infos xs)

  -- The thread reads the piece, unless it is interrupted.
  pub read_place :
      ReadsFile api
      → (s : StorageInfo) (files : Files api) (i : ℕ) → IsSeed s files
      → (p : IsPlaced s i)
      → ((blocks : List (List ℕ)) × (read_piece api dev (i * s.piece_len) p.range files p.len
            ≡ ret (got blocks))
          × AreBlocksOf api p.len (piece_bytes s files i p.len) blocks)
        ⊎ Interrupts api dev
            (i * s.piece_len)
            (i * s.piece_len + p.len)
            (files_of api p.range files)
            (read_piece api dev (i * s.piece_len) p.range files p.len ≡ ret (failed io))
  read_place law s files i seed p =
      let v = seed.valid in
      let inside = p.inside in
      let size = length-bytes_of 0 files seed.stored in
      let sum = ap sum_len seed.same in
      let (ge, some_file, o', spans, bytes) =
        range-IsRangeOf api dev files 0 0 (i * s.piece_len) p.len p.range seed.stored (omega arith)
          p.some_len (omega (arith, v.all_files)) (omega (arith, v.all_files, v.fits))
          (λ a b. omega arith)
          (λ k info e.
            let q = p.intersects k info (ap (λ fs. get_elem? fs k) (sym seed.same) ∙ e) in
            (
              λ w. q.0 (omega arith, omega arith),
              λ w. let z = q.1 w in (omega arith, omega arith),
            )) in
      let from_start : p.range.start - 0 ≡ p.range.start = omega arith in
      let from_zero : i * s.piece_len - 0 ≡ i * s.piece_len = omega arith in
      let n = p.range.end - p.range.start in
      let same_bytes =
        ap
          (λ a. take p.len (drop (i * s.piece_len - o') (bytes_of api dev (take n (drop a files)))))
          (sym from_start)
        ∙ bytes
        ∙ ap (λ a. take p.len (drop a (bytes_of api dev files))) from_zero in
      elim (read_piece_lem api dev law (i * s.piece_len) o' p.len p.range files p.some_len
        (omega (arith, p.len_le, v.word)) some_file
        (omega (arith, p.end_le, length-infos files, ap length seed.same))
        (subst (λ a. Spans api dev o' (i * s.piece_len) p.len (take n (drop a files))) from_start
          spans)) [
            | inl (blocks, rd, are) ↦
                inl (blocks, rd, subst (λ ys. AreBlocksOf api p.len ys blocks) same_bytes are)
            | inr stops ↦ inr stops
          ]
