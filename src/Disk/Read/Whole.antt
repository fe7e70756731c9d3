-- ===== src/Disk/Read/Whole.antt =====
-- `TorrentFile::read`, unless a call fails or transfers less than it could.
use cratetorrent.Prelude.{
  ap, min, Option, none, ◌∙◌, ℕ, zero, suc, ◌+◌, ◌^◌, ◌<◌, ◌≤◌, ◌≡◌, ◌⊎◌, inl, inr, refl, sym,
  arith, true, false, some, List, [], ◌∷◌, Checked, ret, lt→ltb, length, take, drop, length-take,
}
use native.Mathlib.Decide.{dec_lt}
use cratetorrent.Storage.{FileSlice}
use cratetorrent.IoVecs.{IoVec}
use cratetorrent.IoVecs.Bytes.{flatten}
use cratetorrent.IoVecs.Mutable.{advance-flatten, advance_all}
use cratetorrent.Disk.Read.{
  ReadApi, ReadResult, got, failed, io, Filled, after_read, is_over, read_loop, read,
}
use cratetorrent.Disk.Read.Loop.{ReadsFile, source}

module _ (api : ReadApi) where
  open api use {File, contents, preadv}

  -- A call transfers fewer bytes than the buffers take and the file has from the offset on.
  abbrev pub IsShort : File → List IoVec → ℕ → Type 0
  IsShort f bufs offset =
      (bytes : List ℕ) × (preadv f bufs offset ≡ some bytes)
      × (length bytes < min (length (flatten bufs)) (length (drop offset (contents f))))

  -- A call fails, with this consequence, or is short.
  abbrev pub Stops : File → List IoVec → ℕ → Type 0 → Type 0
  Stops f bufs offset Failed = ((preadv f bufs offset ≡ none) × Failed) ⊎ IsShort f bufs offset

  over_ends :
      (fuel : ℕ) (slice : FileSlice) (f : File) (done : List ℕ) (bufs : List IoVec) (total : ℕ)
      → is_over api slice bufs total ≡ true
      → read_loop api fuel slice f done bufs total ≡ ret (got (done, bufs))
  unfolding read_loop
  over_ends zero slice f done bufs total e = rw e refl
  over_ends (suc fuel) slice f done bufs total e = rw e refl

  enough_over :
      (slice : FileSlice) (bufs : List IoVec) (total : ℕ)
      → slice.len ≤ total
      → is_over api slice bufs total ≡ true
  enough_over slice [] total h = refl
  enough_over slice (b ∷ bs) total h = ground arith

  first_goes :
      (slice : FileSlice) (bufs : List IoVec)
      → 0 < slice.len
      → 0 < length (flatten bufs)
      → is_over api slice bufs 0 ≡ false
  first_goes slice [] h k = absurd (omega arith)
  first_goes slice (b ∷ bs) h k = ground arith

  -- The result of a read that filled the buffers with `bytes`.
  abbrev pub Gets : List IoVec → List ℕ → Checked (ReadResult Filled) → Type 0
  Gets bufs bytes r =
      (bufs' : List IoVec) × (r ≡ ret (got (bytes, bufs')))
      × (flatten bufs' ≡ drop (length bytes) (flatten bufs))

  one_call :
      (fuel : ℕ) (slice : FileSlice) (f : File) (bufs : List IoVec) (bytes : List ℕ)
      → 0 < length bytes
      → length bytes ≤ length (flatten bufs)
      → length (flatten bufs) < 2 ^ 64
      → (length bytes ≡ length (flatten bufs)) ⊎ (slice.len ≤ length bytes)
      → Gets bufs bytes
          (after_read api (λ d b t. read_loop api fuel slice f d b t) [] bufs 0 (some bytes))
  unfolding after_read
  one_call fuel slice f bufs [] pos short fits end = absurd (omega arith)
  one_call fuel slice f bufs (b ∷ bs) pos short fits (inl all) =
      let bytes = b ∷ bs in
      let left : drop (length bytes) (flatten bufs) ≡ [] =
        none_left (length bytes) (flatten bufs) (omega arith) in
      rw (lt→ltb (0 + length bytes) (2 ^ 64) (omega arith)) (
        rw (advance_all bufs (length bytes) all)
          ([], over_ends fuel slice f bytes [] (0 + length bytes) refl, sym left))
    where
      none_left : (n : ℕ) (xs : List ℕ) → length xs ≤ n → drop n xs ≡ []
      none_left zero [] h = refl
      none_left zero (x ∷ xs) h = absurd (omega arith)
      none_left (suc n) [] h = refl
      none_left (suc n) (x ∷ xs) h = none_left n xs (omega arith)
  one_call fuel slice f bufs (b ∷ bs) pos short fits (inr enough) =
      let bytes = b ∷ bs in
      let (ys, adv, fl) = advance-flatten bufs (length bytes) short in
      rw (lt→ltb (0 + length bytes) (2 ^ 64) (omega arith)) (
        rw adv (
          ys,
          over_ends fuel slice f bytes ys (0 + length bytes)
              (enough_over slice ys (0 + length bytes) (omega arith)),
          fl,
        ))

  -- A call that is not short fills the buffers as far as the file goes.
  not_short :
      ReadsFile api
      → (f : File) (bufs : List IoVec) (offset : ℕ) (bytes : List ℕ)
      → preadv f bufs offset ≡ some bytes
      → min (length (flatten bufs)) (length (drop offset (contents f))) ≤ length bytes
      → bytes ≡ take (length (flatten bufs)) (drop offset (contents f))
  not_short law f bufs offset bytes e h =
      let src = drop offset (contents f) in
      let fits = law.fits f bufs offset e in
      let there = law.there f bufs offset e in
      let len = ap length there ∙ length-take (length bytes) src in
      elim (dec_lt (length src) (length (flatten bufs))) [
        | yes q ↦
            there
            ∙ take_all (length bytes) src (omega arith)
            ∙ sym (take_all (length (flatten bufs)) src (omega arith))
        | no q ↦ there ∙ ap (λ n. take n src) (omega arith)
      ]
    where
      take_all : (n : ℕ) (xs : List ℕ) → length xs ≤ n → take n xs ≡ xs
      take_all zero [] h = refl
      take_all zero (x ∷ xs) h = absurd (omega arith)
      take_all (suc n) [] h = refl
      take_all (suc n) (x ∷ xs) h = ap (λ ys. x ∷ ys) (take_all n xs (omega arith))

  -- Where the file has the bytes of the slice, one call is enough: the buffers are filled from the
  -- slice's offset on, up to the end of the buffers or of the file, unless the call fails or is short.
  pub read_whole :
      ReadsFile api
      → (slice : FileSlice) (f : File) (bufs : List IoVec) → 0 < slice.len
      → 0 < length (flatten bufs)
      → length (flatten bufs) < 2 ^ 64
      → slice.len ≤ length (source api slice f)
      → Gets bufs
          (take (length (flatten bufs)) (source api slice f))
          (read api slice.len slice f bufs)
        ⊎ Stops f bufs slice.offset (read api slice.len slice f bufs ≡ ret (failed io))
  unfolding read read_loop after_read
  read_whole law slice f bufs pos some_buf fits there = go slice.len refl
    where
      bytes : List ℕ
      bytes = take (length (flatten bufs)) (source api slice f)

      called :
          (n : ℕ) (r : Option (List ℕ))
          → preadv f bufs slice.offset ≡ r
          → (let after = after_read api (λ d b t. read_loop api n slice f d b t) [] bufs 0 r in
              Gets bufs bytes after ⊎ Stops f bufs slice.offset (after ≡ ret (failed io)))
      called n none e = inr (inl (e, refl))
      called n (some ys) e =
          let len = length-take (length (flatten bufs)) (source api slice f) in
          elim (dec_lt (length ys) (min (length (flatten bufs)) (length (source api slice f)))) [
            | yes h ↦ inr (inr (ys, e, h))
            | no h ↦
                let same : ys ≡ bytes = not_short law f bufs slice.offset ys e (omega arith) in
                rw same (
                  inl (
                    one_call n slice f bufs bytes (omega (arith, len)) (omega (arith, len)) fits
                      (elim (dec_lt (length (source api slice f)) (length (flatten bufs))) [
                        | yes q ↦ inr (omega (arith, len))
                        | no q ↦ inl (omega (arith, len))
                      ])))
          ]

      go :
          (n : ℕ)
          → slice.len ≡ n
          → Gets bufs bytes (read_loop api n slice f [] bufs 0)
            ⊎ Stops f bufs slice.offset (read_loop api n slice f [] bufs 0 ≡ ret (failed io))
      go zero e = absurd (omega arith)
      go (suc n) e =
          rw (first_goes slice bufs pos some_buf) (called n (preadv f bufs slice.offset) refl)
