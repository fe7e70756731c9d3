-- ===== src/Disk/Read/Loop.antt =====
-- `TorrentFile::read`: that it ends, and what it has put into the buffers.
use cratetorrent.Prelude.{
  ℕ, zero, suc, ◌+◌, ◌^◌, ◌<◌, ◌≤◌, ◌≡◌, ◌⊎◌, inl, inr, refl, sym, ap, subst, ◌∙◌, arith, true,
  Bool-cases, Option, none, some, List, [], ◌∷◌, ◌++◌, Checked, ret, panic, lt→ltb, length, take,
  drop, length-append, length-drop,
}
use cratetorrent.Storage.{FileSlice}
use cratetorrent.IoVecs.{IoVec}
use cratetorrent.IoVecs.Bytes.{flatten}
use cratetorrent.IoVecs.Mutable.{advance-flatten}
use cratetorrent.Disk.File.{is_empty}
use cratetorrent.Disk.Piece.Complete.{drop-drop}
use cratetorrent.Disk.Read.{
  ReadApi, ReadResult, got, failed, out_of_fuel, Filled, after_read, is_over, read_loop, read,
}

-- Bytes that are prefixes of `src`, one behind the other.
pub data Chunks (src : List ℕ) : List ℕ → Type 0 where
  no_chunk : Chunks src []
  chunk : (n : ℕ) {done : List ℕ} → Chunks src done → Chunks src (done ++ take n src)

module _ (api : ReadApi) where
  open api use {File, contents, preadv}

  -- A call that does not fail gives bytes of the file from the offset on, no more than the buffers
  -- take.
  pub record ReadsFile : Type 0 where
    pub fits :
        (f : File) (bufs : List IoVec) (offset : ℕ) {bytes : List ℕ}
        → preadv f bufs offset ≡ some bytes
        → length bytes ≤ length (flatten bufs)
    pub there :
        (f : File) (bufs : List IoVec) (offset : ℕ) {bytes : List ℕ}
        → preadv f bufs offset ≡ some bytes
        → bytes ≡ take (length bytes) (drop offset (contents f))

  -- The bytes of the file from the slice's offset on.
  abbrev pub source : FileSlice → File → List ℕ
  source slice f = drop slice.offset (contents f)

  abbrev IsState : FileSlice → File → List IoVec → List ℕ → List IoVec → Type 0
  IsState slice f bufs done bufs' =
      Chunks (source slice f) done
      × (length done ≤ length (flatten bufs))
      × (flatten bufs' ≡ drop (length done) (flatten bufs))

  abbrev pub Reads : FileSlice → File → List IoVec → Checked (ReadResult Filled) → Type 0
  Reads slice f bufs panic = ⊥
  Reads slice f bufs (ret out_of_fuel) = ⊥
  Reads slice f bufs (ret (failed e)) = Unit
  Reads slice f bufs (ret (got (done, bufs'))) =
      IsState slice f bufs done bufs' × ((is_empty bufs' ≡ true) ⊎ (slice.len ≤ length done))

  is_over-stops :
      (slice : FileSlice) (bufs : List IoVec) (total : ℕ)
      → is_over api slice bufs total ≡ true
      → (is_empty bufs ≡ true) ⊎ (slice.len ≤ total)
  is_over-stops slice [] total h = inl refl
  is_over-stops slice (b ∷ bs) total h = inr (ground arith)

  -- What follows a call, where the rest of the loop is right on what it is given.
  after_read-Reads :
      ReadsFile
      → (slice : FileSlice) (f : File) (bufs : List IoVec) (done : List ℕ) (bufs' : List IoVec)
      → (next : List ℕ → List IoVec → ℕ → Checked (ReadResult Filled))
      → length (flatten bufs) < 2 ^ 64
      → IsState slice f bufs done bufs'
      → ((d : List ℕ) (b : List IoVec)
          → length done < length d
          → IsState slice f bufs d b
          → Reads slice f bufs (next d b (length d)))
      → (r : Option (List ℕ)) → preadv f bufs' slice.offset ≡ r
      → Reads slice f bufs (after_read api next done bufs' (length done) r)
  unfolding after_read
  after_read-Reads law slice f bufs done bufs' next fits st k none e = tt
  after_read-Reads law slice f bufs done bufs' next fits st k (some []) e = tt
  after_read-Reads law slice f bufs done bufs' next fits (chunks, short, left) k (some (b ∷ bs)) e =
      let bytes = b ∷ bs in
      let rest = length-drop (length done) (flatten bufs) in
      let len = length-append done bytes in
      let within = law.fits f bufs' slice.offset e in
      let room : length done + length bytes ≤ length (flatten bufs) =
        omega (arith, ap length left, within, rest) in
      let (ys, adv, fl) = advance-flatten bufs' (length bytes) within in
      rw (lt→ltb (length done + length bytes) (2 ^ 64) (omega arith)) (
        rw adv (
          rw (← len) (
            k (done ++ bytes) ys (omega arith) (
              subst (λ zs. Chunks (source slice f) (done ++ zs))
                  (sym (law.there f bufs' slice.offset e)) (chunk (length bytes) chunks),
              omega arith,
              fl
                  ∙ ap (drop (length bytes)) left
                  ∙ drop-drop (length bytes) (length done) (flatten bufs)
                  ∙ ap (λ k. drop k (flatten bufs)) (sym len),
            ))))

  never_over :
      (slice : FileSlice) (bufs : List IoVec) (total : ℕ)
      → slice.len ≤ total
      → is_over api slice bufs total ≡ true
  never_over slice [] total h = refl
  never_over slice (b ∷ bs) total h = ground arith

  loop-Reads :
      ReadsFile
      → (fuel : ℕ) (slice : FileSlice) (f : File) (bufs : List IoVec)
      → length (flatten bufs) < 2 ^ 64
      → (done : List ℕ) (bufs' : List IoVec) → slice.len ≤ fuel + length done
      → IsState slice f bufs done bufs'
      → Reads slice f bufs (read_loop api fuel slice f done bufs' (length done))
  unfolding read_loop
  loop-Reads law zero slice f bufs fits done bufs' enough st =
      let over = never_over slice bufs' (length done) (omega arith) in
      rw over (st, inr (omega arith))
  loop-Reads law (suc fuel) slice f bufs fits done bufs' enough st =
      elim (Bool-cases (is_over api slice bufs' (length done))) [
        | inl e ↦ rw e (st, is_over-stops slice bufs' (length done) e)
        | inr e ↦ rw e (
            after_read-Reads law slice f bufs done bufs' (λ d b t. read_loop api fuel slice f d b t)
              fits st (λ d b more st'. loop-Reads law fuel slice f bufs fits d b (omega arith) st')
              (preadv f bufs' slice.offset) refl)
      ]

  -- Where `preadv`, if it does not fail, gives bytes of the file from the offset on and no more than
  -- the buffers take, `read` neither panics nor goes on for ever: as many rounds as the slice has
  -- bytes are enough. It ends with an error, or has filled the first bytes of the buffers, and either
  -- no buffer is left or the slice's bytes were counted. What they are filled with are prefixes of
  -- the file's bytes from the slice's offset on, one for each call.
  pub read_lem :
      ReadsFile
      → (slice : FileSlice) (f : File) (bufs : List IoVec) → length (flatten bufs) < 2 ^ 64
      → Reads slice f bufs (read api slice.len slice f bufs)
  unfolding read
  read_lem law slice f bufs fits =
      loop-Reads law slice.len slice f bufs fits [] bufs (omega arith) (no_chunk, omega arith, refl)
