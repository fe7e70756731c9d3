-- ===== src/Disk/Read/Files.antt =====
-- The loop of `piece::read` over files that are all there.
use cratetorrent.Prelude.{
  max, ◌⊎◌, inl, inr, ℕ, zero, suc, ◌+◌, ◌-◌, ◌^◌, ◌<◌, ◌≤◌, min, ◌≡◌, refl, sym, ap, ap₂, subst,
  ◌∙◌, arith, Bool, List, [], ◌∷◌, ◌++◌, append_assoc, All, Checked, ret, ltb, lt→ltb, le→leb,
  ==_refl, ◌==◌, length, take, drop, length-take, length-drop, length-append,
}
use native.Mathlib.Decide.{dec_le}
use cratetorrent.Storage.{FileInfo, FileSlice, get_slice, torrent_end_offset}
use cratetorrent.Download.{debug_assert_ret}
use cratetorrent.IoVecs.{IoVec}
use cratetorrent.IoVecs.Bytes.{flatten, drop-append_le, take-append_le, take-append_ge}
use cratetorrent.Disk.Read.{ReadApi, ReadResult, got, failed, io, Filled, Files, read, read_files}
use cratetorrent.Disk.Read.Loop.{ReadsFile, source}
use cratetorrent.Disk.Read.Whole.{Gets, Stops, read_whole}

pub get_slice-inside :
    (info : FileInfo) (offset len : ℕ)
    → info.torrent_offset ≤ offset
    → offset < info.torrent_offset + info.len
    → info.torrent_offset + info.len < 2 ^ 64
    → get_slice info offset len
      ≡ ret (record {
        offset = offset - info.torrent_offset;
        len = min len ((info.torrent_offset + info.len) - offset);
      })
unfolding get_slice torrent_end_offset
get_slice-inside info offset len h k w = rw (le→leb info.torrent_offset offset h) (
    rw (lt→ltb (info.torrent_offset + info.len) (2 ^ 64) w)
      (rw (lt→ltb offset (info.torrent_offset + info.len) k) refl))

take_short : (n : ℕ) (xs : List ℕ) → length xs ≤ n → take n xs ≡ xs
take_short zero [] h = refl
take_short zero (x ∷ xs) h = absurd (omega arith)
take_short (suc n) [] h = refl
take_short (suc n) (x ∷ xs) h = ap (λ ys. x ∷ ys) (take_short n xs (omega arith))

drop_long : (n : ℕ) (xs : List ℕ) → length xs ≤ n → drop n xs ≡ []
drop_long zero [] h = refl
drop_long zero (x ∷ xs) h = absurd (omega arith)
drop_long (suc n) [] h = refl
drop_long (suc n) (x ∷ xs) h = drop_long n xs (omega arith)

module _ (api : ReadApi) (dev : Bool) where
  open api use {File, contents}

  -- The files lie one after the other from `o`, and each is as long as it should be.
  abbrev pub AreStored : ℕ → Files api → Type 0
  AreStored o [] = Unit
  AreStored o ((info, f) ∷ fs) =
      (info.torrent_offset ≡ o)
      × (0 < info.len)
      × (length (contents f) ≡ info.len)
      × AreStored (o + info.len) fs

  -- The bytes of all the files.
  abbrev pub bytes_of : Files api → List ℕ
  bytes_of [] = []
  bytes_of ((info, f) ∷ fs) = contents f ++ bytes_of fs

  abbrev pub FirstHas : ℕ → Files api → Type 0
  FirstHas offset [] = Unit
  FirstHas offset ((info, f) ∷ fs) = offset < info.torrent_offset + info.len

  abbrev pub AllBefore : ℕ → Files api → Type 0
  AllBefore end = All (λ x. x.0.torrent_offset < end)

  pub record Spans (o offset len : ℕ) (fs : Files api) : Type 0 where
    pub stored : AreStored o fs
    pub after_start : o ≤ offset
    pub first_has : FirstHas offset fs
    pub all_before : AllBefore (offset + len) fs
    pub inside : offset + len ≤ o + length (bytes_of fs)
    pub word : o + length (bytes_of fs) < 2 ^ 64

  -- The buffers are filled to the end with these bytes, after what was read before.
  abbrev pub FillsWith : List ℕ → Checked (ReadResult Filled) → Type 0
  FillsWith bytes r = (bufs' : List IoVec) × (r ≡ ret (got (bytes, bufs'))) × (flatten bufs' ≡ [])

  -- One of the calls for the bytes from `start` to `end` fails, with this consequence, or is short: the
  -- call on a file is at the place in it of the first of these bytes that it has, with buffers for all
  -- of them from there on.
  abbrev pub Interrupts : ℕ → ℕ → Files api → Type 0 → Type 0
  Interrupts start end [] Failed = ⊥
  Interrupts start end ((info, f) ∷ fs) Failed =
      ((bufs : List IoVec) × (length (flatten bufs) ≡ end - max start info.torrent_offset)
        × Stops api f bufs (start - info.torrent_offset) Failed)
      ⊎ Interrupts start end fs Failed

  -- An interrupt has the consequences of its consequence.
  pub Interrupts-map :
      {A B : Type 0} (start end : ℕ) (fs : Files api)
      → (A → B)
      → Interrupts start end fs A
      → Interrupts start end fs B
  Interrupts-map {A = A} {B = B} start end [] g i = elim i [ ]
  Interrupts-map start end ((info, f) ∷ fs) g (inl (bufs, size, inl (e, a))) =
      inl (bufs, size, inl (e, g a))
  Interrupts-map start end ((info, f) ∷ fs) g (inl (bufs, size, inr short)) =
      inl (bufs, size, inr short)
  Interrupts-map start end ((info, f) ∷ fs) g (inr later) =
      inr (Interrupts-map start end fs g later)

  -- The step from one file to the next.
  after_first :
      (P : Checked (ReadResult Filled) → Type 0)
      → (len offset total : ℕ) (done : List ℕ) (bufs : List IoVec) (info : FileInfo) (f : File)
      → (fs : Files api) (slice : FileSlice) (bytes : List ℕ)
      → get_slice info offset (len - total) ≡ ret slice
      → total < len
      → 0 < slice.len
      → offset + slice.len < 2 ^ 64
      → total + slice.len < 2 ^ 64
      → Gets api bufs bytes (read api slice.len slice f bufs)
        ⊎ Stops api f bufs slice.offset (read api slice.len slice f bufs ≡ ret (failed io))
      → ((bufs' : List IoVec)
          → flatten bufs' ≡ drop (length bytes) (flatten bufs)
          → P (
              read_files api dev len
                (offset + slice.len)
                (total + slice.len)
                (done ++ bytes)
                bufs'
                fs))
      → (Stops api f bufs slice.offset
            (read_files api dev len offset total done bufs ((info, f) ∷ fs) ≡ ret (failed io))
          → P (read_files api dev len offset total done bufs ((info, f) ∷ fs)))
      → P (read_files api dev len offset total done bufs ((info, f) ∷ fs))
  unfolding read_files
  after_first P len offset total done bufs info f fs slice bytes sl more some_len fit fit'
        (inl (ys, rd, fl)) k stopped =
      rw (debug_assert_ret dev (ltb total len) (lt→ltb total len more)) (
        rw (le→leb total len (omega arith)) (
          rw sl (
            rw (debug_assert_ret dev (ltb 0 slice.len) (lt→ltb 0 slice.len some_len)) (
              rw rd (
                rw (lt→ltb (offset + slice.len) (2 ^ 64) fit)
                  (rw (lt→ltb (total + slice.len) (2 ^ 64) fit') (k ys fl)))))))
  after_first P len offset total done bufs info f fs slice bytes sl more some_len fit fit'
        (inr (inl (e, rd))) k stopped =
      stopped (
        inl (
          e,
          rw (debug_assert_ret dev (ltb total len) (lt→ltb total len more)) (
              rw (le→leb total len (omega arith)) (
                rw sl (
                  rw (debug_assert_ret dev (ltb 0 slice.len) (lt→ltb 0 slice.len some_len))
                    (rw rd refl)))),
        ))
  after_first P len offset total done bufs info f fs slice bytes sl more some_len fit fit'
        (inr (inr short)) k stopped =
      stopped (inr short)

  first_stored : (o offset : ℕ) (fs : Files api) → AreStored o fs → offset ≡ o → FirstHas offset fs
  first_stored o offset [] st e = tt
  first_stored o offset ((info, f) ∷ fs) (at, pos, len, st) e = omega arith

  -- What is left of the range behind the first file is spanned by the other files.
  Spans-next :
      (info : FileInfo) (f : File) (fs : Files api) (o offset rest offset' rest' : ℕ)
      → Spans o offset rest ((info, f) ∷ fs)
      → offset' ≡ o + info.len
      → offset' + rest' ≡ offset + rest
      → Spans (o + info.len) offset' rest' fs
  Spans-next info f fs o offset rest offset' rest' v at_end same =
      let (at, pos, len, stored) = v.stored in
      let inside = v.inside in
      let fits = v.word in
      let n = length-append (contents f) (bytes_of fs) in
      record {
        stored = stored;
        after_start = omega arith;
        first_has = first_stored (o + info.len) offset' fs stored at_end;
        all_before = subst (λ end. AllBefore end fs) (sym same) (v.all_before).1;
        inside = omega arith;
        word = omega arith;
      }

  -- Behind the last file.
  last_file :
      (fs : Files api) (len o end offset total : ℕ) (done : List ℕ) (bufs : List IoVec)
      → AreStored o fs
      → AllBefore end fs
      → end ≤ o
      → total ≡ len
      → flatten bufs ≡ []
      → FillsWith done (read_files api dev len offset total done bufs fs)
  unfolding read_files
  last_file [] len o end offset total done bufs st before h all no_bytes =
      rw (debug_assert_ret dev (total == len) (rw all (==_refl len))) (bufs, refl, no_bytes)
  last_file ((info, f) ∷ fs) len o end offset total done bufs (at, pos, n, st) (before, _) h all
        no_bytes =
      absurd (omega arith)

  -- What is read from the files that a range of bytes spans.
  pub read_files-Fills :
      ReadsFile api
      → (start end : ℕ) (fs : Files api) (len o offset total rest : ℕ) (done : List ℕ)
        (bufs : List IoVec)
      → total + rest ≡ len
      → 0 < rest
      → len < 2 ^ 32
      → length (flatten bufs) ≡ rest
      → Spans o offset rest fs
      → offset ≡ max start o
      → end ≡ offset + rest
      → FillsWith
          (done ++ take rest (drop (offset - o) (bytes_of fs)))
          (read_files api dev len offset total done bufs fs)
        ⊎ Interrupts start end fs
            (read_files api dev len offset total done bufs fs ≡ ret (failed io))
  read_files-Fills law start end [] len o offset total rest done bufs split pos word size v first
        last =
      let inside = v.inside in absurd (omega arith)
  read_files-Fills law start end ((info, f) ∷ fs) len o offset total rest done bufs split pos word
        size v from_start to_end =
      let (at, some_len, len_f, stored) = v.stored in
      let after_start = v.after_start in
      let first = v.first_has in
      let inside = v.inside in
      let fits = v.word in
      let slice : FileSlice = record {
        offset = offset - info.torrent_offset;
        len = min (len - total) ((info.torrent_offset + info.len) - offset);
      } in
      let src = source api slice f in
      let n = length-append (contents f) (bytes_of fs) in
      let src_len = length-drop (offset - info.torrent_offset) (contents f) in
      let bytes = take (length (flatten bufs)) src in
      let bytes_len = length-take (length (flatten bufs)) src in
      let from : drop (offset - o) (contents f ++ bytes_of fs) ≡ src ++ bytes_of fs =
        ap (λ k. drop (offset - k) (contents f ++ bytes_of fs)) (sym at)
        ∙ drop-append_le (offset - info.torrent_offset) (contents f) (bytes_of fs) (omega arith) in
      after_first
        (λ r.
          FillsWith (done ++ take rest (drop (offset - o) (contents f ++ bytes_of fs))) r
          ⊎ Interrupts start end ((info, f) ∷ fs) (r ≡ ret (failed io)))
        len offset total done bufs info f fs slice bytes
        (get_slice-inside info offset (len - total) (omega arith) first (omega arith)) (omega arith)
        (omega arith) (omega arith) (omega arith)
        (read_whole api law slice f bufs (omega arith) (omega arith) (omega arith) (omega arith))
        (λ bufs' fl. elim (dec_le rest (length src)) [
          | yes h ↦
              let cut : bytes ≡ take rest (drop (offset - o) (contents f ++ bytes_of fs)) =
                ap (λ k. take k src) size
                ∙ sym (take-append_le rest src (bytes_of fs) h)
                ∙ ap (take rest) (sym from) in
              rw (← cut) (
                inl (
                  last_file fs len (o + info.len) (offset + rest) (offset + slice.len)
                    (total + slice.len) (done ++ bytes) bufs' stored (v.all_before).1 (omega arith)
                    (omega arith) (fl ∙ drop_long (length bytes) (flatten bufs) (omega arith))))
          | no h ↦
              let zero_off : (offset + slice.len) - (o + info.len) ≡ 0 = omega arith in
              let here : bytes ≡ src = take_short (length (flatten bufs)) src (omega arith) in
              let cut : take rest (drop (offset - o) (contents f ++ bytes_of fs))
                  ≡ bytes
                    ++ take (rest - slice.len)
                        (drop ((offset + slice.len) - (o + info.len)) (bytes_of fs)) =
                ap (take rest) from
                ∙ take-append_ge rest src (bytes_of fs) (omega arith)
                ∙ ap₂ (λ xs ys. xs ++ ys) (sym here)
                    (ap (λ k. take k (bytes_of fs)) (omega arith)
                      ∙ ap (λ k. take (rest - slice.len) (drop k (bytes_of fs))) (sym zero_off)) in
              let go =
                read_files-Fills law start end fs len (o + info.len) (offset + slice.len)
                  (total + slice.len) (rest - slice.len) (done ++ bytes) bufs' (omega arith)
                  (omega arith) word
                  (omega (arith, ap length fl, length-drop (length bytes) (flatten bufs)))
                  (Spans-next info f fs o offset rest (offset + slice.len) (rest - slice.len) v
                    (omega arith) (omega arith))
                  (omega arith) (omega arith) in
              rw cut (rw (← append_assoc) (elim go [ inl g ↦ inl g | inr i ↦ inr (inr i) ]))
        ])
        (λ stops. inr (
          inl (
            bufs,
            omega arith,
            subst
                (λ k. Stops api f bufs k (
                  read_files api dev len offset total done bufs ((info, f) ∷ fs) ≡ ret (failed io)))
                (omega arith) stops,
          )))
