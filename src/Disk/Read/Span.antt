-- ===== src/Disk/Read/Span.antt =====
-- The files that a range of bytes intersects span it.
use cratetorrent.Prelude.{
  ℕ, zero, suc, ◌+◌, ◌-◌, ◌^◌, ◌<◌, ◌≤◌, ◌≡◌, ◌↔◌, refl, sym, ap, ◌∙◌, arith, Bool, some, List, [],
  ◌∷◌, ◌++◌, map, length, length-append, length-drop, take, drop, get_elem?, take-append-drop,
  append_assoc,
}
use native.Mathlib.Decide.{dec_lt}
use cratetorrent.Storage.{FileInfo, Range}
use cratetorrent.Storage.Layout.{IsLaidOut, IsLaidOut-bounds, Overlaps}
use cratetorrent.IoVecs.Bytes.{drop-append_ge, drop-append_le, take-append_le}
use cratetorrent.Disk.Read.{ReadApi, Files}
use cratetorrent.Disk.Read.Files.{AreStored, FirstHas, AllBefore, bytes_of, Spans}

module _ (api : ReadApi) (dev : Bool) where
  open api use {File, contents}

  abbrev pub infos : Files api → List FileInfo
  infos = map (λ x. x.0)

  bytes_of-append :
      (xs ys : Files api) → bytes_of api dev (xs ++ ys) ≡ bytes_of api dev xs ++ bytes_of api dev ys
  bytes_of-append [] ys = refl
  bytes_of-append ((info, f) ∷ xs) ys =
      ap (λ zs. contents f ++ zs) (bytes_of-append xs ys)
      ∙ sym (append_assoc (contents f) (bytes_of api dev xs) (bytes_of api dev ys))

  -- The first `n` files are those that start before `end`.
  abbrev StartBefore : ℕ → ℕ → Files api → Type 0
  StartBefore n end fs =
      (k : ℕ) (info : FileInfo)
      → get_elem? (map (λ x. x.0) fs) k ≡ some info
      → (k < n) ↔ (info.torrent_offset < end)

  take-AreStored :
      (n o : ℕ) (fs : Files api) → AreStored api dev o fs → AreStored api dev o (take n fs)
  take-AreStored zero o fs st = tt
  take-AreStored (suc n) o [] st = tt
  take-AreStored (suc n) o ((info, f) ∷ fs) (at, pos, len, st) =
      (at, pos, len, take-AreStored n (o + info.len) fs st)

  take-AllBefore :
      (n end : ℕ) (fs : Files api) → StartBefore n end fs → AllBefore api dev end (take n fs)
  take-AllBefore zero end fs h = tt
  take-AllBefore (suc n) end [] h = tt
  take-AllBefore (suc n) end ((info, f) ∷ fs) h = (
    (h 0 info refl).0 (omega arith),
    take-AllBefore n end fs (λ k i e.
        let p = h (suc k) i e in (λ q. p.0 (omega arith), λ q. let z = p.1 q in omega arith)),
  )

  take-reaches :
      (n o end : ℕ) (fs : Files api)
      → AreStored api dev o fs
      → StartBefore n end fs
      → end ≤ o + length (bytes_of api dev fs)
      → end ≤ o + length (bytes_of api dev (take n fs))
  take-reaches zero o end [] st h inside = omega arith
  take-reaches zero o end ((info, f) ∷ fs) (at, pos, len, st) h inside =
      let p = h 0 info refl in
      elim (dec_lt info.torrent_offset end) [
        | yes q ↦ let z = p.1 q in absurd (omega arith)
        | no q ↦ omega arith
      ]
  take-reaches (suc n) o end [] st h inside = omega arith
  take-reaches (suc n) o end ((info, f) ∷ fs) (at, pos, len, st) h inside =
      let all = length-append (contents f) (bytes_of api dev fs) in
      let some_of = length-append (contents f) (bytes_of api dev (take n fs)) in
      let rest =
        take-reaches n (o + info.len) end fs st
          (λ k i e.
            let p = h (suc k) i e in (λ q. p.0 (omega arith), λ q. let z = p.1 q in omega arith))
          (omega arith) in
      omega arith

  take-FirstHas :
      (n start : ℕ) (fs : Files api)
      → FirstHas api dev start fs
      → FirstHas api dev start (take n fs)
  take-FirstHas zero start fs h = tt
  take-FirstHas (suc n) start [] h = tt
  take-FirstHas (suc n) start ((info, f) ∷ fs) h = h

  -- What the files of a range have in common with all of them, from file `i` at offset `o` on.
  abbrev pub IsRangeOf : ℕ → ℕ → ℕ → ℕ → Range → Files api → Type 0
  IsRangeOf i o start len out fs =
      (i ≤ out.start)
      × (out.start < out.end)
      × (o' : ℕ) × Spans api dev o' start len (take (out.end - out.start) (drop (out.start - i) fs))
      × (take len (
            drop (start - o')
              (bytes_of api dev (take (out.end - out.start) (drop (out.start - i) fs))))
          ≡ take len (drop (start - o) (bytes_of api dev fs)))

  -- The first file has the first byte.
  first_found :
      (i o start len : ℕ) (out : Range) (info : FileInfo) (f : File) (fs : Files api)
      → AreStored api dev o ((info, f) ∷ fs)
      → o ≤ start
      → start < o + info.len
      → start + len ≤ o + length (bytes_of api dev ((info, f) ∷ fs))
      → o + length (bytes_of api dev ((info, f) ∷ fs)) < 2 ^ 64
      → out.start ≡ i
      → i < out.end
      → StartBefore (out.end - i) (start + len) ((info, f) ∷ fs)
      → IsRangeOf i o start len out ((info, f) ∷ fs)
  first_found i o start len out info f fs st after first inside word at some_file before =
      let all = (info, f) ∷ fs in
      let n = out.end - i in
      let here : take (out.end - out.start) (drop (out.start - i) all) ≡ take n all =
        let none_before : out.start - i ≡ 0 = omega arith in
        ap (λ b. take (out.end - out.start) (drop b all)) none_before
        ∙ ap (λ a. take (out.end - a) all) at in
      let reach = take-reaches n o (start + len) all st before inside in
      let split = ap (bytes_of api dev) (take-append-drop n all) in
      let parts = bytes_of-append (take n all) (drop n all) in
      let lens = length-append (bytes_of api dev (take n all)) (bytes_of api dev (drop n all)) in
      let sum : length (bytes_of api dev all)
          ≡ length (bytes_of api dev (take n all)) + length (bytes_of api dev (drop n all)) =
        ap length (sym split ∙ parts) ∙ lens in
      rw here (
        omega arith,
        omega arith,
        o,
        record {
          stored = take-AreStored n o all st;
          after_start = after;
          first_has = take-FirstHas n start all (omega (arith, st.0));
          all_before = take-AllBefore n (start + len) all before;
          inside = reach;
          word = omega arith;
        },
        sym (
            ap (λ zs. take len (drop (start - o) zs)) (sym split ∙ parts)
            ∙ ap (take len) (
                drop-append_le (start - o) (bytes_of api dev (take n all))
                  (bytes_of api dev (drop n all)) (omega arith))
            ∙ take-append_le len (drop (start - o) (bytes_of api dev (take n all)))
                (bytes_of api dev (drop n all))
                (omega (arith, length-drop (start - o) (bytes_of api dev (take n all))))),
      )

  same_start :
      (i : ℕ) (out : Range)
      → (out.start < i → i ≤ out.end → ⊥)
      → out.start ≤ i + 0
      → i + 0 < out.end
      → out.start ≡ i
  same_start i out prev ge lt = elim (dec_lt out.start i) [
    | yes q ↦ absurd (prev q (omega arith))
    | no q ↦ omega arith
  ]

  pub AreStored-IsLaidOut :
      (o : ℕ) (fs : Files api) → AreStored api dev o fs → IsLaidOut o (infos fs)
  AreStored-IsLaidOut o [] st = tt
  AreStored-IsLaidOut o ((info, f) ∷ fs) (at, pos, size, st) =
      (at, pos, AreStored-IsLaidOut (o + info.len) fs st)

  -- The files from one that has the first byte on have a byte of the range if they start before its
  -- end.
  heads_before :
      (i o start len : ℕ) (out : Range) (info : FileInfo) (f : File) (fs : Files api)
      → AreStored api dev o ((info, f) ∷ fs)
      → start < o + info.len
      → out.start ≤ i + 0
      → ((k : ℕ) (g : FileInfo)
          → get_elem? (infos ((info, f) ∷ fs)) k ≡ some g
          → ((out.start ≤ i + k) × (i + k < out.end)) ↔ Overlaps start (start + len) g)
      → StartBefore (out.end - i) (start + len) ((info, f) ∷ fs)
  heads_before i o start len out info f fs st h ge each k g e =
      let p = each k g e in
      (λ q. (p.0 (omega arith, omega arith)).0, λ q. let z = p.1 (q, behind k e) in omega arith)
    where
      behind :
          (k : ℕ) → get_elem? (infos ((info, f) ∷ fs)) k ≡ some g → start < g.torrent_offset + g.len
      behind zero e =
          let (at, pos, size, rest) = st in let same : info ≡ g = cc in rw (← same) (omega arith)
      behind (suc k) e =
          let (at, pos, size, rest) = st in
          let b =
            IsLaidOut-bounds (o + info.len) (infos fs) k
              (AreStored-IsLaidOut (o + info.len) fs rest) e in
          omega arith

  -- From file `i` on, where the file before it has no byte of the range.
  pub range-IsRangeOf :
      (fs : Files api) (i o start len : ℕ) (out : Range)
      → AreStored api dev o fs
      → o ≤ start
      → 0 < len
      → start + len ≤ o + length (bytes_of api dev fs)
      → o + length (bytes_of api dev fs) < 2 ^ 64
      → (out.start < i → i ≤ out.end → ⊥)
      → ((k : ℕ) (info : FileInfo)
          → get_elem? (infos fs) k ≡ some info
          → ((out.start ≤ i + k) × (i + k < out.end)) ↔ Overlaps start (start + len) info)
      → IsRangeOf i o start len out fs
  range-IsRangeOf [] i o start len out st after pos inside word prev each = absurd (omega arith)
  range-IsRangeOf ((info, f) ∷ fs) i o start len out (at, some_len, size, st) after pos inside word
        prev each =
      let all = length-append (contents f) (bytes_of api dev fs) in
      let head = each 0 info refl in
      elim (dec_lt start (o + info.len)) [
        | yes h ↦
            let (ge, lt) = head.1 (omega arith, omega arith) in
            first_found i o start len out info f fs (at, some_len, size, st) after h inside word
              (same_start i out prev ge lt) (omega arith)
              (heads_before i o start len out info f fs (at, some_len, size, st) h ge each)
        | no h ↦
            let (ge, some_file, o', spans, bytes) =
              range-IsRangeOf fs (suc i) (o + info.len) start len out st (omega arith) pos
                (omega arith) (omega arith)
                (λ p q. let z = head.0 (omega arith, omega arith) in omega arith)
                (λ k g e.
                  let p = each (suc k) g e in
                  (
                    λ q. p.0 (omega arith, omega arith),
                    λ q. let z = p.1 q in (omega arith, omega arith),
                  )) in
            let next : out.start - i ≡ suc (out.start - suc i) = omega arith in
            let far : start - o - length (contents f) ≡ start - (o + info.len) = omega arith in
            rw next (
              omega arith,
              some_file,
              o',
              spans,
              bytes
                  ∙ sym (
                      ap (take len) (
                        drop-append_ge (start - o) (contents f) (bytes_of api dev fs) (omega arith)
                        ∙ ap (λ k. drop k (bytes_of api dev fs)) far)),
            )
      ]
