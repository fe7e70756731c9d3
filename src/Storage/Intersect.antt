-- ===== src/Storage/Intersect.antt =====
-- `files_intersecting_bytes` returns exactly the files that overlap with the bytes.
use cratetorrent.Prelude.{
  ℕ, zero, suc, ◌+◌, ◌^◌, ◌<◌, ◌≤◌, ◌≡◌, ◌↔◌, true, false, inl, inr, some, List, [], ◌∷◌, arith,
  get_elem?, drop, Checked, ret, panic, Bool-cases, lt→ltb, ltb, length, ◌==◌, Option, none, drop,
  leb, ◌&&◌, ◌>>=◌,
}
use cratetorrent.Storage.{
  FileInfo, Range, contains, find_start, extend_end, range_from, files_intersecting_bytes,
  byte_range, torrent_end_offset,
}
use cratetorrent.Storage.Layout.{IsLaidOut, sum_len, Overlaps, IsLaidOut-bounds}

contains_iff : (r : Range) (x : ℕ) → (contains r x ≡ true) ↔ ((r.start ≤ x) × (x < r.end))
contains_iff r x = (λ h. ground arith, λ h. ground arith)

-- What the loop after the first match does: `end` takes in the files that start before the range's.
abbrev ExtendsTo : ℕ → List FileInfo → Range → ℕ → Type 0
ExtendsTo i fs r end =
    (i ≤ end)
    × ((k : ℕ) (f : FileInfo)
        → get_elem? fs k ≡ some f
        → (i + k < end) ↔ (f.torrent_offset < r.end))

extend_end_lem :
    (i o : ℕ) (fs : List FileInfo) (r : Range)
    → IsLaidOut o fs
    → r.start ≤ o
    → ExtendsTo i fs r (extend_end i fs r i)
unfolding extend_end
extend_end_lem i o [] r l h = (omega arith, λ k f e. cc)
extend_end_lem i o (g ∷ fs) r (at, pos, rest) h = elim (Bool-cases (contains r g.torrent_offset)) [
  | inl t ↦ rw t (more t (extend_end_lem (suc i) (o + g.len) fs r rest (omega arith)))
  | inr t ↦ rw t (omega arith, stop t)
]
  where
    stop :
        contains r g.torrent_offset ≡ false
        → (k : ℕ) (f : FileInfo) → get_elem? (g ∷ fs) k ≡ some f
        → (i + k < i) ↔ (f.torrent_offset < r.end)
    stop t zero f e = ground arith
    stop t (suc k) f e = let b = IsLaidOut-bounds (o + g.len) fs k rest e in ground (arith, b)

    more :
        contains r g.torrent_offset ≡ true
        → {end : ℕ} → ExtendsTo (suc i) fs r end
        → ExtendsTo i (g ∷ fs) r end
    more t {end} (lo, iff) = (omega arith, each)
      where
        each :
            (k : ℕ) (f : FileInfo)
            → get_elem? (g ∷ fs) k ≡ some f
            → (i + k < end) ↔ (f.torrent_offset < r.end)
        each zero f e = ground arith
        each (suc k) f e =
            let p = iff k f e in (λ q. p.0 (omega arith), λ q. let z = p.1 q in omega arith)

-- The files from index `i` on that the found range takes are those that overlap with it.
abbrev Takes : ℕ → List FileInfo → Range → Range → Type 0
Takes i fs r out =
    (k : ℕ) (f : FileInfo)
    → get_elem? fs k ≡ some f
    → ((out.start ≤ i + k) × (i + k < out.end)) ↔ Overlaps r.start r.end f

-- The search from index `i` on finds a file, at or after `i`, if the files hold the first byte.
abbrev Finds : ℕ → ℕ → List FileInfo → Range → Checked (Option ℕ) → Type 0
Finds i o fs r panic = ⊥
Finds i o fs r (ret none) = ⊥
Finds i o fs r (ret (some j)) =
    (m : ℕ) × (j ≡ i + m)
    × (Takes i fs r (record { start = j; end = extend_end (suc j) (drop (suc m) fs) r (suc j) }))

-- The file that holds the first byte is taken, and then those that start before the range's end.
Takes-here :
    (i o : ℕ) (g : FileInfo) (fs : List FileInfo) (r : Range) (end : ℕ)
    → IsLaidOut o (g ∷ fs)
    → o ≤ r.start
    → r.start < o + g.len
    → r.start < r.end
    → ExtendsTo (suc i) fs r end
    → Takes i (g ∷ fs) r (record { start = i; end = end })
Takes-here i o g fs r end (at, pos, rest) lo hi ne (more, iff) zero f e = ground arith
Takes-here i o g fs r end (at, pos, rest) lo hi ne (more, iff) (suc k) f e =
    let p = iff k f e in
    let b = IsLaidOut-bounds (o + g.len) fs k rest e in
    (λ q. (p.0 (omega arith), omega arith), λ q. let z = p.1 q.0 in (omega arith, omega arith))

-- A file that ends before the range begins is not taken, and the search goes on behind it.
Finds-cons :
    (i o : ℕ) (g : FileInfo) (fs : List FileInfo) (r : Range) (res : Checked (Option ℕ))
    → g.torrent_offset + g.len ≤ r.start
    → Finds (suc i) (o + g.len) fs r res
    → Finds i o (g ∷ fs) r res
Finds-cons i o g fs r panic h k = k
Finds-cons i o g fs r (ret none) h k = k
Finds-cons i o g fs r (ret (some j)) h (m, e, takes) = (suc m, omega arith, each)
  where
    each :
        Takes i
          (g ∷ fs)
          r
          (record { start = j; end = extend_end (suc j) (drop (suc m) fs) r (suc j) })
    each zero f e' = (λ q. absurd (omega arith), λ q. absurd (ground arith))
    each (suc k) f e' =
        let p = takes k f e' in
        (λ q. p.0 (omega arith, omega arith), λ q. let z = p.1 q in (omega arith, omega arith))

find_start-Finds :
    (i o : ℕ) (fs : List FileInfo) (r : Range)
    → IsLaidOut o fs
    → o + sum_len fs < 2 ^ 64
    → o ≤ r.start
    → r.start < r.end
    → r.start < o + sum_len fs
    → Finds i o fs r (find_start i fs r.start)
unfolding find_start byte_range torrent_end_offset
find_start-Finds i o [] r l top lo ne hi = absurd (omega arith)
find_start-Finds i o (g ∷ fs) r (at, pos, rest) top lo ne hi =
    rw (lt→ltb (g.torrent_offset + g.len) (2 ^ 64) (omega arith))
      (elim (Bool-cases (leb g.torrent_offset r.start && ltb r.start (g.torrent_offset + g.len))) [
        | inl t ↦ rw t (
          0,
          omega arith,
          Takes-here i o g fs r _ (at, pos, rest) lo (ground arith) ne
              (extend_end_lem (suc i) (o + g.len) fs r rest (ground arith)),
        )
        | inr t ↦ rw t (
            Finds-cons i o g fs r _ (ground arith) (
              find_start-Finds (suc i) (o + g.len) fs r rest (omega arith) (ground arith) ne
                (omega arith)))
      ])

-- What `files_intersecting_bytes` may return for a range of bytes.
abbrev pub Intersects : List FileInfo → Range → Checked Range → Type 0
Intersects files r panic = ⊥
Intersects files r (ret out) =
    (k : ℕ) (f : FileInfo)
    → get_elem? files k ≡ some f
    → ((out.start ≤ k) × (k < out.end)) ↔ Overlaps r.start r.end f

Intersects-Finds :
    (files : List FileInfo) (r : Range) (res : Checked (Option ℕ))
    → Finds 0 0 files r res
    → Intersects files r (res >>= λ first. ret (range_from files r first))
Intersects-Finds files r panic k = k
Intersects-Finds files r (ret none) k = absurd k
Intersects-Finds files r (ret (some j)) (m, e, takes) =
    let same : j ≡ m = omega arith in
    let t = rw (← same) at takes in
    λ k f g. let p = t k f g in (λ q. p.0 (omega arith), λ q. let z = p.1 q in omega arith)

-- For files laid out from offset 0 that end below the top of `u64`, and a range of at least one byte
-- that begins inside them, `files_intersecting_bytes` does not panic, and a file's index is in the
-- returned range exactly if the file has a byte in the range.
pub files_intersecting_bytes_lem :
    (files : List FileInfo) (r : Range)
    → IsLaidOut 0 files
    → sum_len files < 2 ^ 64
    → r.start < r.end
    → r.start < sum_len files
    → Intersects files r (files_intersecting_bytes files r)
unfolding files_intersecting_bytes
files_intersecting_bytes_lem [] r l top ne hi = absurd (omega arith)
files_intersecting_bytes_lem (f ∷ []) r l top ne hi = each
  where
    each : Intersects (f ∷ []) r (ret (record { start = 0; end = 1 }))
    each zero f' e = ground arith
    each (suc k) f' e = cc
files_intersecting_bytes_lem (f ∷ g ∷ fs) r l top ne hi =
    let some_files : (suc (suc (length fs)) == 0) ≡ false = ground arith in
    let not_one : (suc (suc (length fs)) == 1) ≡ false = ground arith in
    rw (some_files, not_one)
      (Intersects-Finds (f ∷ g ∷ fs) r _
        (find_start-Finds 0 0 (f ∷ g ∷ fs) r l (omega arith) (omega arith) ne (omega arith)))
