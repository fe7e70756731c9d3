-- ===== src/Storage/Layout.antt =====
-- Files that lie one after the other in the torrent, as `Metainfo::from_bytes` builds them.
use cratetorrent.Prelude.{ℕ, zero, suc, ◌+◌, ◌<◌, ◌≤◌, ◌≡◌, some, List, [], ◌∷◌, arith, get_elem?}
use cratetorrent.Storage.{FileInfo}

-- Each file has bytes, and starts where the one before it ends; the first starts at `o`.
abbrev pub IsLaidOut : ℕ → List FileInfo → Type 0
IsLaidOut o [] = Unit
IsLaidOut o (f ∷ fs) = (f.torrent_offset ≡ o) × (0 < f.len) × IsLaidOut (o + f.len) fs

-- The bytes of all files.
abbrev pub sum_len : List FileInfo → ℕ
sum_len [] = 0
sum_len (f ∷ fs) = f.len + sum_len fs

-- The file has a byte in the range from `start` to before `end`.
abbrev pub Overlaps : ℕ → ℕ → FileInfo → Type 0
Overlaps start end f = (f.torrent_offset < end) × (start < f.torrent_offset + f.len)

-- A file of the layout lies between its start and its end.
pub IsLaidOut-bounds :
    (o : ℕ) (fs : List FileInfo) (k : ℕ) {f : FileInfo}
    → IsLaidOut o fs
    → get_elem? fs k ≡ some f
    → (o ≤ f.torrent_offset) × (0 < f.len) × (f.torrent_offset + f.len ≤ o + sum_len fs)
IsLaidOut-bounds o [] k l e = cc
IsLaidOut-bounds o (g ∷ fs) zero (at, pos, rest) e = ground arith
IsLaidOut-bounds o (g ∷ fs) (suc k) (at, pos, rest) e =
    omega (arith, IsLaidOut-bounds (o + g.len) fs k rest e)
