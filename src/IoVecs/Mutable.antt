-- ===== src/IoVecs/Mutable.antt =====
-- The free function `advance` of cratetorrent/src/iovecs.rs, over mutable buffers, whose loop and
-- last step are written like those of the method.
use cratetorrent.Prelude.{
  ℕ, ◌+◌, ◌-◌, ◌≤◌, ◌≡◌, refl, ◌∙◌, List, [], ◌∷◌, arith, Checked, ret, length, length-append,
  le→ltb_false, drop,
}
use cratetorrent.IoVecs.{IoVec, count_whole, trim_first}
use cratetorrent.IoVecs.Bytes.{flatten}
use cratetorrent.IoVecs.Cursor.{count_whole-whole, whole, whole_len, trim_whole}

unfoldable pub advance : List IoVec → ℕ → Checked (List IoVec)
advance bufs n = let (count, total) = count_whole bufs n 0 0 in trim_first (drop count bufs) n total

-- `advance` drops the first bytes.
pub advance-flatten :
    (bufs : List IoVec) (n : ℕ)
    → n ≤ length (flatten bufs)
    → (bufs' : List IoVec) × (advance bufs n ≡ ret bufs') × (flatten bufs' ≡ drop n (flatten bufs))
unfolding advance
advance-flatten bufs n h =
    let (ys, tr, fl, len) =
      trim_whole bufs n 0 n (whole_len bufs n) h (omega arith) (omega arith) in
    let same : n - 0 ≡ n = omega arith in
    let count : 0 + whole bufs n ≡ whole bufs n = omega arith in
    let total : 0 + whole_len bufs n ≡ whole_len bufs n = omega arith in
    rw (count_whole-whole bufs n 0 0 (omega arith)) (rw same (rw count (rw total (ys, tr, fl))))

count_whole_all :
    (bufs : List IoVec) (n count total : ℕ)
    → total + length (flatten bufs) ≤ n
    → count_whole bufs n count total ≡ (count + length bufs, total + length (flatten bufs))
unfolding count_whole
count_whole_all [] n count total h = ground arith
count_whole_all (b ∷ bs) n count total h =
    let len = length-append b (flatten bs) in
    rw (le→ltb_false n (total + length b) (omega arith))
      (count_whole_all bs n (count + 1) (total + length b) (omega arith) ∙ ground arith)

drop_all : (bufs : List IoVec) → drop (length bufs) bufs ≡ []
drop_all [] = refl
drop_all (b ∷ bs) = drop_all bs

-- No buffer is left when all bytes are dropped.
pub advance_all : (bufs : List IoVec) (n : ℕ) → n ≡ length (flatten bufs) → advance bufs n ≡ ret []
unfolding advance trim_first
advance_all bufs n h =
    let count : 0 + length bufs ≡ length bufs = omega arith in
    rw (count_whole_all bufs n 0 0 (omega arith)) (rw count (rw (drop_all bufs) refl))
