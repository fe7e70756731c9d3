-- ===== src/IoVecs/Tail.antt =====
-- `into_tail`: when it returns the bytes behind the split, and when it returns more.
use cratetorrent.Prelude.{
  ℕ, suc, ◌+◌, ◌<◌, ◌≤◌, ◌≡◌, refl, ap, ◌∙◌, sym, subst, false, Option, none, some, List, [], ◌∷◌,
  ◌++◌, arith, Checked, ret, panic, ◌>>=◌, length, length-append, length-take, take, drop, set,
  get_elem?-some, get_elem?-set_self, le→leb, lt→ltb, ==_refl, ◌==◌, drop-append, lt→leb_false,
}
use cratetorrent.IoVecs.{
  IoVec, Split, IoVecs, find_split, bound_at, bounded, split_at_buffer_boundary, advance, restore,
  tail_of, into_tail,
}
use cratetorrent.IoVecs.Bytes.{flatten, drop_at, drop-suc-set, flatten-take-suc}
use cratetorrent.IoVecs.Bound.{
  first, rest, first_of, rest_of, IsValid, half_bytes, take-all, SplitsAt, bounded_lem,
}
use cratetorrent.IoVecs.Cursor.{Advances, advance_lem}

-- The buffers that `into_tail` returns hold these bytes.
abbrev pub Leaves : List ℕ → Checked (List IoVec) → Type 0
Leaves bytes panic = ⊥
Leaves bytes (ret ys) = flatten ys ≡ bytes

empty_of_append : (xs ys : List ℕ) → xs ++ ys ≡ [] → ys ≡ []
empty_of_append [] ys e = e
empty_of_append (x ∷ xs) ys e = cc

tail_of-rest :
    (bufs : List IoVec) (split : Option Split)
    → IsValid (record { bufs = bufs; split = split })
    → first_of bufs split ≡ []
    → Leaves (rest_of bufs split) (tail_of bufs split)
tail_of-rest bufs none v e = refl
tail_of-rest bufs (some split) v e = by_half split.split_buf_second_half
  where
    by_half :
        (half : Option IoVec)
        → Leaves
            (half_bytes half ++ flatten (drop (suc split.pos) bufs))
            (restore bufs split.pos half)
    by_half none =
        let (b, eb) = get_elem?-some bufs split.pos v in
        let empty =
          empty_of_append (flatten (take split.pos bufs)) b
            (sym (flatten-take-suc bufs split.pos b eb) ∙ e) in
        rw (le→leb split.pos (length bufs) (omega arith)) (
          ap flatten (drop_at bufs split.pos b eb)
          ∙ ap (λ zs. zs ++ flatten (drop (suc split.pos) bufs)) empty)
    by_half (some h) = rw (lt→ltb split.pos (length bufs) v) (
        ap flatten
          (drop_at (set bufs split.pos h) split.pos h (get_elem?-set_self bufs split.pos h v))
        ∙ ap (λ zs. h ++ flatten zs) (drop-suc-set bufs split.pos h))

-- When the bytes before the split are used up, `into_tail` does not panic and returns buffers with
-- exactly the bytes behind the split.
pub into_tail_lem : (s : IoVecs) → IsValid s → first s ≡ [] → Leaves (rest s) (into_tail s)
unfolding into_tail
into_tail_lem s v e = tail_of-rest s.bufs s.split v e

-- Bounding buffers at `max_len`, advancing over all that is before the bound, and taking the tail.
pub after_writing : List IoVec → ℕ → Checked (List IoVec)
after_writing bufs max_len = do s ← bounded bufs max_len; s' ← advance s max_len; into_tail s'

advance-Leaves :
    (s : IoVecs) (n : ℕ) (r : Checked IoVecs) (bytes : List ℕ)
    → drop n (first s) ≡ []
    → rest s ≡ bytes
    → Advances s n r
    → Leaves bytes (r >>= into_tail)
advance-Leaves s n panic bytes e f a = a
advance-Leaves s n (ret s') bytes e f (fst', rst', v) =
    subst (λ z. Leaves z (into_tail s')) (rst' ∙ f) (into_tail_lem s' v (fst' ∙ e))

bounded-Leaves :
    (bufs : List IoVec) (max_len : ℕ) (r : Checked IoVecs)
    → max_len ≤ length (flatten bufs)
    → SplitsAt bufs max_len r
    → Leaves (drop max_len (flatten bufs)) (r >>= λ s. advance s max_len >>= into_tail)
bounded-Leaves bufs max_len panic h k = k
bounded-Leaves bufs max_len (ret s) h (f, r, v) =
    let l = ap length f ∙ length-take max_len (flatten bufs) in
    advance-Leaves s max_len (advance s max_len) (drop max_len (flatten bufs))
      (take-all max_len (first s) (omega (arith, l))).1 r
      (advance_lem s max_len v (omega (arith, l)))

-- For a positive bound within the buffers' bytes, bounding, advancing by the bound and taking the
-- tail does not panic and returns exactly the bytes from the bound on.
pub after_writing_lem :
    (bufs : List IoVec) (max_len : ℕ)
    → 0 < max_len
    → max_len ≤ length (flatten bufs)
    → Leaves (drop max_len (flatten bufs)) (after_writing bufs max_len)
unfolding after_writing
after_writing_lem bufs max_len pos h =
    bounded-Leaves bufs max_len _ h (bounded_lem bufs max_len pos)

-- Buffers before the one at which the bound lies.
find_split-prefix :
    (xs : List IoVec) (b : IoVec) (ys : List IoVec) (pos bufs_len max_len : ℕ)
    → bufs_len + length (flatten xs) < max_len
    → bufs_len + length (flatten xs) + length b ≡ max_len
    → find_split (xs ++ b ∷ ys) pos bufs_len max_len ≡ some (pos + length xs, max_len)
unfolding find_split
find_split-prefix [] b ys pos bufs_len max_len h e =
    rw (le→leb max_len (bufs_len + length b) (omega arith)) (ground arith)
find_split-prefix (x ∷ xs) b ys pos bufs_len max_len h e =
    let l = length-append x (flatten xs) in
    rw (lt→leb_false max_len (bufs_len + length x) (omega (arith, h, l))) (
      find_split-prefix xs b ys (suc pos) (bufs_len + length x) max_len (omega (arith, h, l))
        (omega (arith, e, l))
      ∙ ground arith)

-- Where the bound lies between two buffers and nothing was advanced over, `into_tail` returns the
-- last buffer before the bound once more, in front of those behind it.
pub into_tail_repeats :
    (xs : List IoVec) (b c : IoVec) (ys : List IoVec)
    → 0 < length b
    → (bounded (xs ++ b ∷ c ∷ ys) (length (flatten xs) + length b) >>= into_tail) ≡ ret (b ∷ c ∷ ys)
unfolding bounded bound_at split_at_buffer_boundary into_tail
into_tail_repeats xs b c ys h =
    let max_len = length (flatten xs) + length b in
    let bufs = xs ++ b ∷ c ∷ ys in
    let total = length-append xs (b ∷ c ∷ ys) in
    let plain : 0 + length xs ≡ length xs = omega arith in
    let more : ((length xs + 1) == length bufs) ≡ false = ground (arith, total) in
    rw (lt→ltb 0 max_len (omega arith)) (
      rw (find_split-prefix xs b (c ∷ ys) 0 0 max_len (omega arith) (omega arith)) (
        rw plain (
          rw (==_refl max_len) (
            rw more (
              rw (le→leb (length xs) (length bufs) (omega (arith, total)))
                (rw (drop-append (length xs) xs (b ∷ c ∷ ys) refl)))))))
