-- ===== src/IoVecs/Cursor.antt =====
-- `advance` drops the first bytes of the first half, and leaves the second half alone.
use cratetorrent.Prelude.{
  ℕ, zero, suc, ◌+◌, ◌-◌, ◌<◌, ◌≤◌, ◌≡◌, refl, ap, ◌∙◌, sym, true, false, Bool-cases, inl, inr,
  Option, none, some, List, [], ◌∷◌, ◌++◌, append-nil, arith, Checked, ret, panic, ◌>>=◌, ◌>>◌,
  length, length-append, length-take, take, drop, get_elem?, get_elem?-some, leb, ltb, le→leb,
  lt→ltb, ==_refl, ◌==◌, if◌then◌else◌, le→ltb_false, assert,
}
use native.Mathlib.Decide.{dec_lt}
use cratetorrent.IoVecs.{
  IoVec, Split, IoVecs, as_slice, slice_of, is_used_up, count_whole, keep_split_buf, last_len,
  move_split, trim_first, advance,
}
use cratetorrent.IoVecs.Bytes.{flatten, drop-append_ge, drop-append_le, drop_at, flatten-take-suc}
use cratetorrent.IoVecs.Bound.{first, rest, first_of, IsValid, half_bytes, take-all}

-- How many whole buffers lie among the first `n` bytes, and their bytes.
unfoldable pub whole : List IoVec → ℕ → ℕ
whole [] n = 0
whole (b ∷ bs) n = let more = whole bs (n - length b) in if ltb n (length b) then 0 else suc more

abbrev pub whole_len : List IoVec → ℕ → ℕ
whole_len bs n = length (flatten (take (whole bs n) bs))

pub count_whole-whole :
    (bs : List IoVec) (n count total : ℕ)
    → total ≤ n
    → count_whole bs n count total
      ≡ (count + whole bs (n - total), total + whole_len bs (n - total))
unfolding count_whole whole
count_whole-whole [] n count total h = ground arith
count_whole-whole (b ∷ bs) n count total h = elim (Bool-cases (ltb n (total + length b))) [
  | inl t ↦ let t' : ltb (n - total) (length b) ≡ true = ground arith in rw (t, t') (ground arith)
  | inr t ↦
      let t' : ltb (n - total) (length b) ≡ false = ground arith in
      let same : n - (total + length b) ≡ n - total - length b = omega arith in
      rw (t, t')
        (count_whole-whole bs n (count + 1) (total + length b) (ground arith)
          ∙ rw same (
              ground
                (arith, length-append b (flatten (take (whole bs (n - total - length b)) bs)))))
]

whole_stop : (b : IoVec) (bs : List IoVec) (n : ℕ) → n < length b → whole (b ∷ bs) n ≡ 0
unfolding whole
whole_stop b bs n h = rw (lt→ltb n (length b) h)

whole_go :
    (b : IoVec) (bs : List IoVec) (n : ℕ)
    → length b ≤ n
    → whole (b ∷ bs) n ≡ suc (whole bs (n - length b))
unfolding whole
whole_go b bs n h = rw (le→ltb_false n (length b) h)

trim_first_lem :
    (b : IoVec) (bs : List IoVec) (n m tm : ℕ)
    → m ≡ tm + n
    → n ≤ length b
    → trim_first (b ∷ bs) m tm ≡ ret (drop n b ∷ bs)
unfolding trim_first
trim_first_lem b bs n m tm e h =
    let same : m - tm ≡ n = omega arith in
    rw (le→leb tm m (omega arith)) (rw same (rw (le→leb n (length b) h)))

-- With no split, the buffers left hold the bytes after the first `n`.
pub trim_whole :
    (bs : List IoVec) (n t m tm : ℕ)
    → n ≤ length (flatten bs)
    → m ≡ t + n
    → tm ≡ t + whole_len bs n
    → (ys : List IoVec) × (trim_first (drop (whole bs n) bs) m tm ≡ ret ys)
      × (flatten ys ≡ drop n (flatten bs))
      × (whole bs n ≤ length bs)
unfolding trim_first
trim_whole [] n t m tm h e f =
    unfold whole in let z : n ≡ 0 = omega arith in ([], refl, rw z, omega arith)
trim_whole (b ∷ bs) n t m tm h e f = elim (dec_lt n (length b)) [
  | yes q ↦ rw (whole_stop b bs n q) (
    drop n b ∷ bs,
    trim_first_lem b bs n m tm
        (omega (arith, f, ap (λ k. length (flatten (take k (b ∷ bs)))) (whole_stop b bs n q)))
        (omega arith),
    sym (drop-append_le n b (flatten bs) (omega arith)),
    omega arith,
  )
  | no q ↦
      let go = whole_go b bs n (omega arith) in
      let k = whole bs (n - length b) in
      let l = length-append b (flatten (take k bs)) in
      let fk = ap (λ j. length (flatten (take j (b ∷ bs)))) go in
      let (ys, tr, fl, len) =
        trim_whole bs (n - length b) (t + length b) m tm
          (omega (arith, length-append b (flatten bs))) (omega arith) (omega arith) in
      rw go (ys, tr, fl ∙ sym (drop-append_ge n b (flatten bs) (omega arith)), omega arith)
]

-- With a split at the end of the first `k` buffers, and fewer bytes to drop than these hold, some of
-- these are left, and the buffers after them are as they were.
trim_split :
    (bs : List IoVec) (k n t m tm : ℕ)
    → n < length (flatten (take k bs))
    → m ≡ t + n
    → tm ≡ t + whole_len (take k bs) n
    → (ys : List IoVec) × (trim_first (drop (whole (take k bs) n) bs) m tm ≡ ret ys)
      × (flatten (take (k - whole (take k bs) n) ys) ≡ drop n (flatten (take k bs)))
      × (drop (k - whole (take k bs) n) ys ≡ drop k bs)
      × (whole (take k bs) n < k)
      × (whole (take k bs) n + length ys ≡ length bs)
      × (0 < length ys)
trim_split [] zero n t m tm h e f = absurd (omega arith)
trim_split [] (suc k) n t m tm h e f = absurd (omega arith)
trim_split (b ∷ bs) zero n t m tm h e f = absurd (omega arith)
trim_split (b ∷ bs) (suc k) n t m tm h e f = elim (dec_lt n (length b)) [
  | yes q ↦
      let stop = whole_stop b (take k bs) n q in
      let fk = ap (λ j. length (flatten (take j (b ∷ take k bs)))) stop in
      let all : suc k - 0 ≡ suc k = omega arith in
      rw stop (
        rw all (
          drop n b ∷ bs,
          trim_first_lem b bs n m tm (omega arith) (omega arith),
          sym (drop-append_le n b (flatten (take k bs)) (omega arith)),
          refl,
          omega arith,
          omega arith,
          omega arith,
        ))
  | no q ↦
      let go = whole_go b (take k bs) n (omega arith) in
      let j = whole (take k bs) (n - length b) in
      let l = length-append b (flatten (take j (take k bs))) in
      let fk = ap (λ j. length (flatten (take j (b ∷ take k bs)))) go in
      let (ys, tr, fl, dr, lt, len, pos) =
        trim_split bs k (n - length b) (t + length b) m tm
          (omega (arith, length-append b (flatten (take k bs)))) (omega arith) (omega arith) in
      let shift : suc k - suc j ≡ k - j = omega arith in
      rw go (
        rw shift (
          ys,
          tr,
          fl ∙ sym (drop-append_ge n b (flatten (take k bs)) (omega arith)),
          dr,
          omega arith,
          omega arith,
          pos,
        ))
]

-- All the bytes are held by all the buffers.
whole_all : (bs : List IoVec) → whole bs (length (flatten bs)) ≡ length bs
unfolding whole
whole_all [] = refl
whole_all (b ∷ bs) =
    let l = length-append b (flatten bs) in
    let same : length (b ++ flatten bs) - length b ≡ length (flatten bs) = omega arith in
    whole_go b bs (length (b ++ flatten bs)) (omega arith)
    ∙ ap (λ n. suc (whole bs n)) same
    ∙ ap suc (whole_all bs)

take-length : (bs : List IoVec) → take (length bs) bs ≡ bs
take-length [] = refl
take-length (b ∷ bs) = ap (λ ys. b ∷ ys) (take-length bs)

last_len-take :
    (bs : List IoVec) (k : ℕ) (b : IoVec)
    → get_elem? bs k ≡ some b
    → last_len (take (suc k) bs) ≡ length b
last_len-take [] k b e = cc
last_len-take (c ∷ bs) zero b e = let same : c ≡ b = cc in ap length same
last_len-take (c ∷ []) (suc k) b e = cc
last_len-take (c ∷ d ∷ bs) (suc k) b e = last_len-take (d ∷ bs) k b e

-- What `advance` may return.
abbrev pub Advances : IoVecs → ℕ → Checked IoVecs → Type 0
Advances s n panic = ⊥
Advances s n (ret s') = (first s' ≡ drop n (first s)) × (rest s' ≡ rest s) × IsValid s'

-- The part of `advance` after the slice is taken.
advance_over : List IoVec → Option Split → ℕ → List IoVec → Checked IoVecs
advance_over bufs split n slice = do
  (count, total) ← keep_split_buf slice split n (count_whole slice n 0 0)
  assert (leb count (length bufs))
  bufs' ← trim_first (drop count bufs) n total
  ret (record { bufs = bufs'; split = move_split count split })

advance_whole :
    (bufs : List IoVec) (n : ℕ)
    → n ≤ length (flatten bufs)
    → Advances (record { bufs = bufs; split = none }) n (advance_over bufs none n bufs)
unfolding advance_over keep_split_buf
advance_whole bufs n h =
    let zero_less : n - 0 ≡ n = omega arith in
    let (ys, tr, fl, len) =
      trim_whole bufs n 0 n (0 + whole_len bufs n) h (omega arith) (omega arith) in
    let plain : 0 + whole bufs n ≡ whole bufs n = omega arith in
    rw (count_whole-whole bufs n 0 0 (omega arith))
      (rw zero_less (rw plain (rw (le→leb _ _ len) (rw tr (fl, refl, tt)))))

module _ (bufs : List IoVec) (pos : ℕ) (half : Option IoVec) (n : ℕ)
    (inside : pos < length bufs) where
  abbrev here : Split
  here = record { pos = pos; split_buf_second_half = half }

  advance_inside :
      n < length (flatten (take (suc pos) bufs))
      → Advances
          (record { bufs = bufs; split = some here })
          n
          (advance_over bufs (some here) n (take (suc pos) bufs))
  unfolding advance_over keep_split_buf
  advance_inside h =
      let xs = take (suc pos) bufs in
      let c = whole xs n in
      let zero_less : n - 0 ≡ n = omega arith in
      let plain : 0 + c ≡ c = omega arith in
      let (ys, tr, fl, dr, lt, len, some_left) =
        trim_split bufs (suc pos) n 0 n (0 + whole_len xs n) h (omega arith) (omega arith) in
      let not_all : (c == (pos + 1)) ≡ false = ground arith in
      let moved : suc (if leb pos c then 0 else pos - c) ≡ suc pos - c = ground arith in
      rw (count_whole-whole xs n 0 0 (omega arith)) (
        rw zero_less (
          rw plain (
            rw not_all (
              rw (le→leb c (length bufs) (omega arith)) (
                rw tr (rw moved (fl, ap (λ zs. half_bytes half ++ flatten zs) dr, omega arith)))))))

  advance_to_end :
      n ≡ length (flatten (take (suc pos) bufs))
      → Advances
          (record { bufs = bufs; split = some here })
          n
          (advance_over bufs (some here) n (take (suc pos) bufs))
  unfolding advance_over keep_split_buf
  advance_to_end h =
      let xs = take (suc pos) bufs in
      let (b, eb) = get_elem?-some bufs pos inside in
      let all : length xs ≡ suc pos = omega (arith, length-take (suc pos) bufs) in
      let same : n - 0 ≡ n = omega arith in
      let held : whole xs n ≡ length xs = rw h (whole_all xs) in
      let cnt : 0 + whole xs (n - 0) ≡ pos + 1 = rw same (omega arith) in
      let tot : 0 + whole_len xs (n - 0) ≡ n = rw (same, held, take-length xs) (omega arith) in
      let back : pos + 1 - 1 ≡ pos = omega arith in
      let last = last_len-take bufs pos b eb in
      let fl = flatten-take-suc bufs pos b eb in
      let small : length b ≤ n =
        omega (arith, ap length fl, length-append (flatten (take pos bufs)) b) in
      rw (count_whole-whole xs n 0 0 (omega arith)) (
        rw tot (
          rw cnt (
            rw (==_refl (pos + 1)) (
              rw (le→leb n n (omega arith)) (
                rw (le→leb 1 (pos + 1) (omega arith)) (
                  rw last (
                    rw (le→leb (length b) n small) (
                      rw back (
                        rw (le→leb pos (length bufs) (omega arith)) (
                          rw (drop_at bufs pos b eb) (
                            rw
                              (trim_first_lem b (drop (suc pos) bufs) (length b) n (n - length b)
                                (omega arith) (omega arith))
                              (rw (le→leb pos pos (omega arith)) (
                                append-nil (drop (length b) b)
                                    ∙ (take-all (length b) b (omega arith)).1
                                    ∙ sym (take-all n (flatten xs) (omega arith)).1,
                                refl,
                                omega arith,
                              )))))))))))))

length_zero : (xs : List ℕ) → length xs ≡ 0 → xs ≡ []
length_zero [] e = refl
length_zero (x ∷ xs) e = absurd (omega arith)

pub used_up_empty :
    (pos : ℕ) (bufs : List IoVec)
    → is_used_up pos bufs ≡ true
    → (pos ≡ 0) × (flatten (take (suc pos) bufs) ≡ [])
used_up_empty pos [] e = cc
used_up_empty pos (b ∷ bs) e =
    let z : pos ≡ 0 = ground arith in
    let l : length b ≡ 0 = ground arith in (z, rw z (rw append-nil (length_zero b l)))

-- At the mark, nothing is left to advance over.
advance_used_up :
    (bufs : List IoVec) (half : Option IoVec)
    → 0 < length bufs
    → Advances
        (record { bufs = bufs; split = some (record { pos = 0; split_buf_second_half = half }) })
        0
        (advance_over bufs (some (record { pos = 0; split_buf_second_half = half })) 0 [])
unfolding advance_over keep_split_buf count_whole trim_first
advance_used_up [] half h = absurd (omega arith)
advance_used_up (b ∷ bs) half h =
    rw (le→leb 0 (suc (length bs)) (omega arith))
      (rw (le→leb 0 (length b) (omega arith)) (refl, refl, h))

advance_at_mark :
    (bufs : List IoVec) (pos n : ℕ) (half : Option IoVec)
    → pos ≡ 0
    → n ≡ 0
    → 0 < length bufs
    → Advances
        (record { bufs = bufs; split = some (record { pos = pos; split_buf_second_half = half }) })
        n
        (advance_over bufs (some (record { pos = pos; split_buf_second_half = half })) n [])
advance_at_mark bufs pos n half p z h = rw (p, z) (advance_used_up bufs half h)

-- Advancing by at most the bytes before the split does not panic: it drops that many of them, and
-- the bytes behind the split stay the same.
pub advance_lem :
    (s : IoVecs) (n : ℕ) → IsValid s → n ≤ length (first s) → Advances s n (advance s n)
unfolding advance as_slice advance_over
advance_lem s n v h = by_split s.bufs s.split v h
  where
    by_split :
        (bufs : List IoVec) (split : Option Split)
        → IsValid (record { bufs = bufs; split = split })
        → n ≤ length (first_of bufs split)
        → Advances
            (record { bufs = bufs; split = split })
            n
            (slice_of bufs split >>= advance_over bufs split n)
    by_split bufs none v h = advance_whole bufs n h
    by_split bufs (some split) v h = elim (Bool-cases (is_used_up split.pos bufs)) [
      | inl u ↦
          let (z, f) = used_up_empty split.pos bufs u in
          rw u (
            advance_at_mark bufs split.pos n split.split_buf_second_half z
              (omega (arith, h, ap length f)) (omega arith))
      | inr u ↦ rw u (
          rw (lt→ltb split.pos (length bufs) v)
            (elim (dec_lt n (length (flatten (take (suc split.pos) bufs)))) [
              | yes l ↦ advance_inside bufs split.pos split.split_buf_second_half n v l
              | no l ↦ advance_to_end bufs split.pos split.split_buf_second_half n v (omega arith)
            ]))
    ]
