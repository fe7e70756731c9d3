-- ===== src/IoVecs/Bound.antt =====
-- `bounded` splits the bytes of the buffers at the given count.
use cratetorrent.Prelude.{
  ℕ, zero, suc, ◌+◌, ◌-◌, ◌<◌, ◌≤◌, ◌≡◌, refl, ap, ◌∙◌, sym, Bool-cases, inl, inr, Option, none,
  some, List, [], ◌∷◌, ◌++◌, arith, Checked, ret, panic, length, length-append, take, drop, set,
  get_elem?, get_elem?-set_self, length-set, leb, leb→le, le→leb, lt→ltb, ◌==◌,
}
use cratetorrent.IoVecs.{
  IoVec, Split, IoVecs, unbounded, split_at_buffer_boundary, split_within_buffer, find_split,
  bound_at, bounded,
}
use cratetorrent.IoVecs.Bytes.{
  flatten, flatten-at, flatten-take-suc, take-set, drop-suc-set, lt_of_get, drop-append_ge,
  drop-append_le, take-append_ge, take-append_le,
}

-- The bytes before the bound, which are to be written, and those behind it.
abbrev pub first_of : List IoVec → Option Split → List ℕ
first_of bufs none = flatten bufs
first_of bufs (some split) = flatten (take (suc split.pos) bufs)

abbrev pub half_bytes : Option IoVec → List ℕ
half_bytes none = []
half_bytes (some b) = b

abbrev pub rest_of : List IoVec → Option Split → List ℕ
rest_of bufs none = []
rest_of bufs (some split) =
    half_bytes split.split_buf_second_half ++ flatten (drop (suc split.pos) bufs)

abbrev pub first : IoVecs → List ℕ
first s = first_of s.bufs s.split

abbrev pub rest : IoVecs → List ℕ
rest s = rest_of s.bufs s.split

-- The split position is that of a buffer.
abbrev pub InRange : List IoVec → Option Split → Type 0
InRange bufs none = Unit
InRange bufs (some split) = split.pos < length bufs

abbrev pub IsValid : IoVecs → Type 0
IsValid s = InRange s.bufs s.split

-- The buffer at which the bytes from the start reach the maximum.
pub record FoundSplit (bs : List IoVec) (pos bufs_len max_len p l : ℕ) : Type 0 where
  pub k : ℕ
  pub b : IoVec
  pub here : get_elem? bs k ≡ some b
  pub at : p ≡ pos + k
  pub total : l ≡ bufs_len + length (flatten (take k bs)) + length b
  pub before : bufs_len + length (flatten (take k bs)) < max_len
  pub reached : max_len ≤ l

abbrev pub FindSplits : List IoVec → ℕ → ℕ → ℕ → Option (ℕ × ℕ) → Type 0
FindSplits bs pos bufs_len max_len none = bufs_len + length (flatten bs) < max_len
FindSplits bs pos bufs_len max_len (some (p, l)) = FoundSplit bs pos bufs_len max_len p l

FindSplits-cons :
    (b : IoVec) (bs : List IoVec) (pos bufs_len max_len : ℕ) (r : Option (ℕ × ℕ))
    → FindSplits bs (suc pos) (bufs_len + length b) max_len r
    → FindSplits (b ∷ bs) pos bufs_len max_len r
FindSplits-cons b bs pos bufs_len max_len none h = omega (arith, length-append b (flatten bs))
FindSplits-cons b bs pos bufs_len max_len (some (p, l)) h = record {
  k = suc h.k;
  b = h.b;
  here = h.here;
  at = omega (arith, h.at);
  total = omega (arith, h.total, length-append b (flatten (take h.k bs)));
  before = omega (arith, h.before, length-append b (flatten (take h.k bs)));
  reached = h.reached;
}

pub find_split-FindSplits :
    (bs : List IoVec) (pos bufs_len max_len : ℕ)
    → bufs_len < max_len
    → FindSplits bs pos bufs_len max_len (find_split bs pos bufs_len max_len)
unfolding find_split
find_split-FindSplits [] pos bufs_len max_len h = omega arith
find_split-FindSplits (b ∷ bs) pos bufs_len max_len h =
    elim (Bool-cases (leb max_len (bufs_len + length b))) [
      | inl t ↦ rw t record {
        k = 0;
        b = b;
        here = refl;
        at = omega arith;
        total = omega arith;
        before = omega arith;
        reached = leb→le _ _ t;
      }
      | inr t ↦ rw t (
          FindSplits-cons b bs pos bufs_len max_len _
            (find_split-FindSplits bs (suc pos) (bufs_len + length b) max_len (ground arith)))
    ]

-- What `bounded` may return.
abbrev pub SplitsAt : List IoVec → ℕ → Checked IoVecs → Type 0
SplitsAt bufs max_len panic = ⊥
SplitsAt bufs max_len (ret s) =
    (first s ≡ take max_len (flatten bufs)) × (rest s ≡ drop max_len (flatten bufs)) × IsValid s

pub drop-none : (n : ℕ) (bs : List IoVec) → length bs ≤ n → drop n bs ≡ []
drop-none zero [] h = refl
drop-none zero (b ∷ bs) h = absurd (omega arith)
drop-none (suc n) [] h = refl
drop-none (suc n) (b ∷ bs) h = drop-none n bs (omega arith)

pub take-all : (n : ℕ) (xs : List ℕ) → length xs ≤ n → (take n xs ≡ xs) × (drop n xs ≡ [])
take-all n [] h = (nil n, nil' n)
  where
    nil : (n : ℕ) → take {A = ℕ} n [] ≡ []
    nil zero = refl
    nil (suc n) = refl

    nil' : (n : ℕ) → drop {A = ℕ} n [] ≡ []
    nil' zero = refl
    nil' (suc n) = refl
take-all zero (x ∷ xs) h = absurd (omega arith)
take-all (suc n) (x ∷ xs) h = let r = take-all n xs (omega arith) in (ap (λ ys. x ∷ ys) r.0, r.1)

-- The buffer `b` at index `k` holds the byte before which the bytes are split.
module _ (bufs : List IoVec) (max_len k : ℕ) (b : IoVec) (here : get_elem? bufs k ≡ some b)
    (before : length (flatten (take k bufs)) < max_len)
    (reached : max_len ≤ length (flatten (take k bufs)) + length b) where
  abbrev cut : ℕ
  cut = max_len - length (flatten (take k bufs))

  take-flatten : take max_len (flatten bufs) ≡ flatten (take k bufs) ++ take cut b
  take-flatten = rw (flatten-at bufs k b here) (
      take-append_ge max_len (flatten (take k bufs)) (b ++ flatten (drop (suc k) bufs))
        (omega arith)
      ∙ ap (λ zs. flatten (take k bufs) ++ zs)
          (take-append_le cut b (flatten (drop (suc k) bufs)) (omega arith)))

  drop-flatten : drop max_len (flatten bufs) ≡ drop cut b ++ flatten (drop (suc k) bufs)
  drop-flatten = rw (flatten-at bufs k b here) (
      drop-append_ge max_len (flatten (take k bufs)) (b ++ flatten (drop (suc k) bufs))
        (omega arith)
      ∙ drop-append_le cut b (flatten (drop (suc k) bufs)) (omega arith))

  boundary-SplitsAt :
      max_len ≡ length (flatten (take k bufs)) + length b
      → SplitsAt bufs max_len (ret (split_at_buffer_boundary bufs k))
  unfolding split_at_buffer_boundary
  boundary-SplitsAt e =
      let all = take-all cut b (omega arith) in
      (
        flatten-take-suc bufs k b here
            ∙ sym (take-flatten ∙ ap (λ zs. flatten (take k bufs) ++ zs) all.0),
        sym (drop-flatten ∙ ap (λ zs. zs ++ flatten (drop (suc k) bufs)) all.1),
        lt_of_get bufs k b here,
      )

  whole-SplitsAt :
      max_len ≡ length (flatten (take k bufs)) + length b
      → k + 1 ≡ length bufs
      → SplitsAt bufs max_len (ret (unbounded bufs))
  unfolding unbounded
  whole-SplitsAt e last =
      let total = length_whole last in
      let all = take-all max_len (flatten bufs) (omega (arith, total)) in (sym all.0, sym all.1, tt)
    where
      length_whole :
          k + 1 ≡ length bufs → length (flatten bufs) ≡ length (flatten (take k bufs)) + length b
      length_whole last =
          ap length (flatten-at bufs k b here)
          ∙ omega (
            arith,
            length-append (flatten (take k bufs)) (b ++ flatten (drop (suc k) bufs)),
            length-append b (flatten (drop (suc k) bufs)),
            ap (λ zs. length (flatten zs)) (drop-none (suc k) bufs (omega arith)),
          )

  within-SplitsAt : SplitsAt bufs max_len (split_within_buffer bufs k cut)
  unfolding split_within_buffer
  within-SplitsAt = rw here (
      rw (le→leb cut (length b) (omega arith)) (
        flatten-take-suc (set bufs k (take cut b)) k (take cut b)
              (get_elem?-set_self bufs k (take cut b) (lt_of_get bufs k b here))
            ∙ ap (λ zs. flatten zs ++ take cut b) (take-set bufs k (take cut b))
            ∙ sym take-flatten,
        ap (λ zs. drop cut b ++ flatten zs) (drop-suc-set bufs k (take cut b)) ∙ sym drop-flatten,
        omega (arith, length-set bufs k (take cut b), lt_of_get bufs k b here),
      ))

bound_at-SplitsAt :
    (bufs : List IoVec) (max_len : ℕ) (r : Option (ℕ × ℕ))
    → FindSplits bufs 0 0 max_len r
    → SplitsAt bufs max_len (bound_at bufs max_len r)
unfolding bound_at unbounded
bound_at-SplitsAt bufs max_len none h =
    let all = take-all max_len (flatten bufs) (omega arith) in (sym all.0, sym all.1, tt)
bound_at-SplitsAt bufs max_len (some (p, l)) h = go p l (omega (arith, h.at)) h.total
  where
    go :
        (p l : ℕ)
        → p ≡ h.k
        → l ≡ 0 + length (flatten (take h.k bufs)) + length h.b
        → SplitsAt bufs max_len (bound_at bufs max_len (some (p, l)))
    go p l e t =
        let reached : max_len ≤ length (flatten (take h.k bufs)) + length h.b =
          omega (arith, h.reached, h.total) in
        let before : length (flatten (take h.k bufs)) < max_len = omega (arith, h.before) in
        let offset : l - length h.b ≡ length (flatten (take h.k bufs)) = omega arith in
        rw e (elim (Bool-cases (l == max_len)) [
          | inl q ↦ rw q (elim (Bool-cases ((h.k + 1) == length bufs)) [
            | inl z ↦ rw z (
                whole-SplitsAt bufs max_len h.k h.b h.here before reached (ground arith)
                  (ground arith))
            | inr z ↦
                rw z (boundary-SplitsAt bufs max_len h.k h.b h.here before reached (ground arith))
          ])
          | inr q ↦ rw q (
              rw h.here (
                rw (le→leb (length h.b) l (omega arith)) (
                  rw offset (
                    rw (le→leb (length (flatten (take h.k bufs))) max_len (omega (arith, h.before)))
                      (rw
                        (lt→ltb (max_len - length (flatten (take h.k bufs))) (length h.b)
                          (ground (arith, h.before, reached)))
                        (within-SplitsAt bufs max_len h.k h.b h.here before reached))))))
        ])

-- For a positive count, `bounded` does not panic: the bytes before the split are the first `max_len`
-- of the buffers' bytes, and the bytes behind it are the others.
pub bounded_lem :
    (bufs : List IoVec) (max_len : ℕ) → 0 < max_len → SplitsAt bufs max_len (bounded bufs max_len)
unfolding bounded
bounded_lem bufs max_len h =
    rw (lt→ltb 0 max_len h)
      (bound_at-SplitsAt bufs max_len _ (find_split-FindSplits bufs 0 0 max_len h))
