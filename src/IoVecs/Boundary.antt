-- ===== src/IoVecs/Boundary.antt =====
-- When a split is on the boundary of two buffers, and what `into_tail` returns before anything has
-- been advanced over.
use cratetorrent.Prelude.{
  ℕ, suc, ◌+◌, ◌<◌, ◌≡◌, ◌∙◌, refl, sym, ap, arith, inl, inr, Bool-cases, Option, none, index,
  sub_checked, assert, subst, true, false, ==_iff, some, List, [], ◌++◌, Checked, ret, panic, ◌>>=◌,
  leb, ltb, ◌==◌, length, take, drop, set, get_elem?-some, get_elem?-set_self, le→leb, lt→ltb,
  length-append,
}
use cratetorrent.IoVecs.{
  IoVec, Split, IoVecs, bounded, bound_at, find_split, unbounded, split_at_buffer_boundary,
  split_within_buffer, as_slice, is_used_up, slice_of, advance, keep_split_buf, count_whole,
  trim_first, move_split, restore, tail_of, into_tail,
}
use cratetorrent.IoVecs.Cursor.{used_up_empty}
use cratetorrent.IoVecs.Bytes.{flatten, lt_of_get, drop_at, drop-suc-set, flatten-take-suc}
use cratetorrent.IoVecs.Bound.{first, first_of, rest, IsValid, FindSplits, find_split-FindSplits}

abbrev IsSome : Option IoVec → Type 0
IsSome none = ⊥
IsSome (some half) = Unit

-- The second half of a split buffer is there, unless nothing is split.
abbrev pub HasHalf : Option Split → Type 0
HasHalf none = Unit
HasHalf (some split) = IsSome split.split_buf_second_half

-- The bound lies between two buffers.
abbrev pub OnBoundary : List IoVec → ℕ → Type 0
OnBoundary bufs max_len =
    (k : ℕ) × (suc k < length bufs) × (length (flatten (take (suc k) bufs)) ≡ max_len)

abbrev Halves : Checked IoVecs → Type 0
Halves panic = Unit
Halves (ret s) = HasHalf s.split

-- A block of statements keeps what its last one gives.
Halves-bind {ℓ} :
    {A : Type ℓ} (m : Checked A) (f : A → Checked IoVecs)
    → ((a : A) → Halves (f a))
    → Halves (m >>= f)
Halves-bind (ret a) f h = h a
Halves-bind panic f h = tt

within-Halves : (bufs : List IoVec) (p k : ℕ) → Halves (split_within_buffer bufs p k)
unfolding split_within_buffer
within-Halves bufs p k =
    Halves-bind (index bufs p) _ λ b. Halves-bind (assert (leb k (length b))) _ λ u. tt

bound_at-Halves :
    (bufs : List IoVec) (max_len : ℕ) (r : Option (ℕ × ℕ))
    → FindSplits bufs 0 0 max_len r
    → (OnBoundary bufs max_len → ⊥)
    → Halves (bound_at bufs max_len r)
unfolding bound_at unbounded split_at_buffer_boundary
bound_at-Halves bufs max_len none h off = tt
bound_at-Halves bufs max_len (some (p, l)) h off = elim (Bool-cases (l == max_len)) [
  | inl q ↦ rw q (elim (Bool-cases ((p + 1) == length bufs)) [
    | inl z ↦ rw z tt
    | inr z ↦
        absurd (off (h.k, below z, ap length (flatten-take-suc bufs h.k h.b h.here) ∙ reaches q))
  ])
  | inr q ↦ rw q (
      Halves-bind (index bufs p) _ λ b. Halves-bind (sub_checked l (length b)) _ λ offset.
        Halves-bind (sub_checked max_len offset) _
          λ k. Halves-bind (assert (ltb k (length b))) _ λ u. within-Halves bufs p k)
]
  where
    below : ((p + 1) == length bufs) ≡ false → suc h.k < length bufs
    below z =
        let e : p ≡ h.k = omega (arith, h.at) in
        let f = lt_of_get bufs h.k h.b h.here in ground arith

    reaches : (l == max_len) ≡ true → length (flatten (take h.k bufs) ++ h.b) ≡ max_len
    reaches q =
        let e = (==_iff l max_len).0 q in
        omega (arith, e, h.total, length-append (flatten (take h.k bufs)) h.b)

pub bounded-HasHalf :
    (bufs : List IoVec) (max_len : ℕ) (s : IoVecs)
    → 0 < max_len
    → (OnBoundary bufs max_len → ⊥)
    → bounded bufs max_len ≡ ret s
    → HasHalf s.split
unfolding bounded
bounded-HasHalf bufs max_len s pos off e = subst Halves (sym (rw (lt→ltb 0 max_len pos) refl) ∙ e) (
    bound_at-Halves bufs max_len (find_split bufs 0 0 max_len)
      (find_split-FindSplits bufs 0 0 max_len pos) off)

-- What a call of `into_tail` at any time returns: the bytes behind the split, and before them those
-- of the buffer at the split if that was not itself split.
pub record TailOf (s : IoVecs) (tail : List IoVec) : Type 0 where
  pub again : List ℕ
  pub bytes : flatten tail ≡ again ++ rest s
  pub none_again : HasHalf s.split → again ≡ []

tail_of-TailOf :
    (bufs : List IoVec) (split : Option Split)
    → IsValid (record { bufs = bufs; split = split })
    → (tail : List IoVec) × (tail_of bufs split ≡ ret tail)
      × TailOf (record { bufs = bufs; split = split }) tail
tail_of-TailOf bufs none v = ([], refl, record { again = []; bytes = refl; none_again = λ h. refl })
tail_of-TailOf bufs (some split) v = by_half split.split_buf_second_half refl
  where
    by_half :
        (half : Option IoVec)
        → split.split_buf_second_half ≡ half
        → (tail : List IoVec) × (restore bufs split.pos half ≡ ret tail)
          × TailOf
              (record { bufs = bufs; split = some (record split { split_buf_second_half = half }) })
              tail
    by_half none e =
        let (b, eb) = get_elem?-some bufs split.pos v in
        (
          drop split.pos bufs,
          rw (le→leb split.pos (length bufs) (omega arith)) refl,
          record {
            again = b;
            bytes = ap flatten (drop_at bufs split.pos b eb);
            none_again = λ h. elim h [ ];
          },
        )
    by_half (some h) e = (
      drop split.pos (set bufs split.pos h),
      rw (lt→ltb split.pos (length bufs) v) refl,
      record {
        again = [];
        bytes =
            ap flatten
              (drop_at (set bufs split.pos h) split.pos h (get_elem?-set_self bufs split.pos h v))
            ∙ ap (λ zs. h ++ flatten zs) (drop-suc-set bufs split.pos h);
        none_again = λ _. refl;
      },
    )

-- On a valid state `into_tail` does not panic.
pub into_tail-TailOf :
    (s : IoVecs) → IsValid s → (tail : List IoVec) × (into_tail s ≡ ret tail) × TailOf s tail
unfolding into_tail
into_tail-TailOf s v = tail_of-TailOf s.bufs s.split v

move_split-HasHalf :
    (count : ℕ) (split : Option Split) → HasHalf split → HasHalf (move_split count split)
move_split-HasHalf count none h = tt
move_split-HasHalf count (some split) h = h

-- Advancing keeps the second half.
pub advance-HasHalf :
    (s s' : IoVecs) (n : ℕ) → advance s n ≡ ret s' → HasHalf s.split → HasHalf s'.split
unfolding advance
advance-HasHalf s s' n e h = subst Halves e (
    Halves-bind (as_slice s) _ λ slice.
      Halves-bind (keep_split_buf slice s.split n (count_whole slice n 0 0)) _ λ (count, total).
        Halves-bind (assert (leb count (length s.bufs))) _ λ u.
          Halves-bind (trim_first (drop count s.bufs) n total) _
            λ bufs. move_split-HasHalf count s.split h)

-- The slice holds the bytes before the split.
pub as_slice-first :
    (s : IoVecs) → IsValid s → (bs : List IoVec) × (as_slice s ≡ ret bs) × (flatten bs ≡ first s)
unfolding as_slice
as_slice-first s v = slice_of-first s.bufs s.split v
  where
    slice_of-first :
        (bufs : List IoVec) (split : Option Split)
        → IsValid (record { bufs = bufs; split = split })
        → (bs : List IoVec) × (slice_of bufs split ≡ ret bs) × (flatten bs ≡ first_of bufs split)
    slice_of-first bufs none v = (bufs, refl, refl)
    slice_of-first bufs (some split) v = elim (Bool-cases (is_used_up split.pos bufs)) [
      | inl u ↦ ([], rw u refl, sym (used_up_empty split.pos bufs u).1)
      | inr u ↦ (take (suc split.pos) bufs, rw u (rw (lt→ltb split.pos (length bufs) v) refl), refl)
    ]
