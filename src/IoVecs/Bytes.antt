-- ===== src/IoVecs/Bytes.antt =====
-- The bytes of buffers, and what taking and dropping buffers does to them.
use cratetorrent.Prelude.{
  ℕ, zero, suc, ◌-◌, ◌<◌, ◌≤◌, ◌≡◌, refl, ap, ◌∙◌, sym, List, [], ◌∷◌, ◌++◌, append_assoc,
  append-nil, All, arith, length, take, drop, set, get_elem?, some,
}
use cratetorrent.IoVecs.{IoVec}

abbrev pub flatten : List IoVec → List ℕ
flatten [] = []
flatten (b ∷ bs) = b ++ flatten bs

pub flatten-append : (xs ys : List IoVec) → flatten (xs ++ ys) ≡ flatten xs ++ flatten ys
flatten-append [] ys = refl
flatten-append (x ∷ xs) ys = simp (flatten-append xs ys, append_assoc)

-- No buffer is empty.
abbrev pub NonEmpty : List IoVec → Type 0
NonEmpty = All (λ b. 0 < length b)

pub drop-append_le : (n : ℕ) (xs ys : List ℕ) → n ≤ length xs → drop n (xs ++ ys) ≡ drop n xs ++ ys
drop-append_le zero xs ys h = refl
drop-append_le (suc n) [] ys h = absurd (omega arith)
drop-append_le (suc n) (x ∷ xs) ys h = drop-append_le n xs ys (omega arith)

pub drop-append_ge :
    (n : ℕ) (xs ys : List ℕ) → length xs ≤ n → drop n (xs ++ ys) ≡ drop (n - length xs) ys
drop-append_ge n [] ys h = ap (λ k. drop k ys) (omega arith)
drop-append_ge zero (x ∷ xs) ys h = absurd (omega arith)
drop-append_ge (suc n) (x ∷ xs) ys h =
    drop-append_ge n xs ys (omega arith) ∙ ap (λ k. drop k ys) (omega arith)

pub take-append_le : (n : ℕ) (xs ys : List ℕ) → n ≤ length xs → take n (xs ++ ys) ≡ take n xs
take-append_le zero xs ys h = refl
take-append_le (suc n) [] ys h = absurd (omega arith)
take-append_le (suc n) (x ∷ xs) ys h = ap (λ zs. x ∷ zs) (take-append_le n xs ys (omega arith))

pub take-append_ge :
    (n : ℕ) (xs ys : List ℕ) → length xs ≤ n → take n (xs ++ ys) ≡ xs ++ take (n - length xs) ys
take-append_ge n [] ys h = ap (λ k. take k ys) (omega arith)
take-append_ge zero (x ∷ xs) ys h = absurd (omega arith)
take-append_ge (suc n) (x ∷ xs) ys h =
    ap (λ zs. x ∷ zs)
      (take-append_ge n xs ys (omega arith) ∙ ap (λ k. xs ++ take k ys) (omega arith))

pub take-drop-flatten :
    (n : ℕ) (bs : List IoVec) → flatten (take n bs) ++ flatten (drop n bs) ≡ flatten bs
take-drop-flatten zero bs = refl
take-drop-flatten (suc n) [] = refl
take-drop-flatten (suc n) (b ∷ bs) =
    append_assoc b (flatten (take n bs)) (flatten (drop n bs))
    ∙ ap (λ zs. b ++ zs) (take-drop-flatten n bs)

pub flatten-at :
    (bs : List IoVec) (k : ℕ) (b : IoVec)
    → get_elem? bs k ≡ some b
    → flatten bs ≡ flatten (take k bs) ++ (b ++ flatten (drop (suc k) bs))
flatten-at [] k b e = cc
flatten-at (c ∷ bs) zero b e = let same : c ≡ b = cc in rw same
flatten-at (c ∷ bs) (suc k) b e =
    ap (λ zs. c ++ zs) (flatten-at bs k b e)
    ∙ sym (append_assoc c (flatten (take k bs)) (b ++ flatten (drop (suc k) bs)))

pub flatten-take-suc :
    (bs : List IoVec) (k : ℕ) (b : IoVec)
    → get_elem? bs k ≡ some b
    → flatten (take (suc k) bs) ≡ flatten (take k bs) ++ b
flatten-take-suc [] k b e = cc
flatten-take-suc (c ∷ bs) zero b e = let same : c ≡ b = cc in rw (same, append-nil)
flatten-take-suc (c ∷ bs) (suc k) b e =
    ap (λ zs. c ++ zs) (flatten-take-suc bs k b e) ∙ sym (append_assoc c (flatten (take k bs)) b)

pub take-set : (bs : List IoVec) (k : ℕ) (v : IoVec) → take k (set bs k v) ≡ take k bs
take-set [] k v = refl
take-set (c ∷ bs) zero v = refl
take-set (c ∷ bs) (suc k) v = ap (λ zs. c ∷ zs) (take-set bs k v)

pub drop-suc-set :
    (bs : List IoVec) (k : ℕ) (v : IoVec) → drop (suc k) (set bs k v) ≡ drop (suc k) bs
drop-suc-set [] k v = refl
drop-suc-set (c ∷ bs) zero v = refl
drop-suc-set (c ∷ bs) (suc k) v = drop-suc-set bs k v

pub drop_at :
    (bs : List IoVec) (k : ℕ) (b : IoVec)
    → get_elem? bs k ≡ some b
    → drop k bs ≡ b ∷ drop (suc k) bs
drop_at [] k b e = cc
drop_at (c ∷ bs) zero b e = cc
drop_at (c ∷ bs) (suc k) b e = drop_at bs k b e

pub lt_of_get : (bs : List IoVec) (k : ℕ) (b : IoVec) → get_elem? bs k ≡ some b → k < length bs
lt_of_get [] k b e = cc
lt_of_get (c ∷ bs) zero b e = omega arith
lt_of_get (c ∷ bs) (suc k) b e = omega (arith, lt_of_get bs k b e)

pub NonEmpty-at :
    (bs : List IoVec) (k : ℕ) (b : IoVec) → NonEmpty bs → get_elem? bs k ≡ some b → 0 < length b
NonEmpty-at [] k b h e = cc
NonEmpty-at (c ∷ bs) zero b h e = let same : c ≡ b = cc in rw (← same) h.0
NonEmpty-at (c ∷ bs) (suc k) b h e = NonEmpty-at bs k b h.1 e
