-- ===== src/Peer/Sets.antt =====
-- Properties of all blocks of a set.
use cratetorrent.Prelude.{◌≡◌, subst, arith, true, inl, inr, List, [], ◌∷◌, ◌++◌, Bool-cases, All}
use cratetorrent.Block.{BlockInfo}
use cratetorrent.Download.{contains, info_eq}
use cratetorrent.Peer.{insert, remove}

info_eq→≡ : (a b : BlockInfo) → info_eq a b ≡ true → a ≡ b
info_eq→≡ a b e =
    let p : a.piece_index ≡ b.piece_index = ground arith in
    let o : a.offset ≡ b.offset = ground arith in let l : a.len ≡ b.len = ground arith in cc

pub All-contains {ℓ} :
    (P : BlockInfo → Type ℓ) (set : List BlockInfo) (b : BlockInfo)
    → All P set
    → contains set b ≡ true
    → P b
All-contains P [] b h e = cc
All-contains P (a ∷ set) b (p, h) e = elim (Bool-cases (info_eq a b)) [
  | inl t ↦ subst P (info_eq→≡ a b t) p
  | inr f ↦ All-contains P set b h (ground arith)
]

pub All-remove {ℓ} :
    (P : BlockInfo → Type ℓ) (set : List BlockInfo) (b : BlockInfo)
    → All P set
    → All P (remove set b)
All-remove P [] b h = tt
All-remove P (a ∷ set) b (p, h) = elim (Bool-cases (info_eq a b)) [
  | inl t ↦ rw t (All-remove P set b h)
  | inr f ↦ rw f (p, All-remove P set b h)
]

pub All-map {ℓ κ} :
    {A : Type ℓ} (P Q : A → Type κ) (xs : List A) → ((x : A) → P x → Q x) → All P xs → All Q xs
All-map P Q [] f h = tt
All-map P Q (x ∷ xs) f (p, h) = (f x p, All-map P Q xs f h)

pub All-insert {ℓ} :
    (P : BlockInfo → Type ℓ) (set : List BlockInfo) (b : BlockInfo)
    → All P set
    → P b
    → All P (insert set b)
All-insert P set b h p = elim (Bool-cases (contains set b)) [ inl t ↦ rw t h | inr f ↦ rw f (p, h) ]

pub All-append {ℓ κ} :
    {A : Type ℓ} (P : A → Type κ) (xs ys : List A) → All P xs → All P ys → All P (xs ++ ys)
All-append P [] ys h k = k
All-append P (x ∷ xs) ys (p, h) k = (p, All-append P xs ys h k)
