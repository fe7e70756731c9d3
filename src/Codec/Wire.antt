-- ===== src/Codec/Wire.antt =====
-- What the codec takes from the crates `bytes` and `bitvec`, and the result of an I/O operation.
use cratetorrent.Prelude.{
  ℕ, ◌^◌, ◌<◌, ◌≡◌, ◌++◌, ap₂, List, [], ◌∷◌, Checked, ret, panic, leb, le→leb, length, take, drop,
  if◌then◌else◌, arith, length-append, take-append, drop-append,
}

-- `put_u32` writes four bytes, big endian, and `get_u32` reads them back; a bit vector made from
-- bytes has those bytes as its storage.
pub record WireApi : Type 1 where
  pub Bitfield : Type 0
  pub as_slice : Bitfield → List ℕ
  pub from_vec : List ℕ → Bitfield
  pub as_slice-from_vec : (v : List ℕ) → as_slice (from_vec v) ≡ v
  pub be_u32 : ℕ → List ℕ
  pub of_be_u32 : ℕ → ℕ → ℕ → ℕ → ℕ
  pub of_be_u32-be_u32 :
      (x : ℕ)
      → x < 2 ^ 32
      → (a b c d : ℕ) × (be_u32 x ≡ a ∷ b ∷ c ∷ d ∷ []) × (of_be_u32 a b c d ≡ x)

-- `io::ErrorKind::InvalidInput` is the only kind that the codec makes.
pub data ErrorKind : Type 0 where
  invalid_input : ErrorKind

pub data IoResult {ℓ} (A : Type ℓ) : Type ℓ where
  ok : A → IoResult A
  err : ErrorKind → IoResult A

-- `Buf::copy_to_slice` into `n` bytes, which panics if the buffer has fewer.
unfoldable pub copy_to_slice : ℕ → List ℕ → Checked (List ℕ × List ℕ)
copy_to_slice n buf = if leb n (length buf) then ret (take n buf, drop n buf) else panic

pub copy_to_slice-append :
    (n : ℕ) (bytes rest : List ℕ)
    → n ≡ length bytes
    → copy_to_slice n (bytes ++ rest) ≡ ret (bytes, rest)
unfolding copy_to_slice
copy_to_slice-append n bytes rest h =
    rw (le→leb n (length (bytes ++ rest)) (omega (arith, length-append bytes rest)))
      (ap₂ (λ xs ys. ret (xs, ys)) (take-append n bytes rest h) (drop-append n bytes rest h))
