-- ===== src/Codec/Tests.antt =====
-- The codec over big endian bytes, with bit vectors that are their storage.
use cratetorrent.Prelude.{
  ℕ, ◌+◌, ◌*◌, ◌/◌, ◌%◌, ◌^◌, ◌<◌, ◌≡◌, ◌≢◌, refl, arith, none, some, List, [], ◌∷◌, ◌++◌, ret,
  panic,
}
use cratetorrent.Codec.{have, block, encode, decode, decode_payload, protocol_len, keep_alive}
use cratetorrent.Codec.Id.{MessageId, id_byte, try_from}
use cratetorrent.Codec.Wire.{WireApi, ok}
use cratetorrent.Codec.RoundTrip.{decode-encode, decode_incomplete}
use cratetorrent.Codec.Malformed.{decode_truncated}

abbrev be_bytes : ℕ → List ℕ
be_bytes x = x / 2 ^ 24 % 256 ∷ x / 2 ^ 16 % 256 ∷ x / 2 ^ 8 % 256 ∷ x % 256 ∷ []

abbrev of_bytes : ℕ → ℕ → ℕ → ℕ → ℕ
of_bytes a b c d = ((a * 256 + b) * 256 + c) * 256 + d

of_bytes-be_bytes :
    (x : ℕ)
    → x < 2 ^ 32
    → (a b c d : ℕ) × (be_bytes x ≡ a ∷ b ∷ c ∷ d ∷ []) × (of_bytes a b c d ≡ x)
of_bytes-be_bytes x h = (_, _, _, _, refl, omega arith)

abbrev wire : WireApi
wire = record {
  Bitfield = List ℕ;
  as_slice = λ b. b;
  from_vec = λ v. v;
  as_slice-from_vec = λ v. refl;
  be_u32 = be_bytes;
  of_be_u32 = of_bytes;
  of_be_u32-be_u32 = of_bytes-be_bytes;
}

encode_have : encode wire (have 258) [] ≡ ret (0 ∷ 0 ∷ 0 ∷ 5 ∷ 4 ∷ 0 ∷ 0 ∷ 1 ∷ 2 ∷ [], ok tt)
unfolding encode
encode_have = refl

decode_have :
    decode wire (0 ∷ 0 ∷ 0 ∷ 5 ∷ 4 ∷ 0 ∷ 0 ∷ 1 ∷ 2 ∷ 9 ∷ []) ≡ ret (9 ∷ [], ok (some (have 258)))
unfolding decode decode_payload try_from
decode_have = refl

decode-encode_example :
    (bytes : List ℕ) × (encode wire (block 1 0 (7 ∷ 8 ∷ [])) [] ≡ ret (bytes, ok tt))
    × (decode wire (bytes ++ 3 ∷ []) ≡ ret (3 ∷ [], ok (some (block 1 0 (7 ∷ 8 ∷ [])))))
decode-encode_example = decode-encode wire (block 1 0 (7 ∷ 8 ∷ [])) (3 ∷ []) (omega arith)

some_left : ◌≢◌ {A = List ℕ} (1 ∷ 2 ∷ []) []
some_left e = cc

decode_incomplete_example :
    decode wire (0 ∷ 0 ∷ 0 ∷ 5 ∷ 4 ∷ 0 ∷ 0 ∷ []) ≡ ret (0 ∷ 0 ∷ 0 ∷ 5 ∷ 4 ∷ 0 ∷ 0 ∷ [], ok none)
decode_incomplete_example =
    decode_incomplete wire (have 258) (0 ∷ 0 ∷ 0 ∷ 5 ∷ 4 ∷ 0 ∷ 0 ∷ []) (1 ∷ 2 ∷ []) (omega arith)
      refl some_left

decode_truncated_example : decode wire (be_bytes 2 ++ (id_byte MessageId.have ∷ 7 ∷ [])) ≡ panic
decode_truncated_example = decode_truncated wire MessageId.have (7 ∷ []) (omega arith)

-- A keep alive message takes four bytes on the wire and is counted as one.
keep_alive_counted : protocol_len {B = List ℕ} keep_alive ≡ 1
unfolding protocol_len
keep_alive_counted = refl
