-- ===== src/Codec/Handshake/Tests.antt =====
-- A handshake with distinct bytes.
use cratetorrent.Prelude.{ℕ, ◌≡◌, refl, some, List, [], ◌∷◌, ◌++◌, ret, replicate}
use cratetorrent.Codec.Wire.{ok, err, invalid_input}
use cratetorrent.Codec.Handshake.{Handshake, new, encode, decode}
use cratetorrent.Codec.Handshake.Decode.{DecodesTo, decode_lem, new-encode-decode}

decode_refused : decode (18 ∷ 1 ∷ []) ≡ ret (18 ∷ 1 ∷ [], err invalid_input)
unfolding decode
decode_refused = refl

-- A handshake of another protocol with a name of the same length.
abbrev other_protocol : Handshake
other_protocol = record {
  prot = replicate 19 97;
  reserved = replicate 8 0;
  info_hash = replicate 20 1;
  peer_id = replicate 20 2;
}

decode_lem_example : DecodesTo (19 ∷ 66 ∷ []) (decode (19 ∷ 66 ∷ []))
decode_lem_example = decode_lem (19 ∷ 66 ∷ [])

new-encode-decode_example :
    (bytes : List ℕ) × (encode (new (replicate 20 1) (replicate 20 2)) (5 ∷ [])
      ≡ ret ((5 ∷ []) ++ bytes, ok tt))
    × (decode (bytes ++ (7 ∷ [])) ≡ ret (7 ∷ [], ok (some (new (replicate 20 1) (replicate 20 2)))))
new-encode-decode_example =
    new-encode-decode (replicate 20 1) (replicate 20 2) (5 ∷ []) (7 ∷ []) refl refl
