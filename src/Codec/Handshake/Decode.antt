-- ===== src/Codec/Handshake/Decode.antt =====
-- What `HandshakeCodec` decodes, and that it decodes what it encodes.
use cratetorrent.Prelude.{
  ℕ, suc, ◌+◌, ◌≤◌, ◌≡◌, ◌≢◌, ◌∙◌, refl, sym, ap, arith, inl, inr, Bool-cases, ==_iff, ltb→lt,
  ltb_false→le, none, some, List, [], ◌∷◌, ◌++◌, append_assoc, Checked, ret, panic, ltb, lt→ltb,
  ◌==◌, if◌then◌else◌, length, take, drop, length-append, take-append-drop, length-take,
  length-drop,
}
use cratetorrent.Codec.Wire.{ok, err, copy_to_slice-append}
use cratetorrent.Codec.Handshake.{Handshake, new, encode, bytes_eq, Decoded, decode_fields, decode}

-- The lengths of the arrays.
pub record IsSized (h : Handshake) : Type 0 where
  pub prot_len : length h.prot ≡ 19
  pub reserved_len : length h.reserved ≡ 8
  pub info_hash_len : length h.info_hash ≡ 20
  pub peer_id_len : length h.peer_id ≡ 20

-- The bytes behind the length prefix.
abbrev pub payload : Handshake → List ℕ
payload h = h.prot ++ (h.reserved ++ (h.info_hash ++ h.peer_id))

-- What a decoder may return on a buffer: it waits while there are at most 67 bytes, refuses a length
-- other than 19, and otherwise takes the fields off the front.
abbrev pub DecodesTo : List ℕ → Checked Decoded → Type 0
DecodesTo buf panic = ⊥
DecodesTo buf (ret (buf', ok none)) = (buf' ≡ buf) × (length buf ≤ 67)
DecodesTo buf (ret (buf', ok (some h))) = IsSized h × (buf ≡ (19 ∷ payload h) ++ buf')
DecodesTo buf (ret (buf', err e)) =
    (buf' ≡ buf) × (k : ℕ) × (rest : List ℕ) × (buf ≡ k ∷ rest) × (k ≢ 19)

decode_fields_lem :
    (h : Handshake) (rest : List ℕ)
    → IsSized h
    → decode_fields (payload h ++ rest) ≡ ret (rest, ok (some h))
unfolding decode_fields
decode_fields_lem h rest s =
    rw (append_assoc h.prot (h.reserved ++ (h.info_hash ++ h.peer_id)) rest) (
      rw
        (copy_to_slice-append 19 h.prot ((h.reserved ++ (h.info_hash ++ h.peer_id)) ++ rest)
          (sym s.prot_len))
        (rw (append_assoc h.reserved (h.info_hash ++ h.peer_id) rest) (
          rw
            (copy_to_slice-append 8 h.reserved ((h.info_hash ++ h.peer_id) ++ rest)
              (sym s.reserved_len))
            (rw (append_assoc h.info_hash h.peer_id rest) (
              rw (copy_to_slice-append 20 h.info_hash (h.peer_id ++ rest) (sym s.info_hash_len))
                (rw (copy_to_slice-append 20 h.peer_id rest (sym s.peer_id_len)) refl))))))

-- The bytes cut into the fields.
abbrev fields_of : List ℕ → Handshake
fields_of bs = record {
  prot = take 19 bs;
  reserved = take 8 (drop 19 bs);
  info_hash = take 20 (drop 8 (drop 19 bs));
  peer_id = take 20 (drop 20 (drop 8 (drop 19 bs)));
}

abbrev behind_fields : List ℕ → List ℕ
behind_fields bs = drop 20 (drop 20 (drop 8 (drop 19 bs)))

fields_of-IsSized : (bs : List ℕ) → 67 ≤ length bs → IsSized (fields_of bs)
fields_of-IsSized bs h = record {
  prot_len = omega (arith, length-take 19 bs);
  reserved_len = omega (arith, length-take 8 (drop 19 bs), length-drop 19 bs);
  info_hash_len =
      omega (
        arith,
        length-take 20 (drop 8 (drop 19 bs)),
        length-drop 8 (drop 19 bs),
        length-drop 19 bs,
      );
  peer_id_len = omega (
    arith,
    length-take 20 (drop 20 (drop 8 (drop 19 bs))),
    length-drop 20 (drop 8 (drop 19 bs)),
    length-drop 8 (drop 19 bs),
    length-drop 19 bs,
  );
}

payload-fields_of : (bs : List ℕ) → payload (fields_of bs) ++ behind_fields bs ≡ bs
payload-fields_of bs =
    let b1 = drop 19 bs in
    let b2 = drop 8 b1 in
    let b3 = drop 20 b2 in
    append_assoc (take 19 bs) (take 8 b1 ++ (take 20 b2 ++ take 20 b3)) (drop 20 b3)
    ∙ ap (λ ys. take 19 bs ++ ys)
        (append_assoc (take 8 b1) (take 20 b2 ++ take 20 b3) (drop 20 b3)
          ∙ ap (λ ys. take 8 b1 ++ ys)
              (append_assoc (take 20 b2) (take 20 b3) (drop 20 b3)
                ∙ ap (λ ys. take 20 b2 ++ ys) (take-append-drop 20 b3)
                ∙ take-append-drop 20 b2)
          ∙ take-append-drop 8 b1)
    ∙ take-append-drop 19 bs

decode_fields-fields_of :
    (bs : List ℕ)
    → 67 ≤ length bs
    → decode_fields bs ≡ ret (behind_fields bs, ok (some (fields_of bs)))
decode_fields-fields_of bs h =
    ap decode_fields (sym (payload-fields_of bs))
    ∙ decode_fields_lem (fields_of bs) (behind_fields bs) (fields_of-IsSized bs h)

-- On any buffer `decode` does not panic. It leaves the buffer alone and asks for more while there are
-- at most 67 bytes, leaves it alone and reports an error if the first byte is not 19, and otherwise
-- takes a handshake with fields of the right lengths off the front, whatever the bytes of its
-- protocol string are.
pub decode_lem : (buf : List ℕ) → DecodesTo buf (decode buf)
unfolding decode
decode_lem [] = (refl, omega arith)
decode_lem (k ∷ after) = elim (Bool-cases (k == 19)) [
  | inl e ↦ rw e (full ((==_iff k 19).0 e))
  | inr e ↦ rw e (refl, k, after, refl, λ f. ground arith)
]
  where
    full :
        k ≡ 19
        → DecodesTo (k ∷ after) (
            if ltb (k + 8 + 20 + 20) (length (k ∷ after))
            then decode_fields after
            else ret (k ∷ after, ok none))
    full e = elim (Bool-cases (ltb (k + 8 + 20 + 20) (length (k ∷ after)))) [
      | inl l ↦
          let h : 67 ≤ length after =
            omega (arith, e, ltb→lt (k + 8 + 20 + 20) (length (k ∷ after)) l) in
          rw l (
            rw (decode_fields-fields_of after h) (
              fields_of-IsSized after h,
              ap (λ j. j ∷ after) e ∙ ap (λ ys. 19 ∷ ys) (sym (payload-fields_of after)),
            ))
      | inr l ↦ rw l (refl, omega (arith, e, ltb_false→le (k + 8 + 20 + 20) (length (k ∷ after)) l))
    ]

-- A buffer that begins with the bytes of a handshake with fields of the right lengths is decoded to
-- that handshake, and what follows is left in the buffer.
decode-payload :
    (h : Handshake) (rest : List ℕ)
    → IsSized h
    → decode ((19 ∷ payload h) ++ rest) ≡ ret (rest, ok (some h))
unfolding decode
decode-payload h rest s =
    let long = length-append (payload h) rest in
    let l1 = length-append h.prot (h.reserved ++ (h.info_hash ++ h.peer_id)) in
    let l2 = length-append h.reserved (h.info_hash ++ h.peer_id) in
    let l3 = length-append h.info_hash h.peer_id in
    let e1 = s.prot_len in
    let e2 = s.reserved_len in
    let e3 = s.info_hash_len in
    let e4 = s.peer_id_len in
    rw (lt→ltb 67 (suc (length (payload h ++ rest))) (omega arith)) (decode_fields_lem h rest s)

-- A new handshake, for 20 bytes of info hash and of peer id, is encoded without a panic into any
-- buffer, and the bytes that this adds are decoded to that handshake, with what follows them left.
pub new-encode-decode :
    (info_hash peer_id buf rest : List ℕ)
    → length info_hash ≡ 20
    → length peer_id ≡ 20
    → (bytes : List ℕ) × (encode (new info_hash peer_id) buf ≡ ret (buf ++ bytes, ok tt))
      × (decode (bytes ++ rest) ≡ ret (rest, ok (some (new info_hash peer_id))))
unfolding new encode bytes_eq
new-encode-decode info_hash peer_id buf rest e1 e2 =
    let h = new info_hash peer_id in
    let s : IsSized h = record {
      prot_len = refl;
      reserved_len = refl;
      info_hash_len = e1;
      peer_id_len = e2;
    } in
    (19 ∷ payload h, ap (λ ys. ret (ys, ok tt)) (simp append_assoc), decode-payload h rest s)
