-- ===== src/Codec/RoundTrip.antt =====
-- `decode` reads back what `encode` wrote, and waits while a message is incomplete.
use cratetorrent.Prelude.{
  ℕ, suc, ◌+◌, ◌-◌, ◌^◌, ◌<◌, ◌≡◌, ◌≢◌, refl, false, List, [], ◌∷◌, ◌++◌, append_assoc, append-nil,
  ret, arith, lt→ltb, le→leb, length, ◌∙◌, ap, length-append, ◌==◌, some, none, lt→leb_false,
}
use cratetorrent.Block.{BlockInfo}
use cratetorrent.Codec.{
  Message, keep_alive, bitfield, choke, unchoke, interested, not_interested, have, request, block,
  cancel, encode, get_u32, decode_info, decode_payload, decode_body, decode_len, decode,
}
use cratetorrent.Codec.Id.{try_from}
use cratetorrent.Codec.Wire.{copy_to_slice-append, WireApi, ok}
use cratetorrent.Codec.Frame.{InfoFits, Fits, info_bytes, prefix, body, frame, encode_lem}

module _ (w : WireApi) where
  open w use {Bitfield, as_slice, from_vec, as_slice-from_vec, be_u32, of_be_u32, of_be_u32-be_u32}

  pub get_u32-be_u32 :
      (x : ℕ) (rest : List ℕ) → x < 2 ^ 32 → get_u32 w (be_u32 x ++ rest) ≡ ret (x, rest)
  unfolding get_u32
  get_u32-be_u32 x rest h = let (a, b, c, d, e, f) = of_be_u32-be_u32 x h in rw (e, f)

  pub length-be_u32 : (x : ℕ) → x < 2 ^ 32 → length (be_u32 x) ≡ 4
  length-be_u32 x h = let (a, b, c, d, e, f) = of_be_u32-be_u32 x h in rw e

  decode_info-bytes :
      (b : BlockInfo) (rest : List ℕ)
      → InfoFits b
      → decode_info w (info_bytes w b ++ rest) ≡ ret (b, rest)
  unfolding decode_info
  decode_info-bytes b rest (hp, ho, hl) = simp append_assoc (
      rw (get_u32-be_u32 b.piece_index (be_u32 b.offset ++ (be_u32 b.len ++ rest)) hp) (
        rw (get_u32-be_u32 b.offset (be_u32 b.len ++ rest) ho) (rw (get_u32-be_u32 b.len rest hl))))

  -- With the whole message in the buffer, the length is consumed and the rest is read.
  pub decode_frame :
      (n : ℕ) (p rest : List ℕ)
      → n < 2 ^ 32
      → n ≡ length p
      → 0 < n
      → decode w (be_u32 n ++ (p ++ rest)) ≡ decode_body w n (p ++ rest)
  unfolding decode decode_len
  decode_frame n p rest h e pos =
      let (a, b, c, d, f, g) = of_be_u32-be_u32 n h in
      let nonzero : (n == 0) ≡ false = ground arith in
      rw f (
        rw g (
          rw
            (le→leb (4 + n) (suc (suc (suc (suc (length (p ++ rest))))))
              (omega (arith, length-append p rest)))
            (rw nonzero)))

  -- The message that arrives: the bits of a bitfield are those of its storage, a multiple of 8.
  abbrev pub arrived : Message Bitfield → Message Bitfield
  arrived (bitfield b) = bitfield (from_vec (as_slice b))
  arrived m = m

  length-info : (b : BlockInfo) → InfoFits b → length (info_bytes w b) ≡ 12
  length-info b (hp, ho, hl) = omega (
    arith,
    length-append (be_u32 b.piece_index) (be_u32 b.offset ++ be_u32 b.len),
    length-append (be_u32 b.offset) (be_u32 b.len),
    length-be_u32 b.piece_index hp,
    length-be_u32 b.offset ho,
    length-be_u32 b.len hl,
  )

  prefix-length : (m : Message Bitfield) → Fits w m → prefix w m ≡ length (body w m)
  prefix-length keep_alive h = refl
  prefix-length choke h = refl
  prefix-length unchoke h = refl
  prefix-length interested h = refl
  prefix-length not_interested h = refl
  prefix-length (have i) h = omega (arith, length-be_u32 i h)
  prefix-length (bitfield b) h = omega arith
  prefix-length (request b) h = omega (arith, length-info b h)
  prefix-length (cancel b) h = omega (arith, length-info b h)
  prefix-length (block i offset bytes) (hi, ho, hp, hl) = omega (
    arith,
    length-append (be_u32 i) (be_u32 offset ++ bytes),
    length-append (be_u32 offset) bytes,
    length-be_u32 i hi,
    length-be_u32 offset ho,
  )

  decode_body-body :
      (m : Message Bitfield) (rest : List ℕ)
      → Fits w m
      → m ≢ keep_alive
      → decode_body w (prefix w m) (body w m ++ rest) ≡ ret (rest, ok (some (arrived m)))
  unfolding decode_body decode_payload try_from
  decode_body-body keep_alive rest h k = absurd (k refl)
  decode_body-body choke rest h k = refl
  decode_body-body unchoke rest h k = refl
  decode_body-body interested rest h k = refl
  decode_body-body not_interested rest h k = refl
  decode_body-body (have i) rest h k = rw (get_u32-be_u32 i rest h)
  decode_body-body (request b) rest h k = rw (decode_info-bytes b rest h)
  decode_body-body (cancel b) rest h k = rw (decode_info-bytes b rest h)
  decode_body-body (bitfield b) rest h k =
      rw (le→leb 1 (1 + length (as_slice b)) (omega arith))
        (rw (copy_to_slice-append (1 + length (as_slice b) - 1) (as_slice b) rest (omega arith)))
  decode_body-body (block i offset bytes) rest (hi, ho, hp, hl) k =
      rw (lt→ltb 9 (9 + length bytes) (omega arith)) (
        simp append_assoc (
          rw (get_u32-be_u32 i (be_u32 offset ++ (bytes ++ rest)) hi) (
            rw (get_u32-be_u32 offset (bytes ++ rest) ho) (
              rw (le→leb 9 (9 + length bytes) (omega arith))
                (rw (copy_to_slice-append (9 + length bytes - 9) bytes rest (omega arith)))))))

  decode-keep_alive :
      (rest : List ℕ) → decode w (be_u32 0 ++ rest) ≡ ret (rest, ok (some keep_alive))
  unfolding decode decode_len
  decode-keep_alive rest =
      let (a, b, c, d, f, g) = of_be_u32-be_u32 0 (omega arith) in
      rw f (rw g (rw (le→leb 4 (suc (suc (suc (suc (length rest))))) (omega arith))))

  decode-frame_body :
      (m : Message Bitfield) (rest : List ℕ)
      → Fits w m
      → prefix w m < 2 ^ 32
      → 0 < prefix w m
      → m ≢ keep_alive
      → decode w (frame w m ++ rest) ≡ ret (rest, ok (some (arrived m)))
  decode-frame_body m rest h top pos ne = rw (append_assoc (be_u32 (prefix w m)) (body w m) rest) (
      decode_frame (prefix w m) (body w m) rest top (prefix-length m h) pos
      ∙ decode_body-body m rest h ne)

  prefix_room : (m : Message Bitfield) → Fits w m → prefix w m < 2 ^ 32
  prefix_room (bitfield b) h = h
  prefix_room (block i offset bytes) h = h.3
  prefix_room _ h = omega arith

  decode-frame :
      (m : Message Bitfield) (rest : List ℕ)
      → Fits w m
      → decode w (frame w m ++ rest) ≡ ret (rest, ok (some (arrived m)))
  decode-frame keep_alive rest h = rw (append-nil (be_u32 0)) (decode-keep_alive rest)
  decode-frame (bitfield b) rest h = decode-frame_body (bitfield b) rest h h (omega arith) (λ e. cc)
  decode-frame (block i o d) rest h =
      decode-frame_body (block i o d) rest h h.3 (omega arith) (λ e. cc)
  decode-frame m rest h = decode-frame_body m rest h (prefix_room m h) (omega arith) (λ e. cc)

  -- For a message whose integers fit in 32 bits and whose block, if it is one, has a byte, `encode`
  -- succeeds, and `decode` of what it wrote, followed by any bytes, gives the message and leaves
  -- exactly those bytes. Of a bitfield it gives the one made from its storage.
  pub decode-encode :
      (m : Message Bitfield) (rest : List ℕ)
      → Fits w m
      → (bytes : List ℕ) × (encode w m [] ≡ ret (bytes, ok tt))
        × (decode w (bytes ++ rest) ≡ ret (rest, ok (some (arrived m))))
  decode-encode m rest h = (frame w m, encode_lem w m [] h, decode-frame m rest h)

  length-frame : (m : Message Bitfield) → Fits w m → length (frame w m) ≡ 4 + prefix w m
  length-frame m h = omega (
    arith,
    length-append (be_u32 (prefix w m)) (body w m),
    length-be_u32 (prefix w m) (prefix_room m h),
    prefix-length m h,
  )

  -- A buffer of at least four bytes that begins a message begins with its length.
  decode_short :
      (a b c d n : ℕ) (p : List ℕ)
      → of_be_u32 a b c d ≡ n
      → length p < n
      → decode w (a ∷ b ∷ c ∷ d ∷ p) ≡ ret (a ∷ b ∷ c ∷ d ∷ p, ok none)
  unfolding decode decode_len
  decode_short a b c d n p e h =
      rw e (rw (lt→leb_false (4 + n) (suc (suc (suc (suc (length p))))) (omega arith)))

  cons_inj : (a b : ℕ) (xs ys : List ℕ) → a ∷ xs ≡ b ∷ ys → (a ≡ b) × (xs ≡ ys)
  cons_inj a b xs ys e = (cc, cc)

  length_pos : (q : List ℕ) → q ≢ [] → 0 < length q
  length_pos [] ne = absurd (ne refl)
  length_pos (x ∷ q) ne = omega arith

  -- While only the first part of a message's bytes is in the buffer, `decode` returns `Ok(None)` and
  -- consumes nothing.
  pub decode_incomplete :
      (m : Message Bitfield) (p q : List ℕ)
      → Fits w m
      → frame w m ≡ p ++ q
      → q ≢ []
      → decode w p ≡ ret (p, ok none)
  unfolding decode
  decode_incomplete m [] q h e ne = refl
  decode_incomplete m (a ∷ []) q h e ne = refl
  decode_incomplete m (a ∷ b ∷ []) q h e ne = refl
  decode_incomplete m (a ∷ b ∷ c ∷ []) q h e ne = refl
  decode_incomplete m (a ∷ b ∷ c ∷ d ∷ p) q h e ne =
      let (a', b', c', d', f, g) = of_be_u32-be_u32 (prefix w m) (prefix_room m h) in
      let whole = rw f at e in
      let first = cons_inj a' a _ _ whole in
      let second = cons_inj b' b _ _ first.1 in
      let third = cons_inj c' c _ _ second.1 in
      let fourth = cons_inj d' d _ _ third.1 in
      let same : of_be_u32 a b c d ≡ prefix w m =
        rw (← first.0, ← second.0, ← third.0, ← fourth.0) g in
      decode_short a b c d (prefix w m) p same (
        omega (
          arith,
          length-frame m h,
          ap length e,
          length-append (a ∷ b ∷ c ∷ d ∷ p) q,
          length_pos q ne,
        ))
