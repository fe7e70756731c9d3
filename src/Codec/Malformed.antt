-- ===== src/Codec/Malformed.antt =====
-- What `decode` does with a complete message whose payload is not that of its id.
use cratetorrent.Prelude.{
  ℕ, suc, ◌^◌, ◌<◌, ◌≡◌, refl, List, [], ◌∷◌, ◌++◌, append-nil, ret, panic, arith, length, ◌∙◌,
  le→ltb_false,
}
use cratetorrent.Codec.{decode, decode_body, decode_payload, decode_info, get_u32}
use cratetorrent.Codec.Id.{MessageId, id_byte, try_from, try_from_unknown}
use cratetorrent.Codec.Wire.{WireApi, err, invalid_input}
use cratetorrent.Codec.RoundTrip.{decode_frame}

-- The payload is shorter than the integers that its message id announces, or is a block's with no
-- block in it.
abbrev pub IsTruncated : MessageId → List ℕ → Type 0
IsTruncated MessageId.have payload = length payload < 4
IsTruncated MessageId.request payload = length payload < 12
IsTruncated MessageId.cancel payload = length payload < 12
IsTruncated MessageId.block payload = length payload < 9
IsTruncated _ payload = ⊥

truncated_short : (i : MessageId) (payload : List ℕ) → IsTruncated i payload → length payload < 12
truncated_short MessageId.choke payload h = absurd h
truncated_short MessageId.have payload h = omega arith
truncated_short MessageId.request payload h = h
truncated_short MessageId.cancel payload h = h
truncated_short MessageId.block payload h = omega arith
truncated_short _ payload h = absurd h

module _ (w : WireApi) where
  open w use {be_u32}

  get_u32_short : (buf : List ℕ) → length buf < 4 → get_u32 w buf ≡ panic
  unfolding get_u32
  get_u32_short [] h = refl
  get_u32_short (a ∷ []) h = refl
  get_u32_short (a ∷ b ∷ []) h = refl
  get_u32_short (a ∷ b ∷ c ∷ []) h = refl
  get_u32_short (a ∷ b ∷ c ∷ d ∷ buf) h = absurd (omega arith)

  decode_info_short : (buf : List ℕ) → length buf < 12 → decode_info w buf ≡ panic
  unfolding decode_info
  decode_info_short [] h = refl
  decode_info_short (a ∷ []) h = refl
  decode_info_short (a ∷ b ∷ []) h = refl
  decode_info_short (a ∷ b ∷ c ∷ []) h = refl
  decode_info_short (a ∷ b ∷ c ∷ d ∷ []) h = refl
  decode_info_short (a ∷ b ∷ c ∷ d ∷ e ∷ []) h = refl
  decode_info_short (a ∷ b ∷ c ∷ d ∷ e ∷ f ∷ []) h = refl
  decode_info_short (a ∷ b ∷ c ∷ d ∷ e ∷ f ∷ g ∷ []) h = refl
  decode_info_short (a ∷ b ∷ c ∷ d ∷ e ∷ f ∷ g ∷ i ∷ buf) h = rw (get_u32_short buf (omega arith))

  decode_body_truncated :
      (i : MessageId) (payload : List ℕ)
      → IsTruncated i payload
      → decode_body w (suc (length payload)) (id_byte i ∷ payload) ≡ panic
  unfolding decode_body decode_payload try_from id_byte
  decode_body_truncated MessageId.choke payload h = absurd h
  decode_body_truncated MessageId.have payload h = rw (get_u32_short payload h)
  decode_body_truncated MessageId.request payload h = rw (decode_info_short payload h)
  decode_body_truncated MessageId.cancel payload h = rw (decode_info_short payload h)
  decode_body_truncated MessageId.block payload h = rw (le→ltb_false 9 (suc (length payload)) h)
  decode_body_truncated _ payload h = absurd h

  -- A complete `have`, `request`, `cancel` or `block` message, alone in the buffer, whose payload is
  -- too short for its integers (or, for a block, leaves it no data) makes `decode` panic; it does not
  -- return an error.
  pub decode_truncated :
      (i : MessageId) (payload : List ℕ)
      → IsTruncated i payload
      → decode w (be_u32 (suc (length payload)) ++ (id_byte i ∷ payload)) ≡ panic
  decode_truncated i payload h =
      let e =
        decode_frame w (suc (length payload)) (id_byte i ∷ payload) []
          (omega (arith, truncated_short i payload h)) refl (omega arith) in
      rw (append-nil payload) at e ∙ decode_body_truncated i payload h

  -- A complete message with an unknown id is an error, and its length and id are consumed.
  decode_unknown_id :
      (k : ℕ) (payload rest : List ℕ)
      → 8 < k
      → suc (length payload) < 2 ^ 32
      → decode w (be_u32 (suc (length payload)) ++ ((k ∷ payload) ++ rest))
        ≡ ret (payload ++ rest, err invalid_input)
  unfolding decode_body
  decode_unknown_id k payload rest h short =
      decode_frame w (suc (length payload)) (k ∷ payload) rest short refl (omega arith)
      ∙ rw (try_from_unknown k h)
