-- ===== src/Tracker/Compact.antt =====
-- The compact form of a peer list: what `visit_bytes` reads from it.
use cratetorrent.Prelude.{
  ℕ, suc, ◌+◌, ◌*◌, ◌/◌, ◌%◌, ◌^◌, ◌<◌, ◌≡◌, ◌∙◌, refl, ap, List, [], ◌∷◌, ◌++◌, append-nil,
  append_assoc, ret, ◌==◌, false, true, length, length-append, map, All, arith,
}
use cratetorrent.Codec.Wire.{WireApi}
use cratetorrent.Codec.RoundTrip.{get_u32-be_u32, length-be_u32}
use cratetorrent.Tracker.{
  TrackerApi, SocketAddr, PeersResult, ok, invalid_value, get_u16, take_entries, visit_bytes,
}

module _ (w : WireApi) (api : TrackerApi) where
  open w use {be_u32}
  open api use {ipv4, be_u16, of_be_u16-be_u16}

  -- An IPv4 address and a port, which fit in four and in two bytes.
  abbrev pub IsEntry : ℕ × ℕ → Type 0
  IsEntry (addr, port) = (addr < 2 ^ 32) × (port < 2 ^ 16)

  -- The six bytes of an entry, and a list of them.
  abbrev pub entries : List (ℕ × ℕ) → List ℕ
  entries [] = []
  entries ((addr, port) ∷ ps) = be_u32 addr ++ (be_u16 port ++ entries ps)

  abbrev pub peer : ℕ × ℕ → SocketAddr w api
  peer (addr, port) = record { ip = ipv4 addr; port = port }

  -- The answer to the entries of `ps` with the bytes behind the last of them.
  abbrev pub answer : List (ℕ × ℕ) → List ℕ → PeersResult w api
  answer ps [] = ok (map peer ps)
  answer ps (b ∷ bs) = invalid_value

  get_u16-be_u16 :
      (x : ℕ) (rest : List ℕ) → x < 2 ^ 16 → get_u16 w api (be_u16 x ++ rest) ≡ ret (x, rest)
  unfolding get_u16
  get_u16-be_u16 x rest h = let (a, b, e, f) = of_be_u16-be_u16 x h in rw (e, f)

  length-be_u16 : (x : ℕ) → x < 2 ^ 16 → length (be_u16 x) ≡ 2
  length-be_u16 x h = let (a, b, e, f) = of_be_u16-be_u16 x h in rw e

  length-entries : (ps : List (ℕ × ℕ)) → All IsEntry ps → length (entries ps) ≡ 6 * length ps
  length-entries [] h = omega arith
  length-entries ((addr, port) ∷ ps) ((ha, hp), h) = omega (
    arith,
    length-append (be_u32 addr) (be_u16 port ++ entries ps),
    length-append (be_u16 port) (entries ps),
    length-be_u32 w addr ha,
    length-be_u16 port hp,
    length-entries ps h,
  )

  take_entries-entries :
      (ps : List (ℕ × ℕ)) (acc : List (SocketAddr w api))
      → All IsEntry ps
      → take_entries w api (length ps) (entries ps) acc ≡ ret (ok (acc ++ map peer ps))
  unfolding take_entries
  take_entries-entries [] acc h = rw (append-nil acc)
  take_entries-entries ((addr, port) ∷ ps) acc ((ha, hp), h) =
      rw (get_u32-be_u32 w addr (be_u16 port ++ entries ps) ha) (
        rw (get_u16-be_u16 port (entries ps) hp) (
          take_entries-entries ps (acc ++ (peer (addr, port) ∷ [])) h
          ∙ ap (λ qs. ret (ok qs)) (append_assoc acc (peer (addr, port) ∷ []) (map peer ps))))

  -- On the entries of any addresses and ports that fit their bytes, with fewer than six bytes behind
  -- them, `visit_bytes` does not panic: it returns the peers in their order if nothing is behind
  -- them, and an error if something is.
  pub visit_bytes_lem :
      (ps : List (ℕ × ℕ)) (rest : List ℕ)
      → All IsEntry ps
      → length rest < 6
      → visit_bytes w api (entries ps ++ rest) ≡ ret (answer ps rest)
  unfolding visit_bytes
  visit_bytes_lem ps [] h k =
      let len : length (entries ps) ≡ 6 * length ps = length-entries ps h in
      let whole : (length (entries ps) % 6 == 0) ≡ true = ground arith in
      let rounds : (length (entries ps) + 5) / 6 ≡ length ps = omega arith in
      rw (append-nil (entries ps)) (rw whole (rw rounds (take_entries-entries ps [] h)))
  visit_bytes_lem ps (b ∷ bs) h k =
      let len : length (entries ps ++ (b ∷ bs)) ≡ 6 * length ps + suc (length bs) =
        omega (arith, length-append (entries ps) (b ∷ bs), length-entries ps h) in
      let short : suc (length bs) < 6 = k in
      let torn : (length (entries ps ++ (b ∷ bs)) % 6 == 0) ≡ false = ground arith in rw torn refl
