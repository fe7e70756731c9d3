-- ===== src/Disk/Piece/Tests.antt =====
-- A piece of two blocks, of which the second arrives first, and again.
use cratetorrent.Prelude.{
  ℕ, zero, suc, ◌<◌, ◌≡◌, refl, sym, ap, subst, arith, inl, inr, true, List, [], ◌∷◌, ret, All,
  length, replicate, length-replicate,
}
use cratetorrent.Block.{block_count}
use cratetorrent.Codec.Handshake.{bytes_eq}
use cratetorrent.Disk.Piece.{is_complete, buffered, matches_hash}
use cratetorrent.Disk.Piece.Complete.{enqueue_all, empty_piece, complete_lem}
use cratetorrent.Disk.Piece.Arrived.{Arrives, arrived_lem}

content : List ℕ
content = replicate 20000 7

content-block_count : block_count (length content) ≡ 2
unfolding block_count content
content-block_count = ap block_count (length-replicate {A = ℕ} 20000 7)

abbrev order : List ℕ
order = 1 ∷ 1 ∷ 0 ∷ []

order_fits : All (λ i. i < block_count (length content)) order
order_fits =
    subst (λ n. All (λ i. i < n) order) (sym content-block_count)
      (omega arith, (omega arith, (omega arith, tt)))

order-Arrives : (i : ℕ) → i < block_count (length content) → Arrives i order
order-Arrives i h = below i (subst (λ n. i < n) content-block_count h)
  where
    below : (i : ℕ) → i < 2 → Arrives i order
    below zero l = inr (inr (inl refl))
    below (suc zero) l = inl refl
    below (suc (suc i)) l = absurd (omega arith)

arrived_lem_example : is_complete (enqueue_all content order (empty_piece content [])) ≡ true
arrived_lem_example = arrived_lem content [] order order_fits order-Arrives

complete_lem_example :
    (buffered (enqueue_all content order (empty_piece content [])).blocks ≡ content)
    × (matches_hash (λ bytes. []) (enqueue_all content order (empty_piece content []))
        ≡ ret (bytes_eq [] []))
complete_lem_example =
    complete_lem (λ bytes. []) content [] order order_fits
      (arrived_lem content [] order order_fits order-Arrives)
