-- ===== src/Comparison/Partition.antt =====
-- src/lib/domain/comparison.ts: `compareOffers` loses no offer, and puts the best one first.
use mathlib.Core.List.Perm
use mathlib.Core.List.{Memᴰ, perm_middle}
use ticketguy.Prelude.{
  ◌≤◌, ◌<◌, ◌≡◌, ◌≢◌, refl, ◌⊎◌, Ordering, String, arith, List, [], ◌∷◌, ◌++◌, map, keep, Perm,
}
use ticketguy.Prelude.Sorting.{
  sort_by-perm, IsConsistent, sort_by-IsSorted, then_key-IsConsistent, then_key_down-IsConsistent,
}
use ticketguy.Prelude.Tables.{All-mem}
use ticketguy.Comparison.{
  Offer, HardConstraints, Evaluated, Verdict, eligible, needs_review, excluded, evaluate_offer,
}
use ticketguy.Comparison.Ranking.{
  is_eligible, needs_review_of, is_excluded, rank, apart, by_apart, price_key, delivery_key,
  compare_offers, ComparisonResult,
}

abbrev three_ways : List Evaluated → List Evaluated
three_ways es = keep is_eligible es ++ (keep needs_review_of es ++ keep is_excluded es)

three_ways-perm : (es : List Evaluated) → Perm (three_ways es) es
three_ways-perm [] = Perm.refl _
three_ways-perm (e ∷ es) = by_verdict e.verdict refl (three_ways-perm es)
  where
    by_verdict :
        (v : Verdict)
        → e.verdict ≡ v
        → Perm (three_ways es) es
        → Perm (three_ways (e ∷ es)) (e ∷ es)
    by_verdict eligible q rest = simp q (Perm.cons e rest)
    by_verdict needs_review q rest =
        simp q (Perm.trans (perm_middle (keep is_eligible es) _) (Perm.cons e rest))
    by_verdict excluded q rest = simp q (
        Perm.trans
          (Perm.append_left (keep is_eligible es) (perm_middle (keep needs_review_of es) _))
          (Perm.trans (perm_middle (keep is_eligible es) _) (Perm.cons e rest)))

module _ (lower : String → String) (collate : String → String → Ordering) (offers : List Offer)
    (c : HardConstraints) (event_id : String) where
  abbrev result : ComparisonResult
  result = compare_offers lower collate offers c event_id

  -- Every offer is evaluated once and stands in exactly one of the three lists.
  pub compare_offers-Perm :
      Perm
        ((compare_offers lower collate offers c event_id).eligible_offers
          ++ ((compare_offers lower collate offers c event_id).review_offers
              ++ (compare_offers lower collate offers c event_id).excluded_offers))
        (map (evaluate_offer lower c event_id) offers)
  unfolding compare_offers
  compare_offers-Perm =
      let evaluated = map (evaluate_offer lower c event_id) offers in
      Perm.trans
        (Perm.append (sort_by-perm (by_apart collate c) (keep is_eligible evaluated)) (
          Perm.append (sort_by-perm (rank collate) (keep needs_review_of evaluated)) (Perm.refl _)))
        (three_ways-perm evaluated)

  module _ (consistent : IsConsistent collate) where
    by_id : Evaluated → Evaluated → Ordering
    by_id a b = collate a.offer.id b.offer.id

    by_apart-IsConsistent : IsConsistent (by_apart collate c)
    unfolding by_apart rank by_id
    by_apart-IsConsistent = then_key-IsConsistent (apart c) (
        then_key-IsConsistent price_key (
          then_key_down-IsConsistent (λ (e : Evaluated). e.offer.observed_at)
            (then_key-IsConsistent (λ (e : Evaluated). delivery_key e.offer.delivery_method)
              (record {
                total = λ a b. consistent.total a.offer.id b.offer.id;
                trans = λ a b d. consistent.trans a.offer.id b.offer.id d.offer.id;
              }))))

    not_behind :
        (a b : Evaluated)
        → by_apart collate c a b ≢ Ordering.gt
        → (apart c a < apart c b) ⊎ ((apart c a ≡ apart c b) × (price_key a ≤ price_key b))
    unfolding by_apart rank
    not_behind a b h = ground arith

    -- The first eligible offer is the best one: against every other eligible offer it is the one
    -- with seats together where the group did not say that splitting is fine and the other one's
    -- seats are apart; otherwise it costs no more, an unknown total counting as the largest number.
    pub compare_offers_best :
        (best e : Evaluated) (rest : List Evaluated)
        → (compare_offers lower collate offers c event_id).eligible_offers ≡ best ∷ rest
        → Memᴰ e rest
        → (apart c best < apart c e) ⊎ ((apart c best ≡ apart c e) × (price_key best ≤ price_key e))
    unfolding compare_offers
    compare_offers_best best e rest first m =
        let evaluated = map (evaluate_offer lower c event_id) offers in
        let sorted = sort_by-IsSorted by_apart-IsConsistent (keep is_eligible evaluated) in
        not_behind best e (All-mem _ rest (rw first at sorted).0 m)
