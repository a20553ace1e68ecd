-- ===== src/Ways/Tests.antt =====
-- The theorems about the ways of a set at concrete inputs.
use libtrs.Base.{◌<◌, ◌↔◌, refl, true, inl, arith}
use libtrs.Ways.{Way, update_lru, fresh_ways, choose_way}
use libtrs.Ways.Lru.{IsRanking, update_lru-IsRanking, update_lru_order, fresh_ways-IsRanking}
use libtrs.Ways.Choice.{Chosen, choose_way-some}

update_lru-IsRanking_example : IsRanking (update_lru (fresh_ways 3) 1 true)
unfolding fresh_ways
update_lru-IsRanking_example =
    update_lru-IsRanking (fresh_ways 3) 1 true (fresh_ways-IsRanking 3 (omega arith)) refl
      (inl refl)

-- Way 0 had rank 2 and way 2 had rank 0; way 1 is touched.
update_lru_order_example : (0 < 2) × ((2 < 1) ↔ (2 < 0))
unfolding fresh_ways update_lru
update_lru_order_example =
    update_lru_order (fresh_ways 3) 1 true (fresh_ways-IsRanking 3 (omega arith)) refl (inl refl) 0
      2 refl refl refl refl (omega arith) (omega arith)

choose_way-some_example : (v : Way) × Chosen (fresh_ways 3) 0 2 v
unfolding choose_way fresh_ways
choose_way-some_example = choose_way-some (fresh_ways 3) 0 2 refl
