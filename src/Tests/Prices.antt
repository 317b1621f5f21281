-- ===== src/Tests/Prices.antt =====
-- Prices and bit scans at concrete inputs.
use ll_exp.Prelude.{◌≡◌, ◌<◌, ◌^◌, ◌+◌, refl, arith, true, replicate, [], ◌∷◌, ◌⊎◌}
use ll_exp.Book.Types.{PriceSegment, Side, best_ask_offset, best_bid_offset, empty_level}
use ll_exp.Book.Scan.{IsLowest, IsHighest, best_ask_offset-IsLowest, best_bid_offset-IsHighest}
use ll_exp.Book.SideBook.{SideBook, contains_price, invalid_segment, make_side, recompute_best}
use ll_exp.Book.SideBook.BestAsk.{AllZero, AreWords, IsFirst, recompute_best-IsFirst}
use ll_exp.Book.SideBook.Prices.{IsPlaced, contains_price-IsPlaced}
use ll_exp.Tests.Books.{program}

-- Levels 2, 3 and 40 are occupied.
abbrev three_levels : PriceSegment
three_levels = record { levels = replicate 64 empty_level; active_mask = 2 ^ 40 + 12 }

lowest_is_2 : best_ask_offset three_levels ≡ 2
unfolding program
lowest_is_2 = refl

highest_is_40 : best_bid_offset three_levels ≡ 40
unfolding program
highest_is_40 = refl

best_ask_example :
    (best_ask_offset three_levels < 64)
    × IsLowest three_levels.active_mask (best_ask_offset three_levels)
best_ask_example = best_ask_offset-IsLowest three_levels (omega arith) (omega arith)

best_bid_example :
    (best_bid_offset three_levels < 64)
    × IsHighest three_levels.active_mask (best_bid_offset three_levels)
best_bid_example = best_bid_offset-IsHighest three_levels (omega arith) (omega arith)

price_is_contained : contains_price (make_side Side.ask 100 200) 190 ≡ true
unfolding program
price_is_contained = refl

price_example : IsPlaced Side.ask 100 200 190
price_example = contains_price-IsPlaced Side.ask 100 200 190 (omega arith) price_is_contained

-- The second word holds the first segment that is occupied.
unfoldable ask_side : SideBook
ask_side = record (make_side Side.ask 0 5000) { segment_occupancy = 0 ∷ 12 ∷ [] }

ask_side_is_ask : ask_side.book_side ≡ Side.ask
unfolding program ask_side
ask_side_is_ask = refl

ask_words : AreWords ask_side.segment_occupancy
unfolding program ask_side
ask_words = (omega arith, (omega arith, tt))

best_is_66 : (recompute_best ask_side).best_segment ≡ 66
unfolding program ask_side
best_is_66 = refl

recompute_best_example :
    (AllZero ask_side.segment_occupancy
      × ((recompute_best ask_side).best_segment ≡ invalid_segment))
    ⊎ IsFirst ask_side.segment_occupancy 0 (recompute_best ask_side).best_segment
recompute_best_example = recompute_best-IsFirst ask_side ask_side_is_ask ask_words
