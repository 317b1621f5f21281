-- ===== src/Book/SideBook/BestAsk.antt =====
-- side_book.hpp: `recompute_best` of the ask side, over the bitmap of occupied segments.
use ll_exp.Prelude.{
  ℕ, zero, suc, ◌+◌, ◌*◌, ◌^◌, ◌<◌, ◌≡◌, refl, ◌∙◌, arith, ◌==◌, List, [], ◌∷◌, length, get_or,
  Bool-cases, inl, inr, ◌⊎◌,
}
use ll_exp.Book.Types.{Side, countr_zero}
use ll_exp.Book.Scan.{IsLowest, countr_zero-IsLowest}
use ll_exp.Book.SideBook.{SideBook, invalid_segment, first_occupied_from, recompute_best}

-- Each word fits 64 bits.
abbrev pub AreWords : List ℕ → Type 0
AreWords [] = Unit {0}
AreWords (w ∷ ws) = (w < 2 ^ 64) × AreWords ws

abbrev pub AllZero : List ℕ → Type 0
AllZero [] = Unit {0}
AllZero (w ∷ ws) = (w ≡ 0) × AllZero ws

-- `segment` is the lowest set bit of the words, which start with the word number `first`.
pub record IsFirst (words : List ℕ) (first segment : ℕ) : Type 0 where
  pub word : ℕ
  pub bit : ℕ
  pub place : segment ≡ (first + word) * 64 + bit
  pub within : word < length words
  pub small : bit < 64
  pub before : (j : ℕ) → j < word → get_or words j 0 ≡ 0
  pub lowest : IsLowest (get_or words word 0) bit

zeros_before :
    (w : ℕ) (ws : List ℕ) (k : ℕ)
    → w ≡ 0
    → ((j : ℕ) → j < k → get_or ws j 0 ≡ 0)
    → (j : ℕ) → j < suc k
    → get_or (w ∷ ws) j 0 ≡ 0
zeros_before w ws k e v zero h = e
zeros_before w ws k e v (suc j) h = v j (omega arith)

first_occupied_from-IsFirst :
    (words : List ℕ) (first : ℕ)
    → AreWords words
    → (AllZero words × (first_occupied_from words first ≡ invalid_segment))
      ⊎ IsFirst words first (first_occupied_from words first)
unfolding first_occupied_from
first_occupied_from-IsFirst [] first v = inl (tt, refl)
first_occupied_from-IsFirst (w ∷ ws) first (fits, v) = elim (Bool-cases (w == 0)) [
  | inl clear ↦
      let none_set : w ≡ 0 = ground arith in
      rw clear (elim (first_occupied_from-IsFirst ws (first + 1) v) [
        | inl (rest, e) ↦ inl ((none_set, rest), e)
        | inr found ↦ inr (record {
          word = suc found.word;
          bit = found.bit;
          place = found.place ∙ omega arith;
          within = omega (arith, found.within);
          small = found.small;
          before = zeros_before w ws found.word none_set found.before;
          lowest = found.lowest;
        })
      ])
  | inr set_bit ↦
      let low = countr_zero-IsLowest 64 w (ground arith) fits in
      rw set_bit (
        inr (record {
          word = 0;
          bit = countr_zero 64 w;
          place = omega arith;
          within = omega arith;
          small = low.0;
          before = λ j h. absurd (omega arith);
          lowest = low.1;
        }))
]

-- On an ask side whose occupancy words fit 64 bits, `recompute_best` either finds every word zero
-- and sets the sentinel, or sets the best segment to the lowest set bit of the bitmap: all
-- earlier words are zero and so are the lower bits of its own.
pub recompute_best-IsFirst :
    (b : SideBook)
    → b.book_side ≡ Side.ask
    → AreWords b.segment_occupancy
    → (AllZero b.segment_occupancy × ((recompute_best b).best_segment ≡ invalid_segment))
      ⊎ IsFirst b.segment_occupancy 0 (recompute_best b).best_segment
unfolding recompute_best
recompute_best-IsFirst b side v = simp side (first_occupied_from-IsFirst b.segment_occupancy 0 v)
