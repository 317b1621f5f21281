-- ===== src/Matcher/Loop.antt =====
-- matcher.hpp: the matching loop ends, and keeps what an `IsInvariant` asks for: each round takes an
-- entry out of the index or fills the incoming order.
use ll_exp.Prelude.{
  ℕ, zero, suc, ◌+◌, ◌-◌, ◌≤◌, ◌<◌, ◌≡◌, ◌≢◌, refl, ap, ◌∙◌, arith, ◌==◌, min, ◌⊎◌, inl, inr,
  Bool-cases, Option-cases,
}
use ll_exp.Book.Types.{OrderView, EraseStatus, SetRemainingStatus}
use ll_exp.Book.OrderBook
use ll_exp.Book.OrderBook.{OrderBook}
use ll_exp.Book.OrderBook.Counted.{erase-Shrinks, set_remaining-index}
use ll_exp.Matcher.Types.{Event, NewLimitOrder}
use ll_exp.Matcher.State.{Env, State}
use ll_exp.Matcher.Flow.{Flow, Ensures, Ensures-bind, Ensures-with, Ensures-imp}
use ll_exp.Matcher.Process.{
  emit, after_erase, erase_filled, after_set_remaining, reduce_resting, settle_resting, trade_of,
  match_once, match_round, match_loop, with_book, crosses, opposite_side,
}
use ll_exp.Matcher.Handlers.{
  emit-book, size_of, IsInvariant, Keeps, emit-Keeps, enter_fatal_process-Ensures,
  enter_fatal_process-Keeps, with_book-P,
}

module _ (env : Env) (P F Q : State env → Type 0) (inv : IsInvariant env P F Q) where
  -- A step that leaves an index smaller than one of `n` entries.
  abbrev Smaller : ℕ → {A : Type 0} → Flow A × State env → Type 0
  Smaller n r = Ensures (λ _ s'. P s' × (size_of env s' + 1 ≡ n)) (λ _ s'. Q s') r

  after_erase-Smaller :
      (status : EraseStatus) (incoming : NewLimitOrder) (resting : OrderView) (n : ℕ)
      (s : State env)
      → P s
      → (status ≡ EraseStatus.ok → size_of env s + 1 ≡ n)
      → Smaller n (after_erase env status incoming resting s)
  unfolding after_erase
  after_erase-Smaller EraseStatus.ok incoming resting n s p h =
      let event = Event.order_done resting.id in
      Ensures-with (λ _ s'. P s') (λ _ s'. Q s') (λ s'. size_of env s' + 1 ≡ n) (emit env event s)
        (emit-Keeps env P F Q inv event s p)
        (ap (λ (b : OrderBook). b.index.size + 1) (emit-book env event s) ∙ h refl)
  after_erase-Smaller EraseStatus.not_found incoming resting n s p h =
      enter_fatal_process-Ensures env P F Q inv (Unit {0}) (λ _ s'. P s' × (size_of env s' + 1 ≡ n))
        _ incoming.id s p

  after_set_remaining-Keeps :
      (status : SetRemainingStatus) (incoming : NewLimitOrder)
      → Keeps env P F Q inv (after_set_remaining env status incoming)
  unfolding after_set_remaining
  after_set_remaining-Keeps SetRemainingStatus.ok incoming s p = p
  after_set_remaining-Keeps _ incoming s p =
      enter_fatal_process-Keeps env P F Q inv (Unit {0}) _ incoming.id s p

  erase_filled-Smaller :
      (incoming : NewLimitOrder) (resting : OrderView) (s : State env)
      → P s
      → Smaller (size_of env s) (erase_filled env incoming resting s)
  unfolding erase_filled
  erase_filled-Smaller incoming resting s p =
      let b = s.matcher.book in
      let done = erase-Shrinks b resting.id (inv.counted s p) in
      after_erase-Smaller (OrderBook.erase b resting.id).0.status incoming resting (size_of env s)
        (with_book s (OrderBook.erase b resting.id).1) (with_book-P env P F Q inv s _ p done.valid)
        done.smaller

  reduce_resting-Keeps :
      (incoming : NewLimitOrder) (resting : OrderView) (left : ℕ)
      → Keeps env P F Q inv (reduce_resting env incoming resting left)
  unfolding reduce_resting
  reduce_resting-Keeps incoming resting left s p =
      let r = OrderBook.set_remaining s.matcher.book resting.id left in
      after_set_remaining-Keeps r.0.status incoming (with_book s r.1) (
        with_book-P env P F Q inv s r.1 p
          (rw (set_remaining-index s.matcher.book resting.id left) (inv.counted s p)))

  -- The book's share of a trade: an entry goes, or the resting order keeps a part.
  abbrev Settled : ℕ → ℕ → State env → Type 0
  Settled left n s' = P s' × ((left ≢ 0) ⊎ (size_of env s' + 1 ≡ n))

  settle_resting-Settled :
      (incoming : NewLimitOrder) (resting : OrderView) (left : ℕ) (s : State env)
      → P s
      → Ensures
          (λ _. Settled left (size_of env s))
          (λ _ s'. Q s')
          (settle_resting env incoming resting left s)
  unfolding settle_resting
  settle_resting-Settled incoming resting left s p = elim (Bool-cases (left == 0)) [
    | inl all ↦ rw all (
        Ensures-imp (λ _ s'. P s' × (size_of env s' + 1 ≡ size_of env s)) (λ _ s'. Q s')
          (λ _. Settled left (size_of env s)) (erase_filled env incoming resting s)
          (erase_filled-Smaller incoming resting s p) (λ _ s' h. (h.0, inr h.1)))
    | inr part ↦ rw part (
        Ensures-imp (λ _ s'. P s') (λ _ s'. Q s') (λ _. Settled left (size_of env s))
          (reduce_resting env incoming resting left s)
          (reduce_resting-Keeps incoming resting left s p) (λ _ s' h. (h, inl (ground arith))))
  ]

  -- After one trade nothing remains of the incoming order, or the index is smaller.
  abbrev Progress : ℕ → ℕ → State env → Type 0
  Progress n remaining s' = P s' × ((remaining ≡ 0) ⊎ (size_of env s' + 1 ≡ n))

  match_once-Progress :
      (incoming : NewLimitOrder) (remaining : ℕ) (resting : OrderView) (s : State env)
      → P s
      → Ensures
          (Progress (size_of env s))
          (λ _ s'. Q s')
          (match_once env incoming remaining resting s)
  unfolding match_once
  match_once-Progress incoming remaining resting s p =
      let executed = min remaining resting.remaining in
      let left = resting.remaining - executed in
      let event = trade_of env incoming resting executed in
      Ensures-bind (λ _ s₁. P s₁ × (size_of env s₁ ≡ size_of env s)) (λ _ s'. Q s')
        (Progress (size_of env s)) _ (emit env event s)
        (Ensures-with (λ _ s₁. P s₁) (λ _ s'. Q s') (λ s₁. size_of env s₁ ≡ size_of env s)
          (emit env event s) (emit-Keeps env P F Q inv event s p)
          (ap (λ (b : OrderBook). b.index.size) (emit-book env event s)))
        (λ _ s₁ h₁.
          Ensures-bind (λ _. Settled left (size_of env s₁)) (λ _ s'. Q s')
            (Progress (size_of env s)) _ (settle_resting env incoming resting left s₁)
            (settle_resting-Settled incoming resting left s₁ h₁.0)
            (λ _ s₂ h₂.
              (h₂.0, elim h₂.1 [ inl part ↦ inl (omega arith) | inr less ↦ inr (less ∙ h₁.1) ])))

  -- With fuel above the size of the index the loop ends by its own tests.
  pub match_loop-Keeps :
      (fuel : ℕ) (incoming : NewLimitOrder) (remaining : ℕ) (s : State env)
      → P s
      → 0 < fuel
      → (remaining ≡ 0) ⊎ (size_of env s + 2 ≤ fuel)
      → Ensures (λ _ s'. P s') (λ _ s'. Q s') (match_loop env fuel incoming remaining s)
  unfolding match_loop match_round
  match_loop-Keeps zero incoming remaining s p pos enough = absurd (omega arith)
  match_loop-Keeps (suc fuel) incoming remaining s p pos enough =
      elim (Bool-cases (remaining == 0)) [
        | inl none_left ↦ rw none_left p
        | inr more ↦
            rw more
              (elim (Option-cases (OrderBook.best s.matcher.book (opposite_side incoming.side))) [
                | inl empty ↦ rw empty p
                | inr (resting, found) ↦
                    rw found
                      (elim (Bool-cases (crosses incoming.side incoming.price resting.price)) [
                        | inr apart ↦ rw apart p
                        | inl crossing ↦ rw crossing (
                            Ensures-bind (Progress (size_of env s)) (λ _ s'. Q s') (λ _ s'. P s')
                              (match_loop env fuel incoming)
                              (match_once env incoming remaining resting s)
                              (match_once-Progress incoming remaining resting s p)
                              (λ remaining' s' h.
                                match_loop-Keeps fuel incoming remaining' s' h.0
                                  (ground (arith, enough))
                                  (elim h.1 [
                                    | inl done ↦ inl done
                                    | inr less ↦ inr (ground (arith, enough))
                                  ])))
                      ])
              ])
      ]
