-- ===== src/Matcher/Handlers.antt =====
-- matcher.hpp: what every handler keeps, and that the matching loop ends. The facts that a handler
-- keeps are those of `IsInvariant`: kept by queueing an event, and by a change of the matcher that
-- leaves the writer and the event numbers alone.
use ll_exp.Prelude.{ℕ, ◌≡◌, refl, ◌∙◌, Bool, true, false, inl, inr, Bool-cases}
use ll_exp.Book.OrderBook.{OrderBook}
use ll_exp.Book.Index.Count.{IsCounted}
use ll_exp.Matcher.Types.{Event, FatalReason, PublishStatus}
use ll_exp.Matcher.State.{
  Env, Matcher, State, transition_to_fatal_state, add, finish, enqueue, enqueue_if, publish_pending,
  publish_event, after_publish, after_pending,
}
use ll_exp.Matcher.Flow.{Ensures, Ensures-bind, Ensures-both, ◌>>=◌, ◌>>◌}
use ll_exp.Matcher.Process.{
  Handler, emit, after_add, give_up, enter_fatal_process, with_book, continue_process, fatal_event,
}

module _ (env : Env) where
  after_publish-book :
      (m : Matcher env.Writer env.Store) (r : PublishStatus × env.Writer)
      → (after_publish env m r).1.book ≡ m.book
  unfolding after_publish transition_to_fatal_state
  after_publish-book m (PublishStatus.ok, w) = refl
  after_publish-book m (PublishStatus.fatal, w) = refl

  after_pending-book :
      (s : State env) (r : Bool × Matcher env.Writer env.Store)
      → (after_pending env s r).1.matcher.book ≡ r.1.book
  unfolding after_pending
  after_pending-book s (true, m) = refl
  after_pending-book s (false, m) = refl

  enqueue_if-book :
      (event : Event) (r : Bool × State env)
      → (enqueue_if env event r).1.matcher.book ≡ r.1.matcher.book
  unfolding enqueue_if enqueue
  enqueue_if-book event (true, s) = refl
  enqueue_if-book event (false, s) = refl

  after_add-book : (r : Bool × State env) → (after_add env r).1.matcher.book ≡ r.1.matcher.book
  unfolding after_add
  after_add-book (true, s) = refl
  after_add-book (false, s) = refl

  pub publish_pending-book :
      (is_last : Bool) (s : State env)
      → (publish_pending env is_last s).1.matcher.book ≡ s.matcher.book
  unfolding publish_pending publish_event
  publish_pending-book is_last s = after_pending-book s _ ∙ after_publish-book s.matcher _

  -- Events do not touch the book.
  pub add-book : (event : Event) (s : State env) → (add env event s).1.matcher.book ≡ s.matcher.book
  unfolding add enqueue
  add-book event s = elim (Bool-cases s.batch.has_pending) [
    | inr first ↦ simp first
    | inl more ↦ simp more (enqueue_if-book event _ ∙ publish_pending-book false s)
  ]

  pub finish-book : (s : State env) → (finish env s).1.matcher.book ≡ s.matcher.book
  unfolding finish
  finish-book s = elim (Bool-cases s.batch.has_pending) [
    | inr idle ↦ simp idle
    | inl busy ↦ simp busy (publish_pending-book true s)
  ]

  pub emit-book :
      (event : Event) (s : State env) → (emit env event s).1.matcher.book ≡ s.matcher.book
  unfolding emit
  emit-book event s = after_add-book _ ∙ add-book event s

  abbrev pub size_of : State env → ℕ
  size_of s = s.matcher.book.index.size

  -- `P` holds while a command is processed, `F` where the writer failed, `Q` where the handler
  -- returns early.
  pub record IsInvariant (P F Q : State env → Type 0) : Type 0 where
    pub counted : (s : State env) → P s → IsCounted s.matcher.book.index
    pub emits :
        (event : Event) (s : State env)
        → P s
        → Ensures (λ _ s'. P s') (λ _ s'. F s') (emit env event s)
    pub fails : (s : State env) → F s → Q s
    pub moves :
        (s : State env) (m : Matcher env.Writer env.Store)
        → P s
        → m.event_writer ≡ s.matcher.event_writer
        → m.next_event_sequence ≡ s.matcher.next_event_sequence
        → IsCounted m.book.index
        → P (record s { matcher = m })
    pub halts :
        (s : State env) (reason : FatalReason)
        → P s
        → Q (record s { matcher = transition_to_fatal_state reason s.matcher })

  module _ (P F Q : State env → Type 0) (inv : IsInvariant P F Q) where
    abbrev pub Keeps : {A : Type 0} → Handler env A → Type 0
    Keeps h = (s : State env) → P s → Ensures (λ _ s'. P s') (λ _ s'. Q s') (h s)

    pub Keeps-bind :
        {A B : Type 0} (m : Handler env A) (f : A → Handler env B)
        → Keeps m
        → ((a : A) → Keeps (f a))
        → Keeps (m >>= f)
    Keeps-bind m f h k s p =
        Ensures-bind (λ _ s'. P s') (λ _ s'. Q s') (λ _ s'. P s') f (m s) (h s p)
          (λ a s' q. k a s' q)

    pub emit-Keeps : (event : Event) → Keeps (emit env event)
    emit-Keeps event s p =
        Ensures-both (λ _ s'. P s') (λ _ s'. F s') (λ _ s'. P s') (λ _ s'. Q s') (emit env event s)
          (inv.emits event s p) (λ _ s' h. h) (λ _ s' h. inv.fails s' h)

    -- `enter_fatal_process` always returns.
    pub enter_fatal_process-Ensures :
        (A : Type 0) (R : A → State env → Type 0) (reason : FatalReason) (offending : ℕ)
        (s : State env)
        → P s
        → Ensures R (λ _ s'. Q s') (enter_fatal_process env {A = A} reason offending s)
    unfolding enter_fatal_process give_up
    enter_fatal_process-Ensures A R reason offending s p =
        let event = fatal_event env reason offending s in
        Ensures-bind (λ _ s'. P s') (λ _ s'. Q s') R (λ _. give_up env {A = A} reason)
          (emit env event s) (emit-Keeps event s p) (λ _ s' q. inv.halts s' reason q)

    pub enter_fatal_process-Keeps :
        (A : Type 0) (reason : FatalReason) (offending : ℕ)
        → Keeps (enter_fatal_process env {A = A} reason offending)
    enter_fatal_process-Keeps A reason offending =
        enter_fatal_process-Ensures A (λ _ s'. P s') reason offending

    pub emit_continue-Keeps : (event : Event) → Keeps (emit env event >> continue_process env)
    emit_continue-Keeps event =
        Keeps-bind (emit env event) (λ _. continue_process env) (emit-Keeps event) (λ _ s' q. q)

    pub with_book-P : (s : State env) (b : OrderBook) → P s → IsCounted b.index → P (with_book s b)
    with_book-P s b p v = inv.moves s (record (s.matcher) { book = b }) p refl refl v
