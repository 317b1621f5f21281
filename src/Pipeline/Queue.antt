-- ===== src/Pipeline/Queue.antt =====
-- command_pipeline.cpp: the pipeline stands for three growing sequences, the commands that were
-- published and the decisions of the two stages, with the five frontiers in order.
use ll_exp.Prelude.{
  ℕ, ◌+◌, ◌%◌, ◌^◌, ◌≤◌, ◌<◌, ◌≡◌, ◌≢◌, sym, ◌∙◌, arith, true, false, List, length, get_or,
  get_or-set_self, get_or-set_ne, slots_apart,
}
use native.Mathlib.Nat.{mod-lt}
use native.Mathlib.Decide.{ℕ_discrete}
use ll_exp.Book.Types.{u64_mod}
use ll_exp.Matcher.Types.{CommandEnvelope}
use ll_exp.Pipeline.{
  CommandPipeline, CommandRingSlot, RiskResult, ReserveResult, empty_command, empty_risk,
  empty_reserve, empty_slot, is_pending, slot_at, write_slot,
}

pub record History : Type 0 where
  pub commands : List CommandEnvelope
  pub risks : List RiskResult
  pub reserves : List ReserveResult

-- What the slot of a position holds; a stage that has not decided left `Pending` there.
abbrev pub expected : History → ℕ → CommandRingSlot
expected h i = record {
  command = get_or h.commands i empty_command;
  risk = get_or h.risks i empty_risk;
  reserve = get_or h.reserves i empty_reserve;
}

pub record Models (p : CommandPipeline) (h : History) : Type 0 where
  pub running : p.is_open ≡ true
  pub published : p.head ≡ length h.commands
  pub risk_decided : p.risk_checked ≡ length h.risks
  pub reserve_decided : p.reserve_checked ≡ length h.reserves
  pub consumed_in_order : p.tail ≤ p.reserve_checked
  pub reserved_in_order : p.reserve_checked ≤ p.risk_checked
  pub risked_in_order : p.risk_checked ≤ p.durable
  pub durable_in_order : p.durable ≤ p.head
  pub bounded : p.head ≤ p.tail + p.config.capacity
  pub room : 0 < p.config.capacity
  pub sized : length p.slots ≡ p.config.capacity
  pub narrow : p.config.capacity < 2 ^ 32
  pub small : p.head < u64_mod
  pub risks_final :
      (i : ℕ) → i < length h.risks → is_pending (get_or h.risks i empty_risk).decision ≡ false
  pub reserves_final :
      (i : ℕ)
      → i < length h.reserves
      → is_pending (get_or h.reserves i empty_reserve).decision ≡ false
  pub contents : (i : ℕ) → p.tail ≤ i → i < p.head → slot_at p i ≡ expected h i

module _ (p : CommandPipeline) (h : History) (v : Models p h) (q : ℕ) (slot : CommandRingSlot)
    (low : p.tail ≤ q) (high : q < p.tail + p.config.capacity) where
  pub written_self : get_or (write_slot p q slot) (q % p.config.capacity) empty_slot ≡ slot
  written_self =
      get_or-set_self p.slots (q % p.config.capacity) slot empty_slot
        (omega (arith, v.sized, mod-lt q v.room))

  -- Every other slot of the window is as before.
  pub written_other :
      (i : ℕ)
      → p.tail ≤ i
      → i < p.tail + p.config.capacity
      → i ≢ q
      → get_or (write_slot p q slot) (i % p.config.capacity) empty_slot ≡ slot_at p i
  written_other i from below ne =
      get_or-set_ne p.slots (q % p.config.capacity) (i % p.config.capacity) slot empty_slot
        (slots_apart p.tail p.config.capacity q i low high from below (λ e. ne (sym e)))

  -- After the write each slot of the window that is in use holds what `h'` says of it, if `h'`
  -- says `slot` of the position and what `h` says of the others.
  pub written_contents :
      (h' : History) (end : ℕ)
      → end ≤ p.tail + p.config.capacity
      → slot ≡ expected h' q
      → ((i : ℕ) → i ≢ q → p.tail ≤ i → i < end → (i < p.head) × (expected h i ≡ expected h' i))
      → (i : ℕ) → p.tail ≤ i
      → i < end
      → get_or (write_slot p q slot) (i % p.config.capacity) empty_slot ≡ expected h' i
  written_contents h' end within new old i from below = elim (ℕ_discrete i q) [
    | yes same ↦ rw same (written_self ∙ new)
    | no other ↦
        let kept = old i other from below in
        written_other i from (omega arith) other ∙ v.contents i from kept.0 ∙ kept.1
  ]
