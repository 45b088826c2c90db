-- ===== src/Outbox/Claims.antt =====
-- Several dispatchers on one outbox: `claimDueDispatchableEvents` of
-- apps/worker-geodata/src/domains/outbox/outbox-dispatcher.ts.
use planisfy.Common.{
  ℕ, Bool, true, false, List, ◌≡◌, refl, ◌⊎◌, inl, inr, arith, ◌==◌, All, All-map, All-of_map,
}
use planisfy.Common.Table.{select_where-All_of, update_where, update_where-All}
use planisfy.Common.Unique.{Unique, select_where-Unique}
use planisfy.Outbox.{OutboxEvent, is_pending, is_claimed, claim_row, claim_selected}

abbrev pub same_event : OutboxEvent → OutboxEvent → Bool
same_event a b = a.id == b.id

same_event_comm : (a b : OutboxEvent) → same_event a b ≡ same_event b a
same_event_comm a b = ground arith

-- A row that is another event, or no longer pending.
abbrev IsTaken : OutboxEvent → OutboxEvent → Type 0
IsTaken c e = (same_event e c ≡ false) ⊎ (is_pending e.status ≡ false)

claimed-IsTaken :
    (ids : List ℕ) (now : ℕ) (events : List OutboxEvent) (c : OutboxEvent)
    → All (λ e. (same_event e c ≡ false) ⊎ (is_claimed ids e ≡ true)) events
    → All (IsTaken c) (update_where (is_claimed ids) (claim_row now) events)
unfolding claim_row
claimed-IsTaken ids now events c h =
    update_where-All (λ e. (same_event e c ≡ false) ⊎ (is_claimed ids e ≡ true)) (IsTaken c)
      (is_claimed ids) (claim_row now) events (λ e k t. inr refl)
      (λ e k f. elim k [ inl away ↦ inl away | inr t ↦ cc ]) h

taken-missed :
    (ids : List ℕ) (now : ℕ) (events : List OutboxEvent) (c : OutboxEvent)
    → All (IsTaken c) events
    → All (λ d. same_event d c ≡ false) (claim_selected ids now events).0
unfolding claim_selected claim_row
taken-missed ids now events c a =
    All-of_map (λ d. same_event d c ≡ false) (claim_row now) _
      (select_where-All_of (IsTaken c) (λ e. same_event (claim_row now e) c ≡ false)
        (is_claimed ids) events (λ e k t. elim k [ inl away ↦ away | inr f ↦ cc (rw f at t) ]) a)

-- Two dispatchers that have selected events, whichever and whenever, do not both get one of them:
-- what the second update returns shares no id with what the first returned.
pub claim_selected-exclusive :
    (ids ids' : List ℕ) (now now' : ℕ) (events : List OutboxEvent)
    → Unique same_event events
    → All
        (λ c.
          All
            (λ d. same_event d c ≡ false)
            (claim_selected ids' now' (claim_selected ids now events).1).0)
        (claim_selected ids now events).0
unfolding claim_selected claim_row
claim_selected-exclusive ids ids' now now' events u =
    let after = update_where (is_claimed ids) (claim_row now) events in
    All-of_map (λ c. All (λ d. same_event d c ≡ false) (claim_selected ids' now' after).0)
      (claim_row now) _
      (All-map (λ c. All (λ e. (same_event e c ≡ false) ⊎ (is_claimed ids e ≡ true)) events)
        (λ c. All (λ d. same_event d (claim_row now c) ≡ false) (claim_selected ids' now' after).0)
        _ (λ c k. taken-missed ids' now' after c (claimed-IsTaken ids now events c k))
        (select_where-Unique same_event (is_claimed ids) (λ e. is_claimed ids e ≡ true) (λ e t. t)
          same_event_comm events u))
