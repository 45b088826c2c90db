-- ===== src/Webhook/Accept.antt =====
-- apps/api/src/domains/billing/webhook-inbox.ts: what `acceptDodoWebhookEvent` stores.
use text.Mathlib.Text.{◌==◌ as str_eq}
use text.Mathlib.TextEquality.{eq_iff}
use text.Mathlib.TextPositions.{eq_refl}
use planisfy.Common.{
  ℕ, String, ◌≡◌, refl, sym, ap, ◌∙◌, ◌⊎◌, inl, inr, Bool, true, false, ◌&&◌, Option, none, some,
  List, arith, All, All-map, All-append, Bool-cases, is_some, ◌||◌,
}
use planisfy.Common.Json.{Fields}
use planisfy.Common.Table.{update_where, find_where, any_where, update_where-All, find_where-holds}
use planisfy.Common.Unique.{
  Unique, any_where-All, any_where-append_self, find_where-append_self, any_where-update_where,
  find_where-update_where, Unique-concat, Unique-update_where, find_where-Unique,
}
use planisfy.Webhook.{
  WebhookEvent, pending, Accepted, same_webhook, is_failed, is_processed,
  should_replay_dodo_webhook, new_event, replay, accept_existing, accept_dodo_webhook_event,
}

-- The key of the unique index on the provider and the webhook's id.
abbrev pub same_key : WebhookEvent → WebhookEvent → Bool
same_key a b = str_eq a.webhook_id b.webhook_id

abbrev pub UniqueWebhooks : List WebhookEvent → Type 0
UniqueWebhooks = Unique same_key

-- A delivery that waits for its first attempt, due at `now`.
pub record IsFresh (now : ℕ) (e : WebhookEvent) : Type 0 where
  pub waits : e.status ≡ pending
  pub untried : e.attempts ≡ 0
  pub due : e.next_attempt_at ≡ now
  pub unleased : e.lease_until ≡ none

str_eq-same_webhook :
    (w : String) (x y : WebhookEvent)
    → same_webhook w x ≡ true
    → same_webhook w y ≡ true
    → same_key x y ≡ true
str_eq-same_webhook w x y h k =
    (eq_iff x.webhook_id y.webhook_id).1
      ((eq_iff x.webhook_id w).0 h ∙ sym ((eq_iff y.webhook_id w).0 k))

-- A delivery of a webhook whose row is not to be replayed is a duplicate.
accept-duplicate :
    (new_id : ℕ) (w : String) (payload : Fields) (event_at : Option ℕ) (now : ℕ)
    (events : List WebhookEvent) (found : Option WebhookEvent)
    → any_where (same_webhook w) events ≡ true
    → find_where (same_webhook w) events ≡ found
    → (found ≡ none)
      ⊎ ((x : WebhookEvent) × (found ≡ some x) × (should_replay_dodo_webhook x ≡ false))
    → accept_dodo_webhook_event new_id w payload event_at now events
      ≡ (record { duplicate = true; replayed = false }, events)
unfolding accept_dodo_webhook_event
accept-duplicate new_id w payload event_at now events found there eq (inl missing) =
    rw (there, eq, missing)
accept-duplicate new_id w payload event_at now events found there eq (inr (x, is_x, keep)) =
    rw (there, eq, is_x) (duplicate_or_not x keep)
  where
    duplicate_or_not :
        (x : WebhookEvent)
        → should_replay_dodo_webhook x ≡ false
        → accept_existing w payload event_at now events (some x)
          ≡ (record { duplicate = true; replayed = false }, events)
    duplicate_or_not x keep = elim (Bool-cases (is_some x.processed_at || is_processed x.status)) [
      | inl t ↦ rw t
      | inr f ↦ rw (f, keep)
    ]

module _ (w : String) (payload : Fields) (event_at : Option ℕ) (now : ℕ) where
  abbrev replayable : WebhookEvent → Bool
  replayable e = same_webhook w e && is_failed e.status

  replay-keeps :
      (x : WebhookEvent) → same_webhook w (replay payload event_at now x) ≡ same_webhook w x
  unfolding replay
  replay-keeps x = refl

  replay-IsFresh : (x : WebhookEvent) → IsFresh now (replay payload event_at now x)
  unfolding replay
  replay-IsFresh x = record { waits = refl; untried = refl; due = refl; unleased = refl }

  replay-UniqueWebhooks :
      (events : List WebhookEvent)
      → UniqueWebhooks events
      → UniqueWebhooks (update_where replayable (replay payload event_at now) events)
  unfolding replay
  replay-UniqueWebhooks =
      Unique-update_where same_key replayable (replay payload event_at now) (λ x y. refl)
        (λ x y. refl)

  -- Where the row of the webhook is FAILED, the update leaves a fresh row of it and no other.
  replay-All :
      (events : List WebhookEvent) (existing : WebhookEvent)
      → UniqueWebhooks events
      → find_where (same_webhook w) events ≡ some existing
      → is_failed existing.status ≡ true
      → All
          (λ e. (same_webhook w e ≡ false) ⊎ IsFresh now e)
          (update_where replayable (replay payload event_at now) events)
  replay-All events existing u found dead =
      update_where-All (λ e. (same_webhook w e ≡ false) ⊎ (e ≡ existing))
        (λ e. (same_webhook w e ≡ false) ⊎ IsFresh now e) replayable (replay payload event_at now)
        events (λ x h t. inr (replay-IsFresh x))
        (λ x h f. elim h [
          | inl other ↦ inl other
          | inr same ↦ elim (Bool-cases (same_webhook w x)) [
            | inl t ↦
                let failed_x : is_failed x.status ≡ true =
                  ap (λ (e : WebhookEvent). is_failed e.status) same ∙ dead in
                cc (rw (t, failed_x) at f)
            | inr o ↦ inl o
          ]
        ])
        (find_where-Unique same_key (same_webhook w) (str_eq-same_webhook w) events existing u
          found)

  new_event-IsFresh : (new_id : ℕ) → IsFresh now (new_event new_id w payload event_at now)
  unfolding new_event
  new_event-IsFresh new_id = record { waits = refl; untried = refl; due = refl; unleased = refl }

  new_event-same : (new_id : ℕ) → same_webhook w (new_event new_id w payload event_at now) ≡ true
  unfolding new_event
  new_event-same new_id = eq_refl w

  away_key :
      (new_id : ℕ) (events : List WebhookEvent)
      → All (λ e. same_webhook w e ≡ false) events
      → All (λ e. same_key e (new_event new_id w payload event_at now) ≡ false) events
  unfolding new_event
  away_key new_id events h = h

  replayed-is_failed :
      (x : WebhookEvent) → should_replay_dodo_webhook x ≡ true → is_failed x.status ≡ true
  unfolding should_replay_dodo_webhook
  replayed-is_failed x h = ground arith

  -- What accepting a delivery leaves: a row of the webhook, distinct webhooks, and either a
  -- duplicate with the table as it was, or no duplicate and every row of the webhook fresh.
  abbrev pub Stored : List WebhookEvent → Accepted × List WebhookEvent → Type 0
  Stored events run =
      (any_where (same_webhook w) run.1 ≡ true)
      × UniqueWebhooks run.1
      × ((run.0.duplicate ≡ true) × (run.1 ≡ events)
          ⊎ (run.0.duplicate ≡ false) × All (λ e. (same_webhook w e ≡ false) ⊎ IsFresh now e) run.1)

  accept_existing-Stored :
      (events : List WebhookEvent) (found : Option WebhookEvent)
      → UniqueWebhooks events
      → any_where (same_webhook w) events ≡ true
      → find_where (same_webhook w) events ≡ found
      → Stored events (accept_existing w payload event_at now events found)
  unfolding accept_existing
  accept_existing-Stored events none u there eq = (there, u, inl (refl, refl))
  accept_existing-Stored events (some x) u there eq =
      elim (Bool-cases (is_some x.processed_at || is_processed x.status)) [
        | inl done ↦ rw done (there, u, inl (refl, refl))
        | inr open_ ↦ elim (Bool-cases (should_replay_dodo_webhook x)) [
          | inl again ↦
              rw (open_, again)
                (
                  any_where-update_where (same_webhook w) replayable (replay payload event_at now)
                        replay-keeps events
                      ∙ there,
                  replay-UniqueWebhooks events u,
                  inr (refl, replay-All events x u eq (replayed-is_failed x again)),
                )
          | inr wait ↦ rw (open_, wait) (there, u, inl (refl, refl))
        ]
      ]

  -- Every delivery is stored once: afterwards the table has a row of the webhook, and no webhook
  -- has two rows. A duplicate changes nothing; otherwise the webhook's row is PENDING, untried, not
  -- leased and due at once.
  pub accept-Stored :
      (new_id : ℕ) (events : List WebhookEvent)
      → UniqueWebhooks events
      → Stored events (accept_dodo_webhook_event new_id w payload event_at now events)
  unfolding accept_dodo_webhook_event
  accept-Stored new_id events u = elim (Bool-cases (any_where (same_webhook w) events)) [
    | inl there ↦ rw there (accept_existing-Stored events _ u there refl)
    | inr fresh ↦
        let away = any_where-All (same_webhook w) events fresh in
        rw fresh (
          any_where-append_self (same_webhook w) events (new_event new_id w payload event_at now)
              (new_event-same new_id),
          Unique-concat same_key events (new_event new_id w payload event_at now) u
              (away_key new_id events away),
          inr (
            refl,
            All-append (λ e. (same_webhook w e ≡ false) ⊎ IsFresh now e) events _
                (All-map (λ e. same_webhook w e ≡ false)
                  (λ e. (same_webhook w e ≡ false) ⊎ IsFresh now e) events (λ e h. inl h) away)
                (inr (new_event-IsFresh new_id), tt),
          ),
        )
  ]

  first_replay :
      (events : List WebhookEvent) (x : WebhookEvent)
      → find_where (same_webhook w) events ≡ some x
      → should_replay_dodo_webhook x ≡ true
      → find_where (same_webhook w) (update_where replayable (replay payload event_at now) events)
        ≡ some (replay payload event_at now x)
  first_replay events x found again =
      let hit : replayable x ≡ true =
        rw (find_where-holds (same_webhook w) events x found, replayed-is_failed x again) in
      rw hit at (
        find_where-update_where (same_webhook w) replayable (replay payload event_at now)
          replay-keeps events x found)

  settled_keeps :
      (x : WebhookEvent)
      → (is_some x.processed_at || is_processed x.status) ≡ true
      → should_replay_dodo_webhook x ≡ false
  unfolding should_replay_dodo_webhook
  settled_keeps x h = ground arith

  replay-keeps_row :
      (x : WebhookEvent) → should_replay_dodo_webhook (replay payload event_at now x) ≡ false
  unfolding replay should_replay_dodo_webhook
  replay-keeps_row x = refl

  new_event-keeps :
      (new_id : ℕ) → should_replay_dodo_webhook (new_event new_id w payload event_at now) ≡ false
  unfolding new_event should_replay_dodo_webhook
  new_event-keeps new_id = refl

  -- After any delivery the table has a row of the webhook, and its first is not to be replayed.
  accept-settled :
      (new_id : ℕ) (events : List WebhookEvent) (found : Option WebhookEvent)
      → find_where (same_webhook w) events ≡ found
      → let after = (accept_dodo_webhook_event new_id w payload event_at now events).1 in
        (any_where (same_webhook w) after ≡ true)
        × ((find_where (same_webhook w) after ≡ none)
            ⊎ ((x : WebhookEvent) × (find_where (same_webhook w) after ≡ some x)
                × (should_replay_dodo_webhook x ≡ false)))
  unfolding accept_dodo_webhook_event
  accept-settled new_id events found eq = elim (Bool-cases (any_where (same_webhook w) events)) [
    | inr fresh ↦ rw fresh (
      any_where-append_self (same_webhook w) events (new_event new_id w payload event_at now)
          (new_event-same new_id),
      inr (
        new_event new_id w payload event_at now,
        find_where-append_self (same_webhook w) events _ fresh (new_event-same new_id),
        new_event-keeps new_id,
      ),
    )
    | inl there ↦ rw there (rw eq (existing found there eq))
  ]
    where
      existing :
          (found : Option WebhookEvent)
          → any_where (same_webhook w) events ≡ true
          → find_where (same_webhook w) events ≡ found
          → let after = (accept_existing w payload event_at now events found).1 in
            (any_where (same_webhook w) after ≡ true)
            × ((find_where (same_webhook w) after ≡ none)
                ⊎ ((x : WebhookEvent) × (find_where (same_webhook w) after ≡ some x)
                    × (should_replay_dodo_webhook x ≡ false)))
      existing none there eq = (there, inl eq)
      existing (some x) there eq =
          elim (Bool-cases (is_some x.processed_at || is_processed x.status)) [
            | inl done ↦ rw done (there, inr (x, eq, settled_keeps x done))
            | inr open_ ↦ elim (Bool-cases (should_replay_dodo_webhook x)) [
              | inl again ↦
                  rw (open_, again)
                    (
                      any_where-update_where (same_webhook w) replayable
                            (replay payload event_at now) replay-keeps events
                          ∙ there,
                      inr (_, first_replay events x eq again, replay-keeps_row x),
                    )
              | inr wait ↦ rw (open_, wait) (there, inr (x, eq, wait))
            ]
          ]

  -- A second delivery of a webhook, whatever it carries and whenever it comes, is a duplicate and
  -- changes nothing, as long as nothing else wrote to the table in between.
  pub accept_again :
      (new_id new_id' now' : ℕ) (payload' : Fields) (event_at' : Option ℕ)
      (events : List WebhookEvent)
      → let after = (accept_dodo_webhook_event new_id w payload event_at now events).1 in
        accept_dodo_webhook_event new_id' w payload' event_at' now' after
        ≡ (record { duplicate = true; replayed = false }, after)
  accept_again new_id new_id' now' payload' event_at' events =
      let after = (accept_dodo_webhook_event new_id w payload event_at now events).1 in
      let (there, first) = accept-settled new_id events _ refl in
      accept-duplicate new_id' w payload' event_at' now' after (find_where (same_webhook w) after)
        there refl first
