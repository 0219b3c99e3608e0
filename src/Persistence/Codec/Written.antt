-- ===== src/Persistence/Codec/Written.antt =====
-- crates/service/src/persistence.rs: exactly the storable states are written.
use palka.Base.{
  ◌≡◌, ◌≢◌, ◌↔◌, refl, ◌∙◌, false, List, [], ◌∷◌, String, ok, All, All-map, arith, Result-cases,
  inl, inr,
}
use palka.Domain.{
  ThresholdSet, WarningThreshold, TimerId, ScheduledAction, timer_id_eq, ActionExecutionState,
}
use palka.Domain.Thresholds.{empty, contains, insert}
use palka.Domain.Thresholds.Coverage.{contains-insert, threshold_eq}
use palka.Persistence.{
  PersistentState, TelegramOutboxEntry, TelegramPayload, chat, service_notification, outbox_id_eq,
  duplicate_timer_id, duplicate_outbox_entry_id,
}
use palka.Persistence.Seen.{AreDistinct, collect-eq-ok_iff}
use palka.Persistence.Stored.{
  StateFileV1Dto, ScheduledActionDto, TelegramOutboxEntryDto, TelegramPayloadDto,
  WarningThresholdDto, ActionExecutionStateDto,
}
use palka.Persistence.Codec.Actions.{
  threshold_to_dto, thresholds_to_dto, execution_to_dto, action_to_dto,
}
use palka.Persistence.Codec.Outbox.{sender_to_dto, status_to_dto, payload_to_dto, entry_to_dto}
use palka.Persistence.Codec.{state_of_dto, state_to_dto, actions_to_dto, outbox_to_dto}
use palka.Persistence.Codec.RoundTrip.{
  Walks, state_of_dto-to_dto, entry_to_dto-eq-ok, state_to_dto-eq-ok,
}
use palka.Persistence.Codec.Storable.{
  IsOpen, IsOutgoing, IsStorable, timer_id_eq_iff, outbox_id_eq_iff, state_of_dto-IsStorable,
}

-- Walking a set meets no member twice.
abbrev pub WalksOnce : (ThresholdSet → List WarningThreshold) → Type 0
WalksOnce iterate = (s : ThresholdSet) → AreDistinct (λ t. t) (iterate s)

threshold_eq-false : (t u : WarningThreshold) → t ≢ u → threshold_eq u t ≡ false
threshold_eq-false t u h = ground arith

-- The thresholds that are not in the set yet stay out when another one is added.
All-insert :
    (seen : ThresholdSet) (t : WarningThreshold) (ts : List WarningThreshold)
    → All (λ u. contains seen u ≡ false) ts
    → All (λ u. t ≢ u) ts
    → All (λ u. contains (insert seen t) u ≡ false) ts
All-insert seen t [] h d = tt
All-insert seen t (u ∷ us) h d = (
  contains-insert seen u t ∙ ground (arith, h.0, threshold_eq-false t u d.0),
  All-insert seen t us h.1 d.1,
)

thresholds_to_dto-succeeds :
    (id : TimerId) (seen : ThresholdSet) (ts : List WarningThreshold)
    → AreDistinct (λ t. t) ts
    → All (λ u. contains seen u ≡ false) ts
    → (ds : List WarningThresholdDto) × (thresholds_to_dto id seen ts ≡ ok ds)
unfolding thresholds_to_dto
thresholds_to_dto-succeeds id seen [] d h = ([], refl)
thresholds_to_dto-succeeds id seen (t ∷ ts) d h =
    let (ds, e) =
      thresholds_to_dto-succeeds id (insert seen t) ts d.1 (All-insert seen t ts h.1 d.0) in
    (threshold_to_dto t ∷ ds, ground (arith, h.0, e))

execution_to_dto_iff :
    (id : TimerId) (s : ActionExecutionState)
    → ((d : ActionExecutionStateDto) × (execution_to_dto id s ≡ ok d)) ↔ IsOpen s
unfolding execution_to_dto
execution_to_dto_iff id ActionExecutionState.pending =
    (λ _. ground arith, λ _. (ActionExecutionStateDto.pending, refl))
execution_to_dto_iff id ActionExecutionState.executing =
    (λ _. ground arith, λ _. (ActionExecutionStateDto.executing, refl))
execution_to_dto_iff id (ActionExecutionState.failed reason) =
    (λ _. ground arith, λ _. (ActionExecutionStateDto.failed reason, refl))
execution_to_dto_iff id ActionExecutionState.completed =
    (λ h. ground arith, λ h. elim (h.0 refl) [ ])
execution_to_dto_iff id ActionExecutionState.missed = (λ h. ground arith, λ h. elim (h.1 refl) [ ])

module _ (iterate : ThresholdSet → List WarningThreshold) (debug_text : String → String)
    (once : WalksOnce iterate) where
  none_in_empty : (ts : List WarningThreshold) → All (λ u. contains empty u ≡ false) ts
  none_in_empty [] = tt
  none_in_empty (t ∷ ts) = (ground arith, none_in_empty ts)

  action_to_dto-execution :
      (a : ScheduledAction) (d : ScheduledActionDto)
      → action_to_dto iterate a ≡ ok d
      → (x : ActionExecutionStateDto) × (execution_to_dto a.id a.execution_state ≡ ok x)
  action_to_dto-execution a d h = ground arith

  action_to_dto_iff :
      (a : ScheduledAction)
      → ((d : ScheduledActionDto) × (action_to_dto iterate a ≡ ok d)) ↔ IsOpen a.execution_state
  action_to_dto_iff a =
      let marks = iterate a.emitted_thresholds in
      let (ds, e) =
        thresholds_to_dto-succeeds a.id empty marks (once a.emitted_thresholds)
          (none_in_empty marks) in
      (
        λ (d, h). (execution_to_dto_iff a.id a.execution_state).0 (action_to_dto-execution a d h),
        λ o.
            let (x, hx) = (execution_to_dto_iff a.id a.execution_state).1 o in
            elim (Result-cases (action_to_dto iterate a)) [
              | inl h ↦ h
              | inr (e2, bad) ↦ absurd (ground (arith, e, hx, bad))
            ],
      )

  payload_to_dto_iff :
      (p : TelegramPayload)
      → ((d : TelegramPayloadDto) × (payload_to_dto debug_text p ≡ ok d)) ↔ IsOutgoing p
  unfolding payload_to_dto sender_to_dto status_to_dto
  payload_to_dto_iff (service_notification text) = (λ _. tt, λ _. (_, refl))
  payload_to_dto_iff (chat m) = (
    λ (d, h). (ground arith, ground arith),
    λ (a, b). elim (Result-cases (payload_to_dto debug_text (chat m))) [
      | inl h ↦ h
      | inr (e, bad) ↦ absurd (ground (arith, a, b, bad))
    ],
  )

  entry_to_dto_iff :
      (e : TelegramOutboxEntry)
      → ((d : TelegramOutboxEntryDto) × (entry_to_dto debug_text e ≡ ok d)) ↔ IsOutgoing e.payload
  entry_to_dto_iff e = (
    λ (d, h).
        let (p, hp, same) = entry_to_dto-eq-ok debug_text e d h in
        (payload_to_dto_iff e.payload).0 (p, hp),
    λ o.
        let (x, hx) = (payload_to_dto_iff e.payload).1 o in
        elim (Result-cases (entry_to_dto debug_text e)) [
          | inl h ↦ h
          | inr (e2, bad) ↦ absurd (ground (arith, hx, bad))
        ],
  )

  state_to_dto-made :
      (s : PersistentState) (ds : List ScheduledActionDto) (es : List TelegramOutboxEntryDto)
      → actions_to_dto iterate debug_text s.active_actions ≡ ok ds
      → outbox_to_dto iterate debug_text s.telegram_outbox ≡ ok es
      → (d : StateFileV1Dto) × (state_to_dto iterate debug_text s ≡ ok d)
  unfolding state_to_dto
  state_to_dto-made s ds es ha he = elim (Result-cases (state_to_dto iterate debug_text s)) [
    | inl h ↦ h
    | inr (e, bad) ↦ absurd (ground (arith, ha, he, bad))
  ]

  -- When a set is walked without repetition, a state has a stored form exactly when its timers and
  -- its entries have distinct identifiers, no action has ended, and every message comes from the
  -- child and awaits its delivery.
  pub state_to_dto_iff :
      (s : PersistentState)
      → ((d : StateFileV1Dto) × (state_to_dto iterate debug_text s ≡ ok d)) ↔ IsStorable s
  state_to_dto_iff s =
      let actions =
        collect-eq-ok_iff timer_id_eq (λ a. a.id) timer_id_eq_iff duplicate_timer_id
          (λ id. action_to_dto iterate) s.active_actions in
      let outbox =
        collect-eq-ok_iff outbox_id_eq (λ e. e.entry_id) outbox_id_eq_iff duplicate_outbox_entry_id
          (λ id. entry_to_dto debug_text) s.telegram_outbox in
      (
        λ (d, h).
            let (ds, es, ha, he, same) = state_to_dto-eq-ok iterate debug_text s d h in
            let (timers, converted) = actions.0 (ds, ha) in
            let (entries, sent) = outbox.0 (es, he) in
            record {
              timers_differ = timers;
              entries_differ = entries;
              unfinished =
                  All-map (λ a. (x : ScheduledActionDto) × (action_to_dto iterate a ≡ ok x))
                    (λ a. IsOpen a.execution_state) s.active_actions (λ a. (action_to_dto_iff a).0)
                    converted;
              outgoing =
                  All-map (λ e. (x : TelegramOutboxEntryDto) × (entry_to_dto debug_text e ≡ ok x))
                    (λ e. IsOutgoing e.payload) s.telegram_outbox (λ e. (entry_to_dto_iff e).0)
                    sent;
            },
        λ storable.
            let (ds, ha) = actions.1 (
              storable.timers_differ,
              All-map (λ a. IsOpen a.execution_state)
                  (λ a. (x : ScheduledActionDto) × (action_to_dto iterate a ≡ ok x))
                  s.active_actions (λ a. (action_to_dto_iff a).1) storable.unfinished,
            ) in
            let (es, he) = outbox.1 (
              storable.entries_differ,
              All-map (λ e. IsOutgoing e.payload)
                  (λ e. (x : TelegramOutboxEntryDto) × (entry_to_dto debug_text e ≡ ok x))
                  s.telegram_outbox (λ e. (entry_to_dto_iff e).1) storable.outgoing,
            ) in
            state_to_dto-made s ds es ha he,
      )

  -- When walking a set meets its members once, a state that was read can be stored again, and what
  -- is stored is read as the same state.
  pub state_of_dto-stored_again :
      (d : StateFileV1Dto) (s : PersistentState)
      → Walks iterate
      → state_of_dto d ≡ ok s
      → (e : StateFileV1Dto) × (state_to_dto iterate debug_text s ≡ ok e) × (state_of_dto e ≡ ok s)
  state_of_dto-stored_again d s walks h =
      let (v, ids, storable) = state_of_dto-IsStorable d s h in
      let (e, stored) = (state_to_dto_iff s).1 storable in
      (e, stored, state_of_dto-to_dto iterate debug_text walks s e ids stored)
