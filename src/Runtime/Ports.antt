-- ===== src/Runtime/Ports.antt =====
-- crates/service/src/runtime.rs: the calls of the ports. The mutations of the platform and the
-- saves are noted as effects.
use palka.Base.{ℕ, Bool, Result, ok, err}
use palka.Domain.{UtcDateTime, TimerId, InternetState, Event}
use palka.Persistence.{PersistentState, OutboxEntryId, StateStoreError}
use palka.Runtime.State.{
  PlatformError, Effect, saved, save_failed, blocks_internet, unblocks_internet, reads_internet,
  initiates_shutdown, Instant, Duration, SubscriptionId,
}
use palka.Runtime.Action.{Action, pure, gets, call, note, ◌>>=◌, ◌>>◌}

abbrev pub saving : PersistentState → Result (Unit {0}) StateStoreError → Effect
saving s (ok _) = saved s
saving s (err _) = save_failed s

module _ {E : Type 0} where
  -- `self.store.save(&state)`, with its result as a value.
  unfoldable pub store_save : PersistentState → Action E (Result (Unit {0}) StateStoreError)
  store_save s = do r ← call (λ p n. p.save n s); note (saving s r); pure r

  unfoldable pub gate_block : Action E (Result (Unit {0}) PlatformError)
  gate_block = do
    sid ← gets (λ c. c.child_sid)
    note blocks_internet
    call (λ p n. p.block_internet n sid)

  unfoldable pub gate_unblock : Action E (Result (Unit {0}) PlatformError)
  gate_unblock = do
    sid ← gets (λ c. c.child_sid)
    note unblocks_internet
    call (λ p n. p.unblock_internet n sid)

  unfoldable pub gate_current_state : Action E (Result InternetState PlatformError)
  gate_current_state = do
    sid ← gets (λ c. c.child_sid)
    note reads_internet
    call (λ p n. p.current_state n sid)

  unfoldable pub power_initiate_shutdown : Action E (Result (Unit {0}) PlatformError)
  power_initiate_shutdown = do note initiates_shutdown; call (λ p n. p.initiate_shutdown n)

  unfoldable pub utc_now : Action E UtcDateTime
  utc_now = call (λ p n. p.utc_now n)

  unfoldable pub monotonic_now : Action E Instant
  monotonic_now = call (λ p n. p.monotonic_now n)

  unfoldable pub next_timer_id : Action E TimerId
  next_timer_id = call (λ p n. p.next_timer_id n)

  unfoldable pub next_outbox_id : Action E OutboxEntryId
  next_outbox_id = call (λ p n. p.next_outbox_id n)

  unfoldable pub delay_for_attempt : ℕ → Action E Duration
  delay_for_attempt attempt = call (λ p n. p.delay_for_attempt n attempt)

  unfoldable pub is_stop_requested : Action E Bool
  is_stop_requested = call (λ p n. p.stop_requested n)

  unfoldable pub try_send : SubscriptionId → Event → Action E Bool
  try_send id event = call (λ p n. p.try_send n id event)

  unfoldable pub reply_taken : Action E Bool
  reply_taken = call (λ p n. p.reply_taken n)
