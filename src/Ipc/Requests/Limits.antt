-- ===== src/Ipc/Requests/Limits.antt =====
-- crates/ipc-protocol/src/request.rs: which requests are valid.
use palka.Base.{ℕ, ◌*◌, ◌^◌, ◌≤◌, ◌<◌, ◌≡◌, ◌↔◌, refl, true, false, String, ok, arith}
use palka.Base.Text.{is_blank}
use Prim.Native.String.{len}
use palka.Ipc.Requests.{
  RequestPayload, query_status, verify_pin, subscribe_events, send_child_message,
  schedule_internet_block, immediate_internet_block, cancel_internet_block_timer, restore_internet,
  schedule_shutdown, cancel_shutdown_timer, validate, validate_duration_minutes, validate_text,
}
use palka.Runtime.Messages.{is_valid_text}

-- A request that may be carried out: a text of 1 to 4096 bytes that is not blank, a duration of at
-- least a minute whose seconds fit in `u32`.
pub IsAllowed : RequestPayload → Type 0
IsAllowed (send_child_message text) = (1 ≤ len text) × (len text ≤ 4096) × (is_blank text ≡ false)
IsAllowed (schedule_internet_block minutes) = (1 ≤ minutes) × (minutes * 60 < 2 ^ 32)
IsAllowed (schedule_shutdown minutes) = (1 ≤ minutes) × (minutes * 60 < 2 ^ 32)
IsAllowed _ = Unit

validate_duration_minutes_iff :
    (minutes : ℕ)
    → (validate_duration_minutes minutes ≡ ok tt) ↔ ((1 ≤ minutes) × (minutes * 60 < 2 ^ 32))
unfolding validate_duration_minutes
validate_duration_minutes_iff minutes = ground arith

validate_text_iff :
    (text : String)
    → (validate_text text ≡ ok tt) ↔ ((1 ≤ len text) × (len text ≤ 4096) × (is_blank text ≡ false))
unfolding validate_text
validate_text_iff text = ground arith

-- A request is valid exactly when its parameters are within the limits; the seconds of a valid
-- duration never overflow.
pub validate-eq-ok_iff : (r : RequestPayload) → (validate r ≡ ok tt) ↔ IsAllowed r
unfolding validate IsAllowed
validate-eq-ok_iff query_status = (λ _. tt, λ _. refl)
validate-eq-ok_iff (verify_pin pin) = (λ _. tt, λ _. refl)
validate-eq-ok_iff subscribe_events = (λ _. tt, λ _. refl)
validate-eq-ok_iff (send_child_message text) = validate_text_iff text
validate-eq-ok_iff (schedule_internet_block minutes) = validate_duration_minutes_iff minutes
validate-eq-ok_iff immediate_internet_block = (λ _. tt, λ _. refl)
validate-eq-ok_iff (cancel_internet_block_timer id) = (λ _. tt, λ _. refl)
validate-eq-ok_iff restore_internet = (λ _. tt, λ _. refl)
validate-eq-ok_iff (schedule_shutdown minutes) = validate_duration_minutes_iff minutes
validate-eq-ok_iff (cancel_shutdown_timer id) = (λ _. tt, λ _. refl)

-- The protocol lets a child's message through exactly when the coordinator accepts its text.
validate-is_valid_text_iff :
    (text : String) → (validate (send_child_message text) ≡ ok tt) ↔ (is_valid_text text ≡ true)
unfolding validate validate_text is_valid_text
validate-is_valid_text_iff text = ground arith
