-- ===== src/Runtime/Recovery/Delta.antt =====
-- crates/service/src/runtime.rs: remaining_seconds_from_delta_ms.
use palka.Base.{ℕ, ◌+◌, ◌*◌, ◌≤◌, ◌<◌, ◌^◌, ◌≡◌, ◌↔◌, arith, if◌then◌else◌}
use palka.Base.Int.{ℤ, pos, negsuc, pos_part, ◌+ℤ◌, ◌≤ℤ◌, wrap_i64, wrap_i64_id, ltb_ℤ, div_ℤ}

unfoldable pub remaining_seconds_from_delta_ms : ℤ → ℤ
remaining_seconds_from_delta_ms delta =
    if ltb_ℤ (pos 0) delta then div_ℤ (wrap_i64 (delta +ℤ pos 999)) 1000 else div_ℤ delta 1000

future :
    (n : ℕ)
    → 0 < n
    → n + 999 < 2 ^ 63
    → remaining_seconds_from_delta_ms (pos n) ≡ div_ℤ (pos (n + 999)) 1000
unfolding remaining_seconds_from_delta_ms ◌+ℤ◌
future n p h = ground (arith, wrap_i64_id (pos (n + 999)))

-- A deadline is due exactly when no millisecond is left, and a future one has its milliseconds
-- rounded up to seconds, as long as the 999 that are added for this do not leave `i64`.
pub remaining_due_iff :
    (delta : ℤ)
    → pos_part delta + 999 < 2 ^ 63
    → ((remaining_seconds_from_delta_ms delta ≤ℤ pos 0) ↔ (delta ≤ℤ pos 0))
      × (pos_part delta ≤ pos_part (remaining_seconds_from_delta_ms delta) * 1000)
      × (pos_part (remaining_seconds_from_delta_ms delta) * 1000 < pos_part delta + 1000)
unfolding remaining_seconds_from_delta_ms
remaining_due_iff (negsuc n) h = ((λ _. omega arith, λ _. ground arith), ground arith, ground arith)
remaining_due_iff (pos n) h = ground (arith, future n)

-- Beyond that the sum wraps, and a deadline some 292 million years ahead counts as overdue.
pub remaining_wraps :
    (n : ℕ) → 2 ^ 63 ≤ n + 999 → n < 2 ^ 63 → remaining_seconds_from_delta_ms (pos n) ≤ℤ pos 0
unfolding remaining_seconds_from_delta_ms ◌+ℤ◌ wrap_i64
remaining_wraps n h k = ground arith
