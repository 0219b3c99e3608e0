-- ===== src/Runtime/Outcomes/Outbox.antt =====
-- crates/service/src/runtime.rs: what handle_ack_telegram and handle_send_child_message do to the
-- state.
use palka.Base.{
  ◌≡◌, refl, ap, ◌∙◌, Bool, true, false, not, Option, none, List, [], ◌∷◌, ◌++◌, String, arith,
  Bool-cases, inl, inr,
}
use palka.Domain.{MessageId, child, accepted_by_service, UtcDateTime}
use palka.Persistence.{PersistentState, TelegramOutboxEntry, chat, OutboxEntryId, outbox_id_eq}
use palka.Runtime.State.{Coordinator}
use palka.Runtime.Action.Triple.{
  Post, Triple, Triple-bind, Triple-read, Triple-pure, Triple-cases, Triple-raise, Keeps-Triple,
}
use palka.Runtime.Messages.{
  has_entry, remove_first, handle_ack_telegram, is_valid_text, handle_send_child_message,
}
use palka.Runtime.Quiet.{Keeps-utc_now, Keeps-next_outbox_id}
use palka.Runtime.Outcomes.{Holds, Holds-Quiet, commit-Holds}

-- `l` is `kept` with an entry for `id`, the first one, at some place.
abbrev pub FirstAt : OutboxEntryId → List TelegramOutboxEntry → List TelegramOutboxEntry → Type 0
FirstAt id l kept =
    (before : List TelegramOutboxEntry) × (e : TelegramOutboxEntry) × (after : List
      TelegramOutboxEntry)
    × (l ≡ before ++ e ∷ after)
    × (kept ≡ before ++ after)
    × (outbox_id_eq e.entry_id id ≡ true)
    × (has_entry id before ≡ false)

at_head :
    (id : OutboxEntryId) (e : TelegramOutboxEntry) (l : List TelegramOutboxEntry)
    → outbox_id_eq e.entry_id id ≡ true
    → FirstAt id (e ∷ l) (remove_first id (e ∷ l))
unfolding remove_first has_entry
at_head id e l q = ([], e, l, refl, ground arith, q, refl)

-- What `remove_first` removes.
remove_first-FirstAt :
    (id : OutboxEntryId) (l : List TelegramOutboxEntry)
    → has_entry id l ≡ true
    → FirstAt id l (remove_first id l)
unfolding remove_first has_entry
remove_first-FirstAt id [] h = ground arith
remove_first-FirstAt id (e ∷ l) h = elim (Bool-cases (outbox_id_eq e.entry_id id)) [
  | inl same ↦ at_head id e l same
  | inr other ↦
      let (before, f, after, q, r, same, absent) = remove_first-FirstAt id l (ground arith) in
      (
        e ∷ before,
        f,
        after,
        ap (λ (t : List TelegramOutboxEntry). e ∷ t) q,
        ground arith,
        same,
        ground arith,
      )
]

-- What each answer to an acknowledgement means.
abbrev pub Acked :
    OutboxEntryId → PersistentState → Option PersistentState → Bool → Coordinator → Type 0
Acked id x p true c =
    (kept : List TelegramOutboxEntry) × FirstAt id x.telegram_outbox kept
    × Holds (record x { telegram_outbox = kept }) none c
Acked id x p false c = (has_entry id x.telegram_outbox ≡ false) × Holds x p c

-- What a message that was sent leaves.
abbrev pub Sent : String → PersistentState → MessageId → Coordinator → Type 0
Sent text x id c =
    (is_valid_text text ≡ true)
    × (entry_id : OutboxEntryId) × (now : UtcDateTime) × (entry_id.bytes ≡ id.bytes)
    × (c.state ≡ record x {
      telegram_outbox =
          x.telegram_outbox
          ++ record {
            entry_id = entry_id;
            payload = chat (record {
              id = id;
              sender = child;
              text = text;
              timestamp = now;
              delivery_status = accepted_by_service;
            });
            attempt_count = 0;
            last_error = none;
          }
            ∷ [];
    })
    × (c.pending_durable_candidate ≡ none)

module _ (x : PersistentState) (p : Option PersistentState) where
  acked :
      (id : OutboxEntryId) → Triple (Holds x p) (handle_ack_telegram id) (Acked id x p) (Holds x p)
  unfolding handle_ack_telegram
  acked id = Triple-read _ _ _ _ _ λ c h.
      Triple-cases _ _ _ (has_entry id c.state.telegram_outbox) _ _
        (λ has. Triple-bind _ _ _ _ _ _ (commit-Holds x p _) λ _. Triple-pure _ _ _ true λ d g. (
          remove_first id x.telegram_outbox,
          remove_first-FirstAt id x.telegram_outbox (cc (has, h.0)),
          (g.0 ∙ cc h.0, g.1),
        ))
        λ absent. Triple-pure _ _ _ _ (λ d g. (cc (absent, h.0), g))

  sent :
      (text : String)
      → Triple (Holds x p) (handle_send_child_message text) (Sent text x) (Holds x p)
  unfolding handle_send_child_message
  sent text =
      Triple-cases _ _ _ (not (is_valid_text text)) _ _ (λ _. Triple-raise _ _ _)
        λ valid.
          Triple-bind _ _ (λ _. Holds x p) _ _ _
            (Keeps-Triple (Holds x p) _ (Keeps-next_outbox_id (Holds-Quiet x p)))
            λ entry_id.
              Triple-bind _ _ (λ _. Holds x p) _ _ _
                (Keeps-Triple (Holds x p) _ (Keeps-utc_now (Holds-Quiet x p)))
                λ now. Triple-read _ _ _ _ _ λ c h.
                  Triple-bind _ _ _ _ _ _ (commit-Holds x p _) λ _.
                    Triple-pure _ _ _ _
                      λ d g. (valid_text valid, entry_id, now, refl, g.0 ∙ cc h.0, g.1)
    where
      valid_text : not (is_valid_text text) ≡ false → is_valid_text text ≡ true
      valid_text q = ground arith

-- Acknowledging an outbox entry, from every state and for every answers of the ports. The answer
-- `true` means that the first entry with the identifier was removed, that every other entry stays
-- in its place and that nothing else of the state was changed; `false` that there is no such entry.
-- With `false`, and if it fails, the state and what is left to save are as they were.
pub handle_ack_telegram-outcome :
    (id : OutboxEntryId) (c : Coordinator)
    → Post
        (Acked id c.state c.pending_durable_candidate)
        (Holds c.state c.pending_durable_candidate)
        (handle_ack_telegram id c).0
        (handle_ack_telegram id c).1
handle_ack_telegram-outcome id c = (acked c.state c.pending_durable_candidate id).at c (refl, refl)

-- Sending a message of the child, from every state and for every answers of the ports. If it
-- returns an identifier, the text passed the validation and the outbox ends with one new entry that
-- carries the message with this identifier and text from the child, and nothing else of the state
-- was changed. If it fails, the state and what is left to save are as they were.
pub handle_send_child_message-outcome :
    (text : String) (c : Coordinator)
    → Post
        (Sent text c.state)
        (Holds c.state c.pending_durable_candidate)
        (handle_send_child_message text c).0
        (handle_send_child_message text c).1
handle_send_child_message-outcome text c =
    (sent c.state c.pending_durable_candidate text).at c (refl, refl)
