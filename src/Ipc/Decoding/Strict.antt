-- ===== src/Ipc/Decoding/Strict.antt =====
-- crates/ipc-protocol/src/codec.rs: what a request that is decoded looked like.
use palka.Base.{
  ℕ, ◌≡◌, sym, ap, subst, ◌∙◌, true, false, Option, some, List, [], ◌∷◌, String, Result, ok, any,
  All, str_eq, str_eq_iff, arith,
}
use palka.Persistence.Seen.{AreDistinct, AreUnseen, AreUnseen-cons_iff}
use palka.Ipc.Requests.{RequestPayload}
use palka.Ipc.Decoding.Objects.{JsonLibrary, visit_map, parse_raw_object_entries, find_entry}
use palka.Ipc.Decoding.Payload.{
  Kind, kind_name, kind_among, all_kinds, is_allowed_field, check_fields, read_kind,
  parse_request_payload_raw,
}

visit_map-eq-ok :
    (seen : List String) (m : String × Result (List ℕ) String)
    (ms : List (String × Result (List ℕ) String)) (ending : Option String)
    (entries : List (String × List ℕ))
    → visit_map seen (m ∷ ms) ending ≡ ok entries
    → (raw : List ℕ) × (rest : List (String × List ℕ)) × (any (str_eq m.0) seen ≡ false)
      × (visit_map (m.0 ∷ seen) ms ending ≡ ok rest)
      × ((m.0, raw) ∷ rest ≡ entries)
unfolding visit_map
visit_map-eq-ok seen m ms ending entries h = ground arith

visit_map-AreUnseen :
    (seen : List String) (ms : List (String × Result (List ℕ) String)) (ending : Option String)
    (entries : List (String × List ℕ))
    → visit_map seen ms ending ≡ ok entries
    → AreUnseen str_eq (λ e. e.0) str_eq_iff seen entries × AreDistinct (λ e. e.0) entries
unfolding visit_map
visit_map-AreUnseen seen [] ending entries h =
    let e : [] ≡ entries = ground arith in
    subst (λ l. AreUnseen str_eq (λ e. e.0) str_eq_iff seen l × AreDistinct (λ e. e.0) l) e (tt, tt)
visit_map-AreUnseen seen (m ∷ ms) ending entries h =
    let (raw, rest, fresh, hr, e) = visit_map-eq-ok seen m ms ending entries h in
    let (unseen, distinct) = visit_map-AreUnseen (m.0 ∷ seen) ms ending rest hr in
    let (u, d) = (AreUnseen-cons_iff str_eq (λ e. e.0) str_eq_iff (m.0) seen rest).0 unseen in
    subst (λ l. AreUnseen str_eq (λ e. e.0) str_eq_iff seen l × AreDistinct (λ e. e.0) l) e
      ((fresh, u), (d, distinct))

pub visit_map-AreDistinct :
    (ms : List (String × Result (List ℕ) String)) (ending : Option String)
    (entries : List (String × List ℕ))
    → visit_map [] ms ending ≡ ok entries
    → AreDistinct (λ e. e.0) entries
visit_map-AreDistinct ms ending entries h = (visit_map-AreUnseen [] ms ending entries h).1

-- The kind of a payload.
abbrev pub kind_of : RequestPayload → Kind
kind_of RequestPayload.query_status = Kind.query_status
kind_of (RequestPayload.verify_pin pin) = Kind.verify_pin
kind_of RequestPayload.subscribe_events = Kind.subscribe_events
kind_of (RequestPayload.send_child_message text) = Kind.send_child_message
kind_of (RequestPayload.schedule_internet_block minutes) = Kind.schedule_internet_block
kind_of RequestPayload.immediate_internet_block = Kind.immediate_internet_block
kind_of (RequestPayload.cancel_internet_block_timer id) = Kind.cancel_internet_block_timer
kind_of RequestPayload.restore_internet = Kind.restore_internet
kind_of (RequestPayload.schedule_shutdown minutes) = Kind.schedule_shutdown
kind_of (RequestPayload.cancel_shutdown_timer id) = Kind.cancel_shutdown_timer

kind_among-eq-some :
    (ks : List Kind) (name : String) (k : Kind) → kind_among ks name ≡ some k → kind_name k ≡ name
unfolding kind_among
kind_among-eq-some [] name k h = ground arith
kind_among-eq-some (j ∷ ks) name k h =
    ground (arith, str_eq_iff (kind_name j) name, kind_among-eq-some ks name k)

check_fields-eq-ok :
    (k : Kind) (name : String) (entries : List (String × List ℕ))
    → check_fields k name entries ≡ ok tt
    → All (λ e. is_allowed_field k e.0 ≡ true) entries
unfolding check_fields
check_fields-eq-ok k name [] h = tt
check_fields-eq-ok k name (entry ∷ entries) h =
    let parts : (is_allowed_field k entry.0 ≡ true) × (check_fields k name entries ≡ ok tt) =
      ground arith in
    (parts.0, check_fields-eq-ok k name entries parts.1)

module _ (lib : JsonLibrary) where
  read_kind-kind_of :
      (k : Kind) (entries : List (String × List ℕ)) (r : RequestPayload)
      → read_kind lib k entries ≡ ok r
      → kind_of r ≡ k
  unfolding read_kind
  read_kind-kind_of Kind.query_status entries r h = ground arith
  read_kind-kind_of Kind.verify_pin entries r h = ground arith
  read_kind-kind_of Kind.subscribe_events entries r h = ground arith
  read_kind-kind_of Kind.send_child_message entries r h = ground arith
  read_kind-kind_of Kind.schedule_internet_block entries r h = ground arith
  read_kind-kind_of Kind.immediate_internet_block entries r h = ground arith
  read_kind-kind_of Kind.cancel_internet_block_timer entries r h = ground arith
  read_kind-kind_of Kind.restore_internet entries r h = ground arith
  read_kind-kind_of Kind.schedule_shutdown entries r h = ground arith
  read_kind-kind_of Kind.cancel_shutdown_timer entries r h = ground arith

  pub parse_raw_object_entries-AreDistinct :
      (raw : List ℕ) (entries : List (String × List ℕ))
      → parse_raw_object_entries lib raw ≡ ok entries
      → AreDistinct (λ e. e.0) entries
  unfolding parse_raw_object_entries
  parse_raw_object_entries-AreDistinct raw entries h =
      let read : visit_map [] ((lib.members raw).0) ((lib.members raw).1) ≡ ok entries =
        ground arith in
      (visit_map-AreUnseen [] ((lib.members raw).0) ((lib.members raw).1) entries read).1

  payload-parts :
      (raw : List ℕ) (r : RequestPayload)
      → parse_request_payload_raw lib raw ≡ ok r
      → (entries : List (String × List ℕ)) × (kind_raw : List ℕ) × (kind_str : String) × (k : Kind)
        × (parse_raw_object_entries lib raw ≡ ok entries)
        × (find_entry "kind" entries ≡ some kind_raw)
        × (lib.string kind_raw ≡ some kind_str)
        × (kind_among all_kinds kind_str ≡ some k)
        × (check_fields k kind_str entries ≡ ok tt)
        × (read_kind lib k entries ≡ ok r)
  unfolding parse_request_payload_raw
  payload-parts raw r h = ground arith

  -- A request payload that is accepted is an object without duplicate keys, whose `kind` names its
  -- kind, and whose every field is `kind` or the parameter of that kind.
  pub parse_request_payload_raw-eq-ok :
      (raw : List ℕ) (r : RequestPayload)
      → parse_request_payload_raw lib raw ≡ ok r
      → (entries : List (String × List ℕ)) × (kind_raw : List ℕ) × (parse_raw_object_entries lib raw
          ≡ ok entries)
        × AreDistinct (λ e. e.0) entries
        × (find_entry "kind" entries ≡ some kind_raw)
        × (lib.string kind_raw ≡ some (kind_name (kind_of r)))
        × All (λ e. is_allowed_field (kind_of r) e.0 ≡ true) entries
  parse_request_payload_raw-eq-ok raw r h =
      let (entries, kind_raw, kind_str, k, he, hf, hs, hk, hc, hr) = payload-parts raw r h in
      let named = kind_among-eq-some all_kinds kind_str k hk in
      let same = sym (read_kind-kind_of k entries r hr) in
      (
        entries,
        kind_raw,
        he,
        parse_raw_object_entries-AreDistinct raw entries he,
        hf,
        hs ∙ ap some (sym named) ∙ ap (λ j. some (kind_name j)) same,
        subst (λ j. All (λ e. is_allowed_field j e.0 ≡ true) entries) same
            (check_fields-eq-ok k kind_str entries hc),
      )
