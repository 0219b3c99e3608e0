-- ===== src/Runtime/Events/Registry.antt =====
-- crates/service/src/runtime.rs: the loop of reconcile_subscriber_registry ends with the right count.
use palka.Base.{
  ℕ, zero, suc, ◌≤◌, ◌<◌, ◌^◌, ◌≡◌, refl, sym, ap, ◌∙◌, Bool, true, false, Option, List, [], ◌∷◌,
  ok, err, length, any, retain, is_empty, ◌==◌, ltb, if◌then◌else◌, arith, All, subst,
}
use palka.Domain.{Event}
use palka.Runtime.State.{
  Coordinator, SubscriptionId, ServiceRuntimeError, subscription_capacity_exhausted,
}
use palka.Runtime.Action.{when◌then◌else◌, Action, pure, lift, gets, modify, call, ◌>>=◌, ◌>>◌}
use palka.Runtime.Action.Keeps.{Keeps, keeps_rules}
use palka.Runtime.Action.Triple.{
  Post, Triple, Triple-bind, Triple-read, Triple-gets, Triple-pure, Triple-pre, Triple-cases,
  Keeps-between, Keeps-Triple, returned, raised,
}
use palka.Runtime.Action.Total.{Total-Triple, Total-call}
use palka.Runtime.Quiet.Total.{Total-build_service_health_snapshot}
use palka.Runtime.Ports.{monotonic_now, try_send}
use palka.Runtime.Health.{build_service_health_snapshot}
use palka.Runtime.Events.{
  u32_try_from, checked_active_session_count, removed_from, remove_subscribers, set_sessions,
  send_to_each, try_send_to_subscribers, reconcile_rounds, reconcile_subscriber_registry,
}

retain-length : {A : Type 0} (p : A → Bool) (l : List A) → length (retain p l) ≤ length l
unfolding retain
retain-length p [] = omega arith
retain-length p (x ∷ l) = ground (arith, retain-length p l)

-- A removal of a subscriber that is there makes the registry smaller.
shrinks :
    (f : SubscriptionId) (fs l : List SubscriptionId)
    → any (λ y. y == f) l ≡ true
    → length (retain (removed_from (f ∷ fs)) l) < length l
unfolding retain any
shrinks f fs [] h = ground arith
shrinks f fs (y ∷ l) h = ground (arith, shrinks f fs l, retain-length (removed_from (f ∷ fs)) l)

abbrev Counts : ℕ → List SubscriptionId → Coordinator → Type 0
Counts n l c = (c.health.active_tray_sessions ≡ n) × (c.subscribers ≡ l)

module _ (n : ℕ) (l : List SubscriptionId) {E : Type 0} where
  monotonic_now-Counts : Keeps (Counts n l) (monotonic_now {E = E})
  unfolding monotonic_now call
  monotonic_now-Counts = record { at = λ c h. h }

  try_send-Counts : (id : SubscriptionId) (e : Event) → Keeps (Counts n l) (try_send {E = E} id e)
  unfolding try_send call
  try_send-Counts id e = record { at = λ c h. h }

  snapshot-Counts : Keeps (Counts n l) (build_service_health_snapshot {E = E})
  unfolding build_service_health_snapshot
  snapshot-Counts = search (keeps_rules, monotonic_now-Counts)

abbrev Failed :
    ℕ → List SubscriptionId → List SubscriptionId → List SubscriptionId → Coordinator → Type 0
Failed n l ids failed c = All (λ f. any (λ y. y == f) ids ≡ true) failed × Counts n l c

-- What failed is among the subscribers.
All-any :
    (id : SubscriptionId) (ids failed : List SubscriptionId)
    → All (λ f. any (λ y. y == f) ids ≡ true) failed
    → All (λ f. any (λ y. y == f) (id ∷ ids) ≡ true) failed
unfolding any
All-any id ids [] h = tt
All-any id ids (f ∷ failed) h = (ground (arith, h.0), All-any id ids failed h.1)

All-if :
    (sent : Bool) (id : SubscriptionId) (ids failed : List SubscriptionId)
    → All (λ f. any (λ y. y == f) (id ∷ ids) ≡ true) failed
    → All (λ f. any (λ y. y == f) (id ∷ ids) ≡ true) (if sent then failed else id ∷ failed)
unfolding any
All-if true id ids failed h = h
All-if false id ids failed h = (ground arith, h)

module _ (n : ℕ) (l : List SubscriptionId) (R : Coordinator → Type 0) where
  sends :
      (id : SubscriptionId) (e : Event)
      → Triple (Counts n l) (try_send {E = ServiceRuntimeError} id e) (λ _. Counts n l) R
  unfolding try_send
  sends id e = Total-Triple _ _ _ (Total-call _) (try_send-Counts n l id e)

  send_to_each-Failed :
      (ids : List SubscriptionId) (e : Event) (x : Option SubscriptionId)
      → Triple (Counts n l) (send_to_each {E = ServiceRuntimeError} ids e x) (Failed n l ids) R
  unfolding send_to_each
  send_to_each-Failed [] e x = Triple-pure _ _ _ _ (λ c h. (tt, h))
  send_to_each-Failed (id ∷ ids) e x =
      palka.Runtime.Action.Triple.Triple-if _ _ _ _ _ _
        (palka.Runtime.Action.Triple.Triple-ends _ _ _ _ _
          (λ failed c h. (All-any id ids failed h.0, h.1)) (send_to_each-Failed ids e x))
        (Triple-bind _ _ (λ _. Counts n l) _ _ _ (sends id e)
          λ sent. Triple-bind _ _ _ _ _ _ (send_to_each-Failed ids e x) λ failed.
            Triple-pure _ _ _ _
              (λ c h. (All-if sent id ids failed (All-any id ids failed h.0), h.1)))

  try_send_to_subscribers-Failed :
      (e : Event) (x : Option SubscriptionId)
      → Triple (Counts n l) (try_send_to_subscribers {E = ServiceRuntimeError} e x) (Failed n l l) R
  unfolding try_send_to_subscribers
  try_send_to_subscribers-Failed e x = Triple-read _ _ _ _ _ λ c h.
      subst
        (λ ids.
          Triple (Counts n l) (send_to_each {E = ServiceRuntimeError} ids e x) (Failed n l l) R)
        (sym h.1) (send_to_each-Failed l e x)

-- The count is the number of the subscribers, or there are too many of them to count.
abbrev pub Counted : Coordinator → Type 0
Counted c = c.health.active_tray_sessions ≡ length c.subscribers

abbrev pub Uncountable : Coordinator → Type 0
Uncountable c = 2 ^ 32 ≤ length c.subscribers

abbrev Fits : ℕ → Coordinator → Type 0
Fits n c = length c.subscribers < n

Rounds : ℕ → Type 0
Rounds n =
    (x : Option SubscriptionId)
    → Triple (Fits n) (reconcile_rounds n x) (λ _. Counted) (λ c. Uncountable c)

module _ (fuel : ℕ) (ih : Rounds fuel) (l : List SubscriptionId) (fits : length l < suc fuel)
    (x : Option SubscriptionId) where
  dropped :
      (failed : List SubscriptionId)
      → Triple
          (Failed (length l) l l failed)
          (when is_empty failed
            then pure tt
            else modify (remove_subscribers failed) >>= λ _. reconcile_rounds fuel x)
          (λ _. Counted)
          (λ c. Uncountable c)
  unfolding when◌then◌else◌ remove_subscribers Rounds ◌>>=◌
  dropped [] = record { at = λ c h. returned (h.1.0 ∙ ap length (sym h.1.1)) }
  dropped (f ∷ fs) = record {
    at = λ c h. (ih x).at (remove_subscribers (f ∷ fs) c) (
        omega (
          arith,
          fits,
          shrinks f fs l h.0.0,
          ap (λ s. length (retain (removed_from (f ∷ fs)) s)) h.1.1,
        ));
  }

module _ (l : List SubscriptionId) where
  abbrev Known : Coordinator → Type 0
  Known c = c.subscribers ≡ l

  tried :
      (s : List SubscriptionId) (b : Bool) (c : Coordinator)
      → ltb (length s) (2 ^ 32) ≡ b
      → s ≡ l
      → Known c
      → Post
          (λ target d. (target ≡ length l) × Known d)
          (λ d. Uncountable d)
          (if b then ok (length s) else err subscription_capacity_exhausted)
          c
  tried s true c h q k = returned (ap length q, k)
  tried s false c h q k = raised (subst (λ t. 2 ^ 32 ≤ length t) (q ∙ sym k) (ground arith))

  lifted :
      (s : List SubscriptionId)
      → s ≡ l
      → Triple Known
          (lift (u32_try_from (length s)))
          (λ target d. (target ≡ length l) × Known d)
          (λ d. Uncountable d)
  unfolding lift
  lifted s q = record { at = λ c k. tried s _ c refl q k }

  setting :
      (target active : ℕ)
      → Triple
          (λ d. (d.health.active_tray_sessions ≡ active) × (target ≡ length l) × Known d)
          (modify {E = ServiceRuntimeError} (set_sessions target))
          (λ _. Counts (length l) l)
          (λ d. Uncountable d)
  unfolding modify set_sessions
  setting target active = record { at = λ c h. returned (h.1, h.2) }

equal : (m n : ℕ) → (m == n) ≡ true → m ≡ n
equal m n h = ground arith

round :
    (fuel : ℕ)
    → Rounds fuel
    → (l : List SubscriptionId) → length l < suc fuel
    → (x : Option SubscriptionId)
    → Triple (Known l) (reconcile_rounds (suc fuel) x) (λ _. Counted) (λ c. Uncountable c)
unfolding reconcile_rounds checked_active_session_count
round fuel ih l fits x = Triple-read _ _ _ _ _ λ c h.
    Triple-bind _ _ _ _ _ _ (lifted l c.subscribers h) λ target.
      Triple-bind _ _
        (λ active d. (d.health.active_tray_sessions ≡ active) × (target ≡ length l) × Known l d) _ _
        _ (Triple-gets _ _ _ _ (λ d g. (refl, g.0, g.1)))
        λ active.
          Triple-cases _ _ _ (active == target) _ _
            (λ same.
              Triple-pure _ _ _ _
                (λ d g. g.0 ∙ equal active target same ∙ g.1 ∙ ap length (sym g.2)))
            λ _.
              Triple-bind _ _ (λ _. Counts (length l) l) _ _ _ (setting l target active)
                λ _.
                  Triple-bind _ _ (λ _. Counts (length l) l) _ _ _
                    (Total-Triple _ _ _ Total-build_service_health_snapshot
                      (snapshot-Counts (length l) l))
                    λ health.
                      Triple-bind _ _ _ _ _ _
                        (try_send_to_subscribers-Failed (length l) l (λ d. Uncountable d) _ x)
                        λ failed. dropped fuel ih l fits x failed

rounds : (n : ℕ) → Rounds n
unfolding Rounds
rounds zero x = record { at = λ c h. ground arith }
rounds (suc n) x = record { at = λ c h. (round n (rounds n) c.subscribers h x).at c refl }

-- The loop ends within the fuel that the model gives it, from every state and for every answers of
-- the ports: if it returns, the count of the tray sessions is the number of the subscribers that
-- are left; it fails only if there are 2 ^ 32 subscribers or more.
pub reconcile_subscriber_registry-Counted :
    (x : Option SubscriptionId) (c : Coordinator)
    → Post
        (λ _. Counted)
        (λ d. Uncountable d)
        (reconcile_subscriber_registry x c).0
        (reconcile_subscriber_registry x c).1
unfolding reconcile_subscriber_registry ◌>>=◌
reconcile_subscriber_registry-Counted x c =
    (round (length c.subscribers) (rounds (length c.subscribers)) c.subscribers (omega arith) x).at
      c refl
