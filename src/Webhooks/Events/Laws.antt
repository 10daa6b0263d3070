-- ===== src/Webhooks/Events/Laws.antt =====
-- Receiving an event that was stored or marked before.
use text.Mathlib.TextPositions.{eq_refl}
use stackaura_checkout_api.Base.{
  ℕ, String, Bool, true, some, List, [], ◌∷◌, ◌≡◌, refl, string_eq, find?, update_where, any,
  Bool-cases, Option-cases, inl, inr, ◌∙◌,
}
use stackaura_checkout_api.Store.{WebhookEvent}
use stackaura_checkout_api.Webhooks.Events.{
  is_event, find_event, create_event, refresh, update_event, mark_processed, already_processed,
  duplicate, received, receive, receive_found,
}

-- The event is in the table.
abbrev pub IsKnown : WebhookEvent → List WebhookEvent → Type 0
IsKnown e events = any (is_event e.provider e.provider_event_id) events ≡ true

-- A lookup of a marked event finds it marked.
find-mark :
    (now : ℕ) (provider id : String) (events : List WebhookEvent)
    → any (is_event provider id) events ≡ true
    → (old : WebhookEvent) × (find_event provider id (mark_processed now provider id events)
        ≡ some old)
      × (old.processed_at ≡ some now)
unfolding find_event mark_processed
find-mark now provider id [] h = absurd (cc)
find-mark now provider id (x ∷ xs) h = elim (Bool-cases (is_event provider id x)) [
  | inl t ↦ rw t (rw t (record x { processed_at = some now }, refl, refl))
  | inr f ↦ rw f (rw f (find-mark now provider id xs (rw f at h)))
]

any-update :
    (p : WebhookEvent → Bool) (f : WebhookEvent → WebhookEvent) (xs : List WebhookEvent)
    → ((x : WebhookEvent) → p (f x) ≡ p x)
    → any p (update_where p f xs) ≡ any p xs
any-update p f [] h = refl
any-update p f (x ∷ xs) h = elim (Bool-cases (p x)) [
  | inl t ↦ rw t (rw (h x, t))
  | inr n ↦ rw n (rw n (any-update p f xs h))
]

any_of_find :
    (p : WebhookEvent → Bool) (xs : List WebhookEvent) {x : WebhookEvent}
    → find? p xs ≡ some x
    → any p xs ≡ true
any_of_find p [] e = absurd (cc)
any_of_find p (y ∷ xs) e = elim (Bool-cases (p y)) [
  | inl t ↦ rw t
  | inr f ↦ rw f (any_of_find p xs (rw f at e))
]

IsKnown-again :
    (e : WebhookEvent) (events stored : List WebhookEvent) (old : WebhookEvent)
    → find_event e.provider e.provider_event_id events ≡ some old
    → receive_found e events (some old) ≡ received stored
    → IsKnown e stored
unfolding find_event update_event
IsKnown-again e events stored old found h = elim (Option-cases old.processed_at) [
  | inl n ↦
      let good : received (update_event e events) ≡ received stored = rw (n, receive_found) at h in
      let same : update_event e events ≡ stored = cc in
      rw (← same) (
        any-update (is_event e.provider e.provider_event_id) (refresh e) events (λ x. refl)
        ∙ any_of_find (is_event e.provider e.provider_event_id) events found)
  | inr (t, d) ↦
      let bad : already_processed ≡ received stored = rw (d, receive_found) at h in absurd (cc)
]

-- An event that was received is in the table from then on.
pub received-IsKnown :
    (e : WebhookEvent) (events stored : List WebhookEvent)
    → receive e events events ≡ received stored
    → IsKnown e stored
unfolding receive create_event update_event
received-IsKnown e events stored h =
    let p = is_event e.provider e.provider_event_id in
    elim (Option-cases (find_event e.provider e.provider_event_id events)) [
      | inl n ↦
          let h' = rw n at h in
          elim (Bool-cases (any p events)) [
            | inl t ↦ let bad : duplicate ≡ received stored = rw t at h' in absurd (cc)
            | inr f ↦
                let good : received (e ∷ events) ≡ received stored = rw f at h' in
                let same : e ∷ events ≡ stored = cc in rw (← same) (simp eq_refl)
          ]
      | inr (old, found) ↦ let h' = rw found at h in IsKnown-again e events stored old found h'
    ]

-- Once an event has been received and marked, receiving one with its provider and id answers that
-- it is processed.
pub receive_again :
    (now : ℕ) (e again : WebhookEvent) (events stored : List WebhookEvent)
    → receive e events events ≡ received stored
    → again.provider ≡ e.provider
    → again.provider_event_id ≡ e.provider_event_id
    → let marked = mark_processed now e.provider e.provider_event_id stored in
      receive again marked marked ≡ already_processed
unfolding receive
receive_again now e again events stored h p i =
    let (old, found, done) =
      find-mark now e.provider e.provider_event_id stored (received-IsKnown e events stored h) in
    rw (p, i, found) (rw (done, receive_found))
