-- ===== src/Webhooks/Events.antt =====
-- The table of webhook events, by which a repeated notification is recognised: an event is
-- known by its provider and the provider's id for it, and is marked when it has been processed.
pub mod Laws
use stackaura_checkout_api.Base.{
  ℕ, String, Bool, true, false, Option, none, some, List, [], ◌∷◌, ◌==◌, ◌&&◌, string_eq, find?,
  update_where, any, if◌then◌else◌,
}
use stackaura_checkout_api.Store.{WebhookEvent}

abbrev pub is_event : String → String → WebhookEvent → Bool
is_event provider id e = e.provider == provider && e.provider_event_id == id

-- `webhookEvent.findUnique({ where: { provider_providerEventId } })`
unfoldable pub find_event : String → String → List WebhookEvent → Option WebhookEvent
find_event provider id events = find? (is_event provider id) events

-- `webhookEvent.create`, which the unique index on provider and event id refuses for a known event.
unfoldable pub create_event : WebhookEvent → List WebhookEvent → Option (List WebhookEvent)
create_event e events =
    if any (is_event e.provider e.provider_event_id) events then none else some (e ∷ events)

-- What a repeated notification of an event that was not finished writes into the row.
abbrev pub refresh : WebhookEvent → WebhookEvent → WebhookEvent
refresh e old = record old {
  event_type = e.event_type;
  payout_reference = e.payout_reference;
  payload = e.payload;
  signature = e.signature;
}

unfoldable pub update_event : WebhookEvent → List WebhookEvent → List WebhookEvent
update_event e events = update_where (is_event e.provider e.provider_event_id) (refresh e) events

-- `webhookEvent.update({ data: { processedAt: new Date() } })`
unfoldable pub mark_processed : ℕ → String → String → List WebhookEvent → List WebhookEvent
mark_processed now provider id events =
    update_where (is_event provider id) (λ e. record e { processed_at = some now }) events

-- What a handler finds when it looks the event up, and what it does about it.
pub data Receipt : Type 0 where
  already_processed : Receipt
  duplicate : Receipt
  received : List WebhookEvent → Receipt

abbrev stored : Option (List WebhookEvent) → Receipt
stored none = duplicate
stored (some events) = received events

abbrev unless_processed : Option ℕ → Receipt → Receipt
unless_processed none r = r
unless_processed (some t) r = already_processed

abbrev receive_found : WebhookEvent → List WebhookEvent → Option WebhookEvent → Receipt
receive_found e events none = stored (create_event e events)
receive_found e events (some old) =
    unless_processed old.processed_at (received (update_event e events))

-- The first part of each transaction. `snapshot` are the events that the lookup sees; `events` are
-- those that the write meets, which another transaction may have added to in between.
unfoldable pub receive : WebhookEvent → List WebhookEvent → List WebhookEvent → Receipt
unfolding find_event
receive e snapshot events =
    receive_found e events (find_event e.provider e.provider_event_id snapshot)
