-- ===== src/App/ProviderWebhook/Lateness.antt =====
-- Provider events that come late or again.
use serverless_order_integra.Base.{
  ℕ, String, ◌≡◌, inl, inr, true, Option, none, some, ok, arith, get, key_equality, eq_iff, List,
  [], Bool-cases,
}
use serverless_order_integra.Domain.Status.{status_eq, status_eq_iff, is_terminal_order_status}
use serverless_order_integra.Domain.Order.{Order, mock_delivery}
use serverless_order_integra.Domain.Transition.Permits.{ExplainedAs, Permits}
use serverless_order_integra.Domain.Transition.Decides.{terminal_order_refuses, apply_same_iff}
use serverless_order_integra.Repository.Contract.{RecordResult}
use serverless_order_integra.Repository.State.{Repository}
use serverless_order_integra.Repository.Orders.{get_by_delivery_provider_order_id}
use serverless_order_integra.Repository.Saving.{record_provider_webhook, provider_event_key}
use serverless_order_integra.App.World.{OutsideCall}
use serverless_order_integra.App.ProviderWebhook.{
  ProcessProviderWebhookCommand, duplicate, result, webhook_input, webhook_attempts,
  process_provider_webhook, max_concurrent_write_attempts, ProviderWebhookEvent, target_status,
  to_status_change, changed_order_for,
}
use serverless_order_integra.App.ProviderWebhook.Decided.{IsWithProvider, changed_order_for-ok}

module _ (event : ProviderWebhookEvent) (o : Order) where
  -- For an order in a terminal status every provider event is no change, and never an error.
  pub terminal_order_makes_stale :
      is_terminal_order_status o.status ≡ true → changed_order_for event o ≡ ok none
  unfolding changed_order_for to_status_change
  terminal_order_makes_stale t =
      elim (Bool-cases (status_eq (target_status event.event_type) o.status)) [
        | inl y ↦ ground (
          arith,
          apply_same_iff o (to_status_change event) event.occurred_at,
          status_eq_iff (target_status event.event_type) o.status,
          y,
        )
        | inr n ↦ ground (
          arith,
          n,
          status_eq_iff (target_status event.event_type) o.status,
          terminal_order_refuses o (to_status_change event) event.occurred_at t,
        )
      ]

module _ (fingerprint : ProviderWebhookEvent → String) (clock : ℕ → String) where
  recorded-duplicate :
      (c : ProcessProviderWebhookCommand) (r : Repository) (n : ℕ) (o : Order) (x : Option Order)
      → get (provider_event_key c.event.event_id) r.processed_provider_events
        ≡ some (record { fingerprint = fingerprint c.event })
      → record_provider_webhook (webhook_input fingerprint clock c n o x) r
        ≡ (ok RecordResult.duplicate, r)
  unfolding record_provider_webhook
  recorded-duplicate c r n o x h =
      ground (arith, h, eq_iff (fingerprint c.event) (fingerprint c.event))

  recorded_event_again :
      (c : ProcessProviderWebhookCommand) (o : Order) (x : Option Order) (r : Repository)
      (calls : List OutsideCall)
      → get (provider_event_key c.event.event_id) r.processed_provider_events
        ≡ some (record { fingerprint = fingerprint c.event })
      → get_by_delivery_provider_order_id mock_delivery c.event.delivery_provider_order_id r
        ≡ (ok (some o), r)
      → changed_order_for c.event o ≡ ok x
      → process_provider_webhook fingerprint clock c
          (record { repository = r; others = []; outside = calls })
        ≡ (ok (duplicate o), record { repository = r; others = []; outside = calls })
  unfolding process_provider_webhook webhook_attempts result
  recorded_event_again c o x r calls h f g =
      ground (arith, f, g, recorded-duplicate c r max_concurrent_write_attempts o x h)

  -- A provider event that has been recorded with its fingerprint, delivered once more while no other
  -- invocation runs, is reported as a duplicate with the order stored for the provider's id, and
  -- nothing is written. The event has the failure details that its status asks for, as every
  -- validated event has, and the stored order is sound, has a provider's id and was not last changed
  -- before it was created: the service decides on the change before it looks for the recorded event,
  -- and under these conditions that is never an error.
  pub process_provider_webhook_again :
      (c : ProcessProviderWebhookCommand) (o : Order) (r : Repository) (calls : List OutsideCall)
      → get (provider_event_key c.event.event_id) r.processed_provider_events
        ≡ some (record { fingerprint = fingerprint c.event })
      → get_by_delivery_provider_order_id mock_delivery c.event.delivery_provider_order_id r
        ≡ (ok (some o), r)
      → IsWithProvider o
      → ExplainedAs (target_status c.event.event_type) c.event.failure
      → process_provider_webhook fingerprint clock c
          (record { repository = r; others = []; outside = calls })
        ≡ (ok (duplicate o), record { repository = r; others = []; outside = calls })
  process_provider_webhook_again c o r calls h f w x =
      let (changed, g) = changed_order_for-ok c.event o w x in
      recorded_event_again c o changed r calls h f g
