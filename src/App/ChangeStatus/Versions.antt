-- ===== src/App/ChangeStatus/Versions.antt =====
-- What a request to change the status of an order stores.
use serverless_order_integra.Base.{String, ◌≡◌, ◌≢◌, some, err, arith, get, key_equality}
use serverless_order_integra.Domain.Order.{Order}
use serverless_order_integra.Domain.Errors.{order_version_conflict}
use serverless_order_integra.Domain.Transition.Permits.{Permits}
use serverless_order_integra.Repository.State.{tuple_key}
use serverless_order_integra.Repository.Orders.{get_order}
use serverless_order_integra.App.World.{World, seen, drop_next}
use serverless_order_integra.App.ChangeStatus.{ChangeOrderStatusCommand, change_order_status}

module _ (now : String) (c : ChangeOrderStatusCommand) (w : World) where
  -- A request that expects another version than the stored one is refused with the stored version,
  -- and writes nothing.
  pub change_order_status_stale :
      (o : Order)
      → get (tuple_key c.merchant_id c.order_id) (seen w).orders ≡ some o
      → o.version ≢ c.expected_version
      → change_order_status now c w ≡ (
        err (order_version_conflict o.version),
        record w { repository = seen w; others = drop_next w.others },
      )
  unfolding change_order_status get_order
  change_order_status_stale o f n = ground (arith, f, n)

  -- The world when the service has read the order, and the call that saves the changed one.
  abbrev w_after : World
  w_after = record w { repository = seen w; others = drop_next w.others }
