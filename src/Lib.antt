-- ===== src/Lib.antt =====
-- A model of the order service: the life of a delivery order from creation through payment and
-- submission to delivery, the repository that stores it, and the services that change it.
--
-- The program. A merchant creates an order that awaits payment. A payment intent is created at
-- Stripe and bound to the order; Stripe's webhook events settle the payment and release the order
-- for submission. A worker submits it to the delivery provider, whose webhook events then report
-- its delivery. Merchants may change the status of an order themselves. Every service reads an
-- order from the repository, computes a changed order by the rules of the domain, and writes it
-- back if the stored version is still the one it has read. The stream of stored orders is mapped
-- to domain events, which are published; the delivery worker receives those that ask for a
-- submission. Orders are listed in pages, whose positions travel as signed cursors.
--
-- The files, and the code they are about (paths from the repository's root):
--   Domain/Status, Domain/Order, Domain/Errors: src/domain/order-status.ts, order.ts, payment.ts,
--     and the error classes. An error is a value with the fields that the code reads; the message
--     is kept for JavaScript's own error classes only.
--   Domain/Transition: applyOrderStatusChange and its checks (src/domain/order-status-transition.ts).
--     Permits states its rules apart from the code, Decides relates the two.
--   Domain/PaymentChange, with Laws: src/domain/payment-status-transition.ts.
--   Domain/Lifecycle, with Paths: the changes that the services make to an order, as a relation of
--     steps, and what holds along every path.
--   Repository/Contract: the inputs, results and pure checks of src/application/order-repository.ts,
--     payment-repository.ts, provider-webhook-repository.ts, stripe-webhook-repository.ts and of
--     src/events/order-mutation.ts.
--   Repository/State, Orders, Saving, Stripe: the methods of
--     src/infrastructure/memory/in-memory-order-repository.ts on its seven maps.
--   Repository/Effects, Calls: what each method writes, and the methods as one type of calls.
--   Repository/WellFormed, Preserves, Advances: the invariant of the maps and the growth of versions.
--   Repository/Listing, with Chosen and Pages: the method list and what its pages hold.
--   Repository/Idempotency, Payments, Binding: repeated calls and lookups after writes.
--   App/World: an invocation of a service: the repository, the other invocations, the calls made to
--     outside services.
--   App/CreateOrder: src/application/create-order.ts, with calculateOrderTotal; Fingerprint is its
--     canonical request, Body the whole service from the parsed body on.
--   App/Validation: the readers that the validators of request bodies share. CreateOrder,
--     ChangeStatus and ProviderWebhook below it are src/application/create-order-validation.ts,
--     change-order-status-validation.ts and provider-webhook-validation.ts; Acceptable states what a
--     created order's request must be, Reads and Bounds what the validator lets pass, Accepts that
--     it lets all of it pass.
--   App/ChangeStatus: src/application/change-order-status.ts.
--   App/Delivery: src/application/process-delivery-event.ts.
--   App/ProviderWebhook: src/application/process-provider-webhook.ts.
--   App/PreparePayment: src/application/prepare-stripe-payment-intent.ts.
--   App/StripeProposal, App/StripeWebhook: src/application/process-stripe-webhook.ts.
--   Json, Json/Text: values as JSON.parse and unmarshall give them, and JSON.stringify.
--   Events: src/events/domain-event.ts. Events/Stream and StatusChanged are
--     src/events/order-stream-event.ts, Stored the item of an order that
--     src/infrastructure/dynamodb/dynamodb-order-repository.ts stores, Encoded the message of an
--     event, DeliveryRequested src/events/delivery-requested-event.ts, Patterns the regular
--     expressions. Announces and Publishes relate the life of an order to its events, Accepts the
--     messages to the worker.
--   Lambda/StreamPublisher, Lambda/DeliveryWorker: the batch handlers of
--     src/lambda/stream-publisher.ts and delivery-worker.ts.
--   Http/OrderCursor: src/http/order-cursor.ts.
--   Client/IdempotentOperation: src/client/idempotent-operation.ts, with every sequence of calls in
--     its child Retries.
--   Base: results that may be errors, methods that change state, association lists, text order.
--   Tests: concrete orders, runs on them, and each result at concrete data.
--
-- How the code is read. Versions and amounts are natural numbers: the code keeps versions as
-- integers from 1 that grow by one, and amounts as safe integers, below 2 ^ 53; the validation of a
-- body computes with integers of either sign, since numbers out of range are still added up. Times are ISO
-- strings, compared as the code compares strings, by UTF-16 code units. A map is an association
-- list whose keys are the lists of strings that tupleKey prints; two lists print to one text only
-- if they are equal. structuredClone is the identity, since no value is changed in place; where
-- the code asks whether a function gave its argument back (`changed === order`), the model's
-- function returns `same` or `fresh`. A repository method runs to its end once its single await has
-- passed, so it is one function on the repository.
--
-- Concurrency. Between two awaits of a service any other invocation may run. World.others holds
-- what runs before each repository call, any functions on the repository, and the results hold for
-- all of them unless they say otherwise. The loops of the two webhook services make at most three
-- attempts, as the code does; the number of attempts left is their fuel, so none is missing.
--
-- Parameters. The answers of Stripe and of the delivery provider, the clock's readings, the
-- generated ids and the SHA-256 digests are arguments of the services, with no hypothesis on them;
-- so are unmarshall, JSON.parse, the normalization of a date-time and the publisher. Where a result
-- needs what JSON.parse, base64url, UTF-8 or unmarshall give back for one text or item that the code
-- has written itself, it says so. An error is the value that is thrown; logging is left out.
--
-- A body or an item is a JSON value. An object is the list of its properties in the order of
-- Object.keys, and a text is a sequence of characters, measured in UTF-16 code units. A value that
-- the code casts to a type is kept as the properties that the code then reads.
--
-- Not modelled: the DynamoDB repository but for the item of an order, Stripe reconciliation, the
-- HTTP handlers and the Lambda entry points but for the two batch handlers, the network clients,
-- the user interface and the scripts. The DynamoDB repository rests on conditions of a service
-- outside this repository; the entry points and clients are translation and input or output.
pub mod Base
pub mod Domain
pub mod Repository
pub mod App
pub mod Json
pub mod Events
pub mod Lambda
pub mod Http
pub mod Client
pub mod Tests
