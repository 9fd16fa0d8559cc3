-- ===== src/Repository/WellFormed.antt =====
-- The invariant of the in-memory repository, and how each write keeps it.
use serverless_order_integra.Base.{
  String, ◌≡◌, refl, ◌∙◌, none, some, Key, key_equality, string_equality, get, get-set,
  get-set-cases, subst, ap, Bool-cases, inl, inr, strs_eq, strs_eq_iff,
}
use serverless_order_integra.Domain.Order.{Order}
use serverless_order_integra.Repository.State.{
  IdempotencyEntry, OrderRef, Repository, empty_repository, tuple_key, key_of, ref_of,
}
use serverless_order_integra.Repository.Orders.{
  put_order, put_idempotency_entry, put_merchant_order_id, put_provider_order,
  put_stripe_payment_intent,
}

abbrev pub Stored : Repository → Key → Type 0
Stored r k = (o : Order) × (get k r.orders ≡ some o)

-- Orders stand under their own keys, and every reference to an order is to one that is stored.
pub record IsWellFormed (r : Repository) : Type 0 where
  pub keyed : (k : Key) (o : Order) → get k r.orders ≡ some o → k ≡ key_of o
  pub entries :
      (m i : String) (e : IdempotencyEntry)
      → get (tuple_key m i) r.idempotency_entries ≡ some e
      → Stored r (tuple_key m e.order_id)
  pub merchant_ids :
      (m n id : String)
      → get (tuple_key m n) r.merchant_order_ids ≡ some id
      → (o : Order) × (get (tuple_key m id) r.orders ≡ some o) × (o.merchant_order_id ≡ n)
  pub providers :
      (k : Key) (ref : OrderRef)
      → get k r.provider_orders ≡ some ref
      → Stored r (tuple_key ref.merchant_id ref.order_id)
  pub intents :
      (id : String) (ref : OrderRef)
      → get id r.stripe_payment_intents ≡ some ref
      → Stored r (tuple_key ref.merchant_id ref.order_id)

pub empty-IsWellFormed : IsWellFormed empty_repository
unfolding get
empty-IsWellFormed = record {
  keyed = λ k o h. cc;
  entries = λ m i e h. cc;
  merchant_ids = λ m n id h. cc;
  providers = λ k ref h. cc;
  intents = λ id ref h. cc;
}

-- A write keeps what is stored, and replaces only by orders of the same merchant order id.
pub record Extends (r s : Repository) : Type 0 where
  pub at :
      (k : Key) (o : Order)
      → get k r.orders ≡ some o
      → (q : Order) × (get k s.orders ≡ some q) × (q.merchant_order_id ≡ o.merchant_order_id)

module _ (k : Key) (q : Order) (r : Repository) where
  pub replace-Extends :
      (o : Order)
      → get k r.orders ≡ some o
      → q.merchant_order_id ≡ o.merchant_order_id
      → Extends r (put_order k q r)
  replace-Extends o h e = record {
    at = λ j p g. elim (Bool-cases (strs_eq k j)) [
      | inl y ↦ (q, rw (get-set, y), cc ((strs_eq_iff k j).0 y))
      | inr n ↦ (p, rw (get-set, n) g, refl)
    ];
  }

  pub insert-Extends : get k r.orders ≡ none → Extends r (put_order k q r)
  insert-Extends h = record {
    at = λ j p g. elim (Bool-cases (strs_eq k j)) [
      | inl y ↦ cc ((strs_eq_iff k j).0 y)
      | inr n ↦ (p, rw (get-set, n) g, refl)
    ];
  }

Stored-mono : {r s : Repository} (k : Key) → Extends r s → Stored r k → Stored s k
Stored-mono k x (o, h) = let (q, g, _) = x.at k o h in (q, g)

Stored-eq : (r : Repository) (k j : Key) → k ≡ j → Stored r k → Stored r j
Stored-eq r k j e s = subst (Stored r) e s

module _ (k : Key) (q : Order) (r : Repository) where
  pub put_order-IsWellFormed :
      k ≡ key_of q → Extends r (put_order k q r) → IsWellFormed r → IsWellFormed (put_order k q r)
  put_order-IsWellFormed e x w = record {
    keyed =
        λ j o h. elim (get-set-cases k j q r.orders h) [ inl (a, b) ↦ cc | inr g ↦ w.keyed j o g ];
    entries = λ m i y h. Stored-mono _ x (w.entries m i y h);
    merchant_ids = λ m n id h.
        let (o, g, a) = w.merchant_ids m n id h in let (p, b, c) = x.at _ o g in (p, b, c ∙ a);
    providers = λ j ref h. Stored-mono _ x (w.providers j ref h);
    intents = λ id ref h. Stored-mono _ x (w.intents id ref h);
  }

module _ (r : Repository) (w : IsWellFormed r) where
  pub put_idempotency_entry-IsWellFormed :
      (m i : String) (e : IdempotencyEntry)
      → Stored r (tuple_key m e.order_id)
      → IsWellFormed (put_idempotency_entry (tuple_key m i) e r)
  put_idempotency_entry-IsWellFormed m i e s = record {
    keyed = w.keyed;
    entries = λ n j y h.
        elim (get-set-cases (tuple_key m i) (tuple_key n j) e r.idempotency_entries h) [
          | inl (a, b) ↦ Stored-eq r (tuple_key m e.order_id) (tuple_key n y.order_id) (cc) s
          | inr a ↦ w.entries n j y a
        ];
    merchant_ids = w.merchant_ids;
    providers = w.providers;
    intents = w.intents;
  }

  pub put_merchant_order_id-IsWellFormed :
      (o : Order)
      → get (key_of o) r.orders ≡ some o
      → IsWellFormed
          (put_merchant_order_id (tuple_key o.merchant_id o.merchant_order_id) o.order_id r)
  put_merchant_order_id-IsWellFormed o s = record {
    keyed = w.keyed;
    entries = w.entries;
    merchant_ids = λ m n id h.
        elim (get-set-cases (tuple_key o.merchant_id o.merchant_order_id) (tuple_key m n) o.order_id
          r.merchant_order_ids h) [
            | inl (a, b) ↦ (o, subst (λ k. get k r.orders ≡ some o) (cc) s, cc)
            | inr a ↦ w.merchant_ids m n id a
          ];
    providers = w.providers;
    intents = w.intents;
  }

  pub put_provider_order-IsWellFormed :
      (k : Key) (o : Order) → Stored r (key_of o) → IsWellFormed (put_provider_order k (ref_of o) r)
  put_provider_order-IsWellFormed k o s = record {
    keyed = w.keyed;
    entries = w.entries;
    merchant_ids = w.merchant_ids;
    providers = λ j ref h. elim (get-set-cases k j (ref_of o) r.provider_orders h) [
      | inl (a, b) ↦
          Stored-eq r (key_of o) (tuple_key ref.merchant_id ref.order_id)
            (ap (λ (x : OrderRef). tuple_key x.merchant_id x.order_id) b) s
      | inr a ↦ w.providers j ref a
    ];
    intents = w.intents;
  }

  pub put_stripe_payment_intent-IsWellFormed :
      (id : String) (o : Order)
      → Stored r (key_of o)
      → IsWellFormed (put_stripe_payment_intent id (ref_of o) r)
  put_stripe_payment_intent-IsWellFormed id o s = record {
    keyed = w.keyed;
    entries = w.entries;
    merchant_ids = w.merchant_ids;
    providers = w.providers;
    intents = λ j ref h. elim (get-set-cases id j (ref_of o) r.stripe_payment_intents h) [
      | inl (a, b) ↦
          Stored-eq r (key_of o) (tuple_key ref.merchant_id ref.order_id)
            (ap (λ (x : OrderRef). tuple_key x.merchant_id x.order_id) b) s
      | inr a ↦ w.intents j ref a
    ];
  }
