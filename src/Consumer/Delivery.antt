-- ===== src/Consumer/Delivery.antt =====
-- What a delivery does to the order, and to the queue when the handler throws.
use nestjs_order_api.Base.{
  true, String, none, some, List, [], ◌∷◌, ◌≡◌, ◌⊎◌, inl, inr, refl, arith, eq_iff, eq_refl,
  Option-cases,
}
use nestjs_order_api.Base.Keyed.{find, update, find-update}
use nestjs_order_api.Http.{ok}
use nestjs_order_api.Schema.{Order, waiting_for_payment, complete}
use nestjs_order_api.Prisma.{Prisma, World, Processing, Completed}
use nestjs_order_api.Prisma.Rows.{order_key, OrderData, patch_order}
use nestjs_order_api.Prisma.Effects.{Oracle}
use nestjs_order_api.Prisma.Laws.{IsPrisma, IsPrisma-eq, documented}
use nestjs_order_api.Order.Lifecycle.{enqueue_order_completed}
use nestjs_order_api.Rabbit.{Broker, to_completed}
use nestjs_order_api.Rabbit.Laws.{IsBroker}
use nestjs_order_api.Rabbit.Waiting.{IsOpenable}
use nestjs_order_api.Rabbit.Publishing.{IsPosted, publish_available}
use nestjs_order_api.Consumer.{deliver_completed, deliver_processing}

abbrev pub completion : String → OrderData
completion transaction = record {
  status = some complete;
  total = none;
  payment_id = none;
  transaction_id = some transaction;
}

abbrev pub processed : String → OrderData
processed payment = record {
  status = some waiting_for_payment;
  total = none;
  payment_id = some payment;
  transaction_id = none;
}

module _ {E : Type 0} (o : Oracle E) where
  -- The order of the message is there, and is COMPLETE in the tables after.
  abbrev pub IsCompleted : World E → World E → Completed → Type 0
  IsCompleted w w' m =
      (order : Order) × (find order_key m.order_id w.tables.orders ≡ some order)
      × (find order_key m.order_id w'.tables.orders
          ≡ some (record order { status = complete; transaction_id = some m.transaction_id }))

  -- A delivery either succeeds, or leaves the tables and the queue as they were.
  abbrev pub Delivered : World E → World E → Completed → List Completed → Type 0
  Delivered w w' m rest =
      IsCompleted w w' m
        × (w'.completed ≡ rest)
        × (w'.tables ≡ record (w.tables) {
          orders =
              update order_key m.order_id (patch_order (completion m.transaction_id))
                w.tables.orders;
        })
      ⊎ (w'.completed ≡ m ∷ rest) × (w'.tables ≡ w.tables)

  deliver_completed-documented :
      (w : World E) (m : Completed) (rest : List Completed)
      → w.completed ≡ m ∷ rest
      → Delivered w (deliver_completed (documented o) w) m rest
  unfolding deliver_completed documented
  deliver_completed-documented w m rest e = elim (Option-cases (o.fault w.env)) [
    | inr (f, down) ↦ inr (ground arith)
    | inl up ↦ elim (Option-cases (find order_key m.order_id w.tables.orders)) [
      | inl missing ↦ inr (ground arith)
      | inr (order, found) ↦
          let updated =
            find-update order_key m.order_id m.order_id (patch_order (completion m.transaction_id))
              (λ r. refl) w.tables.orders in
          inl (
            (order, found, ground (arith, updated, eq_refl m.order_id)),
            ground arith,
            ground arith,
          )
    ]
  ]

  -- The order of the message is there, and waits for its payment in the tables after.
  abbrev pub IsProcessed : World E → World E → Processing → String → Type 0
  IsProcessed w w' m payment =
      (order : Order) × (find order_key m.order_id w.tables.orders ≡ some order)
      × (find order_key m.order_id w'.tables.orders
          ≡ some (record order { status = waiting_for_payment; payment_id = some payment }))

  abbrev pub Processed : World E → World E → Processing → String → List Processing → Type 0
  Processed w w' m payment rest =
      IsProcessed w w' m payment
        × (w'.processing ≡ rest)
        × (w'.tables ≡ record (w.tables) {
          orders = update order_key m.order_id (patch_order (processed payment)) w.tables.orders;
        })
      ⊎ (w'.processing ≡ m ∷ rest) × (w'.tables ≡ w.tables)

  deliver_processing-documented :
      (payment : String) (w : World E) (m : Processing) (rest : List Processing)
      → w.processing ≡ m ∷ rest
      → Processed w (deliver_processing (documented o) payment w) m payment rest
  unfolding deliver_processing documented
  deliver_processing-documented payment w m rest e = elim (Option-cases (o.fault w.env)) [
    | inr (f, down) ↦ inr (ground arith)
    | inl up ↦ elim (Option-cases (find order_key m.order_id w.tables.orders)) [
      | inl missing ↦ inr (ground arith)
      | inr (order, found) ↦
          let updated =
            find-update order_key m.order_id m.order_id (patch_order (processed payment))
              (λ r. refl) w.tables.orders in
          inl (
            (order, found, ground (arith, updated, eq_refl m.order_id)),
            ground arith,
            ground arith,
          )
    ]
  ]

  pub deliver_completes :
      ((e : E) → o.fault e ≡ none)
      → (m : Completed) (w : World E) (order : Order)
      → find order_key m.order_id w.tables.orders ≡ some order
      → w.completed ≡ m ∷ []
      → let w' = deliver_completed (documented o) w in
        (find order_key m.order_id w'.tables.orders
          ≡ some (record order { status = complete; transaction_id = some m.transaction_id }))
        × (w'.completed ≡ [])
        × (w'.tables.products ≡ w.tables.products)
  unfolding deliver_completed documented
  deliver_completes reliable m w order e queue = ground (
    arith,
    reliable w.env,
    eq_refl m.order_id,
    find-update order_key m.order_id m.order_id (patch_order (completion m.transaction_id))
        (λ r. refl) w.tables.orders,
  )

  module _ (b : Broker E) (broker_laws : IsBroker o b) where
    pub enqueue_order_completed_available :
        ((e : E) → o.fault e ≡ none)
        → (m : Completed) (w : World E) (order : Order)
        → find order_key m.order_id w.tables.orders ≡ some order
        → order.user_id ≡ m.user_id
        → IsOpenable w
        → (w' : World E) × (enqueue_order_completed
              (documented o)
              b
              m.order_id
              m.user_id
              m.tenant_code
              m.transaction_id
              w
            ≡ (ok true, w'))
          × IsPosted (to_completed m) w w'
    unfolding enqueue_order_completed documented
    enqueue_order_completed_available reliable m w order e owned openable =
        let (w', run, posted) =
          publish_available o b broker_laws reliable (to_completed m)
            (record w { env = o.next w.env }) openable in
        (w', ground (arith, run, reliable w.env, eq_iff order.user_id m.user_id), posted)

module _ {E : Type 0} (o : Oracle E) (p : Prisma E) (laws : IsPrisma o p) where
  -- One delivery from order-completed: the message is gone, its order was there and, in whatever
  -- status it was, is COMPLETE with the message's transaction; or the message is first in the queue
  -- again and no row has changed.
  pub deliver_completed_once :
      (w : World E) (m : Completed) (rest : List Completed)
      → w.completed ≡ m ∷ rest
      → Delivered o w (deliver_completed p w) m rest
  deliver_completed_once w m rest e =
      rw (IsPrisma-eq o p laws) (deliver_completed-documented o w m rest e)

  -- One delivery from order-processing: the message is gone, its order was there and, in whatever
  -- status it was, is WAITING_FOR_PAYMENT under the new payment id; or the message is first in the
  -- queue again and no row has changed.
  pub deliver_processing_once :
      (payment : String) (w : World E) (m : Processing) (rest : List Processing)
      → w.processing ≡ m ∷ rest
      → Processed o w (deliver_processing p payment w) m payment rest
  deliver_processing_once payment w m rest e =
      rw (IsPrisma-eq o p laws) (deliver_processing-documented o payment w m rest e)

  -- If the outside world never fails, the messaging service has a channel or no connection yet, and
  -- the queue is empty: the request for completion that the owner of an order makes is queued, and its
  -- delivery makes the order COMPLETE whatever its status was, paid or not, and empties the queue.
  pub complete_from_any_status :
      (b : Broker E)
      → IsBroker o b
      → ((e : E) → o.fault e ≡ none)
      → (m : Completed) (w : World E) (order : Order)
      → find order_key m.order_id w.tables.orders ≡ some order
      → order.user_id ≡ m.user_id
      → IsOpenable w
      → w.completed ≡ []
      → (w1 : World E) × (enqueue_order_completed p b m.order_id m.user_id m.tenant_code
            m.transaction_id w
          ≡ (ok true, w1))
        × (find order_key m.order_id (deliver_completed p w1).tables.orders
            ≡ some (record order { status = complete; transaction_id = some m.transaction_id }))
        × ((deliver_completed p w1).completed ≡ [])
  complete_from_any_status b broker_laws reliable m w order e owned openable quiet =
      let (w1, run, posted) =
        enqueue_order_completed_available o b broker_laws reliable m w order e owned openable in
      let (done, empty, _) =
        deliver_completes o reliable m w1 order (ground (arith, posted.0))
          (ground (arith, posted.2)) in
      (
        w1,
        rw (IsPrisma-eq o p laws) run,
        rw (IsPrisma-eq o p laws) done,
        rw (IsPrisma-eq o p laws) empty,
      )
