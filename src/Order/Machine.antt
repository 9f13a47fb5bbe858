-- ===== src/Order/Machine.antt =====
-- What may become of one order, whichever handlers and consumers run in whatever order: the states of
-- `OrderStatus` and the moves between them, and the events of order/order.service.ts,
-- product/product.service.ts and the two order consumers.
pub mod Simulation
pub mod Runs
pub mod Bystanders
pub mod Lines
pub mod Messages
pub mod Keys
pub mod Writing
pub mod Consistency
pub mod Totals
pub mod Sums
pub mod Handlers
pub mod Plans
use nestjs_order_api.Base.{◌⊎◌, inl, inr, refl, ℕ, String, Option, some, ◌≡◌, ◌≢◌}
use nestjs_order_api.Schema.{Order, pending, waiting_for_payment, paid, complete}
use nestjs_order_api.Prisma.{World, Prisma}
use nestjs_order_api.Prisma.Rows.{ProductData}
use nestjs_order_api.Rabbit.{Broker}
use nestjs_order_api.Order.Cart.{AddItemDto, create_order, add_item_to_order, find_one}
use nestjs_order_api.Order.Lifecycle.{
  checkout_order, payment_received, complete_order, enqueue_order_processing,
  enqueue_order_completed,
}
use nestjs_order_api.Consumer.{deliver_processing, deliver_completed}
use nestjs_order_api.Product
use nestjs_order_api.Product.{CreateProductDto}

-- One move of one order. The last two are the consumers' and ask for no status.
pub data Step : Order → Order → Type 0 where
  rests : (r : Order) → Step r r
  is_priced : (r : Order) (n : ℕ) → r.status ≡ pending → Step r (record r { total = n })
  is_checked_out :
      (r : Order) → r.status ≡ pending → Step r (record r { status = waiting_for_payment })
  is_paid : (r : Order) → r.status ≡ waiting_for_payment → Step r (record r { status = paid })
  is_completed : (r : Order) → r.status ≡ paid → Step r (record r { status = complete })
  is_processed :
      (r : Order) (payment : String)
      → Step r (record r { status = waiting_for_payment; payment_id = some payment })
  is_finished :
      (r : Order) (transaction : String)
      → Step r (record r { status = complete; transaction_id = some transaction })

pub data Moves (r : Order) : Order → Type 0 where
  none_yet : Moves r r
  then_ : {s t : Order} → Moves r s → Step s t → Moves r t

-- One call of a handler, or one delivery of a message.
pub data Event : Type 0 where
  creates : (user tenant : String) → Event
  adds : (id user tenant : String) → AddItemDto → Event
  checks_out pays completes asks_processing : (id user tenant : String) → Event
  asks_completion : (id user tenant transaction : String) → Event
  delivers_processing : (payment : String) → Event
  delivers_completed : Event
  creates_product : Option String → CreateProductDto → Event
  updates_product : (id tenant : String) → ProductData → Event
  removes_product : (id tenant : String) → Event
  shows_order : (id user : String) → Event
  shows_product : (id tenant : String) → Event
  lists_products : (tenant : String) → (page per_page : ℕ) → Event

module _ {E : Type 0} (p : Prisma E) (b : Broker E) where
  -- The world after an event, whether the handler has returned or thrown.
  abbrev pub handle : Event → World E → World E
  handle (creates user tenant) w = (create_order p user tenant w).1
  handle (adds id user tenant dto) w = (add_item_to_order p id user dto tenant w).1
  handle (checks_out id user tenant) w = (checkout_order p id user tenant w).1
  handle (pays id user tenant) w = (payment_received p id user tenant w).1
  handle (completes id user tenant) w = (complete_order p id user tenant w).1
  handle (asks_processing id user tenant) w = (enqueue_order_processing p b id user tenant w).1
  handle (asks_completion id user tenant transaction) w =
      (enqueue_order_completed p b id user tenant transaction w).1
  handle (delivers_processing payment) w = deliver_processing p payment w
  handle delivers_completed w = deliver_completed p w
  handle (creates_product context dto) w = (Product.create p context dto w).1
  handle (updates_product id tenant dto) w = (Product.update p id dto tenant w).1
  handle (removes_product id tenant) w = (Product.remove p id tenant w).1
  handle (shows_order id user) w = (find_one p id user w).1
  handle (shows_product id tenant) w = (Product.find_one p id tenant w).1
  handle (lists_products tenant page per_page) w = (Product.find_all p tenant page per_page w).1

  -- The worlds that some events, one after the other, lead to.
  pub data Reached (w : World E) : World E → Type 0 where
    here : Reached w w
    next : {u : World E} → Reached w u → (e : Event) → Reached w (handle e u)

-- All events but `addItemToOrder`.
abbrev pub IsOther : Event → Type 0
IsOther (adds _ _ _ _) = ⊥
IsOther _ = Unit {0}

pub Event-cases :
    (e : Event)
    → IsOther e
      ⊎ ((id : String) × (user : String) × (tenant : String) × (dto : AddItemDto) × (e
            ≡ adds id user tenant dto))
Event-cases (adds id user tenant dto) = inr (id, user, tenant, dto, refl)
Event-cases (creates _ _) = inl tt
Event-cases (checks_out _ _ _) = inl tt
Event-cases (pays _ _ _) = inl tt
Event-cases (completes _ _ _) = inl tt
Event-cases (asks_processing _ _ _) = inl tt
Event-cases (asks_completion _ _ _ _) = inl tt
Event-cases (delivers_processing _) = inl tt
Event-cases delivers_completed = inl tt
Event-cases (creates_product _ _) = inl tt
Event-cases (updates_product _ _ _) = inl tt
Event-cases (removes_product _ _) = inl tt
Event-cases (shows_order _ _) = inl tt
Event-cases (shows_product _ _) = inl tt
Event-cases (lists_products _ _ _) = inl tt
