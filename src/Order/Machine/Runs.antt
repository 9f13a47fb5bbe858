-- ===== src/Order/Machine/Runs.antt =====
-- About runs of handlers and consumers.
use nestjs_order_api.Base.{ℕ, inl, inr, String, none, some, Option, ◌≡◌, ◌≢◌, refl, ap, ◌∙◌, arith}
use nestjs_order_api.Base.Keyed.{find}
use nestjs_order_api.Http.{Result, ok, err}
use nestjs_order_api.Schema.{Order, pending}
use nestjs_order_api.Prisma.{World, Prisma}
use nestjs_order_api.Prisma.Rows.{order_key, ProductData}
use nestjs_order_api.Prisma.Effects.{Oracle}
use nestjs_order_api.Prisma.Laws.{IsPrisma, IsPrisma-eq, documented}
use nestjs_order_api.Services.{guarded, tenant_errors}
use nestjs_order_api.Rabbit.{Broker, Letter, to_creation, to_processing, to_completed}
use nestjs_order_api.Rabbit.Laws.{IsBroker, posted}
use nestjs_order_api.Rabbit.Publishing.{publish, publish_success, publish_failure}
use nestjs_order_api.Order.Cart.{find_one}
use nestjs_order_api.Order.Lifecycle.{enqueue_order_processing, enqueue_order_completed}
use nestjs_order_api.Product
use nestjs_order_api.Product.{CreateProductDto}
use nestjs_order_api.Order.Machine.{
  Step, rests, is_priced, is_checked_out, is_paid, is_completed, is_processed, is_finished, Moves,
  none_yet, then_, Event, creates, adds, checks_out, pays, completes, asks_processing,
  asks_completion, delivers_processing, delivers_completed, creates_product, updates_product,
  removes_product, shows_order, shows_product, lists_products, handle, IsOther, Event-cases,
  Reached, here, next,
}
use nestjs_order_api.Order.Machine.Simulation.{
  Steps, Change, unchanged, Change-Steps, create_order-Change, complete_order-Change,
  add_item_to_order-Steps, checkout_order-Change, payment_received-Change,
  deliver_processing-Change, deliver_completed-Change,
}

module _ {E : Type 0} (o : Oracle E) where
  create_product_orders :
      (context : Option String) (dto : CreateProductDto) (w : World E)
      → (Product.create (documented o) context dto w).1.tables.orders ≡ w.tables.orders
  unfolding Product.create documented
  create_product_orders none dto w = ground arith
  create_product_orders (some code) dto w = ground arith

  update_product_orders :
      (id tenant : String) (dto : ProductData) (w : World E)
      → (Product.update (documented o) id dto tenant w).1.tables.orders ≡ w.tables.orders
  unfolding Product.update Product.find_one documented guarded tenant_errors
  update_product_orders id tenant dto w = ground arith

  remove_product_orders :
      (id tenant : String) (w : World E)
      → (Product.remove (documented o) id tenant w).1.tables.orders ≡ w.tables.orders
  unfolding Product.remove Product.find_one documented guarded tenant_errors
  remove_product_orders id tenant w = ground arith

  show_order_orders :
      (id user : String) (w : World E)
      → (find_one (documented o) id user w).1.tables.orders ≡ w.tables.orders
  unfolding find_one documented
  show_order_orders id user w = ground arith

  show_product_orders :
      (id tenant : String) (w : World E)
      → (Product.find_one (documented o) id tenant w).1.tables.orders ≡ w.tables.orders
  unfolding Product.find_one documented guarded tenant_errors
  show_product_orders id tenant w = ground arith

  list_products_orders :
      (tenant : String) (page per_page : ℕ) (w : World E)
      → (Product.find_all (documented o) tenant page per_page w).1.tables.orders ≡ w.tables.orders
  unfolding Product.find_all documented guarded tenant_errors
  list_products_orders tenant page per_page w = ground arith

module _ {E : Type 0} (o : Oracle E) (b : Broker E) (laws : IsBroker o b) where
  posted_tables : (m : Letter) (w : World E) → (posted m w).tables ≡ w.tables
  posted_tables (to_creation m) w = refl
  posted_tables (to_processing m) w = refl
  posted_tables (to_completed m) w = refl

  publish_tables :
      (m : Letter) (w : World E) (r : Result (Unit {0}) × World E)
      → publish b m w ≡ r
      → r.1.tables ≡ w.tables
  publish_tables m w (ok x, w') run = (publish_success o b laws m w run).0 ∙ posted_tables m w
  publish_tables m w (err x, w') run = (publish_failure o b laws m w run).0

  asks_processing_orders :
      (p : Prisma E) (id user tenant : String) (w : World E)
      → (enqueue_order_processing p b id user tenant w).1.tables.orders ≡ w.tables.orders
  unfolding enqueue_order_processing
  asks_processing_orders p id user tenant w =
      ap (λ t. t.orders)
        (publish_tables
          (to_processing (record { order_id = id; user_id = user; tenant_code = tenant })) w _ refl)

  asks_completion_orders :
      (id user tenant transaction : String) (w : World E)
      → (enqueue_order_completed (documented o) b id user tenant transaction w).1.tables.orders
        ≡ w.tables.orders
  unfolding enqueue_order_completed documented
  asks_completion_orders id user tenant transaction w =
      let m = to_completed (record {
        order_id = id;
        user_id = user;
        tenant_code = tenant;
        transaction_id = transaction;
      }) in
      ground (
        arith,
        publish_tables m (record w { env = o.next w.env })
            (publish b m (record w { env = o.next w.env })) refl,
      )

module _ {E : Type 0} (o : Oracle E) (p : Prisma E) (laws : IsPrisma o p) (b : Broker E)
    (broker_laws : IsBroker o b) where
  pub handle-Change :
      (e : Event)
      → IsOther e
      → (w : World E) → Change w.tables.orders (handle p b e w).tables.orders
  handle-Change (creates user tenant) _ w =
      rw (IsPrisma-eq o p laws) (create_order-Change o user tenant w)
  handle-Change (adds _ _ _ _) other w = absurd other
  handle-Change (checks_out id user tenant) _ w = checkout_order-Change o p laws id user tenant w
  handle-Change (pays id user tenant) _ w = payment_received-Change o p laws id user tenant w
  handle-Change (completes id user tenant) _ w =
      rw (IsPrisma-eq o p laws) (complete_order-Change o id user tenant w)
  handle-Change (asks_processing id user tenant) _ w =
      unchanged (asks_processing_orders o b broker_laws p id user tenant w)
  handle-Change (asks_completion id user tenant transaction) _ w = unchanged (
      rw (IsPrisma-eq o p laws)
        (asks_completion_orders o b broker_laws id user tenant transaction w))
  handle-Change (delivers_processing payment) _ w =
      deliver_processing-Change o p laws payment w w.processing refl
  handle-Change delivers_completed _ w = deliver_completed-Change o p laws w w.completed refl
  handle-Change (creates_product context dto) _ w =
      unchanged (rw (IsPrisma-eq o p laws) (create_product_orders o context dto w))
  handle-Change (updates_product id tenant dto) _ w =
      unchanged (rw (IsPrisma-eq o p laws) (update_product_orders o id tenant dto w))
  handle-Change (removes_product id tenant) _ w =
      unchanged (rw (IsPrisma-eq o p laws) (remove_product_orders o id tenant w))
  handle-Change (shows_order id user) _ w =
      unchanged (rw (IsPrisma-eq o p laws) (show_order_orders o id user w))
  handle-Change (shows_product id tenant) _ w =
      unchanged (rw (IsPrisma-eq o p laws) (show_product_orders o id tenant w))
  handle-Change (lists_products tenant page per_page) _ w =
      unchanged (rw (IsPrisma-eq o p laws) (list_products_orders o tenant page per_page w))

  pub handle-Steps :
      (e : Event) (w : World E) → Steps w.tables.orders (handle p b e w).tables.orders
  handle-Steps e w = elim (Event-cases e) [
    | inl other ↦ Change-Steps w.tables.orders _ (handle-Change e other w)
    | inr (id, user, tenant, dto, same) ↦
        rw same (add_item_to_order-Steps o p laws id user tenant dto w)
  ]

  -- Whatever events run, calls of the order and product services and deliveries to the order consumers,
  -- in whatever order and wherever the outside world fails: an order that is there stays there, and
  -- what becomes of it is a sequence of the machine's steps.
  pub Reached-Moves :
      {w w' : World E}
      → Reached p b w w'
      → (id : String) (r : Order) → find order_key id w.tables.orders ≡ some r
      → (s : Order) × (find order_key id w'.tables.orders ≡ some s) × Moves r s
  Reached-Moves here id r e = (r, e, none_yet)
  Reached-Moves (next {u} before event) id r e =
      let (s, found, moves) = Reached-Moves before id r e in
      let (t, then_found, step) = handle-Steps event u id s found in
      (t, then_found, then_ moves step)

-- What a step leaves alone.
Step-keeps : {r s : Order} → Step r s → (s.id ≡ r.id) × (s.user_id ≡ r.user_id)
Step-keeps (rests r) = (refl, refl)
Step-keeps (is_priced r n h) = (refl, refl)
Step-keeps (is_checked_out r h) = (refl, refl)
Step-keeps (is_paid r h) = (refl, refl)
Step-keeps (is_completed r h) = (refl, refl)
Step-keeps (is_processed r payment) = (refl, refl)
Step-keeps (is_finished r transaction) = (refl, refl)

Step-placed :
    {r s : Order} → Step r s → r.status ≢ pending → (s.status ≢ pending) × (s.total ≡ r.total)
Step-placed (rests r) placed = (placed, refl)
Step-placed (is_priced r n h) placed = absurd (placed h)
Step-placed (is_checked_out r h) placed = absurd (placed h)
Step-placed (is_paid r h) placed = ground arith
Step-placed (is_completed r h) placed = ground arith
Step-placed (is_processed r payment) placed = ground arith
Step-placed (is_finished r transaction) placed = ground arith

Moves-placed :
    {r s : Order}
    → Moves r s
    → r.status ≢ pending
    → (s.status ≢ pending) × (s.total ≡ r.total) × (s.user_id ≡ r.user_id)
Moves-placed none_yet placed = (placed, refl, refl)
Moves-placed (then_ moves step) placed =
    let (still, total, user) = Moves-placed moves placed in
    let (again, kept) = Step-placed step still in (again, kept ∙ total, (Step-keeps step).1 ∙ user)

module _ {E : Type 0} (o : Oracle E) (p : Prisma E) (laws : IsPrisma o p) (b : Broker E)
    (broker_laws : IsBroker o b) where
  -- An order that has left PENDING is never PENDING again, and keeps its total and its owner, whatever
  -- events run after that, calls of the order and product services and deliveries to the order
  -- consumers, and however they end.
  pub placed_for_good :
      {w w' : World E}
      → Reached p b w w'
      → (id : String) (r : Order) → find order_key id w.tables.orders ≡ some r
      → r.status ≢ pending
      → (s : Order) × (find order_key id w'.tables.orders ≡ some s)
        × (s.status ≢ pending)
        × (s.total ≡ r.total)
        × (s.user_id ≡ r.user_id)
  placed_for_good run id r e placed =
      let (s, found, moves) = Reached-Moves o p laws b broker_laws run id r e in
      let (placed_still, total, user) = Moves-placed moves placed in
      (s, found, placed_still, total, user)
