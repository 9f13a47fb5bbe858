-- ===== src/Order/Placing.antt =====
-- About `create` (order/order.controller.ts).
use nestjs_order_api.Base.{
  String, none, some, List, [], ◌∷◌, ◌++◌, select, ◌===◌, ◌&&◌, ◌≡◌, refl, ap, sym, ◌∙◌, arith,
  eq_iff, eq_refl,
}
use nestjs_order_api.Base.Keyed.{find, find-append}
use nestjs_order_api.Http.{ok}
use nestjs_order_api.Schema.{Order, OrderView, pending}
use nestjs_order_api.Prisma.{World, Prisma, Processing}
use nestjs_order_api.Prisma.Rows.{order_key, items_of, view_order, first}
use nestjs_order_api.Prisma.Effects.{Oracle, new_order}
use nestjs_order_api.Prisma.Inversion.{>>=-eq-ok}
use nestjs_order_api.Prisma.Laws.{IsPrisma, IsPrisma-eq, documented}
use nestjs_order_api.Rabbit.{Broker, to_processing}
use nestjs_order_api.Rabbit.Laws.{IsBroker, IsBroker-eq, documented_broker, documented-IsBroker}
use nestjs_order_api.Rabbit.Publishing.{publish_success}
use nestjs_order_api.Order.Cart.{AddItemDto, order_total, create_order, add_item_to_order, find_one}
use nestjs_order_api.Order.Lifecycle.{enqueue_order_processing}
use nestjs_order_api.Order.Adding.{IsAdded, add_item-IsAdded}
use nestjs_order_api.Services.{guarded, tenant_errors}
use nestjs_order_api.Order.Controller.{add_items, create}

module _ {E : Type 0} (o : Oracle E) where
  -- The order's row, if its total is that of its lines.
  abbrev IsPriced : String → Order → World E → Type 0
  IsPriced id order w =
      find order_key id w.tables.orders
      ≡ some (record order { total = order_total (items_of w.tables id) })

  added-IsPriced :
      (id user fresh : String) (dto : AddItemDto) (w u : World E) (order : Order)
      → find order_key id w.tables.orders ≡ some order
      → IsAdded id user fresh dto w u
      → IsPriced id order u × (u.processing ≡ w.processing)
  added-IsPriced id user fresh dto w u order e added =
      (ground (arith, added.found, added.total), added.same_queues.0)

  -- The loop leaves the order's row as it was but for the total, which is that of its lines.
  add_items-IsPriced :
      (id user tenant : String) (item : AddItemDto) (items : List AddItemDto) (w : World E)
      (order : Order) {w' : World E}
      → find order_key id w.tables.orders ≡ some order
      → add_items (documented o) (documented_broker o) id user tenant (item ∷ items) w ≡ (ok tt, w')
      → IsPriced id order w' × (w'.processing ≡ w.processing)
  unfolding add_items
  add_items-IsPriced id user tenant item [] w order {w'} e h =
      let (v, u, run, rest) =
        >>=-eq-ok (add_item_to_order (documented o) id user item tenant) _ w h in
      let (priced, same) =
        added-IsPriced id user _ item w u order e (add_item-IsAdded o id user tenant item w run) in
      ground arith
  add_items-IsPriced id user tenant item (next ∷ items) w order {w'} e h =
      let (v, u, run, rest) =
        >>=-eq-ok (add_item_to_order (documented o) id user item tenant) _ w h in
      let (priced, same) =
        added-IsPriced id user _ item w u order e (add_item-IsAdded o id user tenant item w run) in
      let (last, kept) =
        add_items-IsPriced id user tenant next items u
          (record order { total = order_total (items_of u.tables id) }) priced rest in
      (last, kept ∙ same)

  -- What `findOne` answers is the row that the id finds.
  select_found :
      (id user : String) (orders : List Order) (order : Order)
      → find order_key id orders ≡ some order
      → order.user_id ≡ user
      → first (select (λ r. r.id === id && r.user_id === user) orders) ≡ some order
  unfolding find
  select_found id user [] order e owned = absurd (ground arith)
  select_found id user (r ∷ orders) order e owned =
      ground (arith, eq_iff order.user_id user, select_found id user orders order)

  opened_order : String → World E → Order
  opened_order user w =
      new_order (o.fresh_id w.env) (o.now w.env)
        (record { user_id = user; status = pending; total = 0 })

  create_order_opens :
      (user tenant : String) (w : World E) {r : Order} {u : World E}
      → find order_key (o.fresh_id w.env) w.tables.orders ≡ none
      → create_order (documented o) user tenant w ≡ (ok r, u)
      → (r.user_id ≡ user)
        × (r.status ≡ pending)
        × (find order_key r.id u.tables.orders ≡ some r)
        × (u.processing ≡ w.processing)
  unfolding create_order opened_order documented guarded tenant_errors
  create_order_opens user tenant w fresh h = ground (
    arith,
    find-append order_key (o.fresh_id w.env) w.tables.orders (opened_order user w) fresh,
    eq_refl (o.fresh_id w.env),
  )

  enqueue_appends :
      (id user tenant : String) (w : World E) {x : Unit {0}} {u : World E}
      → enqueue_order_processing (documented o) (documented_broker o) id user tenant w ≡ (ok x, u)
      → (u.tables ≡ w.tables)
        × (u.processing
            ≡ w.processing ++ record { order_id = id; user_id = user; tenant_code = tenant } ∷ [])
  unfolding enqueue_order_processing
  enqueue_appends id user tenant w {x} {u} h =
      let m : Processing = record { order_id = id; user_id = user; tenant_code = tenant } in
      let (same, sent, others, more) =
        publish_success o (documented_broker o) (documented-IsBroker o) (to_processing m) w h in
      (same, sent)

  find_one_answers :
      (id user : String) (w : World E) (order : Order) {v : OrderView} {u : World E}
      → find order_key id w.tables.orders ≡ some order
      → order.user_id ≡ user
      → find_one (documented o) id user w ≡ (ok v, u)
      → (v ≡ view_order w.tables order) × (u.tables ≡ w.tables) × (u.processing ≡ w.processing)
  unfolding find_one documented
  find_one_answers id user w order e owned h =
      ground (arith, select_found id user w.tables.orders order e owned)

pub record IsPlaced {E : Type 0} (user tenant : String) (w : World E) (v : OrderView) (w' : World E)
    : Type 0 where
  pub order : Order
  pub answer : v ≡ view_order w'.tables order
  pub stored : find order_key order.id w'.tables.orders ≡ some order
  pub owned : order.user_id ≡ user
  pub is_pending : order.status ≡ pending
  pub priced : order.total ≡ order_total (items_of w'.tables order.id)
  pub queued :
      w'.processing
      ≡ w.processing ++ record { order_id = order.id; user_id = user; tenant_code = tenant } ∷ []

module _ {E : Type 0} (o : Oracle E) where
  -- The message is sent, and then the order is read.
  sent-IsPlaced :
      (user tenant : String) (order : Order) (w w2 w3 : World E) {v : OrderView} {w' : World E}
      → find order_key order.id w2.tables.orders ≡ some order
      → order.user_id ≡ user
      → order.status ≡ pending
      → order.total ≡ order_total (items_of w2.tables order.id)
      → w2.processing ≡ w.processing
      → w3.tables ≡ w2.tables
      → w3.processing
        ≡ w2.processing ++ record { order_id = order.id; user_id = user; tenant_code = tenant } ∷ []
      → find_one (documented o) order.id user w3 ≡ (ok v, w')
      → IsPlaced user tenant w v w'
  sent-IsPlaced user tenant order w w2 w3 {v} {w'} e owned is_pending priced quiet same sent h =
      let (answer, tables, queue) =
        find_one_answers o order.id user w3 order
          (ap (λ t. find order_key order.id t.orders) same ∙ e) owned h in
      let seen = tables ∙ same in
      record {
        order = order;
        answer = answer ∙ ap (λ t. view_order t order) (sym tables);
        stored = ap (λ t. find order_key order.id t.orders) seen ∙ e;
        owned = owned;
        is_pending = is_pending;
        priced = priced ∙ ap (λ t. order_total (items_of t order.id)) (sym seen);
        queued =
            queue
            ∙ sent
            ∙ ap
                (λ l.
                  l ++ record { order_id = order.id; user_id = user; tenant_code = tenant } ∷ [])
                quiet;
      }

  create-IsPlaced :
      (user tenant : String) (items : List AddItemDto) (w : World E) {v : OrderView} {w' : World E}
      → find order_key (o.fresh_id w.env) w.tables.orders ≡ none
      → create (documented o) (documented_broker o) user tenant items w ≡ (ok v, w')
      → IsPlaced user tenant w v w'
  unfolding create
  create-IsPlaced user tenant [] w fresh h = absurd (ground arith)
  create-IsPlaced user tenant (item ∷ items) w {v} {w'} fresh h =
      let (r, w1, run1, h1) = >>=-eq-ok (create_order (documented o) user tenant) _ w h in
      let (x, w2, run2, h2) =
        >>=-eq-ok (add_items (documented o) (documented_broker o) r.id user tenant (item ∷ items)) _
          w1 h1 in
      let (y, w3, run3, h3) =
        >>=-eq-ok (enqueue_order_processing (documented o) (documented_broker o) r.id user tenant) _
          w2 h2 in
      let (owned, is_pending, stored, quiet) = create_order_opens o user tenant w fresh run1 in
      let (priced, kept) = add_items-IsPriced o r.id user tenant item items w1 r stored run2 in
      let (same, sent) = enqueue_appends o r.id user tenant w2 run3 in
      sent-IsPlaced user tenant (record r { total = order_total (items_of w2.tables r.id) }) w w2 w3
        priced owned is_pending refl (kept ∙ quiet) same sent h3

module _ {E : Type 0} (o : Oracle E) (p : Prisma E) (b : Broker E) (laws : IsPrisma o p)
    (broker_laws : IsBroker o b) where
  -- When `create` answers, and the id that the database gave was new, the answer is the view of a stored
  -- order of the user that is PENDING, its total is that of its stored lines, and exactly one message
  -- with its id was added at the end of the queue order-processing.
  pub create_success :
      (user tenant : String) (items : List AddItemDto) (w : World E) {v : OrderView} {w' : World E}
      → find order_key (o.fresh_id w.env) w.tables.orders ≡ none
      → create p b user tenant items w ≡ (ok v, w')
      → IsPlaced user tenant w v w'
  create_success user tenant items w {v} {w'} fresh h =
      create-IsPlaced o user tenant items w fresh
        (rw (IsPrisma-eq o p laws, IsBroker-eq o b broker_laws) at h)
