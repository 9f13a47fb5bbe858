-- ===== src/Order/Machine/Handlers.antt =====
-- Requests to the order and product controllers and deliveries to the order consumers, as events.
use nestjs_order_api.Base.{String, Option, List, [], ◌∷◌, ◌++◌, map, if◌then◌else◌}
use nestjs_order_api.Http.{Result, ok, err}
use nestjs_order_api.Schema.{Order}
use nestjs_order_api.Prisma.{World, Prisma, Action}
use nestjs_order_api.Prisma.Rows.{ProductData}
use nestjs_order_api.Rabbit.{Broker}
use nestjs_order_api.Page.{page_num, per_page_num}
use nestjs_order_api.Order.Cart.{AddItemDto, create_order, add_item_to_order, find_one}
use nestjs_order_api.Order.Lifecycle.{
  checkout_order, payment_received, complete_order, enqueue_order_processing,
  enqueue_order_completed,
}
use nestjs_order_api.Order.Controller
use nestjs_order_api.Order.Controller.{add_items}
use nestjs_order_api.Order.Controller.Handlers.{
  show_order, receive_payment, request_completion, is_blank, text_of,
}
use nestjs_order_api.Consumer.{deliver_processing, deliver_completed}
use nestjs_order_api.Product
use nestjs_order_api.Product.{CreateProductDto}
use nestjs_order_api.Product.Controller.{
  create_product, list_products, show_product, update_product, remove_product,
}
use nestjs_order_api.Order.Machine.{
  Event, creates, adds, checks_out, pays, completes, asks_processing, asks_completion,
  delivers_processing, delivers_completed, creates_product, updates_product, removes_product,
  shows_order, shows_product, lists_products,
}

-- A request past the guards and interceptors, or a delivery. The listing of orders is not among them: it
-- reads the databases of all tenants and writes to none.
pub data Call : Type 0 where
  posts_order : (user tenant : String) → List AddItemDto → Call
  gets_order : (id user : String) → Call
  posts_payment : (id user tenant : String) → Call
  posts_completion : (id user tenant : String) → (transaction : Option String) → Call
  posts_product : Option String → CreateProductDto → Call
  gets_products : (tenant : String) → (page per_page : Option String) → Call
  gets_product : (id tenant : String) → Call
  patches_product : (id tenant : String) → ProductData → Call
  deletes_product : (id tenant : String) → Call
  takes_processing : (payment : String) → Call
  takes_completed : Call

module _ {E : Type 0} (p : Prisma E) (b : Broker E) where
  -- The world after a call, whatever is answered.
  abbrev pub serve : Call → World E → World E
  serve (posts_order user tenant items) w = (Controller.create p b user tenant items w).1
  serve (gets_order id user) w = (show_order p b id user w).1
  serve (posts_payment id user tenant) w = (receive_payment p b id user tenant w).1
  serve (posts_completion id user tenant transaction) w =
      (request_completion p b id user tenant transaction w).1
  serve (posts_product context dto) w = (create_product p context dto w).1
  serve (gets_products tenant page per_page) w = (list_products p tenant page per_page w).1
  serve (gets_product id tenant) w = (show_product p id tenant w).1
  serve (patches_product id tenant dto) w = (update_product p id dto tenant w).1
  serve (deletes_product id tenant) w = (remove_product p id tenant w).1
  serve (takes_processing payment) w = deliver_processing p payment w
  serve takes_completed w = deliver_completed p w

  -- Calls one after the other.
  unfoldable pub serve_all : List Call → World E → World E
  serve_all [] w = w
  serve_all (c ∷ cs) w = serve_all cs (serve c w)

  -- Whether a call has thrown, and the world after it.
  abbrev pub settled : {A : Type 0} → Result A × World E → Result (Unit {0}) × World E
  settled (ok a, w) = (ok tt, w)
  settled (err e, w) = (err e, w)

  -- A delivery answers its errors itself.
  abbrev pub outcome : Event → Action E (Unit {0})
  outcome (creates user tenant) w = settled (create_order p user tenant w)
  outcome (adds id user tenant dto) w = settled (add_item_to_order p id user dto tenant w)
  outcome (checks_out id user tenant) w = settled (checkout_order p id user tenant w)
  outcome (pays id user tenant) w = settled (payment_received p id user tenant w)
  outcome (completes id user tenant) w = settled (complete_order p id user tenant w)
  outcome (asks_processing id user tenant) w =
      settled (enqueue_order_processing p b id user tenant w)
  outcome (asks_completion id user tenant transaction) w =
      settled (enqueue_order_completed p b id user tenant transaction w)
  outcome (delivers_processing payment) w = (ok tt, deliver_processing p payment w)
  outcome delivers_completed w = (ok tt, deliver_completed p w)
  outcome (creates_product context dto) w = settled (Product.create p context dto w)
  outcome (updates_product id tenant dto) w = settled (Product.update p id dto tenant w)
  outcome (removes_product id tenant) w = settled (Product.remove p id tenant w)
  outcome (shows_order id user) w = settled (find_one p id user w)
  outcome (shows_product id tenant) w = settled (Product.find_one p id tenant w)
  outcome (lists_products tenant page per_page) w =
      settled (Product.find_all p tenant page per_page w)

  abbrev pub onwards : Result (Unit {0}) × World E → (World E → World E) → World E
  onwards (ok a, w) rest = rest w
  onwards (err e, w) rest = w

  -- Events one after the other, up to the first that throws.
  unfoldable pub until_throw : List Event → World E → World E
  until_throw [] w = w
  until_throw (e ∷ es) w = onwards (outcome e w) (until_throw es)

  abbrev pub id_of : Result Order → String
  id_of (ok order) = order.id
  id_of (err e) = ""

  -- The events of `create` about the order that it has created.
  abbrev pub fills : (id user tenant : String) → List AddItemDto → List Event
  fills id user tenant items =
      map (adds id user tenant) items ++ asks_processing id user tenant ∷ shows_order id user ∷ []

  -- The events of a call, in the order in which its handler makes them.
  abbrev pub planned : Call → World E → List Event
  planned (posts_order user tenant []) w = []
  planned (posts_order user tenant (item ∷ items)) w =
      creates user tenant
      ∷ fills (id_of (create_order p user tenant w).0) user tenant (item ∷ items)
  planned (gets_order id user) w = shows_order id user ∷ []
  planned (posts_payment id user tenant) w = pays id user tenant ∷ []
  planned (posts_completion id user tenant transaction) w =
      if is_blank transaction then [] else asks_completion id user tenant (text_of transaction) ∷ []
  planned (posts_product context dto) w = creates_product context dto ∷ []
  planned (gets_products tenant page per_page) w =
      lists_products tenant (page_num page) (per_page_num per_page) ∷ []
  planned (gets_product id tenant) w = shows_product id tenant ∷ []
  planned (patches_product id tenant dto) w = updates_product id tenant dto ∷ []
  planned (deletes_product id tenant) w = removes_product id tenant ∷ []
  planned (takes_processing payment) w = delivers_processing payment ∷ []
  planned takes_completed w = delivers_completed ∷ []

  -- The plans of calls, one after the other.
  unfoldable pub carry_out : List Call → World E → World E
  carry_out [] w = w
  carry_out (c ∷ cs) w = carry_out cs (until_throw (planned c w) w)
