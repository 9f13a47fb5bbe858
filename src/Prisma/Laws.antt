-- ===== src/Prisma/Laws.antt =====
-- What is documented of the calls, as hypotheses on the parameters. A call either fails with an error of
-- the outside world and leaves the tables alone, or has its effect. When the world fails is left open.
use nestjs_order_api.Base.{
  ℕ, String, Option, none, some, List, select, length, take, drop, ◌===◌, ◌&&◌, map, ◌≡◌,
}
use nestjs_order_api.Base.Keyed.{find}
use nestjs_order_api.Base.Sort.{newest_first}
use nestjs_order_api.Schema.{Product, Order, OrderItem, Tables, OrderView}
use nestjs_order_api.Prisma.Monad.{World}
use nestjs_order_api.Prisma.Client.{Prisma}
use nestjs_order_api.Prisma.Rows.{
  NewOrder, OrderData, NewItem, NewProduct, ProductData, order_key, product_key, patch_product,
  decrement, of_line, first, items_of, view_order,
}
use nestjs_order_api.Prisma.Effects.{
  Oracle, reads, answered, rewrite_order, rewrite_product, rewrite_item, insert_order, insert_item,
  insert_product, drop_product,
}

abbrev pub order_with_items : String → Tables → Option (Order × List OrderItem)
order_with_items id t = elim (find order_key id t.orders) [
  | none ↦ none
  | some r ↦ some (r, items_of t id)
]

abbrev pub order_of_user : String → String → Tables → Option OrderView
order_of_user id user t = elim (first (select (λ r. r.id === id && r.user_id === user) t.orders)) [
  | none ↦ none
  | some r ↦ some (view_order t r)
]

abbrev pub created : Order → ℕ
created r = r.created_at

abbrev pub orders_of_user : (String → ℕ) → String → Tables → List OrderView
orders_of_user rank user t = map (view_order t) (
    newest_first created
      (newest_first (λ r. rank (order_key r)) (select (λ r. r.user_id === user) t.orders)))

abbrev pub product_created : Product → ℕ
product_created r = r.created_at

-- Products newest first, those of one time by their rank.
abbrev pub catalogue : (String → ℕ) → Tables → List Product
catalogue rank t =
    newest_first product_created (newest_first (λ r. rank (product_key r)) t.products)

abbrev pub product_page : (String → ℕ) → ℕ → ℕ → Tables → List Product
product_page rank skip count t = take count (drop skip (catalogue rank t))

module _ {E : Type 0} (o : Oracle E) where
  pub record IsPrisma (p : Prisma E) : Type 0 where
    pub order_create_lem :
        (d : NewOrder) (w : World E)
        → p.order_create d w ≡ answered o (λ e. insert_order (o.fresh_id e) (o.now e) d) w
    pub order_find_unique_lem :
        (id : String) (w : World E)
        → p.order_find_unique id w ≡ answered o (λ _. reads (λ t. find order_key id t.orders)) w
    pub order_find_unique_items_lem :
        (id : String) (w : World E)
        → p.order_find_unique_items id w ≡ answered o (λ _. reads (order_with_items id)) w
    pub order_find_first_lem :
        (id user : String) (w : World E)
        → p.order_find_first id user w ≡ answered o (λ _. reads (order_of_user id user)) w
    pub order_find_many_lem :
        (user : String) (w : World E)
        → p.order_find_many user w ≡ answered o (λ e. reads (orders_of_user (o.rank e) user)) w
    pub order_update_lem :
        (id : String) (d : OrderData) (w : World E)
        → p.order_update id d w ≡ answered o (λ _. rewrite_order id d (λ _ r. r)) w
    pub order_update_view_lem :
        (id : String) (d : OrderData) (w : World E)
        → p.order_update_view id d w ≡ answered o (λ _. rewrite_order id d view_order) w
    pub item_find_first_lem :
        (order product : String) (w : World E)
        → p.item_find_first order product w
          ≡ answered o (λ _. reads (λ t. first (select (of_line order product) t.items))) w
    pub item_find_many_lem :
        (order : String) (w : World E)
        → p.item_find_many order w ≡ answered o (λ _. reads (λ t. items_of t order)) w
    pub item_create_lem :
        (d : NewItem) (w : World E)
        → p.item_create d w ≡ answered o (λ e. insert_item (o.fresh_id e) d) w
    pub item_update_lem :
        (id : String) (n : ℕ) (w : World E)
        → p.item_update id n w ≡ answered o (λ _. rewrite_item id n) w
    pub product_create_lem :
        (d : NewProduct) (w : World E)
        → p.product_create d w ≡ answered o (λ e. insert_product (o.fresh_id e) (o.now e) d) w
    pub product_count_lem :
        (w : World E) → p.product_count w ≡ answered o (λ _. reads (λ t. length t.products)) w
    pub product_find_many_lem :
        (skip count : ℕ) (w : World E)
        → p.product_find_many skip count w
          ≡ answered o (λ e. reads (product_page (o.rank e) skip count)) w
    pub product_find_unique_lem :
        (id : String) (w : World E)
        → p.product_find_unique id w
          ≡ answered o (λ _. reads (λ t. find product_key id t.products)) w
    pub product_update_lem :
        (id : String) (d : ProductData) (w : World E)
        → p.product_update id d w ≡ answered o (λ _. rewrite_product id (patch_product d)) w
    pub product_decrement_lem :
        (id : String) (n : ℕ) (w : World E)
        → p.product_decrement id n w ≡ answered o (λ _. rewrite_product id (decrement n)) w
    pub product_delete_lem :
        (id : String) (w : World E) → p.product_delete id w ≡ answered o (λ _. drop_product id) w

  -- Such a client is one function of the outside world.
  unfoldable pub documented : Prisma E
  documented = record {
    order_create = λ d. answered o (λ e. insert_order (o.fresh_id e) (o.now e) d);
    order_find_unique = λ id. answered o (λ _. reads (λ t. find order_key id t.orders));
    order_find_unique_items = λ id. answered o (λ _. reads (order_with_items id));
    order_find_first = λ id user. answered o (λ _. reads (order_of_user id user));
    order_find_many = λ user. answered o (λ e. reads (orders_of_user (o.rank e) user));
    order_update = λ id d. answered o (λ _. rewrite_order id d (λ _ r. r));
    order_update_view = λ id d. answered o (λ _. rewrite_order id d view_order);
    item_find_first = λ order product.
        answered o (λ _. reads (λ t. first (select (of_line order product) t.items)));
    item_find_many = λ order. answered o (λ _. reads (λ t. items_of t order));
    item_create = λ d. answered o (λ e. insert_item (o.fresh_id e) d);
    item_update = λ id n. answered o (λ _. rewrite_item id n);
    product_create = λ d. answered o (λ e. insert_product (o.fresh_id e) (o.now e) d);
    product_count = answered o (λ _. reads (λ t. length t.products));
    product_find_many = λ skip count. answered o (λ e. reads (product_page (o.rank e) skip count));
    product_find_unique = λ id. answered o (λ _. reads (λ t. find product_key id t.products));
    product_update = λ id d. answered o (λ _. rewrite_product id (patch_product d));
    product_decrement = λ id n. answered o (λ _. rewrite_product id (decrement n));
    product_delete = λ id. answered o (λ _. drop_product id);
  }

  pub IsPrisma-eq : (p : Prisma E) → IsPrisma p → p ≡ documented
  unfolding documented
  IsPrisma-eq p laws = λ i. record {
    order_create = λ d w. laws.order_create_lem d w i;
    order_find_unique = λ id w. laws.order_find_unique_lem id w i;
    order_find_unique_items = λ id w. laws.order_find_unique_items_lem id w i;
    order_find_first = λ id user w. laws.order_find_first_lem id user w i;
    order_find_many = λ user w. laws.order_find_many_lem user w i;
    order_update = λ id d w. laws.order_update_lem id d w i;
    order_update_view = λ id d w. laws.order_update_view_lem id d w i;
    item_find_first = λ order product w. laws.item_find_first_lem order product w i;
    item_find_many = λ order w. laws.item_find_many_lem order w i;
    item_create = λ d w. laws.item_create_lem d w i;
    item_update = λ id n w. laws.item_update_lem id n w i;
    product_create = λ d w. laws.product_create_lem d w i;
    product_count = λ w. laws.product_count_lem w i;
    product_find_many = λ skip count w. laws.product_find_many_lem skip count w i;
    product_find_unique = λ id w. laws.product_find_unique_lem id w i;
    product_update = λ id d w. laws.product_update_lem id d w i;
    product_decrement = λ id n w. laws.product_decrement_lem id n w i;
    product_delete = λ id w. laws.product_delete_lem id w i;
  }
