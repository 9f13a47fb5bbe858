-- ===== src/Order/Machine/Writing.antt =====
-- About `addItemToOrder` among the events: the lines that it writes.
use nestjs_order_api.Base.{
  ◌≤◌, ◌<◌, String, Option, none, some, ◌≡◌, ◌⊎◌, refl, ◌∙◌, arith, Option-cases, inl, inr, select,
}
use nestjs_order_api.Http.{Result, ok, err}
use nestjs_order_api.Schema.{Order, OrderItem, Product, pending}
use nestjs_order_api.Prisma.{World, Action, proceed, pure, ◌>>=◌}
use nestjs_order_api.Base.Keyed.{find}
use nestjs_order_api.Prisma.Rows.{order_key, product_key, of_line, first}
use nestjs_order_api.Prisma.Effects.{Oracle}
use nestjs_order_api.Prisma.Laws.{documented}
use nestjs_order_api.Services.{guarded, tenant_errors}
use nestjs_order_api.Order.Cart.{
  AddItemDto, add_item_to_order, write_line, put_line, recalculate_order_total,
}
use nestjs_order_api.Order.Adding.{lines_after, at_write}
use nestjs_order_api.Order.Machine.Bystanders.{
  IsUuid, Kept, Kept-trans, IsBystander, >>=-IsBystander, pure-IsBystander, leaving,
}

module _ {E : Type 0} (o : Oracle E) (ids : IsUuid o) where
  recalculate-IsBystander :
      (id : String) → IsBystander o ids (recalculate_order_total (documented o) id)
  unfolding recalculate_order_total documented
  recalculate-IsBystander id = search leaving

  -- The lines have been written with an id of this state of the world.
  abbrev pub Wrote : String → AddItemDto → Product → World E → World E → Type 0
  Wrote id dto product w w' =
      (w'.tables.items
        ≡ lines_after (o.fresh_id w.env) id dto product.price
            (first (select (of_line id dto.product_id) w.tables.items)) w.tables.items)
      × (ids.clock w.env < ids.clock w'.env)

  put_line_cases :
      (id tenant : String) (dto : AddItemDto) (product : Product) (existing : Option OrderItem)
      (w : World E)
      → let w' = (put_line (documented o) id dto tenant product existing w).1 in
        Kept o ids w w'
        ⊎ (w'.tables.items
            ≡ lines_after (o.fresh_id w.env) id dto product.price existing w.tables.items)
          × (ids.clock w.env < ids.clock w'.env)
  unfolding put_line documented guarded tenant_errors
  put_line_cases id tenant dto product (some old) w = ground (arith, ids.next_lem w.env)
  put_line_cases id tenant dto product none w = ground (arith, ids.next_lem w.env)

  -- A call reads only, or comes to write a line of an order that is PENDING.
  add_item_cases :
      (id user tenant : String) (dto : AddItemDto) (w : World E) (order : Order) (product : Product)
      → find order_key id w.tables.orders ≡ some order
      → find product_key dto.product_id w.tables.products ≡ some product
      → let existing = first (select (of_line id dto.product_id) w.tables.items) in
        let u : World E = record w { env = at_write o w } in
        Kept o ids w (add_item_to_order (documented o) id user dto tenant w).1
        ⊎ (order.status ≡ pending)
          × (add_item_to_order (documented o) id user dto tenant w
              ≡ write_line (documented o) id dto tenant product existing u)
  unfolding add_item_to_order documented
  add_item_cases id user tenant dto w order product e s =
      ground (
        arith,
        ids.next_lem w.env,
        ids.next_lem (o.next w.env),
        ids.next_lem (o.next (o.next w.env)),
      )

  proceed-Kept :
      {A B : Type 0} (f : A → Action E B)
      → ((a : A) → IsBystander o ids (f a))
      → (r : Result A × World E) → Kept o ids r.1 (proceed r f).1
  proceed-Kept f k (ok a, v) = (k a).keeps v
  proceed-Kept f k (err e, v) = (refl, omega arith)

  Wrote-Kept :
      (id : String) (dto : AddItemDto) (product : Product) (u v w : World E)
      → Wrote id dto product u v
      → Kept o ids v w
      → Wrote id dto product u w
  Wrote-Kept id dto product u v w (a, b) (c, d) = (c ∙ a, omega arith)

  write_line_cases :
      (id tenant : String) (dto : AddItemDto) (product : Product) (w : World E)
      → let existing = first (select (of_line id dto.product_id) w.tables.items) in
        let w' = (write_line (documented o) id dto tenant product existing w).1 in
        Kept o ids w w' ⊎ Wrote id dto product w w'
  unfolding write_line
  write_line_cases id tenant dto product w =
      let existing = first (select (of_line id dto.product_id) w.tables.items) in
      let put = put_line (documented o) id dto tenant product existing w in
      let rest : OrderItem × Option Product → Action E (OrderItem × Option Product) =
        λ item. recalculate_order_total (documented o) id >>= (λ _. pure item) in
      let after =
        proceed-Kept rest
          (λ item.
            >>=-IsBystander o ids _ _ (recalculate-IsBystander id)
              (λ _. pure-IsBystander o ids item))
          put in
      elim (put_line_cases id tenant dto product existing w) [
        | inl kept ↦ inl (Kept-trans o ids w put.1 (proceed put rest).1 kept after)
        | inr wrote ↦ inr (Wrote-Kept id dto product w put.1 (proceed put rest).1 wrote after)
      ]

  -- What is written when a call comes to write: a line of an order that is PENDING, for a product that
  -- is there.
  pub record IsWritten (id : String) (dto : AddItemDto) (w w' : World E) : Type 0 where
    pub order : Order
    pub found : find order_key id w.tables.orders ≡ some order
    pub was_pending : order.status ≡ pending
    pub product : Product
    pub wrote : Wrote id dto product (record w { env = at_write o w }) w'
    pub later : ids.clock w.env ≤ ids.clock (at_write o w)

  no_order_cases :
      (id user tenant : String) (dto : AddItemDto) (w : World E)
      → find order_key id w.tables.orders ≡ none
      → Kept o ids w (add_item_to_order (documented o) id user dto tenant w).1
  unfolding add_item_to_order documented
  no_order_cases id user tenant dto w e = ground (arith, ids.next_lem w.env)

  no_product_cases :
      (id user tenant : String) (dto : AddItemDto) (w : World E) (order : Order)
      → find order_key id w.tables.orders ≡ some order
      → find product_key dto.product_id w.tables.products ≡ none
      → Kept o ids w (add_item_to_order (documented o) id user dto tenant w).1
  unfolding add_item_to_order documented guarded tenant_errors
  no_product_cases id user tenant dto w order e s =
      ground (arith, ids.next_lem w.env, ids.next_lem (o.next w.env))

  pub add_item_outcome :
      (id user tenant : String) (dto : AddItemDto) (w : World E)
      → let w' = (add_item_to_order (documented o) id user dto tenant w).1 in
        Kept o ids w w' ⊎ IsWritten id dto w w'
  add_item_outcome id user tenant dto w = elim (Option-cases (find order_key id w.tables.orders)) [
    | inl missing ↦ inl (no_order_cases id user tenant dto w missing)
    | inr (order, e) ↦ elim (Option-cases (find product_key dto.product_id w.tables.products)) [
      | inl missing ↦ inl (no_product_cases id user tenant dto w order e missing)
      | inr (product, s) ↦ elim (add_item_cases id user tenant dto w order product e s) [
        | inl kept ↦ inl kept
        | inr (was_pending, run) ↦
            let u : World E = record w { env = at_write o w } in
            let later : ids.clock w.env ≤ ids.clock (at_write o w) = omega (
              arith,
              ids.next_lem w.env,
              ids.next_lem (o.next w.env),
              ids.next_lem (o.next (o.next w.env)),
            ) in
            elim (write_line_cases id tenant dto product u) [
              | inl (same, aged) ↦ inl (rw run (same, omega arith))
              | inr wrote ↦ inr (record {
                order = order;
                found = e;
                was_pending = was_pending;
                product = product;
                wrote = rw run wrote;
                later = later;
              })
            ]
      ]
    ]
  ]
