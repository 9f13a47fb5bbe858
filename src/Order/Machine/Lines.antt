-- ===== src/Order/Machine/Lines.antt =====
-- About single events: which of them leave the lines of orders alone.
use nestjs_order_api.Base.{
  ℕ, String, Option, none, some, List, [], ◌∷◌, Bool-cases, inl, inr, ◌===◌,
}
use nestjs_order_api.Schema.{OrderItem}
use nestjs_order_api.Base.Keyed.{find}
use nestjs_order_api.Prisma.Rows.{product_key, decrement, ProductData}
use nestjs_order_api.Prisma.Effects.{Oracle}
use nestjs_order_api.Prisma.Laws.{documented}
use nestjs_order_api.Services.{no_product}
use nestjs_order_api.Order.Cart.{create_order, find_one}
use nestjs_order_api.Order.Lifecycle.{
  verify_stock, checkout_order, deduct_stock, payment_received, complete_order,
}
use nestjs_order_api.Product
use nestjs_order_api.Product.{CreateProductDto}
use nestjs_order_api.Order.Machine.Bystanders.{
  IsUuid, IsBystander, >>=-IsBystander, guarded-IsBystander, rewrite_product-IsBystander,
  reads-IsBystander, or_throw-IsBystander, throw_if-IsBystander, leaving,
}

module _ {E : Type 0} (o : Oracle E) (ids : IsUuid o) where
  pub create_order-IsBystander :
      (user tenant : String) → IsBystander o ids (create_order (documented o) user tenant)
  unfolding create_order documented
  create_order-IsBystander user tenant = search leaving

  verify_stock-IsBystander :
      (tenant : String) (items : List OrderItem)
      → IsBystander o ids (verify_stock (documented o) tenant items)
  unfolding verify_stock documented
  verify_stock-IsBystander tenant [] = search leaving
  verify_stock-IsBystander tenant (i ∷ items) =
      >>=-IsBystander o ids _ _
        (guarded-IsBystander o ids tenant _
          (reads-IsBystander o ids (λ t. find product_key i.product_id t.products)))
        λ found.
          >>=-IsBystander o ids _ _ (or_throw-IsBystander o ids found (no_product i.product_id))
            λ p.
              >>=-IsBystander o ids _ _ (throw_if-IsBystander o ids _ _)
                λ _. verify_stock-IsBystander tenant items

  pub checkout_order-IsBystander :
      (id user tenant : String) → IsBystander o ids (checkout_order (documented o) id user tenant)
  unfolding checkout_order documented
  checkout_order-IsBystander id user tenant = search (leaving, verify_stock-IsBystander) depth 14

  deduct_stock-IsBystander :
      (tenant : String) (items : List OrderItem)
      → IsBystander o ids (deduct_stock (documented o) tenant items)
  unfolding deduct_stock documented
  deduct_stock-IsBystander tenant [] = search leaving
  deduct_stock-IsBystander tenant (i ∷ items) =
      >>=-IsBystander o ids _ _
        (guarded-IsBystander o ids tenant _
          (rewrite_product-IsBystander o ids i.product_id (decrement i.quantity)))
        λ _. deduct_stock-IsBystander tenant items

  pub payment_received-IsBystander :
      (id user tenant : String) → IsBystander o ids (payment_received (documented o) id user tenant)
  unfolding payment_received documented
  payment_received-IsBystander id user tenant = search (leaving, deduct_stock-IsBystander) depth 14

  pub complete_order-IsBystander :
      (id user tenant : String) → IsBystander o ids (complete_order (documented o) id user tenant)
  unfolding complete_order documented
  complete_order-IsBystander id user tenant = search leaving depth 14

  pub create_product-IsBystander :
      (context : Option String) (dto : CreateProductDto)
      → IsBystander o ids (Product.create (documented o) context dto)
  unfolding Product.create documented
  create_product-IsBystander none dto = search leaving
  create_product-IsBystander (some code) dto = elim (Bool-cases (code === "")) [
    | inl e ↦ rw e (search leaving)
    | inr e ↦ rw e (search leaving)
  ]

  pub update_product-IsBystander :
      (id tenant : String) (dto : ProductData)
      → IsBystander o ids (Product.update (documented o) id dto tenant)
  unfolding Product.update Product.find_one documented
  update_product-IsBystander id tenant dto = search leaving depth 12

  pub remove_product-IsBystander :
      (id tenant : String) → IsBystander o ids (Product.remove (documented o) id tenant)
  unfolding Product.remove Product.find_one documented
  remove_product-IsBystander id tenant = search leaving depth 12

  pub show_order-IsBystander :
      (id user : String) → IsBystander o ids (find_one (documented o) id user)
  unfolding find_one documented
  show_order-IsBystander id user = search leaving

  pub show_product-IsBystander :
      (id tenant : String) → IsBystander o ids (Product.find_one (documented o) id tenant)
  unfolding Product.find_one documented
  show_product-IsBystander id tenant = search leaving depth 12

  pub list_products-IsBystander :
      (tenant : String) (page per_page : ℕ)
      → IsBystander o ids (Product.find_all (documented o) tenant page per_page)
  unfolding Product.find_all documented
  list_products-IsBystander tenant page per_page = search leaving depth 12
