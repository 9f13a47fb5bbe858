-- ===== src/Product/Controller.antt =====
-- product/product.controller.ts: the handlers, past the guards and interceptors.
use nestjs_order_api.Base.{String, Option}
use nestjs_order_api.Schema.{Product}
use nestjs_order_api.Prisma.{Prisma, Action}
use nestjs_order_api.Prisma.Rows.{ProductData}
use nestjs_order_api.Tenant.{TenantContext}
use nestjs_order_api.Page.{Page, page_num, per_page_num}
use nestjs_order_api.Product

module _ {E : Type 0} (p : Prisma E) where
  -- The service reads the tenant context.
  unfoldable pub create_product : TenantContext → Product.CreateProductDto → Action E Product
  create_product context dto = Product.create p context dto

  -- The second and the third argument are the texts of the query.
  unfoldable pub list_products : String → (page per_page : Option String) → Action E (Page Product)
  list_products tenant page per_page =
      Product.find_all p tenant (page_num page) (per_page_num per_page)

  unfoldable pub show_product : (id tenant : String) → Action E Product
  show_product id tenant = Product.find_one p id tenant

  unfoldable pub update_product : String → ProductData → String → Action E Product
  update_product id dto tenant = Product.update p id dto tenant

  unfoldable pub remove_product : (id tenant : String) → Action E Product
  remove_product id tenant = Product.remove p id tenant
