-- ===== src/Product.antt =====
-- product/product.service.ts over the calls of one tenant's Prisma client.
pub mod Listing
pub mod Controller
pub mod Access
use nestjs_order_api.Base.{ℕ, ◌-◌, ◌*◌, String, Option, none, some, or_else, ◌===◌, if◌then◌else◌}
use nestjs_order_api.Http.{forbidden}
use nestjs_order_api.Schema.{Product}
use nestjs_order_api.Prisma.{Prisma, Action, pure, throw, ◌>>=◌, ◌>>◌, or_throw}
use nestjs_order_api.Prisma.Rows.{ProductData}
use nestjs_order_api.Page.{Page, report_page}
use nestjs_order_api.Services.{no_product, guarded}

-- A request's price is in cents.
pub record CreateProductDto : Type 0 where
  pub name : String
  pub description : Option String
  pub price : ℕ
  pub stock : Option ℕ

module _ {E : Type 0} (p : Prisma E) where
  abbrev insert : CreateProductDto → Action E Product
  insert dto = p.product_create (record {
    name = dto.name;
    description = dto.description;
    price = dto.price;
    stock = or_else dto.stock 0;
  })

  -- The first argument is the tenant context, `null` or a code.
  unfoldable pub create : Option String → CreateProductDto → Action E Product
  create none dto = insert dto
  create (some code) dto =
      if code === ""
      then throw (forbidden "Tenant context is required for ADMIN users")
      else insert dto

  unfoldable pub find_all : String → ℕ → ℕ → Action E (Page Product)
  unfolding guarded
  find_all tenant page per_page = guarded tenant (do
    total ← p.product_count
    rows ← p.product_find_many ((page - 1) * per_page) per_page
    pure (report_page rows total page per_page))

  -- The `NotFoundException` is thrown inside the `try`, so the handler sees it too.
  unfoldable pub find_one : String → String → Action E Product
  unfolding guarded
  find_one id tenant = guarded tenant (do or_throw (← p.product_find_unique id) (no_product id))

  unfoldable pub update : String → ProductData → String → Action E Product
  unfolding find_one guarded
  update id dto tenant = do find_one id tenant; guarded tenant (p.product_update id dto)

  unfoldable pub remove : String → String → Action E Product
  unfolding find_one guarded
  remove id tenant = do find_one id tenant; guarded tenant (p.product_delete id)
