-- ===== src/Order/Machine/Plans.antt =====
-- The calls of the controllers and consumers as runs of events.
use nestjs_order_api.Prisma.{Prisma}
use nestjs_order_api.Order.Controller
use nestjs_order_api.Product
use nestjs_order_api.Product.{CreateProductDto}
