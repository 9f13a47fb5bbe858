-- ===== src/Order/Status.antt =====
-- Tests on `OrderStatus`.
use nestjs_order_api.Base.{Bool, true, false}
use nestjs_order_api.Schema.{OrderStatus, pending, waiting_for_payment, paid, complete, cancelled}

abbrev pub status_eq : OrderStatus → OrderStatus → Bool
status_eq pending pending = true
status_eq waiting_for_payment waiting_for_payment = true
status_eq paid paid = true
status_eq complete complete = true
status_eq cancelled cancelled = true
status_eq _ _ = false
