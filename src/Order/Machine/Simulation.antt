-- ===== src/Order/Machine/Simulation.antt =====
-- About single events: how they move the orders that are there.
use nestjs_order_api.Base.{
  String, none, some, List, [], ◌∷◌, ◌++◌, ◌≡◌, inl, inr, refl, sym, ap, arith, eq_iff,
  Option-cases, Bool-cases, ◌===◌,
}
use mathlib.Core.Path.{subst}
use nestjs_order_api.Base.Keyed.{find, update, find-update, find-append_some}
use nestjs_order_api.Http.{Exn, Result, ok, err}
use nestjs_order_api.Schema.{Order, OrderStatus, pending, waiting_for_payment, paid, complete}
use nestjs_order_api.Prisma.{World, Prisma, Processing, Completed}
use nestjs_order_api.Prisma.Rows.{order_key, OrderData, patch_order, with_status, with_total}
use nestjs_order_api.Prisma.Effects.{Oracle, new_order}
use nestjs_order_api.Prisma.Laws.{IsPrisma, documented}
use nestjs_order_api.Services.{guarded, tenant_errors}
use nestjs_order_api.Order.Cart.{AddItemDto, create_order, add_item_to_order}
use nestjs_order_api.Order.Lifecycle.{checkout_order, payment_received, complete_order}
use nestjs_order_api.Order.Adding.{add_item_to_order_success, add_item_to_order_failure}
use nestjs_order_api.Order.Checkout.{checkout_order_success, checkout_order_failure}
use nestjs_order_api.Order.Payment.{payment_received_success, payment_received_failure}
use nestjs_order_api.Consumer.{deliver_processing, deliver_completed}
use nestjs_order_api.Consumer.Delivery.{
  completion, processed, deliver_completed_once, deliver_processing_once,
}
use nestjs_order_api.Order.Machine.{
  Step, rests, is_priced, is_checked_out, is_paid, is_completed, is_processed, is_finished,
}

-- Each order that is there is still there, after at most one step.
abbrev pub Steps : List Order → List Order → Type 0
Steps before after =
    (id : String) (r : Order)
    → find order_key id before ≡ some r
    → (s : Order) × (find order_key id after ≡ some s) × Step r s

Steps-refl : (orders : List Order) → Steps orders orders
Steps-refl orders id r e = (r, e, rests r)

pub Steps-same : (before after : List Order) → after ≡ before → Steps before after
Steps-same before after e = subst (Steps before) (sym e) (Steps-refl before)

Steps-append : (orders : List Order) (new : Order) → Steps orders (orders ++ new ∷ [])
Steps-append orders new id r e = (r, find-append_some order_key id orders new r e, rests r)

Steps-update :
    (id : String) (d : OrderData) (orders : List Order)
    → ((r : Order) → find order_key id orders ≡ some r → Step r (patch_order d r))
    → Steps orders (update order_key id (patch_order d) orders)
Steps-update id d orders move j r e = elim (Bool-cases (id === j)) [
  | inl same ↦
      let moved = find-update order_key j id (patch_order d) (λ q. refl) orders in
      (patch_order d r, ground (arith), move r (ground (arith, eq_iff id j)))
  | inr other ↦
      let kept = find-update order_key j id (patch_order d) (λ q. refl) orders in
      (r, ground (arith), rests r)
]

-- How all events but `addItemToOrder` leave the orders: as they are, with a new one, or with one that
-- has made a step and has the total that it had.
pub data Change (before after : List Order) : Type 0 where
  unchanged : after ≡ before → Change before after
  appended : (new : Order) → new.total ≡ 0 → after ≡ before ++ new ∷ [] → Change before after
  patched :
      (id : String) (d : OrderData)
      → d.total ≡ none
      → ((r : Order) → find order_key id before ≡ some r → Step r (patch_order d r))
      → after ≡ update order_key id (patch_order d) before
      → Change before after

pub Change-Steps : (before after : List Order) → Change before after → Steps before after
Change-Steps before after (unchanged e) = Steps-same before after e
Change-Steps before after (appended new t e) =
    subst (Steps before) (sym e) (Steps-append before new)
Change-Steps before after (patched id d t move e) =
    subst (Steps before) (sym e) (Steps-update id d before move)

-- The status that one row with a key has, another one has.
same_row :
    (id : String) (orders : List Order) (r s : Order) {status : OrderStatus}
    → find order_key id orders ≡ some r
    → find order_key id orders ≡ some s
    → s.status ≡ status
    → r.status ≡ status
same_row id orders r s e f h = ground arith

module _ {E : Type 0} where
  -- However an action ends, if it rewrites or keeps the orders in each case.
  pub Steps-result :
      {A : Type 0} (before : List Order) (r : Result A × World E)
      → ((a : A) (w : World E) → r ≡ (ok a, w) → Steps before w.tables.orders)
      → ((e : Exn) (w : World E) → r ≡ (err e, w) → w.tables.orders ≡ before)
      → Steps before r.1.tables.orders
  Steps-result before (ok a, w) done thrown = done a w refl
  Steps-result before (err e, w) done thrown = Steps-same before w.tables.orders (thrown e w refl)

  Change-result :
      {A : Type 0} (before : List Order) (r : Result A × World E)
      → ((a : A) (w : World E) → r ≡ (ok a, w) → Change before w.tables.orders)
      → ((e : Exn) (w : World E) → r ≡ (err e, w) → w.tables.orders ≡ before)
      → Change before r.1.tables.orders
  Change-result before (ok a, w) done thrown = done a w refl
  Change-result before (err e, w) done thrown = unchanged (thrown e w refl)

module _ {E : Type 0} (o : Oracle E) where
  pub create_order-Change :
      (user tenant : String) (w : World E)
      → Change w.tables.orders (create_order (documented o) user tenant w).1.tables.orders
  unfolding create_order documented guarded tenant_errors
  create_order-Change user tenant w = elim (Option-cases (o.fault w.env)) [
    | inr (m, down) ↦ unchanged (ground arith)
    | inl up ↦
        let new =
          new_order (o.fresh_id w.env) (o.now w.env)
            (record { user_id = user; status = pending; total = 0 }) in
        appended new refl (ground arith)
  ]

  pub complete_order-Change :
      (id user tenant : String) (w : World E)
      → Change w.tables.orders (complete_order (documented o) id user tenant w).1.tables.orders
  unfolding complete_order documented guarded tenant_errors
  complete_order-Change id user tenant w =
      Change-result w.tables.orders (complete_order (documented o) id user tenant w)
        (λ v w' run.
          patched id (with_status complete) refl (λ r e. is_completed r (ground arith))
            (ground arith))
        (λ x w' run. ground arith)

module _ {E : Type 0} (o : Oracle E) (p : Prisma E) (laws : IsPrisma o p) where
  pub add_item_to_order-Steps :
      (id user tenant : String) (dto : AddItemDto) (w : World E)
      → Steps w.tables.orders (add_item_to_order p id user dto tenant w).1.tables.orders
  add_item_to_order-Steps id user tenant dto w =
      Steps-result w.tables.orders (add_item_to_order p id user dto tenant w)
        (λ v w' run.
          let added = add_item_to_order_success o p laws id user tenant dto w run in
          subst (Steps w.tables.orders) (sym added.rewritten) (
            Steps-update id (with_total _) w.tables.orders (λ r e.
              is_priced r _
                (same_row id w.tables.orders r added.order e added.found added.was_pending))))
        (λ x w' run. (add_item_to_order_failure o p laws id user tenant dto w run).0)

  pub checkout_order-Change :
      (id user tenant : String) (w : World E)
      → Change w.tables.orders (checkout_order p id user tenant w).1.tables.orders
  checkout_order-Change id user tenant w =
      Change-result w.tables.orders (checkout_order p id user tenant w)
        (λ v w' run.
          let done = checkout_order_success o p laws id user tenant w run in
          patched id (with_status waiting_for_payment) refl
            (λ r e.
              is_checked_out r
                (same_row id w.tables.orders r done.order e done.found done.was_pending))
            (ap (λ t. t.orders) done.written))
        (λ x w' run. ap (λ t. t.orders) (checkout_order_failure o p laws id user tenant w run).0)

  pub payment_received-Change :
      (id user tenant : String) (w : World E)
      → Change w.tables.orders (payment_received p id user tenant w).1.tables.orders
  payment_received-Change id user tenant w =
      Change-result w.tables.orders (payment_received p id user tenant w)
        (λ v w' run.
          let done = payment_received_success o p laws id user tenant w run in
          patched id (with_status paid) refl
            (λ r e.
              is_paid r (same_row id w.tables.orders r done.order e done.found done.was_waiting))
            done.marked)
        (λ x w' run. (payment_received_failure o p laws id user tenant w run).0)

  pub deliver_processing-Change :
      (payment : String) (w : World E) (queue : List Processing)
      → w.processing ≡ queue
      → Change w.tables.orders (deliver_processing p payment w).tables.orders
  unfolding deliver_processing
  deliver_processing-Change payment w [] e = unchanged (rw e refl)
  deliver_processing-Change payment w (m ∷ rest) e =
      elim (deliver_processing_once o p laws payment w m rest e) [
        | inl (there, gone, written) ↦
            patched m.order_id (processed payment) refl (λ r f. is_processed r payment)
              (ap (λ t. t.orders) written)
        | inr (back, same) ↦ unchanged (ap (λ t. t.orders) same)
      ]

  pub deliver_completed-Change :
      (w : World E) (queue : List Completed)
      → w.completed ≡ queue
      → Change w.tables.orders (deliver_completed p w).tables.orders
  unfolding deliver_completed
  deliver_completed-Change w [] e = unchanged (rw e refl)
  deliver_completed-Change w (m ∷ rest) e = elim (deliver_completed_once o p laws w m rest e) [
    | inl (there, gone, written) ↦
        patched m.order_id (completion m.transaction_id) refl
          (λ r f. is_finished r m.transaction_id) (ap (λ t. t.orders) written)
    | inr (back, same) ↦ unchanged (ap (λ t. t.orders) same)
  ]
