-- ===== src/Order/Machine/Sums.antt =====
-- About runs of events: that the total of an order is the sum of its lines.
use mathlib.Core.Path.{subst}
use nestjs_order_api.Base.{
  String, Option, none, some, List, map, ◌≡◌, refl, sym, ap, ◌∙◌, arith, Bool-cases, inl, inr,
  select, eq_iff, ◌===◌,
}
use nestjs_order_api.Http.{Result, ok, err}
use nestjs_order_api.Schema.{Order, OrderItem, Product}
use nestjs_order_api.Prisma.{World, Prisma}
use nestjs_order_api.Base.Keyed.{find, update, find-update}
use nestjs_order_api.Prisma.Rows.{
  order_key, item_key, of_line, of_order, first, items_of, patch_order, with_total,
}
use nestjs_order_api.Prisma.Effects.{Oracle}
use nestjs_order_api.Prisma.Laws.{IsPrisma, IsPrisma-eq}
use nestjs_order_api.Rabbit.{Broker}
use nestjs_order_api.Rabbit.Laws.{IsBroker, IsBroker-eq}
use nestjs_order_api.Order.Cart.{AddItemDto, order_total, add_item_to_order}
use nestjs_order_api.Order.Adding.{IsAdded, add_item_to_order_success, add_item_to_order_failure}
use nestjs_order_api.Order.Machine.{Event, handle, IsOther, Event-cases, Reached, here, next}
use nestjs_order_api.Order.Machine.Keys.{Distinct}
use nestjs_order_api.Order.Machine.Bystanders.{IsUuid, Kept}
use nestjs_order_api.Order.Machine.Runs.{handle-Change}
use nestjs_order_api.Order.Machine.Consistency.{
  IsTidy, lines_after-others, handle-Kept, Reached-IsTidy,
}
use nestjs_order_api.Order.Machine.Totals.{
  IsReferring, IsTotalled, Change-stays, stays-IsReferring, Change-IsTotalled,
  lines_after-IsReferring, add_item_kept,
}

-- Each line is of an order that is there, and the total of each order is the sum of its lines.
abbrev pub IsSummed : {E : Type 0} → World E → Type 0
IsSummed w = IsReferring w.tables.orders w.tables.items × IsTotalled w.tables.orders w.tables.items

module _ {E : Type 0} (o : Oracle E) (ids : IsUuid o) where
  IsAdded-IsSummed :
      (id user fresh : String) (dto : AddItemDto) (w w' : World E)
      → IsAdded id user fresh dto w w'
      → Distinct (map item_key w.tables.items)
      → IsSummed w
      → IsSummed w'
  IsAdded-IsSummed id user fresh dto w w' added distinct (refers, totalled) =
      let existing = first (select (of_line id dto.product_id) w.tables.items) in
      let total = order_total (items_of w'.tables id) in
      let updated : (j : String)
          → find order_key j w'.tables.orders
            ≡ find order_key j
                (update order_key id (patch_order (with_total total)) w.tables.orders) =
        λ j. ap (find order_key j) added.rewritten in
      let row : (j : String)
          → find order_key j (update order_key id (patch_order (with_total total)) w.tables.orders)
            ≡ _ =
        λ j.
          find-update order_key j id (patch_order (with_total total)) (λ r. refl) w.tables.orders in
      (
        stays-IsReferring w.tables.orders w'.tables.orders w'.tables.items
            (λ j there. ground (arith, updated j, row j))
            (subst (IsReferring w.tables.orders) (sym added.lines) (
              lines_after-IsReferring w.tables.orders fresh id dto added.product.price existing
                w.tables.items refers (ground arith))),
        λ j r found. elim (Bool-cases (id === j)) [
          | inl same ↦
              let id_j : id ≡ j = ground (arith, eq_iff id j) in
              let priced : r.total ≡ total = ground (
                arith,
                added.total,
                subst (λ k. find order_key k w'.tables.orders ≡ some r) (sym id_j) found,
              ) in
              priced ∙ ap (λ k. order_total (items_of w'.tables k)) id_j
          | inr apart ↦
              let before : find order_key j w.tables.orders ≡ some r =
                ground (arith, updated j, row j) in
              let lines =
                ap (select (of_order j)) added.lines
                ∙ lines_after-others o ids fresh id j dto added.product.price w.tables.items
                    existing refl distinct apart in
              totalled j r before ∙ sym (ap order_total lines)
        ],
      )

module _ {E : Type 0} (o : Oracle E) (ids : IsUuid o) (up : (e : E) → o.fault e ≡ none)
    (p : Prisma E) (laws : IsPrisma o p) (b : Broker E) (broker_laws : IsBroker o b) where
  adds-IsSummed :
      (id user tenant : String) (dto : AddItemDto) (w : World E)
      (r : Result (OrderItem × Option Product) × World E)
      → add_item_to_order p id user dto tenant w ≡ r
      → Distinct (map item_key w.tables.items)
      → IsSummed w
      → IsSummed r.1
  adds-IsSummed id user tenant dto w (ok v, w') run distinct summed =
      IsAdded-IsSummed o ids id user _ dto w w'
        (add_item_to_order_success o p laws id user tenant dto w run) distinct summed
  adds-IsSummed id user tenant dto w (err x, w') run distinct (refers, totalled) =
      let orders = (add_item_to_order_failure o p laws id user tenant dto w run).0 in
      let items = add_item_kept o up id user tenant dto w (rw (IsPrisma-eq o p laws) at run) in
      subst (λ (t : List Order × List OrderItem). IsReferring t.0 t.1 × IsTotalled t.0 t.1)
        (sym (λ i. (orders i, items i))) (refers, totalled)

  other-IsSummed : (e : Event) → IsOther e → (w : World E) → IsSummed w → IsSummed (handle p b e w)
  other-IsSummed e other w (refers, totalled) =
      let change = handle-Change o p laws b broker_laws e other w in
      let (items, aged) : Kept o ids w (handle p b e w) =
        rw (IsPrisma-eq o p laws, IsBroker-eq o b broker_laws) (handle-Kept o ids e other w) in
      let after = (handle p b e w).tables.orders in
      subst (λ l. IsReferring after l × IsTotalled after l) (sym items)
        (
          stays-IsReferring w.tables.orders after w.tables.items
              (Change-stays w.tables.orders after change) refers,
          Change-IsTotalled w.tables.orders after w.tables.items change refers totalled,
        )

  handle-IsSummed :
      (e : Event) (w : World E) → IsTidy o ids w → IsSummed w → IsSummed (handle p b e w)
  handle-IsSummed e w (distinct, _) summed = elim (Event-cases e) [
    | inl other ↦ other-IsSummed e other w summed
    | inr (id, user, tenant, dto, same) ↦ rw same (
        adds-IsSummed id user tenant dto w (add_item_to_order p id user dto tenant w) refl distinct
          summed)
  ]

  -- If the database and the queues answer every call, the database gives each new row an id of its own,
  -- and the lines at the beginning have ids of their own that it does not give again: then whatever
  -- events run, calls of the order and product services and deliveries to the order consumers, and
  -- however they end, each order's total stays the sum of price times quantity over its lines, and
  -- each line is of an order that is there, if that was so at the beginning.
  pub Reached-IsSummed :
      {w w' : World E} → Reached p b w w' → IsTidy o ids w → IsSummed w → IsSummed w'
  Reached-IsSummed here tidy summed = summed
  Reached-IsSummed (next {u} before e) tidy summed =
      handle-IsSummed e u (Reached-IsTidy o ids p laws b broker_laws before tidy)
        (Reached-IsSummed before tidy summed)
