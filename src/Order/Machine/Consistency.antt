-- ===== src/Order/Machine/Consistency.antt =====
-- About runs of events: the lines of orders, where the database gives each line an id of its own.
use mathlib.Core.Path.{subst}
use nestjs_order_api.Base.{
  ℕ, ◌+◌, ◌≤◌, ◌<◌, String, false, Option, none, some, List, [], ◌∷◌, ◌++◌, map, All, ◌≡◌, ◌≢◌, ◌⊎◌,
  refl, sym, ap, ◌∙◌, arith, inl, inr, select, eq_iff, ◌===◌,
}
use nestjs_order_api.Schema.{Order, OrderItem, pending}
use nestjs_order_api.Prisma.{World, Prisma}
use nestjs_order_api.Base.Keyed.{find}
use nestjs_order_api.Prisma.Rows.{order_key, item_key, of_line, of_order, first, items_of}
use nestjs_order_api.Prisma.Effects.{Oracle}
use nestjs_order_api.Prisma.Laws.{IsPrisma, IsPrisma-eq, documented}
use nestjs_order_api.Rabbit.{Broker}
use nestjs_order_api.Rabbit.Laws.{IsBroker, IsBroker-eq, documented_broker}
use nestjs_order_api.Order.Cart.{AddItemDto}
use nestjs_order_api.Order.Adding.{lines_after, at_write}
use nestjs_order_api.Order.Machine.{
  Event, creates, adds, checks_out, pays, completes, asks_processing, asks_completion,
  delivers_processing, delivers_completed, creates_product, updates_product, removes_product,
  shows_order, shows_product, lists_products, handle, IsOther, Event-cases, Reached, here, next,
}
use nestjs_order_api.Order.Machine.Keys.{
  Distinct, All-append_one, Distinct-append, keys-append, keys-update, select-append, first_fits,
  select-update,
}
use nestjs_order_api.Order.Machine.Bystanders.{IsUuid, Kept}
use nestjs_order_api.Order.Machine.Lines.{
  create_order-IsBystander, checkout_order-IsBystander, payment_received-IsBystander,
  complete_order-IsBystander, create_product-IsBystander, update_product-IsBystander,
  remove_product-IsBystander, show_order-IsBystander, show_product-IsBystander,
  list_products-IsBystander,
}
use nestjs_order_api.Order.Machine.Messages.{
  asks_processing-IsBystander, asks_completion-IsBystander, deliver_processing-Kept,
  deliver_completed-Kept,
}
use nestjs_order_api.Order.Machine.Writing.{IsWritten, add_item_outcome}
use nestjs_order_api.Order.Machine.Runs.{placed_for_good}

module _ {E : Type 0} (o : Oracle E) (ids : IsUuid o) where
  -- No two lines have the same id, and every id is older than the present.
  abbrev pub IsTidy : World E → Type 0
  IsTidy w =
      Distinct (map item_key w.tables.items)
      × All (λ k. ids.serial k < ids.clock w.env) (map item_key w.tables.items)

  All-later :
      (ks : List String) (m n : ℕ)
      → m ≤ n
      → All (λ k. ids.serial k < m) ks
      → All (λ k. ids.serial k < n) ks
  All-later [] m n h a = tt
  All-later (k ∷ ks) m n h (a, as_) = (omega arith, All-later ks m n h as_)

  All-differ :
      (ks : List String) (new : String)
      → All (λ k. ids.serial k < ids.serial new) ks
      → All (λ k. (k === new) ≡ false) ks
  All-differ [] new h = tt
  All-differ (k ∷ ks) new (h, hs) = (ground (arith, eq_iff k new), All-differ ks new hs)

  Kept-IsTidy : (w w' : World E) → Kept o ids w w' → IsTidy w → IsTidy w'
  Kept-IsTidy w w' (same, aged) (distinct, old) = (
    subst (λ l. Distinct (map item_key l)) (sym same) distinct,
    subst (λ l. All (λ k. ids.serial k < ids.clock w'.env) (map item_key l)) (sym same)
        (All-later (map item_key w.tables.items) (ids.clock w.env) (ids.clock w'.env) aged old),
  )

  -- The lines of an order that another order's writing leaves alone.
  pub lines_after-others :
      (fresh order other : String) (dto : AddItemDto) (price : ℕ) (items : List OrderItem)
      (existing : Option OrderItem)
      → first (select (of_line order dto.product_id) items) ≡ existing
      → Distinct (map item_key items)
      → (order === other) ≡ false
      → select (of_order other) (lines_after fresh order dto price existing items)
        ≡ select (of_order other) items
  lines_after-others fresh order other dto price items none e d apart =
      select-append (of_order other) items _ apart
  lines_after-others fresh order other dto price items (some old) e d apart =
      let fits = first_fits (of_line order dto.product_id) items old e in
      select-update (of_line order dto.product_id) (of_order other) (old.quantity + dto.quantity)
        items old (λ i. refl) d e (ground (arith, eq_iff old.order_id order))

  lines_after-keys :
      (fresh order : String) (dto : AddItemDto) (price : ℕ) (items : List OrderItem)
      (existing : Option OrderItem)
      → (map item_key (lines_after fresh order dto price existing items) ≡ map item_key items)
        ⊎ (map item_key (lines_after fresh order dto price existing items)
            ≡ map item_key items ++ fresh ∷ [])
  lines_after-keys fresh order dto price items (some old) = inl (keys-update old.id _ items)
  lines_after-keys fresh order dto price items none = inr (keys-append items _)

  written_keys :
      (fresh : String) (before after : List String) (m n : ℕ)
      → ids.serial fresh ≡ m
      → m < n
      → Distinct before × All (λ k. ids.serial k < m) before
      → (after ≡ before) ⊎ (after ≡ before ++ fresh ∷ [])
      → Distinct after × All (λ k. ids.serial k < n) after
  written_keys fresh before after m n new aged (distinct, old) (inl same) =
      rw same (distinct, All-later before m n (omega arith) old)
  written_keys fresh before after m n new aged (distinct, old) (inr more) = rw more (
    Distinct-append before fresh distinct (All-differ before fresh (rw new old)),
    All-append_one _ before fresh (All-later before m n (omega arith) old) (omega arith),
  )

  IsWritten-IsTidy :
      (id : String) (dto : AddItemDto) (w w' : World E)
      → IsWritten o ids id dto w w'
      → IsTidy w
      → IsTidy w'
  IsWritten-IsTidy id dto w w' written tidy =
      let fresh = o.fresh_id (at_write o w) in
      let existing = first (select (of_line id dto.product_id) w.tables.items) in
      let (distinct, old) = tidy in
      let keys = lines_after-keys fresh id dto written.product.price w.tables.items existing in
      let (same, aged) = written.wrote in
      subst
        (λ l.
          Distinct (map item_key l) × All (λ k. ids.serial k < ids.clock w'.env) (map item_key l))
        (sym same)
        (written_keys fresh (map item_key w.tables.items) _ (ids.clock (at_write o w))
          (ids.clock w'.env) (ids.fresh_lem (at_write o w)) aged
          (distinct, All-later (map item_key w.tables.items) _ _ written.later old) keys)

module _ {E : Type 0} (o : Oracle E) (ids : IsUuid o) where
  -- An event leaves the lines alone, or is a call of `addItemToOrder` that writes.
  data Outcome (w : World E) (w' : World E) : Type 0 where
    kept : Kept o ids w w' → Outcome w w'
    written : (id : String) (dto : AddItemDto) → IsWritten o ids id dto w w' → Outcome w w'

  adds-Outcome :
      (id : String) (dto : AddItemDto) (w w' : World E)
      → Kept o ids w w' ⊎ IsWritten o ids id dto w w'
      → Outcome w w'
  adds-Outcome id dto w w' (inl same) = kept same
  adds-Outcome id dto w w' (inr done) = written id dto done

  pub handle-Kept :
      (e : Event)
      → IsOther e
      → (w : World E) → Kept o ids w (handle (documented o) (documented_broker o) e w)
  handle-Kept (creates user tenant) _ w = (create_order-IsBystander o ids user tenant).keeps w
  handle-Kept (adds _ _ _ _) other w = absurd other
  handle-Kept (checks_out id user tenant) _ w =
      (checkout_order-IsBystander o ids id user tenant).keeps w
  handle-Kept (pays id user tenant) _ w =
      (payment_received-IsBystander o ids id user tenant).keeps w
  handle-Kept (completes id user tenant) _ w =
      (complete_order-IsBystander o ids id user tenant).keeps w
  handle-Kept (asks_processing id user tenant) _ w =
      (asks_processing-IsBystander o ids id user tenant).keeps w
  handle-Kept (asks_completion id user tenant transaction) _ w =
      (asks_completion-IsBystander o ids id user tenant transaction).keeps w
  handle-Kept (delivers_processing payment) _ w = deliver_processing-Kept o ids payment w
  handle-Kept delivers_completed _ w = deliver_completed-Kept o ids w
  handle-Kept (creates_product context dto) _ w =
      (create_product-IsBystander o ids context dto).keeps w
  handle-Kept (updates_product id tenant dto) _ w =
      (update_product-IsBystander o ids id tenant dto).keeps w
  handle-Kept (removes_product id tenant) _ w = (remove_product-IsBystander o ids id tenant).keeps w
  handle-Kept (shows_order id user) _ w = (show_order-IsBystander o ids id user).keeps w
  handle-Kept (shows_product id tenant) _ w = (show_product-IsBystander o ids id tenant).keeps w
  handle-Kept (lists_products tenant page per_page) _ w =
      (list_products-IsBystander o ids tenant page per_page).keeps w

  outcome : (e : Event) (w : World E) → Outcome w (handle (documented o) (documented_broker o) e w)
  outcome e w = elim (Event-cases e) [
    | inl other ↦ kept (handle-Kept e other w)
    | inr (id, user, tenant, dto, same) ↦
        rw same (adds-Outcome id dto w _ (add_item_outcome o ids id user tenant dto w))
  ]

  Outcome-IsTidy : (w w' : World E) → Outcome w w' → IsTidy o ids w → IsTidy o ids w'
  Outcome-IsTidy w w' (kept same) tidy = Kept-IsTidy o ids w w' same tidy
  Outcome-IsTidy w w' (written id dto done) tidy = IsWritten-IsTidy o ids id dto w w' done tidy

  -- The lines of an order that has left PENDING.
  Outcome-lines :
      (w w' : World E)
      → Outcome w w'
      → IsTidy o ids w
      → (id : String) (r : Order) → find order_key id w.tables.orders ≡ some r
      → r.status ≢ pending
      → items_of w'.tables id ≡ items_of w.tables id
  Outcome-lines w w' (kept (same, aged)) tidy id r e placed = ap (select (of_order id)) same
  Outcome-lines w w' (written id' dto done) (distinct, old) id r e placed =
      let (same, aged) = done.wrote in
      ap (select (of_order id)) same
      ∙ lines_after-others o ids (o.fresh_id (at_write o w)) id' id dto done.product.price
          w.tables.items _ refl distinct
          (ground (arith, eq_iff id' id, done.found, done.was_pending, placed))

module _ {E : Type 0} (o : Oracle E) (ids : IsUuid o) (p : Prisma E) (laws : IsPrisma o p)
    (b : Broker E) (broker_laws : IsBroker o b) where
  handle-Outcome : (e : Event) (w : World E) → Outcome o ids w (handle p b e w)
  handle-Outcome e w = rw (IsPrisma-eq o p laws, IsBroker-eq o b broker_laws) (outcome o ids e w)

  pub Reached-IsTidy : {w w' : World E} → Reached p b w w' → IsTidy o ids w → IsTidy o ids w'
  Reached-IsTidy here tidy = tidy
  Reached-IsTidy (next {u} before e) tidy =
      Outcome-IsTidy o ids u _ (handle-Outcome e u) (Reached-IsTidy before tidy)

  -- If the database gives each new row an id of its own, and the lines at the beginning have ids of
  -- their own that it does not give again: an order that has left PENDING keeps its lines, in quantity
  -- and price, whatever events run after that, calls of the order and product services and deliveries
  -- to the order consumers, and however they end.
  pub lines_for_good :
      {w w' : World E}
      → Reached p b w w'
      → IsTidy o ids w
      → (id : String) (r : Order) → find order_key id w.tables.orders ≡ some r
      → r.status ≢ pending
      → items_of w'.tables id ≡ items_of w.tables id
  lines_for_good here tidy id r e placed = refl
  lines_for_good (next {u} before event) tidy id r e placed =
      let (s, found, still, total, owner) =
        placed_for_good o p laws b broker_laws before id r e placed in
      Outcome-lines o ids u _ (handle-Outcome event u) (Reached-IsTidy before tidy) id s found still
      ∙ lines_for_good before tidy id r e placed
