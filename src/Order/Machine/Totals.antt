-- ===== src/Order/Machine/Totals.antt =====
-- About runs of events: the totals of orders.
use mathlib.Core.Path.{subst}
use nestjs_order_api.Base.{
  ℕ, String, Option, none, some, List, [], ◌∷◌, ◌++◌, All, ◌≡◌, ◌≢◌, refl, sym, ap, ◌∙◌, arith,
  Option-cases, Bool-cases, inl, inr, select, eq_iff, ◌===◌,
}
use nestjs_order_api.Http.{Exn, err}
use nestjs_order_api.Schema.{Order, OrderItem, Product}
use nestjs_order_api.Prisma.{World}
use nestjs_order_api.Base.Keyed.{find, update, find-update, find-append, find-append_some}
use nestjs_order_api.Prisma.Rows.{
  order_key, item_key, of_line, of_order, first, product_key, patch_order,
}
use nestjs_order_api.Prisma.Effects.{Oracle, set_quantity}
use nestjs_order_api.Order.Cart.{AddItemDto, order_total, add_item_to_order, write_line}
use nestjs_order_api.Prisma.Laws.{documented}
use nestjs_order_api.Order.Adding.{lines_after, at_write}
use nestjs_order_api.Order.Machine.Simulation.{Change, unchanged, appended, patched}

-- Each line is of an order that is there.
abbrev pub IsReferring : List Order → List OrderItem → Type 0
IsReferring orders items = All (λ i. find order_key i.order_id orders ≢ none) items

-- The total of each order is the sum of its lines.
abbrev pub IsTotalled : List Order → List OrderItem → Type 0
IsTotalled orders items =
    (id : String) (r : Order)
    → find order_key id orders ≡ some r
    → r.total ≡ order_total (select (of_order id) items)

-- Orders that are there stay there.
pub Change-stays :
    (before after : List Order)
    → Change before after
    → (id : String) → find order_key id before ≢ none
    → find order_key id after ≢ none
Change-stays before after (unchanged e) id h = subst (λ l. find order_key id l ≢ none) (sym e) h
Change-stays before after (appended new t e) id h = elim (Option-cases (find order_key id before)) [
  | inl missing ↦ absurd (h missing)
  | inr (r, found) ↦
      subst (λ l. find order_key id l ≢ none) (sym e)
        (ground (arith, find-append_some order_key id before new r found))
]
Change-stays before after (patched j d t move e) id h =
    subst (λ l. find order_key id l ≢ none) (sym e)
      (ground (arith, find-update order_key id j (patch_order d) (λ r. refl) before))

pub stays-IsReferring :
    (before after : List Order) (items : List OrderItem)
    → ((id : String) → find order_key id before ≢ none → find order_key id after ≢ none)
    → IsReferring before items
    → IsReferring after items
stays-IsReferring before after [] keep h = tt
stays-IsReferring before after (i ∷ items) keep (h, hs) =
    (keep i.order_id h, stays-IsReferring before after items keep hs)

-- An order that is not there has no lines.
IsReferring-none :
    (orders : List Order) (items : List OrderItem) (id : String)
    → IsReferring orders items
    → find order_key id orders ≡ none
    → select (of_order id) items ≡ []
IsReferring-none orders [] id h e = refl
IsReferring-none orders (i ∷ items) id (h, hs) e = elim (Bool-cases (i.order_id === id)) [
  | inl same ↦ absurd (h (ground (arith, eq_iff i.order_id id)))
  | inr other ↦ ground (arith, IsReferring-none orders items id hs e)
]

pub Change-IsTotalled :
    (before after : List Order) (items : List OrderItem)
    → Change before after
    → IsReferring before items
    → IsTotalled before items
    → IsTotalled after items
unfolding order_total
Change-IsTotalled before after items (unchanged e) refers totalled =
    subst (λ l. IsTotalled l items) (sym e) totalled
Change-IsTotalled before after items (appended new t e) refers totalled = λ id r found.
    let seen : find order_key id (before ++ new ∷ []) ≡ some r =
      ap (find order_key id) (sym e) ∙ found in
    elim (Option-cases (find order_key id before)) [
      | inl missing ↦
          let total : r.total ≡ 0 = ground (arith, find-append order_key id before new missing) in
          total ∙ sym (ap order_total (IsReferring-none before items id refers missing))
      | inr (s, old) ↦
          let same : r.total ≡ s.total =
            ground (arith, find-append_some order_key id before new s old) in
          same ∙ totalled id s old
    ]
Change-IsTotalled before after items (patched j d t move e) refers totalled = λ id r found.
    let seen : find order_key id (update order_key j (patch_order d) before) ≡ some r =
      ap (find order_key id) (sym e) ∙ found in
    let patched_row = find-update order_key id j (patch_order d) (λ q. refl) before in
    elim (Option-cases (find order_key id before)) [
      | inl missing ↦ absurd (ground arith)
      | inr (s, old) ↦ let same : r.total ≡ s.total = ground arith in same ∙ totalled id s old
    ]

update-IsReferring :
    (orders : List Order) (k : String) (n : ℕ) (items : List OrderItem)
    → IsReferring orders items
    → IsReferring orders (update item_key k (set_quantity n) items)
unfolding update
update-IsReferring orders k n [] h = tt
update-IsReferring orders k n (i ∷ items) (h, hs) = elim (Bool-cases (i.id === k)) [
  | inl here ↦ rw here (h, hs)
  | inr other ↦ rw other (h, update-IsReferring orders k n items hs)
]

append-IsReferring :
    (orders : List Order) (items : List OrderItem) (i : OrderItem)
    → IsReferring orders items
    → find order_key i.order_id orders ≢ none
    → IsReferring orders (items ++ i ∷ [])
append-IsReferring orders [] i h found = (found, tt)
append-IsReferring orders (j ∷ items) i (h, hs) found =
    (h, append-IsReferring orders items i hs found)

pub lines_after-IsReferring :
    (orders : List Order) (fresh order : String) (dto : AddItemDto) (price : ℕ)
    (existing : Option OrderItem) (items : List OrderItem)
    → IsReferring orders items
    → find order_key order orders ≢ none
    → IsReferring orders (lines_after fresh order dto price existing items)
lines_after-IsReferring orders fresh order dto price (some old) items h found =
    update-IsReferring orders old.id _ items h
lines_after-IsReferring orders fresh order dto price none items h found =
    append-IsReferring orders items _ h found

module _ {E : Type 0} (o : Oracle E) (up : (e : E) → o.fault e ≡ none) where
  -- If the database answers, a call that throws has written no line.
  write_line_kept :
      (id tenant : String) (dto : AddItemDto) (product : Product) (existing : Option OrderItem)
      (w : World E) (order : Order) {x : Exn} {w' : World E}
      → find order_key id w.tables.orders ≡ some order
      → write_line (documented o) id dto tenant product existing w ≡ (err x, w')
      → w'.tables.items ≡ w.tables.items
  unfolding write_line documented
  write_line_kept id tenant dto product (some old) w order found h =
      ground (arith, up w.env, up (o.next w.env), up (o.next (o.next w.env)))
  write_line_kept id tenant dto product none w order found h =
      ground (arith, up w.env, up (o.next w.env), up (o.next (o.next w.env)))

  pub add_item_kept :
      (id user tenant : String) (dto : AddItemDto) (w : World E) {x : Exn} {w' : World E}
      → add_item_to_order (documented o) id user dto tenant w ≡ (err x, w')
      → w'.tables.items ≡ w.tables.items
  unfolding add_item_to_order documented
  add_item_kept id user tenant dto w {x} {w'} h =
      let existing = first (select (of_line id dto.product_id) w.tables.items) in
      let u : World E = record w { env = at_write o w } in
      elim (Option-cases (find order_key id w.tables.orders)) [
        | inl missing ↦ ground arith
        | inr (order, found) ↦
            elim (Option-cases (find product_key dto.product_id w.tables.products)) [
              | inl missing ↦ ground arith
              | inr (product, s) ↦
                  ground (
                    arith,
                    write_line_kept id tenant dto product existing u order {x = x} {w' = w'},
                  )
            ]
      ]
