-- ===== src/Page.antt =====
-- Pagination: the query parameters of order.controller.ts and product.controller.ts, and the page that
-- `OrderService.findAll` and `ProductService.findAll` answer with.
mod Query
pub mod Slices
unfoldable pub use Query.*
use nestjs_order_api.Base.{ℕ, ◌+◌, ◌-◌, ◌*◌, ◌/◌, min, max, List, length, take, drop}

-- The record that both services return.
pub record Page (R : Type 0) : Type 0 where
  pub page : ℕ
  pub per_page : ℕ
  pub total : ℕ
  pub total_pages : ℕ
  pub items : List R

-- `Math.max(1, Math.ceil(total / perPage))`
unfoldable pub total_pages : ℕ → ℕ → ℕ
total_pages total per_page = max 1 ((total + per_page - 1) / per_page)

-- `OrderService.findAll` cuts the page that it reports out of the sorted orders.
unfoldable pub cut_page : {R : Type 0} → List R → ℕ → ℕ → Page R
unfolding total_pages
cut_page sorted page per_page =
    let pages = total_pages (length sorted) per_page in
    let current = min page pages in
    record {
      page = current;
      per_page = per_page;
      total = length sorted;
      total_pages = pages;
      items = take per_page (drop ((current - 1) * per_page) sorted);
    }

-- `ProductService.findAll` asks for the rows of the page that it was asked for, and reports a page
-- number of its own.
unfoldable pub report_page : {R : Type 0} → List R → ℕ → ℕ → ℕ → Page R
unfolding total_pages
report_page rows total page per_page =
    let pages = total_pages total per_page in
    record {
      page = min page pages;
      per_page = per_page;
      total = total;
      total_pages = pages;
      items = rows;
    }
