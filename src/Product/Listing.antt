-- ===== src/Product/Listing.antt =====
-- `ProductService.findAll`: the page that it answers with, and the pages beyond the last.
use nestjs_order_api.Base.{
  ℕ, ◌-◌, ◌*◌, ◌<◌, ◌≤◌, String, List, [], length, take, drop, ◌≡◌, sym, ap, ◌∙◌, arith,
}
use nestjs_order_api.Base.Sort.Laws.{length-newest_first}
use nestjs_order_api.Http.{ok}
use nestjs_order_api.Schema.{Product}
use nestjs_order_api.Prisma.{World, Prisma}
use nestjs_order_api.Prisma.Effects.{Oracle}
use nestjs_order_api.Prisma.Laws.{IsPrisma, IsPrisma-eq, documented, product_created, catalogue}
use nestjs_order_api.Page.{Page, report_page, cut_page, total_pages}
use nestjs_order_api.Page.Slices.{report_page_within, report_page_beyond}
use nestjs_order_api.Product.{find_all}

module _ {E : Type 0} (o : Oracle E) where
  -- The products as the query that follows the count sees them, newest first.
  abbrev pub seen : World E → List Product
  seen w = catalogue (o.rank (o.next w.env)) w.tables

  length-seen : (w : World E) → length (seen w) ≡ length w.tables.products
  length-seen w = length-newest_first product_created _ ∙ length-newest_first _ w.tables.products

  find_all-report :
      (tenant : String) (page per_page : ℕ) (w : World E) {v : Page Product} {w' : World E}
      → find_all (documented o) tenant page per_page w ≡ (ok v, w')
      → (v
          ≡ report_page
              (take per_page (drop ((page - 1) * per_page) (seen w)))
              (length w.tables.products)
              page
              per_page)
        × (w'.tables ≡ w.tables)
  unfolding find_all documented
  find_all-report tenant page per_page w h = ground arith

  find_all-slice :
      (tenant : String) (page per_page : ℕ) (w : World E) {v : Page Product} {w' : World E}
      → find_all (documented o) tenant page per_page w ≡ (ok v, w')
      → v
        ≡ report_page
            (take per_page (drop ((page - 1) * per_page) (seen w)))
            (length (seen w))
            page
            per_page
  find_all-slice tenant page per_page w h =
      (find_all-report tenant page per_page w h).0
      ∙ ap
          (λ n. report_page (take per_page (drop ((page - 1) * per_page) (seen w))) n page per_page)
          (sym (length-seen w))

module _ {E : Type 0} (o : Oracle E) (p : Prisma E) (laws : IsPrisma o p) where
  -- Up to the last page, the products that are answered are that slice of the catalogue, newest
  -- first, under the page's own number; nothing is written.
  pub find_all_within :
      (tenant : String) (page per_page : ℕ) (w : World E) {v : Page Product} {w' : World E}
      → page ≤ total_pages (length w.tables.products) per_page
      → find_all p tenant page per_page w ≡ (ok v, w')
      → (v ≡ cut_page (seen o w) page per_page) × (w'.tables ≡ w.tables)
  find_all_within tenant page per_page w inside h =
      let run = rw (IsPrisma-eq o p laws) at h in
      let size = length-seen o w in
      (
        find_all-slice o tenant page per_page w run
            ∙ report_page_within (seen o w) per_page page (rw size inside),
        (find_all-report o tenant page per_page w run).1,
      )

  -- Beyond the last page, for a page size of at least 1, the answer holds no product and carries the
  -- number of the last page.
  pub find_all_beyond :
      (tenant : String) (page per_page : ℕ) (w : World E) {v : Page Product} {w' : World E}
      → 0 < per_page
      → total_pages (length w.tables.products) per_page < page
      → find_all p tenant page per_page w ≡ (ok v, w')
      → (v.items ≡ []) × (v.page ≡ v.total_pages)
  find_all_beyond tenant page per_page w h beyond run =
      let size = length-seen o w in
      let slice = find_all-slice o tenant page per_page w (rw (IsPrisma-eq o p laws) at run) in
      let (empty, last) = report_page_beyond (seen o w) per_page page h (rw size beyond) in
      (rw slice empty, rw slice last)
