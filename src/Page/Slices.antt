-- ===== src/Page/Slices.antt =====
-- About the pages of `OrderService.findAll` and `ProductService.findAll`, and the query parameters.
use nestjs_order_api.Base.{
  ℕ, zero, suc, ◌+◌, ◌-◌, ◌*◌, ◌≤◌, ◌<◌, min, String, Option, List, [], ◌++◌, length, take, drop,
  ◌≡◌, arith, length-take, length-drop, drop_all, take-nil, take-append-take, take_all, ap, ◌∙◌,
}
use nestjs_order_api.Page.{total_pages, cut_page, report_page, page_num, per_page_num}

-- Whatever the texts of the query say, the page is at least 1 and its size between 1 and 100.
pub query_bounds :
    (page per_page : Option String)
    → (1 ≤ page_num page) × (1 ≤ per_page_num per_page) × (per_page_num per_page ≤ 100)
unfolding page_num per_page_num
query_bounds page per_page = ground arith

-- The pages hold all rows, and no page fewer would.
total_pages_cover : (n k : ℕ) → 0 < k → n ≤ total_pages n k * k
unfolding total_pages
total_pages_cover n k h = grind arith

total_pages_tight : (n k : ℕ) → 0 < k → 0 < n → (total_pages n k - 1) * k < n
unfolding total_pages
total_pages_tight n k h pos_n = grind arith

total_pages_pos : (n k : ℕ) → 1 ≤ total_pages n k
unfolding total_pages
total_pages_pos n k = omega arith

mul_mono : (a b k : ℕ) → a ≤ b → a * k ≤ b * k
mul_mono a b k h = grind arith

module _ {R : Type 0} (sorted : List R) (per_page : ℕ) where
  -- The data of the pages 1, 2, ..., n, one after the other.
  abbrev pub collected : ℕ → List R
  collected zero = []
  collected (suc n) = collected n ++ (cut_page sorted (suc n) per_page).items

  collected-take :
      (n : ℕ) → n ≤ total_pages (length sorted) per_page → collected n ≡ take (n * per_page) sorted
  unfolding cut_page
  collected-take zero h = ground arith
  collected-take (suc n) h =
      let pages = total_pages (length sorted) per_page in
      let here : min (suc n) pages - 1 ≡ n = omega arith in
      let next : n * per_page + per_page ≡ suc n * per_page = omega arith in
      rw (collected-take n (omega arith), here, ← next)
        (take-append-take (n * per_page) per_page sorted)

  -- For a page size of at least 1: the pages 1 to `total_pages` of `OrderService.findAll`, one after
  -- the other, are the whole sorted list, each order once.
  pub pages_partition : 0 < per_page → collected (total_pages (length sorted) per_page) ≡ sorted
  pages_partition h =
      collected-take (total_pages (length sorted) per_page) (omega arith)
      ∙ take_all _ sorted (total_pages_cover (length sorted) per_page h)

  -- For a page size and a page of at least 1: the page that is reported lies between 1 and
  -- `total_pages`, holds at most `per_page` orders, and is empty only if there are no orders.
  pub cut_page_bounds :
      (page : ℕ)
      → 0 < per_page
      → 0 < page
      → let answer = cut_page sorted page per_page in
        (1 ≤ answer.page)
        × (answer.page ≤ answer.total_pages)
        × (length answer.items ≤ per_page)
        × (0 < length sorted → 0 < length answer.items)
  unfolding cut_page
  cut_page_bounds page h g =
      let pages = total_pages (length sorted) per_page in
      let offset = (min page pages - 1) * per_page in
      let many = total_pages_pos (length sorted) per_page in
      let size : length (take per_page (drop offset sorted))
          ≡ min per_page (length sorted - offset) =
        length-take per_page (drop offset sorted) ∙ ap (min per_page) (length-drop offset sorted) in
      (
        omega arith,
        omega arith,
        omega arith,
        λ some_rows.
            let inside : offset < length sorted = omega (
              arith,
              total_pages_tight (length sorted) per_page h some_rows,
              mul_mono (min page pages - 1) (pages - 1) per_page (omega arith),
            ) in
            omega arith,
      )

  -- The reports of the two services agree up to the last page: the page of `ProductService.findAll`
  -- that skips `(page - 1) * perPage` rows is the page of `OrderService.findAll`.
  pub report_page_within :
      (page : ℕ)
      → page ≤ total_pages (length sorted) per_page
      → report_page
          (take per_page (drop ((page - 1) * per_page) sorted))
          (length sorted)
          page
          per_page
        ≡ cut_page sorted page per_page
  unfolding cut_page report_page
  report_page_within page h =
      let here : min page (total_pages (length sorted) per_page) ≡ page = omega arith in rw here

  -- Beyond the last page, for a page size of at least 1, `ProductService.findAll` answers with no row
  -- under the number of the last page.
  pub report_page_beyond :
      (page : ℕ)
      → 0 < per_page
      → total_pages (length sorted) per_page < page
      → let answer =
          report_page
            (take per_page (drop ((page - 1) * per_page) sorted))
            (length sorted)
            page
            per_page in
        (answer.items ≡ []) × (answer.page ≡ answer.total_pages)
  unfolding report_page
  report_page_beyond page h beyond =
      let pages = total_pages (length sorted) per_page in
      let gone : drop ((page - 1) * per_page) sorted ≡ [] = drop_all _ sorted (
        omega (
          arith,
          total_pages_cover (length sorted) per_page h,
          mul_mono pages (page - 1) per_page (omega arith),
        )) in
      (rw gone (take-nil per_page), omega arith)
