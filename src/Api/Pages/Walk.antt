-- ===== src/Api/Pages/Walk.antt =====
-- A client that reads the pages of backend/src/api/mod.rs one after the other.
use denis.Api.Lists.{Pagination, resolve_page}
use denis.Api.Pages.{Page, as_i64, to_internal, list_blocked}
use denis.Api.{ApiError, ApiResponse, ok_response}
use denis.Base.Int.{pos}
use denis.Base.{
  ℕ, zero, suc, ◌+◌, ◌*◌, ◌^◌, ◌≤◌, ◌<◌, none, some, List, [], ◌++◌, Result, ok, ◌>>=◌, >>=-eq_ok,
  take, drop, length, take-add, drop-add, take-all, ◌≡◌, inl, inr, sym, ap, ◌∙◌, arith,
  Result-cases,
}
use denis.Repo.Cache.{CacheError, Lists}
use denis.Repo.Pages.{
  Paging, PagingSql, list_block_domains, count_block_domains, page_domains, blocked_table,
}
use denis.Text.{Str}

same_answer :
    {a b : ApiResponse (Page Str)}
    → Path (Result ApiError (ApiResponse (Page Str))) (ok a) (ok b)
    → a ≡ b
same_answer e = cc e

no_rows : (limit : ℕ) → 0 * limit ≡ 0
no_rows limit = omega arith

next : (n limit : ℕ) → limit + n * limit ≡ suc n * limit
next n limit = omega arith

module _ {Pool : Type 0} (pages : Paging Pool) (show : CacheError → Str) where
  abbrev asked : ℕ → ℕ → Pagination
  asked limit offset = record { limit = some limit; offset = some offset }

  abbrev items_of : ApiResponse (Page Str) → List Str
  items_of r = elim r.data_ [ some page ↦ page.items | none ↦ [] ]

  -- So many pages of a limit, from an offset on.
  unfoldable pub walk : ℕ → ℕ → ℕ → Lists Pool → Result ApiError (List Str)
  walk limit zero offset c = ok []
  walk limit (suc n) offset c = do
    page ← list_blocked pages show (asked limit offset) c
    rest ← walk limit n (offset + limit) c
    ok (items_of page ++ rest)

  small : (n : ℕ) → n < 2 ^ 63 → as_i64 n ≡ pos n
  small n h = ground arith

  resolve_asked :
      (limit offset : ℕ)
      → 1 ≤ limit
      → limit ≤ 1000
      → resolve_page (asked limit offset) ≡ (limit, offset)
  unfolding resolve_page
  resolve_asked limit offset low high = ap (λ (n : ℕ). (n, offset)) (ground arith)

  page-rows :
      (laws : PagingSql pages) (limit offset : ℕ) (c : Lists Pool) (r : ApiResponse (Page Str))
      → 1 ≤ limit
      → limit ≤ 1000
      → offset < 2 ^ 63
      → list_blocked pages show (asked limit offset) c ≡ ok r
      → items_of r ≡ take limit (drop offset (pages.ordered blocked_table c.pool))
  unfolding list_blocked list_block_domains page_domains ok_response
  page-rows laws limit offset c r low high bounded h =
      elim (Result-cases (pages.select_page blocked_table (pos limit) (pos offset) c.pool)) [
        | inl (e, failed) ↦ absurd (cc (rw failed at asked_page))
        | inr (rows, found) ↦ elim (Result-cases (count_block_domains pages c)) [
          | inl (e, failed) ↦ absurd (cc (rw (found, failed) at asked_page))
          | inr (total, counted) ↦
              let got : ok (
                    ok_response
                      (record { items = rows; total = total; limit = limit; offset = offset }))
                  ≡ ok r =
                rw (found, counted) at asked_page in
              sym (ap items_of (same_answer got))
              ∙ laws.select_page_rows blocked_table limit offset c.pool rows found
        ]
      ]
    where
      asked_page :
          (do
            items ←
                to_internal show (pages.select_page blocked_table (pos limit) (pos offset) c.pool)
            total ← to_internal show (count_block_domains pages c)
            ok (
                ok_response
                  (record { items = items; total = total; limit = limit; offset = offset })))
          ≡ ok r
      asked_page =
          rw (resolve_asked limit offset low high, small limit (omega arith), small offset bounded)
            at h

  walk-rows :
      (laws : PagingSql pages) (limit n offset : ℕ) (c : Lists Pool) (items : List Str)
      → 1 ≤ limit
      → limit ≤ 1000
      → offset + n * limit < 2 ^ 63
      → walk limit n offset c ≡ ok items
      → items ≡ take (n * limit) (drop offset (pages.ordered blocked_table c.pool))
  unfolding walk
  walk-rows laws limit zero offset c items low high bounded h =
      let none_read : items ≡ [] = cc h in
      none_read
      ∙ sym (
          ap (λ (k : ℕ). take k (drop offset (pages.ordered blocked_table c.pool))) (no_rows limit))
  walk-rows laws limit (suc n) offset c items low high bounded h =
      let (page, one, more) = >>=-eq_ok (list_blocked pages show (asked limit offset) c) _ h in
      let (rest, later, both) = >>=-eq_ok (walk limit n (offset + limit) c) _ more in
      let first = page-rows laws limit offset c page low high (omega (arith, bounded)) one in
      let others =
        walk-rows laws limit n (offset + limit) c rest low high
          (omega (arith, bounded, next n limit)) later in
      cc both
      ∙ ap (λ front. front ++ rest) first
      ∙ ap (λ back. take limit (drop offset (pages.ordered blocked_table c.pool)) ++ back)
          (others
            ∙ ap (take (n * limit)) (drop-add offset limit (pages.ordered blocked_table c.pool)))
      ∙ take-add limit (n * limit) (drop offset (pages.ordered blocked_table c.pool))
      ∙ ap (λ (k : ℕ). take k (drop offset (pages.ordered blocked_table c.pool))) (next n limit)

  -- On a database that does what SQL says, reading so many pages that they cover the block list,
  -- one after the other from its beginning, with a limit from 1 to 1,000 and below 2^63 rows in
  -- all, yields the domains of all its rows, each as often as it is there and in their order,
  -- where no query fails.
  pub walk-all :
      (laws : PagingSql pages) (limit n : ℕ) (c : Lists Pool) (items : List Str)
      → 1 ≤ limit
      → limit ≤ 1000
      → n * limit < 2 ^ 63
      → length (pages.ordered blocked_table c.pool) ≤ n * limit
      → walk limit n 0 c ≡ ok items
      → items ≡ pages.ordered blocked_table c.pool
  walk-all laws limit n c items low high bounded covers h =
      walk-rows laws limit n 0 c items low high (omega (arith, bounded)) h
      ∙ take-all (n * limit) (pages.ordered blocked_table c.pool) covers
