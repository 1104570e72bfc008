-- ===== src/Store/Jobs/Listing/Pages.antt =====
-- `ListJobs`: what is on a page, and that pages follow each other without a gap.
use muxprune.Base.{
  ℕ, ◌+◌, ◌≤◌, ◌≡◌, true, Option, List, [], ◌∷◌, ◌++◌, map, ℤ, length, keep_if, drop, All,
}
use muxprune.Store.Jobs.{Job, Jobs, Status}
use muxprune.Store.Jobs.Listing.{is_wanted, clamp_limit, clamp_offset, wanted_rows, listed_view}

-- Newest first: no row has a larger identifier than one before it.
abbrev pub IsNewestFirst : Jobs → Type 0
IsNewestFirst [] = Unit
IsNewestFirst (j ∷ js) = All (λ k. k.id ≤ j.id) js × IsNewestFirst js

abbrev IsWanted : Option Status → Job → Type 0
IsWanted st j = is_wanted st j ≡ true

-- The rows wanted from the newest on, as a client sees them, after so many.
abbrev pub rows_after : Option Status → Jobs → ℕ → List Job
rows_after st js o = map listed_view (drop o (wanted_rows st js))

-- What a page is: at most 500 rows, of the status asked for, the newest first, beside the number of
-- all such rows in the table; with the rows after it, it is the rows from its offset on.
pub record IsPage (st : Option Status) (limit offset : ℤ) (js : Jobs) (page : List Job × ℕ)
    : Type 0 where
  pub short : length page.0 ≤ 500
  pub wanted : All (λ j. is_wanted st j ≡ true) page.0
  pub newest : IsNewestFirst page.0
  pub follows :
      page.0 ++ rows_after st js (clamp_offset offset + clamp_limit limit)
      ≡ rows_after st js (clamp_offset offset)
  pub total : page.1 ≡ length (keep_if (is_wanted st) js)
