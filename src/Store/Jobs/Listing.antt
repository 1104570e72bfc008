-- ===== src/Store/Jobs/Listing.antt =====
-- `ListJobs`: the rows of a status, or all, page by page and the newest first.
pub mod Pages
use muxprune.Base.{
  ℕ, ◌≡◌, Bool, true, false, ◌||◌, Option, none, some, List, [], ◌∷◌, map, ℤ, pos, pos_part, ltb_ℤ,
  leb_ℤ, ltb, leb, length, keep_if, take, drop, if◌then◌else◌,
}
use muxprune.Store.Jobs.{Job, Jobs, Status, queued, running, done, failed, skipped, cancelled}

abbrev pub same_status : Status → Status → Bool
same_status queued queued = true
same_status running running = true
same_status done done = true
same_status failed failed = true
same_status skipped skipped = true
same_status cancelled cancelled = true
same_status _ _ = false

-- `none` where the status asked for is the empty text.
abbrev pub is_wanted : Option Status → Job → Bool
is_wanted none j = true
is_wanted (some s) j = same_status j.status s

unfoldable pub clamp_limit : ℤ → ℕ
clamp_limit l = if leb_ℤ l (pos 0) || ltb_ℤ (pos 500) l then 100 else pos_part l

abbrev pub max_offset : ℕ
max_offset = 100000

unfoldable pub clamp_offset : ℤ → ℕ
clamp_offset o =
    if ltb_ℤ o (pos 0) then 0 else if ltb_ℤ (pos max_offset) o then max_offset else pos_part o

-- `ORDER BY id DESC`
unfoldable pub insert_row : Job → Jobs → Jobs
insert_row j [] = j ∷ []
insert_row j (k ∷ ks) = let rest = insert_row j ks in if ltb j.id k.id then k ∷ rest else j ∷ k ∷ ks

unfoldable pub newest_first : Jobs → Jobs
unfolding insert_row
newest_first [] = []
newest_first (j ∷ js) = insert_row j (newest_first js)

abbrev pub wanted_rows : Option Status → Jobs → Jobs
wanted_rows st js = newest_first (keep_if (is_wanted st) js)

-- The query lists no file_size or file_mtime: those fields are null in what is returned.
abbrev pub listed_view : Job → Job
listed_view j = record j { file_size = none; file_mtime = none }

-- The page, and the number of all rows wanted.
unfoldable pub list_jobs : Option Status → ℤ → ℤ → Jobs → List Job × ℕ
unfolding clamp_limit clamp_offset newest_first
list_jobs st limit offset js = (
  map listed_view (take (clamp_limit limit) (drop (clamp_offset offset) (wanted_rows st js))),
  length (keep_if (is_wanted st) js),
)
