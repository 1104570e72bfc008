-- ===== src/Store/Browse.antt =====
-- internal/store/store.go: the queries behind the pages of the interface, `ListFiles`, `GetFile` and
-- `Stats`.
pub mod Like
pub mod Search
use muxprune.Base.{
  ℕ, zero, suc, ◌+◌, ◌≡◌, Bool, true, false, not, ◌&&◌, ◌||◌, Option, none, some, List, [], ◌∷◌,
  ◌++◌, map, Text, text, text_eq, to_lower, is_empty, ℤ, pos, pos_part, ◌+ℤ◌, ltb_ℤ, leb_ℤ, eq_ℤ,
  ltb, ◌==◌, if◌then◌else◌, length, keep_if, count_if, find_first, take, drop,
}
use muxprune.Store.Jobs.{Job, Jobs, done, is_active}
use muxprune.Store.Jobs.Listing.{clamp_offset, same_status}
use muxprune.Store.Table.{order_by}
use muxprune.Store.Tables.{Db, MediaFile, Sidecar, is_file}
use muxprune.Store.Libraries.{text_before}
use muxprune.Store.Browse.Like.{matches_like, escape_like}

pub record FileFilter : Type 0 where
  pub library_id : ℕ
  pub query : Text
  pub kind : Text
  pub limit : ℤ
  pub offset : ℤ
  pub sort : Text
  pub order : Text
  pub hardlinks : Text
  pub subs : Text

-- `"%" + escapeLike(f.Query) + "%"`
abbrev pub like_pattern : Text → Text
like_pattern query = text "%" ++ (escape_like query ++ text "%")

unfoldable pub query_holds : Text → MediaFile → Bool
unfolding matches_like escape_like
query_holds query f =
    let pattern = like_pattern query in
    matches_like pattern f.path || (matches_like pattern f.series || matches_like pattern f.title)

unfoldable pub hardlinks_hold : Text → MediaFile → Bool
unfolding text_eq
hardlinks_hold h f =
    if text_eq h (text "yes")
    then ltb 1 f.nlink
    else if text_eq h (text "no")
    then f.nlink == 1
    else true

unfoldable pub subs_hold : Text → MediaFile → Bool
unfolding text_eq is_empty
subs_hold s f =
    let embedded = not (is_empty f.sub_summary) in
    let beside = not (is_empty f.sidecar_summary) in
    if text_eq s (text "embedded")
    then embedded
    else if text_eq s (text "none_embedded")
    then not embedded
    else if text_eq s (text "sidecar")
    then beside
    else if text_eq s (text "none_sidecar")
    then not beside
    else if text_eq s (text "any")
    then embedded || beside
    else if text_eq s (text "none")
    then not embedded && not beside
    else true

-- The conditions of the `WHERE` clause, each of them absent where the filter leaves it out.
unfoldable pub is_selected : FileFilter → MediaFile → Bool
unfolding query_holds hardlinks_hold subs_hold is_empty text_eq
is_selected q f =
    (q.library_id == 0 || f.library_id == q.library_id)
    && ((is_empty q.kind || text_eq f.kind q.kind)
        && ((is_empty q.query || query_holds q.query f)
            && (hardlinks_hold q.hardlinks f && subs_hold q.subs f)))

unfoldable pub file_limit : ℤ → ℕ
file_limit l = if leb_ℤ l (pos 0) || ltb_ℤ (pos 500) l then 200 else pos_part l

-- A column as `ORDER BY` compares it.
pub data Column : Type 0 where
  number : ℤ → Column
  words : Text → Column

unfoldable pub column_before : Column → Column → Bool
unfolding text_before
column_before (number a) (number b) = ltb_ℤ a b
column_before (words a) (words b) = text_before a b
column_before (number a) (words b) = true
column_before (words a) (number b) = false

unfoldable pub row_before : List Column → List Column → Bool
unfolding column_before
row_before (a ∷ xs) (b ∷ ys) =
    let rest = row_before xs ys in
    if column_before a b then true else if column_before b a then false else rest
row_before _ _ = false

-- The columns that the whitelist lets through, and the identifier.
unfoldable pub sort_columns : Text → MediaFile → List Column
unfolding text_eq
sort_columns s f =
    if text_eq s (text "size")
    then number (pos f.size) ∷ number (pos f.id) ∷ []
    else if text_eq s (text "mtime")
    then number f.mtime ∷ number (pos f.id) ∷ []
    else if text_eq s (text "nlink")
    then number (pos f.nlink) ∷ number (pos f.id) ∷ []
    else if text_eq s (text "scanned_at")
    then number (pos f.scanned_at) ∷ number (pos f.id) ∷ []
    else if text_eq s (text "title")
    then words f.title ∷ number (pos f.id) ∷ []
    else words f.series
      ∷ number f.season
      ∷ words f.episode
      ∷ words f.title
      ∷ words f.path
      ∷ number (pos f.id)
      ∷ []

unfoldable pub comes_after : FileFilter → MediaFile → MediaFile → Bool
unfolding row_before sort_columns to_lower text_eq
comes_after q f g =
    if text_eq (to_lower q.order) (text "desc")
    then row_before (sort_columns q.sort f) (sort_columns q.sort g)
    else row_before (sort_columns q.sort g) (sort_columns q.sort f)

-- The query names neither the probe's output nor the time of the scan.
abbrev pub listed_file : MediaFile → MediaFile
listed_file f = record f { probe_json = []; scanned_at = 0 }

-- The page, and the number of all rows selected.
unfoldable pub list_files : FileFilter → Db → List MediaFile × ℕ
unfolding order_by comes_after is_selected file_limit clamp_offset
list_files q db = (
  map listed_file (
      take (file_limit q.limit) (
        drop (clamp_offset q.offset)
          (order_by (comes_after q) (keep_if (is_selected q) db.files)))),
  count_if (is_selected q) db.files,
)

-- The row, the time of the scan left out, and its sidecars by name.
unfoldable pub get_file : ℕ → Db → Option (MediaFile × List Sidecar)
unfolding order_by text_before
get_file i db = elim (find_first (is_file i) db.files) [
  | none ↦ none
  | some f ↦ some (
    record f { scanned_at = 0 },
    order_by (λ s t. text_before t.name s.name) (keep_if (λ s. s.file_id == i) db.sidecars),
  )
]

pub record Totals : Type 0 where
  pub bytes_saved : ℤ
  pub files : ℕ
  pub active_jobs : ℕ

unfoldable pub sum_saved : Jobs → ℤ
sum_saved [] = pos 0
sum_saved (j ∷ js) =
    let rest = sum_saved js in if same_status j.status done then j.bytes_saved +ℤ rest else rest

unfoldable pub stats : Db → Totals
unfolding sum_saved
stats db = record {
  bytes_saved = sum_saved db.jobs;
  files = length db.files;
  active_jobs = count_if (λ j. is_active j.status) db.jobs;
}
