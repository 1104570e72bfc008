-- ===== src/Examples/Database.antt =====
-- A database with two libraries and a film.
use muxprune.Base.{
  ℕ, ◌≡◌, refl, true, false, none, some, List, [], ◌∷◌, ◌++◌, Text, text, ℤ, pos, map, length,
}
use muxprune.Store.Tables.{Db, Library, MediaFile, Sidecar}
use muxprune.Store.Libraries.{add_library, delete_library, update_library}
use muxprune.Store.Files.{
  hardlink_policy_proceeds, upsert_media_file, touch_files_bulk, is_among, seen_at,
}
use muxprune.Store.Files.Touched.{touch_files_bulk-update_rows}
use muxprune.Store.Files.Lookup.{IsUpserted, upsert_media_file-IsUpserted, get_setting-set_setting}
use muxprune.Store.Table.{update_rows}
use muxprune.Store.Sidecars.{replace_sidecars, get_setting, set_setting}
use muxprune.Store.Browse.{like_pattern, FileFilter, list_files}
use muxprune.Store.Browse.Like.{matches_like, some_suffix}
use muxprune.Store.Browse.Search.{starts_like, matches_like-like_pattern}
use muxprune.Store.Integrity.{Consistent}
use muxprune.Store.Integrity.Steps.{
  empty_db, migrated, after_step, library_added, library_deleted, file_upserted, sidecars_replaced,
  DbReachable-Consistent,
}

abbrev pub library : Text → Library
library path = record {
  id = 0;
  name = path;
  path = path;
  kind = text "movie";
  hardlink_policy = text "skip";
  auto_scan_interval = pos 60;
  watch_enabled = true;
  last_scan_finished_at = 5;
}

abbrev pub film : ℕ → Text → MediaFile
film i path = record {
  id = i;
  library_id = 1;
  path = path;
  size = 10;
  mtime = pos 7;
  nlink = 1;
  kind = text "movie";
  series = [];
  season = pos 0;
  episode = [];
  title = text "a";
  video_codec = text "h264";
  audio_summary = text "eng";
  sub_summary = [];
  sidecar_summary = [];
  probe_json = text "{}";
  scanned_at = 5;
}

abbrev subtitle_row : Sidecar
subtitle_row = record {
  id = 0;
  file_id = 0;
  path = text "/m/a.srt";
  name = text "a.srt";
  lang = [];
  hi = false;
  forced = false;
  ext = text "srt";
  size = 3;
}

abbrev with_libraries : Db
with_libraries =
    (add_library (library (text "/n")) (add_library (library (text "/m")) empty_db).1).1

abbrev with_film : Db
with_film = (upsert_media_file 9 (film 0 (text "/m/a.mkv")) with_libraries).1

-- A library goes, and with it the film and its subtitle.
DbReachable-Consistent_example :
    Consistent (delete_library 1 (replace_sidecars 1 (subtitle_row ∷ []) with_film).1)
DbReachable-Consistent_example = DbReachable-Consistent (
    after_step
      (after_step
        (after_step
          (after_step (after_step migrated (library_added (library (text "/m"))))
            (library_added (library (text "/n"))))
          (file_upserted 9 (film 0 (text "/m/a.mkv"))))
        (sidecars_replaced 1 (subtitle_row ∷ [])))
      (library_deleted 1))

abbrev pub db : Db
db = record {
  libraries = record (library (text "/m")) { id = 1 } ∷ [];
  files = film 4 (text "/m/a.mkv") ∷ film 6 (text "/m/b.mkv") ∷ [];
  sidecars = [];
  jobs = [];
  settings = (text "theme", text "dark") ∷ [];
}

upsert_media_file-IsUpserted_example :
    (i : ℕ) × ((next : Db) × IsUpserted 9 (film 0 (text "/m/a.mkv")) db i next)
unfolding muxprune.Base.exists_in
upsert_media_file-IsUpserted_example =
    upsert_media_file-IsUpserted 9 (film 0 (text "/m/a.mkv")) db refl

touch_files_bulk-update_rows_example :
    touch_files_bulk (6 ∷ 4 ∷ []) 8 db
    ≡ record db { files = update_rows (is_among (6 ∷ 4 ∷ [])) (seen_at 8) db.files }
touch_files_bulk-update_rows_example = touch_files_bulk-update_rows (6 ∷ 4 ∷ []) 8 db

get_setting-set_setting_example :
    get_setting (text "theme") [] (set_setting (text "theme") (text "light") db) ≡ text "light"
unfolding muxprune.Base.text_eq
get_setting-set_setting_example =
    get_setting-set_setting (text "theme") (text "theme") (text "light") [] db

matches_like-like_pattern_example :
    matches_like (like_pattern (text "0%_a")) (text "10%_Ab")
    ≡ some_suffix (starts_like (text "0%_a")) (text "10%_Ab")
matches_like-like_pattern_example = matches_like-like_pattern (text "0%_a") (text "10%_Ab")

abbrev search_for : Text → Text → FileFilter
search_for query order = record {
  library_id = 1;
  query = query;
  kind = [];
  limit = pos 0;
  offset = pos 0;
  sort = text "title";
  order = order;
  hardlinks = text "no";
  subs = text "none";
}

newest_last : map MediaFile.id (list_files (search_for [] (text "DESC")) db).0 ≡ 6 ∷ 4 ∷ []
unfolding list_files muxprune.Base.keep_if
newest_last = refl

one_found : map MediaFile.id (list_files (search_for (text "B.") []) db).0 ≡ 6 ∷ []
unfolding list_files muxprune.Base.keep_if
one_found = refl

-- A library that moves loses its files; one that only changes its name keeps them.
moved : (update_library (record (library (text "/x")) { id = 1 }) db).1.files ≡ []
unfolding update_library muxprune.Base.exists_in muxprune.Base.find_first muxprune.Base.text_eq
moved = refl

renamed : length (update_library (record (library (text "/m")) { id = 1 }) db).1.files ≡ 2
unfolding update_library muxprune.Base.exists_in muxprune.Base.find_first muxprune.Base.text_eq
renamed = refl

longest_policy : hardlink_policy_proceeds 4 db ≡ false
unfolding hardlink_policy_proceeds muxprune.Base.find_first muxprune.Base.keep_if
    muxprune.Base.text_eq muxprune.Base.has_prefix
longest_policy = refl
