-- ===== src/Store/Integrity/Changed.antt =====
-- New rows in one table of the database of internal/store/store.go, the other tables as they were.
use muxprune.Base.{List, Text, All}
use muxprune.Store.Jobs.{Jobs}
use muxprune.Store.Jobs.Rows.{HasUniqueIds}
use muxprune.Store.Table.{HasUniqueKeys}
use muxprune.Store.Tables.{Db, Library, MediaFile, Sidecar}
use muxprune.Store.Integrity.{Consistent, InLibrary, OfFile, FileExists}

pub Consistent-with_libraries :
    (ls : List Library) (db : Db)
    → HasUniqueKeys Library.id ls
    → HasUniqueKeys Library.path ls
    → All (InLibrary ls) db.files
    → Consistent db
    → Consistent (record db { libraries = ls })
Consistent-with_libraries ls db ids paths owned c = record {
  library_ids = ids;
  library_paths = paths;
  file_ids = c.file_ids;
  file_paths = c.file_paths;
  file_libraries = owned;
  sidecar_ids = c.sidecar_ids;
  sidecar_paths = c.sidecar_paths;
  sidecar_files = c.sidecar_files;
  job_ids = c.job_ids;
  job_files = c.job_files;
  setting_keys = c.setting_keys;
}

pub Consistent-with_files :
    (fs : List MediaFile) (db : Db)
    → HasUniqueKeys MediaFile.id fs
    → HasUniqueKeys MediaFile.path fs
    → All (InLibrary db.libraries) fs
    → All (OfFile fs) db.sidecars
    → All (FileExists fs) db.jobs
    → Consistent db
    → Consistent (record db { files = fs })
Consistent-with_files fs db ids paths owned sidecars jobs c = record {
  library_ids = c.library_ids;
  library_paths = c.library_paths;
  file_ids = ids;
  file_paths = paths;
  file_libraries = owned;
  sidecar_ids = c.sidecar_ids;
  sidecar_paths = c.sidecar_paths;
  sidecar_files = sidecars;
  job_ids = c.job_ids;
  job_files = jobs;
  setting_keys = c.setting_keys;
}

pub Consistent-with_sidecars :
    (rows : List Sidecar) (db : Db)
    → HasUniqueKeys Sidecar.id rows
    → HasUniqueKeys Sidecar.path rows
    → All (OfFile db.files) rows
    → Consistent db
    → Consistent (record db { sidecars = rows })
Consistent-with_sidecars rows db ids paths owned c = record {
  library_ids = c.library_ids;
  library_paths = c.library_paths;
  file_ids = c.file_ids;
  file_paths = c.file_paths;
  file_libraries = c.file_libraries;
  sidecar_ids = ids;
  sidecar_paths = paths;
  sidecar_files = owned;
  job_ids = c.job_ids;
  job_files = c.job_files;
  setting_keys = c.setting_keys;
}

pub Consistent-with_jobs :
    (js : Jobs) (db : Db)
    → HasUniqueIds js
    → All (FileExists db.files) js
    → Consistent db
    → Consistent (record db { jobs = js })
Consistent-with_jobs js db ids names c = record {
  library_ids = c.library_ids;
  library_paths = c.library_paths;
  file_ids = c.file_ids;
  file_paths = c.file_paths;
  file_libraries = c.file_libraries;
  sidecar_ids = c.sidecar_ids;
  sidecar_paths = c.sidecar_paths;
  sidecar_files = c.sidecar_files;
  job_ids = ids;
  job_files = names;
  setting_keys = c.setting_keys;
}

pub Consistent-with_settings :
    (ss : List (Text × Text)) (db : Db)
    → HasUniqueKeys (λ (kv : Text × Text). kv.0) ss
    → Consistent db
    → Consistent (record db { settings = ss })
Consistent-with_settings ss db keys c = record {
  library_ids = c.library_ids;
  library_paths = c.library_paths;
  file_ids = c.file_ids;
  file_paths = c.file_paths;
  file_libraries = c.file_libraries;
  sidecar_ids = c.sidecar_ids;
  sidecar_paths = c.sidecar_paths;
  sidecar_files = c.sidecar_files;
  job_ids = c.job_ids;
  job_files = c.job_files;
  setting_keys = keys;
}
