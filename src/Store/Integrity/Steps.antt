-- ===== src/Store/Integrity/Steps.antt =====
-- Every statement of internal/store/store.go as a step of the database, with the consistency of the
-- databases that the steps reach.
use muxprune.Base.{
  ℕ, ◌≡◌, refl, Bool, true, false, Option, none, some, List, [], ◌∷◌, arith, Text, All, Bool-cases,
  Option-cases, inl, inr, find_first,
}
use muxprune.Store.Payload.{Payload}
use muxprune.Store.Jobs.{
  Job, Jobs, JobType, update_where, claim_row, claim_next_job, finish_job, cancel_job, retry_row,
  retry_job, delete_job, fail_interrupted, start_job, has_id, next_id, retry_source, get_job,
}
use muxprune.Store.Jobs.Life.{
  TableStep, create, claim, finish, cancel, retry, delete, fail_all, TableStep-HasUniqueIds,
}
use muxprune.Store.Jobs.Retry.{retry_job-missing, retry_job-refused, retry_job-source}
use muxprune.Store.Table.{All-keep_if, All-append}
use muxprune.Store.Tables.{Db, Library, MediaFile, Sidecar}
use muxprune.Store.Libraries.{add_library, update_library, delete_library, mark_library_scanned}
use muxprune.Store.Files.{
  upsert_media_file, touch_file, touch_files_bulk, prune_files, prune_files_outside, is_stale,
  is_outside,
}
use muxprune.Store.Sidecars.{replace_sidecars, delete_sidecar, add_job, set_setting}
use muxprune.Store.Integrity.{Consistent, FileExists}
use muxprune.Store.Integrity.Changed.{Consistent-with_jobs}
use muxprune.Store.Integrity.Deleted.{
  delete_files-Consistent, delete_library-Consistent, update_library-Consistent,
  mark_library_scanned-Consistent, add_library-Consistent,
}
use muxprune.Store.Integrity.Replaced.{replace_sidecars-Consistent, delete_sidecar-Consistent}
use muxprune.Store.Integrity.Written.{
  upsert_media_file-Consistent, touch_file-Consistent, touch_files_bulk-Consistent,
  set_setting-Consistent, add_job-Consistent,
}

-- The creation of a job reads the files, and is a step of its own.
abbrev pub is_creation : {js ks : Jobs} → TableStep js ks → Bool
is_creation (create now n) = true
is_creation _ = false

pub data DbStep (db : Db) : Db → Type 0 where
  library_added : (l : Library) → DbStep db (add_library l db).1
  library_updated : (l : Library) → DbStep db (update_library l db).1
  library_deleted : (i : ℕ) → DbStep db (delete_library i db)
  library_scanned : (i ts : ℕ) → DbStep db (mark_library_scanned i ts db)
  file_upserted : (now : ℕ) (f : MediaFile) → DbStep db (upsert_media_file now f db).1
  file_touched :
      (i nlink : ℕ) (summary : Text) (at : ℕ) → DbStep db (touch_file i nlink summary at db)
  files_touched : (is : List ℕ) (at : ℕ) → DbStep db (touch_files_bulk is at db)
  files_pruned : (lib start : ℕ) → DbStep db (prune_files lib start db).1
  files_pruned_outside : (lib : ℕ) (root : Text) → DbStep db (prune_files_outside lib root db).1
  sidecars_replaced : (i : ℕ) (ss : List Sidecar) → DbStep db (replace_sidecars i ss db).1
  sidecar_deleted : (i : ℕ) → DbStep db (delete_sidecar i db)
  setting_set : (key value : Text) → DbStep db (set_setting key value db)
  job_added :
      (now : ℕ) (type : JobType) (i : ℕ) (path : Text) (payload : Payload)
      → DbStep db (add_job now type i path payload db).1
  job_statement :
      {js : Jobs} (st : TableStep db.jobs js)
      → is_creation st ≡ false
      → DbStep db (record db { jobs = js })

abbrev pub empty_db : Db
empty_db = record { libraries = []; files = []; sidecars = []; jobs = []; settings = [] }

-- Any number of statements, from the database as `migrate` creates it.
pub data DbReachable : Db → Type 0 where
  migrated : DbReachable empty_db
  after_step : {db next : Db} → DbReachable db → DbStep db next → DbReachable next

module _ (fs : List MediaFile) where
  update_where-FileExists :
      (p : Job → Bool) (f : Job → Job)
      → ((j : Job) → (f j).file_id ≡ j.file_id)
      → (js : Jobs) → All (FileExists fs) js
      → All (FileExists fs) (update_where p f js)
  unfolding update_where
  update_where-FileExists p f same [] h = tt
  update_where-FileExists p f same (j ∷ js) h = (
    elim (Bool-cases (p j)) [ inl e ↦ rw e (rw (same j) h.0) | inr e ↦ rw e h.0 ],
    update_where-FileExists p f same js h.1,
  )

  find_first-FileExists :
      (p : Job → Bool) (js : Jobs) (j : Job)
      → find_first p js ≡ some j
      → All (FileExists fs) js
      → FileExists fs j
  unfolding find_first
  find_first-FileExists p [] j e h = cc
  find_first-FileExists p (k ∷ js) j e h = elim (Bool-cases (p k)) [
    | inl t ↦ ground (arith, h.0)
    | inr t ↦ find_first-FileExists p js j (rw t at e) h.1
  ]

  claim_row-FileExists :
      (js : Jobs) (o : Option ℕ) → All (FileExists fs) js → All (FileExists fs) (claim_row js o).0
  claim_row-FileExists js none h = h
  claim_row-FileExists js (some i) h = update_where-FileExists (has_id i) start_job (λ j. refl) js h

  retry_job-FileExists :
      (i now : ℕ) (js : Jobs) → All (FileExists fs) js → All (FileExists fs) (retry_job i now js).1
  retry_job-FileExists i now js h = elim (Option-cases (retry_source i js)) [
    | inl e ↦ elim (Option-cases (get_job i js)) [
      | inl g ↦ rw (retry_job-missing i now js e g) h
      | inr (j, g) ↦ rw (retry_job-refused i now js e g) h
    ]
    | inr (j, e) ↦ rw (retry_job-source i now js e) (
        All-append (FileExists fs) js (retry_row (next_id js) now j) h
          (find_first-FileExists _ js j e h))
  ]

  TableStep-FileExists :
      {js ks : Jobs} (st : TableStep js ks)
      → is_creation st ≡ false
      → All (FileExists fs) js
      → All (FileExists fs) ks
  unfolding claim_next_job finish_job cancel_job delete_job fail_interrupted
  TableStep-FileExists {js} (create now n) e h = cc
  TableStep-FileExists {js} claim e h = claim_row-FileExists js _ h
  TableStep-FileExists {js} (finish i status log saved now) e h =
      update_where-FileExists _ _ (λ j. refl) js h
  TableStep-FileExists {js} (cancel i now) e h = update_where-FileExists _ _ (λ j. refl) js h
  TableStep-FileExists {js} (retry i now) e h = retry_job-FileExists i now js h
  TableStep-FileExists {js} (delete i) e h = All-keep_if (FileExists fs) _ js h
  TableStep-FileExists {js} (fail_all now) e h = update_where-FileExists _ _ (λ j. refl) js h

pub DbStep-Consistent : {db next : Db} → DbStep db next → Consistent db → Consistent next
unfolding prune_files prune_files_outside
DbStep-Consistent {db} (library_added l) c = add_library-Consistent l db c
DbStep-Consistent {db} (library_updated l) c = update_library-Consistent l db c
DbStep-Consistent {db} (library_deleted i) c = delete_library-Consistent i db c
DbStep-Consistent {db} (library_scanned i ts) c = mark_library_scanned-Consistent i ts db c
DbStep-Consistent {db} (file_upserted now f) c = upsert_media_file-Consistent now f db c
DbStep-Consistent {db} (file_touched i n s at) c = touch_file-Consistent i n s at db c
DbStep-Consistent {db} (files_touched is at) c = touch_files_bulk-Consistent is at db c
DbStep-Consistent {db} (files_pruned lib start) c =
    delete_files-Consistent (is_stale lib start) db c
DbStep-Consistent {db} (files_pruned_outside lib root) c =
    delete_files-Consistent (is_outside lib root) db c
DbStep-Consistent {db} (sidecars_replaced i ss) c = replace_sidecars-Consistent i ss db c
DbStep-Consistent {db} (sidecar_deleted i) c = delete_sidecar-Consistent i db c
DbStep-Consistent {db} (setting_set key value) c = set_setting-Consistent key value db c
DbStep-Consistent {db} (job_added now type i path payload) c =
    add_job-Consistent now type i path payload db c
DbStep-Consistent {db} (job_statement st e) c =
    Consistent-with_jobs _ db (TableStep-HasUniqueIds st c.job_ids)
      (TableStep-FileExists db.files st e c.job_files) c

empty_db-Consistent : Consistent empty_db
empty_db-Consistent = record {
  library_ids = tt;
  library_paths = tt;
  file_ids = tt;
  file_paths = tt;
  file_libraries = tt;
  sidecar_ids = tt;
  sidecar_paths = tt;
  sidecar_files = tt;
  job_ids = tt;
  job_files = tt;
  setting_keys = tt;
}

-- After any sequence of statements on a new database, failed ones included, every identifier and
-- every unique column holds no value twice, every file belongs to a library that has a row, every
-- sidecar to a file that has one, and a job names no file or one that has a row.
pub DbReachable-Consistent : {db : Db} → DbReachable db → Consistent db
DbReachable-Consistent migrated = empty_db-Consistent
DbReachable-Consistent (after_step r st) = DbStep-Consistent st (DbReachable-Consistent r)
