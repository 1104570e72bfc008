-- ===== src/Store/Integrity/Rows.antt =====
-- The foreign keys of a row as the tables that they name grow, change or lose rows.
use mathlib.Core.Path.{subst}
use muxprune.Base.{
  ==_iff, ℕ, ◌≡◌, refl, Bool, true, false, ◌&&◌, Option, none, some, List, [], ◌∷◌, arith, ◌==◌,
  All, Bool-cases, inl, inr, exists_in, keep_if, if◌then◌else◌,
}
use muxprune.Store.Jobs.{Job, Jobs, update_where}
use muxprune.Store.Table.{delete_where}
use muxprune.Store.Tables.{
  Library, MediaFile, Sidecar, is_library, has_file, has_library, is_deleted, names_deleted,
  clear_file,
}
use muxprune.Store.Integrity.{InLibrary, OfFile, FileExists, names_file}

-- A file that has a row keeps it when the file is not among those deleted.
pub has_file-delete_where :
    (p : MediaFile → Bool) (fs : List MediaFile) (i : ℕ)
    → has_file fs i ≡ true
    → is_deleted p fs i ≡ false
    → has_file (delete_where p fs) i ≡ true
unfolding exists_in delete_where keep_if
has_file-delete_where p [] i h n = h
has_file-delete_where p (f ∷ fs) i h n = ground (arith, has_file-delete_where p fs i)

pub OfFile-delete_where :
    (p : MediaFile → Bool) (fs : List MediaFile) (rows : List Sidecar)
    → All (OfFile fs) rows
    → All (OfFile (delete_where p fs)) (delete_where (λ s. is_deleted p fs s.file_id) rows)
unfolding delete_where keep_if
OfFile-delete_where p fs [] h = tt
OfFile-delete_where p fs (s ∷ rows) h = elim (Bool-cases (is_deleted p fs s.file_id)) [
  | inl e ↦ rw e (OfFile-delete_where p fs rows h.1)
  | inr e ↦ rw e (has_file-delete_where p fs s.file_id h.0 e, OfFile-delete_where p fs rows h.1)
]

FileExists-cleared :
    (p : MediaFile → Bool) (fs : List MediaFile) (o : Option ℕ) (j : Job)
    → j.file_id ≡ o
    → names_file fs o ≡ true
    → FileExists (delete_where p fs) (if names_deleted p fs j then clear_file j else j)
FileExists-cleared p fs none j e h = rw e refl
FileExists-cleared p fs (some i) j e h = elim (Bool-cases (is_deleted p fs i)) [
  | inl d ↦ rw (e, d) refl
  | inr d ↦ rw (e, d) (has_file-delete_where p fs i h d)
]

pub FileExists-delete_where :
    (p : MediaFile → Bool) (fs : List MediaFile) (js : Jobs)
    → All (FileExists fs) js
    → All (FileExists (delete_where p fs)) (update_where (names_deleted p fs) clear_file js)
unfolding update_where
FileExists-delete_where p fs [] h = tt
FileExists-delete_where p fs (j ∷ js) h =
    (FileExists-cleared p fs j.file_id j refl h.0, FileExists-delete_where p fs js h.1)

-- A change of the files that keeps every file's row keeps what names it.
module _ (fs gs : List MediaFile)
    (keep : (i : ℕ) → has_file fs i ≡ true → has_file gs i ≡ true) where
  pub OfFile-kept : (rows : List Sidecar) → All (OfFile fs) rows → All (OfFile gs) rows
  OfFile-kept [] h = tt
  OfFile-kept (s ∷ rows) h = (keep s.file_id h.0, OfFile-kept rows h.1)

  names_file-kept : (o : Option ℕ) → names_file fs o ≡ true → names_file gs o ≡ true
  names_file-kept none h = h
  names_file-kept (some i) h = keep i h

  pub FileExists-kept : (js : Jobs) → All (FileExists fs) js → All (FileExists gs) js
  FileExists-kept [] h = tt
  FileExists-kept (j ∷ js) h = (names_file-kept j.file_id h.0, FileExists-kept js h.1)

pub InLibrary-kept :
    (ls ms : List Library) (keep : (i : ℕ) → has_library ls i ≡ true → has_library ms i ≡ true)
    (fs : List MediaFile)
    → All (InLibrary ls) fs
    → All (InLibrary ms) fs
InLibrary-kept ls ms keep [] h = tt
InLibrary-kept ls ms keep (f ∷ fs) h = (keep f.library_id h.0, InLibrary-kept ls ms keep fs h.1)

pub has_library-delete_where :
    (i k : ℕ) (ls : List Library)
    → has_library ls k ≡ true
    → (k == i) ≡ false
    → has_library (delete_where (is_library i) ls) k ≡ true
unfolding exists_in delete_where keep_if
has_library-delete_where i k [] h n = h
has_library-delete_where i k (l ∷ ls) h n = ground (arith, has_library-delete_where i k ls)

-- The files that a library leaves behind, once its own are gone, belong to others.
pub InLibrary-delete_where :
    (i : ℕ) (ls : List Library) (fs : List MediaFile)
    → All (InLibrary ls) fs
    → All
        (InLibrary (delete_where (is_library i) ls))
        (delete_where (λ f. f.library_id == i && has_library ls i) fs)
unfolding delete_where keep_if
InLibrary-delete_where i ls [] h = tt
InLibrary-delete_where i ls (f ∷ fs) h = elim (Bool-cases (f.library_id == i)) [
  | inl e ↦
      (let present : has_library ls i ≡ true =
          subst (λ k. has_library ls k ≡ true) ((==_iff f.library_id i).0 e) h.0 in
        rw (e, present) (InLibrary-delete_where i ls fs h.1))
  | inr e ↦
      rw e (has_library-delete_where i f.library_id ls h.0 e, InLibrary-delete_where i ls fs h.1)
]
