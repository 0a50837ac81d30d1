-- ===== src/AtomicFile/Replacement.antt =====
-- atomicfile/write.go: Replace leaves the old file or the new one.
use crawlledger.AtomicFile.Filled.{prepare_holds, bind_run}
use crawlledger.AtomicFile.{
  FileError, prepare, replace, rename_file, sync_directory, write_file, remove_file,
}
use crawlledger.AtomicFile.Calls.{write_file, remove_file, Disk, after, ◌>>◌}
use crawlledger.AtomicFile.Untouched.{IsTarget}
use crawlledger.AtomicFile.Outcome.{
  Replaced, prepare-Keeps, prepare-FailsEarly, prepare-other, sync_directory_files,
  sync_directory-IsLate, rename_file_files, rename_file-moves,
}
use crawlledger.AtomicFile.Early.{published}
use mathlib.Core.Path.{subst}
use crawlledger.Base.{
  ◌≡◌, refl, sym, ap, ◌∙◌, false, Option, some, arith, if◌then◌else◌, Result, ok, err, Bytes,
  bytes_eq, bytes_eq_iff, bytes_eq_refl, lookup, nat_key, bytes_key,
}

own_name :
    (name content : Bytes) (old : Option Bytes)
    → (if bytes_eq name name then some content else old) ≡ some content
own_name name content old = rw (bytes_eq_refl name) refl

other_name :
    (name other content : Bytes) (old : Option Bytes)
    → bytes_eq other name ≡ false
    → (if bytes_eq name other then some content else old) ≡ old
other_name name other content old h =
    ground (arith, bytes_eq_iff name other, bytes_eq_iff other name)

early_false :
    (e : FileError)
    → published {A = Bytes} (err e) ≡ false
    → published {A = Unit {0}} (err e) ≡ false
early_false e h = ground arith

module _ (name content : Bytes) (target : IsTarget name) (d : Disk) where
  -- The rename and the sync, once the temporary is complete.
  commit-Replaced :
      (temp : Bytes)
      → (prepare name content d).0 ≡ ok temp
      → Replaced name content d
          ((rename_file temp name >> sync_directory) (prepare name content d).1)
  unfolding rename_file write_file remove_file
  commit-Replaced temp e =
      let ready = (prepare name content d).1 in
      let renamed = (rename_file temp name ready).1 in
      let holds = prepare_holds name content temp d e in
      let moved : (rename_file temp name ready).0 ≡ ok tt =
        ap (λ (o : Result FileError (Unit {0}) × Disk). o.0)
          (rename_file-moves temp name content ready holds) in
      let run : (rename_file temp name >> sync_directory) ready ≡ sync_directory renamed =
        bind_run (rename_file temp name) (λ ignored. sync_directory) ready tt moved in
      subst (λ o. Replaced name content d o) (sym run)
        record {
          own = rw (sync_directory-IsLate renamed) (
              sync_directory_files renamed name
              ∙ (rename_file_files temp name content name ready holds
                    (prepare-other name content name temp d target e)
                  ∙ own_name name content (lookup name ready.files)));
          others = λ other t apart.
              sync_directory_files renamed other
              ∙ (rename_file_files temp name content other ready holds
                    (prepare-other name content other temp d t e)
                  ∙ (other_name name other content (lookup other ready.files) apart
                      ∙ prepare-Keeps name content other t d));
        }

  -- Whatever the calls answer, Replace of a name that is not a temporary leaves under that name the new
  -- content, if it succeeds or fails only to sync the directory, and else what was there before; and it
  -- changes no other file but temporaries.
  pub replace-Replaced : Replaced name content d (replace name content d)
  unfolding replace
  replace-Replaced = split (prepare name content d).0 refl
    where
      split :
          (r : Result FileError Bytes)
          → (prepare name content d).0 ≡ r
          → Replaced name content d
              (after r (λ temp. rename_file temp name >> sync_directory) (prepare name content d).1)
      split (ok temp) e = commit-Replaced temp e
      split (err early) e =
          let p = prepare-FailsEarly name content d early e in
          let q = rw e at p in
          record {
            own = rw (early_false early q) (prepare-Keeps name content name target d);
            others = λ other t apart. prepare-Keeps name content other t d;
          }
