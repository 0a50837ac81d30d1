-- ===== src/AtomicFile/Outcome.antt =====
-- atomicfile/write.go: what Replace and WriteNew leave behind, however their calls answer.
use crawlledger.AtomicFile.{
  FileError, cancelled, invalid_name, write_failed, publish_failed, directory_failed,
  invalid_basename, create_temporary, with_cleanup, fill, prepare, rename_file, sync_directory,
}
use crawlledger.AtomicFile.Calls.{
  Disk, Action, pure, after, ◌>>=◌, ◌>>◌, fail_if, next_answer, attempt, write_file, remove_file,
}
use crawlledger.AtomicFile.Untouched.{
  IsTarget, Keeps, attempt-Keeps, write_file-Keeps, remove_file-Keeps, bind-Keeps, then-Keeps,
  create_temporary-Keeps, create_temporary-other, with_cleanup-Keeps,
}
use crawlledger.Base.{
  ◌≡◌, refl, ap, ◌∙◌, inl, inr, true, false, Option, none, some, arith, if◌then◌else◌, Bool-cases,
  Result, ok, err, Bytes, bytes_eq, bytes_eq_iff, lookup, lookup-insert, nat_key, bytes_key,
}
use crawlledger.AtomicFile.Filled.{bind_ok}
use crawlledger.AtomicFile.Early.{
  published, FailsEarly, attempt-FailsEarly, bind-FailsEarly, create_temporary-FailsEarly,
  fill-FailsEarly, then-FailsEarly, with_cleanup-FailsEarly,
}

-- What a call has done: the file of the name is the new one or the old one, as its result tells, and
-- no other file is touched.
pub record Replaced (name content : Bytes) (d : Disk) (outcome : Result FileError (Unit {0}) × Disk)
    : Type 0 where
  pub own :
      lookup name outcome.1.files
      ≡ (if published outcome.0 then some content else lookup name d.files)
  pub others :
      (other : Bytes)
      → IsTarget other
      → bytes_eq other name ≡ false
      → lookup other outcome.1.files ≡ lookup other d.files

pub bytes_eq-other : (a b : Bytes) → bytes_eq a b ≡ false → bytes_eq b a ≡ false
bytes_eq-other a b h = ground (arith, bytes_eq_iff a b, bytes_eq_iff b a)

fill-Keeps :
    (name temp content : Bytes) → bytes_eq temp name ≡ false → Keeps name (fill temp content)
unfolding fill
fill-Keeps name temp content h =
    let a = attempt-Keeps name in
    then-Keeps name (attempt write_failed) _ (a write_failed) (
      then-Keeps name (attempt write_failed) _ (a write_failed) (
        then-Keeps name (write_file temp content) _ (write_file-Keeps name temp content h) (
          then-Keeps name (attempt cancelled) _ (a cancelled) (
            then-Keeps name (attempt write_failed) _ (a write_failed) (
              then-Keeps name (attempt write_failed) (attempt cancelled) (a write_failed)
                (a cancelled))))))

-- The part of Replace before the rename.
pub prepare-Keeps :
    (name content other : Bytes) → IsTarget other → Keeps other (prepare name content)
unfolding prepare
prepare-Keeps name content other t =
    let named : Bytes → Action Disk FileError Bytes = λ temp. pure temp in
    let filled : Bytes → Action Disk FileError Bytes =
      λ temp. with_cleanup temp (fill temp content >> attempt publish_failed) >> named temp in
    then-Keeps other (attempt cancelled)
      (fail_if (invalid_basename name) invalid_name >> (create_temporary 10 >>= filled))
      (attempt-Keeps other cancelled)
      (then-Keeps other (fail_if (invalid_basename name) invalid_name)
        (create_temporary 10 >>= filled) (λ d. refl)
        (bind-Keeps other (create_temporary 10) filled (create_temporary-Keeps other t 10)
          (λ d temp e.
            let apart = create_temporary-other other t 10 d temp e in filled_keeps temp apart)))
  where
    filled_keeps :
        (temp : Bytes)
        → bytes_eq other temp ≡ false
        → Keeps other (
            with_cleanup temp (fill temp content >> attempt publish_failed)
            >> (λ (d : Disk). (ok temp, d)))
    filled_keeps temp apart =
        then-Keeps other (with_cleanup temp (fill temp content >> attempt publish_failed))
          (λ (d : Disk). (ok temp, d))
          (with_cleanup-Keeps other t temp (fill temp content >> attempt publish_failed) apart (
            then-Keeps other (fill temp content) (attempt publish_failed)
              (fill-Keeps other temp content (bytes_eq-other other temp apart))
              (attempt-Keeps other publish_failed)))
          (λ d. refl)

pub prepare-FailsEarly : (name content : Bytes) → FailsEarly (prepare name content)
unfolding prepare
prepare-FailsEarly name content =
    let named : Bytes → Action Disk FileError Bytes = λ temp. pure temp in
    let filled : Bytes → Action Disk FileError Bytes =
      λ temp. with_cleanup temp (fill temp content >> attempt publish_failed) >> named temp in
    then-FailsEarly (attempt cancelled)
      (fail_if (invalid_basename name) invalid_name >> (create_temporary 10 >>= filled))
      (attempt-FailsEarly cancelled refl)
      (then-FailsEarly (fail_if (invalid_basename name) invalid_name)
        (create_temporary 10 >>= filled) (λ d e h. ground arith)
        (bind-FailsEarly (create_temporary 10) filled (create_temporary-FailsEarly 10) (λ temp.
          then-FailsEarly (with_cleanup temp (fill temp content >> attempt publish_failed))
            (named temp)
            (with_cleanup-FailsEarly temp (fill temp content >> attempt publish_failed) (
              then-FailsEarly (fill temp content) (attempt publish_failed)
                (fill-FailsEarly temp content) (attempt-FailsEarly publish_failed refl)))
            (λ d e h. cc h))))

pub prepare-other :
    (name content other temp : Bytes) (d : Disk)
    → IsTarget other
    → (prepare name content d).0 ≡ ok temp
    → bytes_eq other temp ≡ false
unfolding prepare
prepare-other name content other temp d t h =
    let named : Bytes → Action Disk FileError Bytes = λ temp. pure temp in
    let filled : Bytes → Action Disk FileError Bytes =
      λ temp. with_cleanup temp (fill temp content >> attempt publish_failed) >> named temp in
    let rest = fail_if (invalid_basename name) invalid_name >> (create_temporary 10 >>= filled) in
    let (u, a, h1) = bind_ok (attempt cancelled) (λ ignored. rest) d temp h in
    let d1 = (attempt {E = FileError} cancelled d).1 in
    let (v, b, h2) =
      bind_ok (fail_if (invalid_basename name) invalid_name)
        (λ ignored. create_temporary 10 >>= filled) d1 temp h1 in
    let (made, c, h3) = bind_ok (create_temporary 10) filled d1 temp h2 in
    let d2 = (create_temporary 10 d1).1 in
    let (w, k, h4) =
      bind_ok (with_cleanup made (fill made content >> attempt publish_failed))
        (λ ignored. named made) d2 temp h3 in
    let same : made ≡ temp = ground arith in
    let apart = create_temporary-other other t 10 d1 made c in rw same at apart

pub sync_directory_files :
    (d : Disk) (name : Bytes) → lookup name (sync_directory d).1.files ≡ lookup name d.files
unfolding sync_directory
sync_directory_files d name =
    let a = attempt-Keeps name directory_failed in
    then-Keeps name (attempt directory_failed)
      (attempt directory_failed >> attempt directory_failed) a
      (then-Keeps name (attempt directory_failed) (attempt directory_failed) a a) d

-- Once the name is taken, no error takes it back.
abbrev pub IsLate : Action Disk FileError (Unit {0}) → Type 0
IsLate m = (d : Disk) → published (m d).0 ≡ true

attempt-IsLate : IsLate (attempt directory_failed)
unfolding attempt
attempt-IsLate d = elim (Bool-cases (next_answer d).0) [
  | inl fine ↦ rw fine refl
  | inr failed ↦ rw failed refl
]

then-IsLate : (m f : Action Disk FileError (Unit {0})) → IsLate m → IsLate f → IsLate (m >> f)
then-IsLate m f k l d = split (m d).0 (k d)
  where
    split :
        (r : Result FileError (Unit {0}))
        → published r ≡ true
        → published (after r (λ ignored. f) (m d).1).0 ≡ true
    split (ok done) p = l (m d).1
    split (err e) p = p

pub sync_directory-IsLate : IsLate sync_directory
unfolding sync_directory
sync_directory-IsLate =
    then-IsLate (attempt directory_failed) (attempt directory_failed >> attempt directory_failed)
      attempt-IsLate
      (then-IsLate (attempt directory_failed) (attempt directory_failed) attempt-IsLate
        attempt-IsLate)

pub rename_file-moves :
    (temp name held : Bytes) (d : Disk)
    → lookup temp d.files ≡ some held
    → rename_file temp name d ≡ (remove_file temp >> write_file name held) d
unfolding rename_file
rename_file-moves temp name held d h =
    ap
      (λ (o : Option Bytes). elim o [
        | none ↦ (err publish_failed, d)
        | some moved ↦ (remove_file temp >> write_file name moved) d
      ])
      h

pub rename_file_files :
    (temp name held other : Bytes) (d : Disk)
    → lookup temp d.files ≡ some held
    → bytes_eq other temp ≡ false
    → lookup other (rename_file temp name d).1.files
      ≡ (if bytes_eq name other then some held else lookup other d.files)
unfolding write_file remove_file
rename_file_files temp name held other d holds apart =
    ap (λ (o : Result FileError (Unit {0}) × Disk). lookup other o.1.files)
      (rename_file-moves temp name held d holds)
    ∙ (lookup-insert name other held (remove_file {E = FileError} temp d).1.files
        ∙ ap (λ old. if bytes_eq name other then some held else old)
            (remove_file-Keeps other temp apart d))
