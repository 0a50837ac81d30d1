-- ===== src/AtomicFile/Existing.antt =====
-- atomicfile/write.go: WriteNew changes no file that is there.
use crawlledger.AtomicFile.{
  FileError, cancelled, invalid_name, write_failed, publish_failed, invalid_basename,
  create_temporary, with_cleanup, cleanup, fill_new, link_file, warnings, write_new,
}
use crawlledger.AtomicFile.Calls.{
  Disk, Action, fail, after, ◌>>=◌, ◌>>◌, fail_if, next_answer, attempt, write_file, remove_file,
  try_remove, exists,
}
use crawlledger.AtomicFile.Untouched.{
  IsTarget, Keeps, attempt-Keeps, write_file-Keeps, remove_file-Keeps, try_remove-Keeps,
  next_answer_keeps, then-Keeps, create_temporary-Keeps, create_temporary-other,
}
use crawlledger.AtomicFile.Outcome.{sync_directory_files, bytes_eq-other}
use crawlledger.Base.{
  ◌≡◌, refl, ap, ◌∙◌, inl, inr, Bool, false, Option, none, some, Bool-cases, Result, ok, err, Bytes,
  bytes_eq, bytes_eq_iff, lookup, nat_key, bytes_key,
}

-- The link of a free name, by what the temporary holds.
abbrev publish_held : Bytes → Disk → Option Bytes → Result FileError (Unit {0}) × Disk
publish_held target d held = elim held [
  | none ↦ (err publish_failed, d)
  | some moved ↦ (attempt publish_failed >> write_file target moved) d
]

-- A file that is there stays as it is.
abbrev KeepsFile : {A : Type 0} → Bytes → Bytes → Action Disk FileError A → Type 0
KeepsFile name old m =
    (d : Disk) → lookup name d.files ≡ some old → lookup name (m d).1.files ≡ some old

module _ (name old : Bytes) where
  kept : {A : Type 0} (m : Action Disk FileError A) → Keeps name m → KeepsFile name old m
  kept m k d h = k d ∙ h

  bind-KeepsFile :
      {A B : Type 0} (m : Action Disk FileError A) (f : A → Action Disk FileError B)
      → KeepsFile name old m
      → ((d : Disk) (a : A) → (m d).0 ≡ ok a → KeepsFile name old (f a))
      → KeepsFile name old (m >>= f)
  bind-KeepsFile {A = A} m f k l d h = split (m d).0 refl
    where
      split :
          (r : Result FileError A)
          → (m d).0 ≡ r
          → lookup name (after r f (m d).1).1.files ≡ some old
      split (ok a) e = l d a e (m d).1 (k d h)
      split (err failure) e = k d h

  with_cleanup-KeepsFile :
      (temp : Bytes) (m : Action Disk FileError (Unit {0}))
      → bytes_eq name temp ≡ false
      → KeepsFile name old m
      → KeepsFile name old (with_cleanup temp m)
  unfolding with_cleanup cleanup
  with_cleanup-KeepsFile temp m a k d h = split (m d).0
    where
      split :
          (r : Result FileError (Unit {0}))
          → lookup name (cleanup temp r (m d).1).1.files ≡ some old
      split (ok done) = k d h
      split (err failure) =
          then-Keeps name (try_remove temp) (fail failure) (try_remove-Keeps name temp a)
            (λ u. refl) (m d).1
          ∙ k d h

  free_other :
      (target : Bytes) (d : Disk)
      → lookup name d.files ≡ some old
      → exists d target ≡ false
      → bytes_eq target name ≡ false
  free_other target d h free = elim (Bool-cases (bytes_eq target name)) [
    | inr other ↦ other
    | inl same ↦
        let e = (bytes_eq_iff target name).0 same in
        let f = rw e at free in cc (rw (exists, h) at f)
  ]

  -- The link fails if the name is taken.
  link_file-KeepsFile : (temp target : Bytes) → KeepsFile name old (link_file temp target)
  unfolding link_file
  link_file-KeepsFile temp target d h = elim (Bool-cases (exists d target)) [
    | inl taken ↦ rw taken h
    | inr free ↦ rw free (by_held (lookup temp d.files) free)
  ]
    where
      by_held :
          (held : Option Bytes)
          → exists d target ≡ false
          → lookup name (publish_held target d held).1.files ≡ some old
      by_held none free = h
      by_held (some moved) free =
          then-Keeps name (attempt publish_failed) (write_file target moved)
            (attempt-Keeps name publish_failed)
            (write_file-Keeps name target moved (free_other target d h free)) d
          ∙ h

  fill_new-Keeps :
      (temp content : Bytes) → bytes_eq temp name ≡ false → Keeps name (fill_new temp content)
  unfolding fill_new
  fill_new-Keeps temp content a =
      let w = attempt-Keeps name write_failed in
      let c = attempt-Keeps name cancelled in
      let last = attempt write_failed >> attempt cancelled in
      let rest = attempt cancelled >> (attempt write_failed >> last) in
      then-Keeps name (attempt write_failed) (write_file temp content >> rest) w (
        then-Keeps name (write_file temp content) rest (write_file-Keeps name temp content a) (
          then-Keeps name (attempt cancelled) (attempt write_failed >> last) c (
            then-Keeps name (attempt write_failed) last w
              (then-Keeps name (attempt write_failed) (attempt cancelled) w c))))

  warnings-Keeps : (temp : Bytes) → bytes_eq name temp ≡ false → Keeps name (warnings temp)
  unfolding warnings
  warnings-Keeps temp a d =
      let same = ap (lookup name) (next_answer_keeps d) in
      elim (Bool-cases (next_answer d).0) [
        | inl fine ↦ rw fine (
            sync_directory_files (remove_file {E = FileError} temp (next_answer d).1).1 name
            ∙ (remove_file-Keeps name temp a (next_answer d).1 ∙ same))
        | inr failed ↦ rw failed (sync_directory_files (next_answer d).1 name ∙ same)
      ]

  publish-KeepsFile :
      (target content temp : Bytes)
      → bytes_eq name temp ≡ false
      → KeepsFile name old (
          with_cleanup temp (with_cleanup temp (fill_new temp content >> link_file temp target))
          >> warnings temp)
  publish-KeepsFile target content temp a =
      bind-KeepsFile
        (with_cleanup temp (with_cleanup temp (fill_new temp content >> link_file temp target)))
        (λ ignored. warnings temp)
        (with_cleanup-KeepsFile temp
          (with_cleanup temp (fill_new temp content >> link_file temp target)) a
          (with_cleanup-KeepsFile temp (fill_new temp content >> link_file temp target) a (
            bind-KeepsFile (fill_new temp content) (λ ignored. link_file temp target)
              (kept (fill_new temp content)
                (fill_new-Keeps temp content (bytes_eq-other name temp a)))
              (λ d u e. link_file-KeepsFile temp target))))
        (λ d u e. kept (warnings temp) (warnings-Keeps temp a))

  -- Whatever the calls answer, WriteNew leaves every file that is there and is not a temporary as it
  -- is, one of the name that it writes included.
  pub write_new-existing :
      (target content : Bytes) (d : Disk)
      → IsTarget name
      → lookup name d.files ≡ some old
      → lookup name (write_new target content d).1.files ≡ some old
  unfolding write_new
  write_new-existing target content d t h =
      let publish : Bytes → Action Disk FileError (Bool × Bool) = λ temp.
        with_cleanup temp (with_cleanup temp (fill_new temp content >> link_file temp target))
        >> warnings temp in
      let checked = fail_if (invalid_basename target) invalid_name in
      bind-KeepsFile (attempt cancelled) (λ ignored. checked >> (create_temporary 10 >>= publish))
        (kept (attempt cancelled) (attempt-Keeps name cancelled))
        (λ a u e.
          bind-KeepsFile checked (λ ignored. create_temporary 10 >>= publish)
            (kept checked (λ b. refl))
            (λ b v f.
              bind-KeepsFile (create_temporary 10) publish
                (kept (create_temporary 10) (create_temporary-Keeps name t 10))
                (λ c temp g.
                  publish-KeepsFile target content temp
                    (create_temporary-other name t 10 c temp g))))
        d h
