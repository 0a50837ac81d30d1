-- ===== src/AtomicFile/Untouched.antt =====
-- atomicfile/write.go: the files that a step leaves alone.
use crawlledger.AtomicFile.{
  FileError, no_temporary, temporary_name, new_temporary, create_temporary, with_cleanup, cleanup,
  try_suffix,
}
use crawlledger.AtomicFile.Calls.{
  Disk, Action, pure, fail, ◌>>=◌, ◌>>◌, next_answer, attempt, write_file, remove_file, try_remove,
  exists, after,
}
use crawlledger.Base.{
  ℕ, zero, suc, ◌≡◌, refl, sym, ap, ◌∙◌, inl, inr, Bool, true, false, not, none, List, [], ◌∷◌,
  arith, if◌then◌else◌, Bool-cases, Result, ok, err, Bytes, bytes, bytes_eq, has_prefix,
  bytes_eq_iff, Assoc, lookup, lookup-insert, keep_keys, nat_key, bytes_key,
}

-- A name that is not one of the temporaries.
abbrev pub IsTarget : Bytes → Type 0
IsTarget name = has_prefix name (bytes ".crawlledger-") ≡ false

abbrev pub Keeps : {E A : Type 0} → Bytes → Action Disk E A → Type 0
Keeps name m = (d : Disk) → lookup name (m d).1.files ≡ lookup name d.files

lookup-keep_keys :
    (gone name : Bytes) (files : Assoc Bytes Bytes)
    → lookup name (keep_keys (λ other. not (bytes_eq other gone)) files)
      ≡ (if bytes_eq name gone then none else lookup name files)
unfolding lookup keep_keys
lookup-keep_keys gone name [] = ground arith
lookup-keep_keys gone name ((key, content) ∷ files) =
    let rest = lookup-keep_keys gone name files in
    ground (arith, rest, bytes_eq_iff key gone, bytes_eq_iff key name, bytes_eq_iff name gone)

pub next_answer_keeps : (d : Disk) → (next_answer d).1.files ≡ d.files
next_answer_keeps d = split d.answers refl
  where
    split : (answers : List Bool) → d.answers ≡ answers → (next_answer d).1.files ≡ d.files
    split [] e = ground arith
    split (a ∷ rest) e = ground arith

module _ (name : Bytes) where
  pub attempt-Keeps : (e : FileError) → Keeps name (attempt e)
  unfolding attempt
  attempt-Keeps e d = ap (lookup name) (next_answer_keeps d)

  pub write_file-Keeps :
      (other content : Bytes)
      → bytes_eq other name ≡ false
      → Keeps name (write_file {E = FileError} other content)
  unfolding write_file
  write_file-Keeps other content h d = rw (lookup-insert other name content d.files, h) refl

  pub remove_file-Keeps :
      (other : Bytes) → bytes_eq name other ≡ false → Keeps name (remove_file {E = FileError} other)
  unfolding remove_file
  remove_file-Keeps other h d = rw (lookup-keep_keys other name d.files, h) refl

  pub try_remove-Keeps :
      (other : Bytes) → bytes_eq name other ≡ false → Keeps name (try_remove {E = FileError} other)
  unfolding try_remove
  try_remove-Keeps other h d =
      let same = ap (lookup name) (next_answer_keeps d) in
      elim (Bool-cases (next_answer d).0) [
        | inl fine ↦ rw fine (remove_file-Keeps other h (next_answer d).1 ∙ same)
        | inr failed ↦ rw failed same
      ]

module _ {A B : Type 0} (name : Bytes) (m : Action Disk FileError A) where
  pub bind-Keeps :
      (f : A → Action Disk FileError B)
      → Keeps name m
      → ((d : Disk) (a : A) → (m d).0 ≡ ok a → Keeps name (f a))
      → Keeps name (m >>= f)
  bind-Keeps f k l d = split (m d).0 refl
    where
      split :
          (r : Result FileError A)
          → (m d).0 ≡ r
          → lookup name (after r f (m d).1).1.files ≡ lookup name d.files
      split (ok a) e = l d a e (m d).1 ∙ k d
      split (err e) h = k d

  pub then-Keeps : (f : Action Disk FileError B) → Keeps name m → Keeps name f → Keeps name (m >> f)
  then-Keeps f k l = bind-Keeps (λ ignored. f) k (λ d a e. l)

is_temporary : (suffix : Bytes) → has_prefix (temporary_name suffix) (bytes ".crawlledger-") ≡ true
unfolding temporary_name has_prefix
is_temporary suffix = refl

-- The steps of the source, for a name that is not a temporary.
module _ (name : Bytes) (target : IsTarget name) where
  pub temporary_other : (suffix : Bytes) → bytes_eq (temporary_name suffix) name ≡ false
  temporary_other suffix = elim (Bool-cases (bytes_eq (temporary_name suffix) name)) [
    | inr other ↦ other
    | inl same ↦
        let e : temporary_name suffix ≡ name = (bytes_eq_iff (temporary_name suffix) name).0 same in
        cc (is_temporary suffix, ap (λ n. has_prefix n (bytes ".crawlledger-")) e, target)
  ]

  name_other : (suffix : Bytes) → bytes_eq name (temporary_name suffix) ≡ false
  name_other suffix =
      let other = temporary_other suffix in
      elim (Bool-cases (bytes_eq name (temporary_name suffix))) [
        | inr different ↦ different
        | inl same ↦
            let e = (bytes_eq_iff name (temporary_name suffix)).0 same in
            cc ((bytes_eq_iff (temporary_name suffix) name).1 (sym e), other)
      ]

  new_temporary-Keeps : (suffix : Bytes) → Keeps name (new_temporary (temporary_name suffix))
  unfolding new_temporary
  new_temporary-Keeps suffix =
      let temp = temporary_name suffix in
      let named : Action Disk FileError Bytes = pure temp in
      then-Keeps name (attempt no_temporary) (write_file temp [] >> named)
        (attempt-Keeps name no_temporary)
        (then-Keeps name (write_file temp []) named
          (write_file-Keeps name temp [] (temporary_other suffix)) (λ d. refl))

  try_suffix-Keeps :
      (suffixes : List Bytes) (again : Action Disk FileError Bytes)
      → Keeps name again
      → Keeps name (try_suffix suffixes again)
  unfolding try_suffix
  try_suffix-Keeps [] again k d = refl
  try_suffix-Keeps (suffix ∷ rest) again k d =
      elim (Bool-cases (exists d (temporary_name suffix))) [
        | inl taken ↦ rw taken (k (record d { suffixes = rest }))
        | inr free ↦ rw free (new_temporary-Keeps suffix (record d { suffixes = rest }))
      ]

  pub create_temporary-Keeps : (attempts : ℕ) → Keeps name (create_temporary attempts)
  unfolding create_temporary
  create_temporary-Keeps zero d = refl
  create_temporary-Keeps (suc attempts) d =
      try_suffix-Keeps d.suffixes (create_temporary attempts) (create_temporary-Keeps attempts) d

  pub with_cleanup-Keeps :
      (temp : Bytes) (m : Action Disk FileError (Unit {0}))
      → bytes_eq name temp ≡ false
      → Keeps name m
      → Keeps name (with_cleanup temp m)
  unfolding with_cleanup cleanup
  with_cleanup-Keeps temp m h k d = split (m d).0
    where
      split :
          (r : Result FileError (Unit {0}))
          → lookup name (cleanup temp r (m d).1).1.files ≡ lookup name d.files
      split (ok done) = k d
      split (err failure) =
          then-Keeps name (try_remove temp) (fail failure) (try_remove-Keeps name temp h)
            (λ u. refl) (m d).1
          ∙ k d

  -- The name that was made is one of a temporary.
  new_temporary-other :
      (suffix temp : Bytes) (d : Disk)
      → (new_temporary (temporary_name suffix) d).0 ≡ ok temp
      → bytes_eq name temp ≡ false
  unfolding new_temporary attempt write_file
  new_temporary-other suffix temp d h =
      let e : temporary_name suffix ≡ temp = ground arith in let n = name_other suffix in rw e at n

  try_suffix-other :
      (suffixes : List Bytes) (again : Action Disk FileError Bytes) (d : Disk) (temp : Bytes)
      → ((t : Disk) → (again t).0 ≡ ok temp → bytes_eq name temp ≡ false)
      → (try_suffix suffixes again d).0 ≡ ok temp
      → bytes_eq name temp ≡ false
  unfolding try_suffix
  try_suffix-other [] again d temp k h = cc h
  try_suffix-other (suffix ∷ rest) again d temp k h =
      let drawn = record d { suffixes = rest } in
      elim (Bool-cases (exists d (temporary_name suffix))) [
        | inl taken ↦ k drawn (rw taken at h)
        | inr free ↦ new_temporary-other suffix temp drawn (rw free at h)
      ]

  pub create_temporary-other :
      (attempts : ℕ) (d : Disk) (temp : Bytes)
      → (create_temporary attempts d).0 ≡ ok temp
      → bytes_eq name temp ≡ false
  unfolding create_temporary
  create_temporary-other zero d temp h = cc h
  create_temporary-other (suc attempts) d temp h =
      try_suffix-other d.suffixes (create_temporary attempts) d temp
        (λ t. create_temporary-other attempts t temp) h
