-- ===== src/AtomicFile/Filled.antt =====
-- atomicfile/write.go: a temporary that is ready to be published holds the data.
use crawlledger.AtomicFile.{
  FileError, cancelled, invalid_name, write_failed, publish_failed, invalid_basename,
  create_temporary, with_cleanup, cleanup, fill, prepare, fail, try_remove,
}
use crawlledger.AtomicFile.Calls.{
  Disk, Action, pure, after, ◌>>=◌, ◌>>◌, fail_if, attempt, write_file,
}
use crawlledger.AtomicFile.Untouched.{Keeps, attempt-Keeps, then-Keeps}
use crawlledger.Base.{
  ◌≡◌, refl, sym, ap, ◌∙◌, some, arith, if◌then◌else◌, Result, ok, err, Bytes, bytes_eq,
  bytes_eq_refl, lookup, lookup-insert, nat_key, bytes_key,
}

pub bind_ok :
    {A B : Type 0} (m : Action Disk FileError A) (f : A → Action Disk FileError B) (d : Disk)
    (b : B)
    → ((m >>= f) d).0 ≡ ok b
    → (a : A) × ((m d).0 ≡ ok a) × ((f a (m d).1).0 ≡ ok b)
bind_ok {A = A} {B = B} m f d b h = split (m d).0 refl h
  where
    split :
        (r : Result FileError A)
        → (m d).0 ≡ r
        → (after r f (m d).1).0 ≡ ok b
        → (a : A) × ((m d).0 ≡ ok a) × ((f a (m d).1).0 ≡ ok b)
    split (ok a) s g = (a, s, g)
    split (err e) s g = cc g

pub bind_run :
    {A B : Type 0} (m : Action Disk FileError A) (f : A → Action Disk FileError B) (d : Disk)
    (a : A)
    → (m d).0 ≡ ok a
    → (m >>= f) d ≡ f a (m d).1
bind_run {A = A} m f d a h = ap (λ (r : Result FileError A). after r f (m d).1) h

-- The error that follows a removal is no success.
fails_after :
    (e : FileError) (r : Result FileError (Unit {0})) (d : Disk) (u : Unit {0})
    → ¬ ((after r (λ ignored. fail {A = Unit {0}} e) d).0 ≡ ok u)
fails_after e (ok done) d u h = cc h
fails_after e (err first) d u h = cc h

-- Whenever the call succeeds, the file of the name holds the content.
abbrev Holds : Bytes → Bytes → Action Disk FileError (Unit {0}) → Type 0
Holds name content m =
    (d : Disk) (u : Unit {0}) → (m d).0 ≡ ok u → lookup name (m d).1.files ≡ some content

module _ (name content : Bytes) where
  then-Holds :
      (m f : Action Disk FileError (Unit {0})) → Holds name content f → Holds name content (m >> f)
  then-Holds m f k d u h = split (m d).0 h
    where
      split :
          (r : Result FileError (Unit {0}))
          → (after r (λ ignored. f) (m d).1).0 ≡ ok u
          → lookup name (after r (λ ignored. f) (m d).1).1.files ≡ some content
      split (ok done) g = k (m d).1 u g
      split (err e) g = cc g

  Keeps-Holds :
      (m f : Action Disk FileError (Unit {0}))
      → Holds name content m
      → Keeps name f
      → Holds name content (m >> f)
  Keeps-Holds m f k l d u h = split (m d).0 refl h
    where
      split :
          (r : Result FileError (Unit {0}))
          → (m d).0 ≡ r
          → (after r (λ ignored. f) (m d).1).0 ≡ ok u
          → lookup name (after r (λ ignored. f) (m d).1).1.files ≡ some content
      split (ok done) s g = l (m d).1 ∙ k d done s
      split (err e) s g = cc g

  write_file-Holds : Holds name content (write_file name content)
  unfolding write_file
  write_file-Holds d u h = lookup-insert name name content d.files ∙ own
    where
      own : (if bytes_eq name name then some content else lookup name d.files) ≡ some content
      own = rw (bytes_eq_refl name) refl

  with_cleanup-Holds :
      (temp : Bytes) (m : Action Disk FileError (Unit {0}))
      → Holds name content m
      → Holds name content (with_cleanup temp m)
  unfolding with_cleanup cleanup
  with_cleanup-Holds temp m k d u h = split (m d).0 refl h
    where
      split :
          (r : Result FileError (Unit {0}))
          → (m d).0 ≡ r
          → (cleanup temp r (m d).1).0 ≡ ok u
          → lookup name (cleanup temp r (m d).1).1.files ≡ some content
      split (ok done) s g = k d done s
      split (err e) s g =
          absurd (fails_after e (try_remove temp (m d).1).0 (try_remove temp (m d).1).1 u g)

  -- The data is written, and nothing after it changes the file.
  fill-Holds : Holds name content (fill name content >> attempt publish_failed)
  unfolding fill
  fill-Holds =
      let a = attempt-Keeps name in
      let last = attempt write_failed >> attempt cancelled in
      let rest = attempt cancelled >> (attempt write_failed >> last) in
      let written = write_file name content >> rest in
      Keeps-Holds (fill name content) (attempt publish_failed)
        (then-Holds (attempt write_failed) (attempt write_failed >> written) (
          then-Holds (attempt write_failed) written (
            Keeps-Holds (write_file name content) rest write_file-Holds (
              then-Keeps name (attempt cancelled) (attempt write_failed >> last) (a cancelled) (
                then-Keeps name (attempt write_failed) last (a write_failed) (
                  then-Keeps name (attempt write_failed) (attempt cancelled) (a write_failed)
                    (a cancelled)))))))
        (a publish_failed)

pub prepare_holds :
    (name content temp : Bytes) (d : Disk)
    → (prepare name content d).0 ≡ ok temp
    → lookup temp (prepare name content d).1.files ≡ some content
unfolding prepare
prepare_holds name content temp d h =
    let named : Bytes → Action Disk FileError Bytes = λ temp. pure temp in
    let ready : Bytes → Action Disk FileError (Unit {0}) =
      λ temp. with_cleanup temp (fill temp content >> attempt publish_failed) in
    let filled : Bytes → Action Disk FileError Bytes = λ temp. ready temp >> named temp in
    let checked = fail_if {S = Disk} (invalid_basename name) invalid_name in
    let rest = checked >> (create_temporary 10 >>= filled) in
    let (u, a, h1) = bind_ok (attempt cancelled) (λ ignored. rest) d temp h in
    let d1 = (attempt {E = FileError} cancelled d).1 in
    let (v, b, h2) = bind_ok checked (λ ignored. create_temporary 10 >>= filled) d1 temp h1 in
    let (made, c, h3) = bind_ok (create_temporary 10) filled d1 temp h2 in
    let d2 = (create_temporary 10 d1).1 in
    let (w, k, h4) = bind_ok (ready made) (λ ignored. named made) d2 temp h3 in
    let same : made ≡ temp = ground arith in
    let held =
      with_cleanup-Holds made content made (fill made content >> attempt publish_failed)
        (fill-Holds made content) d2 w k in
    let run : prepare name content d ≡ named made (ready made d2).1 =
      bind_run (attempt cancelled) (λ ignored. rest) d u a
      ∙ (bind_run checked (λ ignored. create_temporary 10 >>= filled) d1 v b
          ∙ (bind_run (create_temporary 10) filled d1 made c
              ∙ bind_run (ready made) (λ ignored. named made) d2 w k)) in
    ap (λ (o : Result FileError Bytes × Disk). lookup temp o.1.files) run
    ∙ (ap (λ (t : Bytes). lookup t (ready made d2).1.files) (sym same) ∙ held)
