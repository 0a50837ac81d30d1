-- ===== src/AtomicFile/Early.antt =====
-- atomicfile/write.go: the errors from before a file is published.
use crawlledger.AtomicFile.{
  FileError, cancelled, invalid_name, no_temporary, write_failed, publish_failed, directory_failed,
  temporary_name, new_temporary, create_temporary, with_cleanup, cleanup, fill, try_suffix,
}
use crawlledger.AtomicFile.Calls.{
  Disk, Action, pure, after, ◌>>=◌, ◌>>◌, next_answer, attempt, write_file, remove_file, try_remove,
  exists,
}
use crawlledger.AtomicFile.Untouched.{}
use crawlledger.Base.{
  ℕ, zero, suc, ◌≡◌, refl, inl, inr, Bool, true, false, List, [], ◌∷◌, Bool-cases, Result, ok, err,
  Bytes, nat_key, bytes_key,
}

-- A call that ends well, or fails only to sync the directory, has published the file.
abbrev pub published : {A : Type 0} → Result FileError A → Bool
published (ok a) = true
published (err directory_failed) = true
published (err cancelled) = false
published (err invalid_name) = false
published (err no_temporary) = false
published (err write_failed) = false
published (err publish_failed) = false

-- An action whose errors are all from before the file is published.
abbrev pub FailsEarly : {A : Type 0} → Action Disk FileError A → Type 0
FailsEarly m = (d : Disk) (e : FileError) → (m d).0 ≡ err e → published (m d).0 ≡ false

module _ {A B : Type 0} (m : Action Disk FileError A) where
  pub bind-FailsEarly :
      (f : A → Action Disk FileError B)
      → FailsEarly m
      → ((a : A) → FailsEarly (f a))
      → FailsEarly (m >>= f)
  bind-FailsEarly f k l d e h = split (m d).0 refl h
    where
      split :
          (r : Result FileError A)
          → (m d).0 ≡ r
          → (after r f (m d).1).0 ≡ err e
          → published (after r f (m d).1).0 ≡ false
      split (ok a) s g = l a (m d).1 e g
      split (err early) s g = let p = k d early s in rw s at p

  pub then-FailsEarly :
      (f : Action Disk FileError B) → FailsEarly m → FailsEarly f → FailsEarly (m >> f)
  then-FailsEarly f k l = bind-FailsEarly (λ ignored. f) k (λ a. l)

pub attempt-FailsEarly :
    (e : FileError) → published {A = Unit {0}} (err e) ≡ false → FailsEarly (attempt e)
unfolding attempt
attempt-FailsEarly e p d f h = elim (Bool-cases (next_answer d).0) [
  | inl fine ↦ cc (rw fine at h)
  | inr failed ↦ rw failed p
]

pub fill-FailsEarly : (temp content : Bytes) → FailsEarly (fill temp content)
unfolding fill write_file
fill-FailsEarly temp content =
    let w = attempt-FailsEarly write_failed refl in
    let c = attempt-FailsEarly cancelled refl in
    let last = attempt write_failed >> attempt cancelled in
    let rest = attempt cancelled >> (attempt write_failed >> last) in
    let closed = then-FailsEarly (attempt write_failed) (attempt cancelled) w c in
    let synced = then-FailsEarly (attempt write_failed) last w closed in
    let checked = then-FailsEarly (attempt cancelled) (attempt write_failed >> last) c synced in
    then-FailsEarly (attempt write_failed)
      (attempt write_failed >> (write_file temp content >> rest)) w
      (then-FailsEarly (attempt write_failed) (write_file temp content >> rest) w
        (then-FailsEarly (write_file temp content) rest (λ d e h. cc h) checked))

pub new_temporary-FailsEarly : (temp : Bytes) → FailsEarly (new_temporary temp)
unfolding new_temporary write_file
new_temporary-FailsEarly temp =
    let named : Action Disk FileError Bytes = pure temp in
    then-FailsEarly (attempt no_temporary) (write_file temp [] >> named)
      (attempt-FailsEarly no_temporary refl) (λ d e h. cc h)

pub try_suffix-FailsEarly :
    (suffixes : List Bytes) (again : Action Disk FileError Bytes)
    → FailsEarly again
    → FailsEarly (try_suffix suffixes again)
unfolding try_suffix
try_suffix-FailsEarly [] again k d e h = refl
try_suffix-FailsEarly (suffix ∷ rest) again k d e h =
    let drawn = record d { suffixes = rest } in
    elim (Bool-cases (exists d (temporary_name suffix))) [
      | inl taken ↦ rw taken (k drawn e (rw taken at h))
      | inr free ↦ rw free (new_temporary-FailsEarly (temporary_name suffix) drawn e (rw free at h))
    ]

pub create_temporary-FailsEarly : (attempts : ℕ) → FailsEarly (create_temporary attempts)
unfolding create_temporary
create_temporary-FailsEarly zero d e h = refl
create_temporary-FailsEarly (suc attempts) d e h =
    try_suffix-FailsEarly d.suffixes (create_temporary attempts)
      (create_temporary-FailsEarly attempts) d e h

pub with_cleanup-FailsEarly :
    (temp : Bytes) (m : Action Disk FileError (Unit {0}))
    → FailsEarly m
    → FailsEarly (with_cleanup temp m)
unfolding with_cleanup cleanup try_remove remove_file
with_cleanup-FailsEarly temp m k d e h = split (m d).0 refl h
  where
    split :
        (r : Result FileError (Unit {0}))
        → (m d).0 ≡ r
        → (cleanup temp r (m d).1).0 ≡ err e
        → published (cleanup temp r (m d).1).0 ≡ false
    split (ok done) s g = cc g
    split (err early) s g =
        let p = k d early s in
        elim (Bool-cases (next_answer (m d).1).0) [
          | inl fine ↦ rw fine (rw s at p)
          | inr failed ↦ rw failed (rw s at p)
        ]
