-- ===== src/AtomicFile.antt =====
-- internal/atomicfile/write.go: Replace and WriteNew. The calls that close a file after an error
-- change nothing and their errors are dropped, so they take no answer; the permission is that of the
-- callers, 0o644 or 0o600, and the system is not Windows.
pub mod Calls
pub mod Untouched
pub mod Early
pub mod Filled
pub mod Outcome
pub mod Replacement
pub mod Existing
use crawlledger.AtomicFile.Calls.{
  Disk, Action, pure, fail, ◌>>=◌, ◌>>◌, fail_if, next_answer, attempt, write_file, remove_file,
  try_remove, exists,
}
use crawlledger.Base.{
  ℕ, zero, suc, Bool, true, false, not, ◌||◌, none, some, List, [], ◌∷◌, ◌++◌, ◌==◌, if◌then◌else◌,
  Result, ok, err, length, any, Bytes, bytes, bytes_eq, lookup, nat_key, bytes_key,
}

pub data FileError : Type 0 where
  cancelled invalid_name no_temporary write_failed publish_failed directory_failed : FileError

-- A name with a separator, or one of the directory and its parent.
unfoldable pub invalid_basename : Bytes → Bool
invalid_basename name =
    length name == 0
    || bytes_eq name (bytes ".")
    || bytes_eq name (bytes "..")
    || any (λ c. c == b'/' || c == b'\\') name

unfoldable pub temporary_name : Bytes → Bytes
temporary_name suffix = bytes ".crawlledger-" ++ suffix

-- The temporary file is made.
unfoldable pub new_temporary : Bytes → Action Disk FileError Bytes
new_temporary temp = do attempt no_temporary; write_file temp []; pure temp

-- A name that is taken is tried again with another, by `again`.
unfoldable pub try_suffix : List Bytes → Action Disk FileError Bytes → Action Disk FileError Bytes
unfolding new_temporary
try_suffix [] again d = fail no_temporary d
try_suffix (suffix ∷ rest) again d =
    let drawn = record d { suffixes = rest } in
    if exists d (temporary_name suffix)
    then again drawn
    else new_temporary (temporary_name suffix) drawn

-- The loop, over the attempts left.
unfoldable pub create_temporary : ℕ → Action Disk FileError Bytes
unfolding try_suffix
create_temporary zero d = fail no_temporary d
create_temporary (suc attempts) d = try_suffix d.suffixes (create_temporary attempts) d

-- A temporary that was not published is removed.
unfoldable pub cleanup : Bytes → Result FileError (Unit {0}) → Action Disk FileError (Unit {0})
cleanup temp (ok done) = pure done
cleanup temp (err e) = try_remove temp >> fail e

unfoldable pub with_cleanup :
    Bytes → Action Disk FileError (Unit {0}) → Action Disk FileError (Unit {0})
unfolding cleanup
with_cleanup temp m d = cleanup temp (m d).0 (m d).1

-- What Replace does with the temporary before it takes the name. A write that fails leaves some part
-- of the data, of which nothing is said since the temporary is not published then.
unfoldable pub fill : Bytes → Bytes → Action Disk FileError (Unit {0})
fill temp content = do
  attempt write_failed
  attempt write_failed
  write_file temp content
  attempt cancelled
  attempt write_failed
  attempt write_failed
  attempt cancelled

-- What WriteNew does: the permission is that of the creation.
unfoldable pub fill_new : Bytes → Bytes → Action Disk FileError (Unit {0})
fill_new temp content = do
  attempt write_failed
  write_file temp content
  attempt cancelled
  attempt write_failed
  attempt write_failed
  attempt cancelled

unfoldable pub sync_directory : Action Disk FileError (Unit {0})
sync_directory = do attempt directory_failed; attempt directory_failed; attempt directory_failed

-- os.Root.Rename, by which what the first name holds takes the place of any file of the second.
unfoldable pub rename_file : Bytes → Bytes → Action Disk FileError (Unit {0})
rename_file temp name d = elim (lookup temp d.files) [
  | none ↦ fail publish_failed d
  | some held ↦ (remove_file temp >> write_file name held) d
]

unfoldable pub prepare : Bytes → Bytes → Action Disk FileError Bytes
unfolding invalid_basename create_temporary with_cleanup fill
prepare name content = do
  attempt cancelled
  fail_if (invalid_basename name) invalid_name
  temp ← create_temporary 10
  with_cleanup temp (fill temp content >> attempt publish_failed)
  pure temp

unfoldable pub replace : Bytes → Bytes → Action Disk FileError (Unit {0})
unfolding prepare rename_file sync_directory
replace name content = do temp ← prepare name content; rename_file temp name; sync_directory

-- Whether the temporary was removed and the directory synced, of which WriteNew only warns.
unfoldable pub warnings : Bytes → Action Disk FileError (Bool × Bool)
warnings temp d =
    let (fine, d1) = next_answer d in
    let d2 = if fine then (remove_file {E = FileError} temp d1).1 else d1 in
    let (synced, d3) = sync_directory d2 in
    (ok (not fine, elim synced [ ok done ↦ false | err e ↦ true ]), d3)

-- os.Root.Link, by which the second name holds what the first does; it fails if that name is taken.
unfoldable pub link_file : Bytes → Bytes → Action Disk FileError (Unit {0})
link_file temp name d =
    if exists d name then fail publish_failed d else elim (lookup temp d.files) [
      | none ↦ fail publish_failed d
      | some held ↦ (attempt publish_failed >> write_file name held) d
    ]

-- WriteNew; `content` is what the callback writes. After an error the removal is tried twice.
unfoldable pub write_new : Bytes → Bytes → Action Disk FileError (Bool × Bool)
unfolding invalid_basename create_temporary with_cleanup link_file warnings
write_new name content = do
  attempt cancelled
  fail_if (invalid_basename name) invalid_name
  temp ← create_temporary 10
  with_cleanup temp (with_cleanup temp (fill_new temp content >> link_file temp name))
  warnings temp
