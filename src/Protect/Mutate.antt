-- ===== src/Protect/Mutate.antt =====
-- internal/protect/mutate.go: ApplyActiveMap behind the rendering of the map, with its rollback. The
-- results of the commands are an arbitrary sequence; Nginx serves the active map of its last reload
-- that succeeded, and a reload that fails changes nothing. A cancelled or expired context shows as a call that fails.
pub mod Steps
pub mod Settled
use crawlledger.AtomicFile.{FileError, replace}
use crawlledger.AtomicFile.Calls.{Disk, Action, pure, fail, after, ◌>>=◌, ◌>>◌, fail_if, attempt}
use crawlledger.Base.{
  ℕ, zero, suc, ◌+◌, ◌-◌, ◌*◌, ◌^◌, Bool, true, false, not, ◌&&◌, Option, none, some, List, [], ◌∷◌,
  ◌++◌, map, ltb, leb, ◌==◌, if◌then◌else◌, Result, ok, err, length, drop, all, Bytes, bytes,
  has_prefix, lookup, nat_key, bytes_key,
}

pub data ApplyError : Type 0 where
  preflight_failed invalid_preflight root_failed read_failed : ApplyError
  replace_failed : FileError → ApplyError
  validation_failed reload_failed rollback_failed : ApplyError

pub record Live : Type 0 where
  pub disk : Disk
  pub serving : Option Bytes
  pub commands : List (Bool × Bytes)

abbrev pub active_map_name : Bytes
active_map_name = bytes "crawlledger-active.map"

abbrev pub active_map : Live → Option Bytes
active_map s = lookup active_map_name s.disk.files

-- The occurrences that do not overlap, as bytes.Count counts them; the number is of the characters of
-- the last one that are still to pass. The markers are not empty.
count_from : ℕ → Bytes → Bytes → ℕ
count_from skipped [] marker = 0
count_from (suc skipped) (c ∷ cs) marker = count_from skipped cs marker
count_from zero (c ∷ cs) marker =
    let found = count_from (length marker - 1) cs marker in
    let missed = count_from 0 cs marker in if has_prefix (c ∷ cs) marker then 1 + found else missed

unfoldable pub count : Bytes → Bytes → ℕ
unfolding count_from
count output marker = count_from 0 output marker

unfoldable pub managed_markers : Bytes → List Bytes
managed_markers site =
    (bytes "# CrawlLedger protect http v1 site=" ++ site)
    ∷ (bytes "# CrawlLedger protect server v1 site=" ++ site)
    ∷ (bytes "# CrawlLedger active map v1 site=" ++ site)
    ∷ []

unfoldable pub valid_preflight : Bytes → Bytes → Bool
valid_preflight output site =
    leb (length output) (16 * 2 ^ 20)
    && all (λ marker. count output marker == 1) (managed_markers site)

unfoldable pub coded :
    {A : Type 0} → (FileError → ApplyError) → Result FileError A → Result ApplyError A
coded code (ok a) = ok a
coded code (err e) = err (code e)

unfoldable pub on_disk :
    {A : Type 0} → (FileError → ApplyError) → Action Disk FileError A → Action Live ApplyError A
unfolding coded
on_disk code m s = let (r, disk) = m s.disk in (coded code r, record s { disk = disk })

unfoldable pub command_result : List (Bool × Bytes) → ApplyError → Result ApplyError Bytes
command_result [] e = ok []
command_result ((true, output) ∷ rest) e = ok output
command_result ((false, output) ∷ rest) e = err e

-- A command that changes nothing; its failure is the error that is given.
unfoldable pub execute : ApplyError → Action Live ApplyError Bytes
unfolding command_result
execute e s = (command_result s.commands e, record s { commands = drop 1 s.commands })

-- Nginx serves what is on the disk.
unfoldable pub serve : Action Live ApplyError (Unit {0})
serve s = (ok tt, record s { serving = active_map s })

-- nginx -s reload
unfoldable pub reload : ApplyError → Action Live ApplyError (Unit {0})
unfolding execute serve
reload e = execute e >> serve

unfoldable pub present : Option Bytes → ℕ → Action Live ApplyError Bytes
present none limit s = fail read_failed s
present (some content) limit s =
    (if ltb limit (length content) then err read_failed else ok content, s)

unfoldable pub attempt_on : ApplyError → Action Live ApplyError (Unit {0})
attempt_on e s = let (r, disk) = attempt e s.disk in (r, record s { disk = disk })

-- readManagedFile: Lstat and the kind of the file, Open, Stat and the same file, and the read.
unfoldable pub read_managed_file : ℕ → Action Live ApplyError Bytes
unfolding present attempt_on
read_managed_file limit s =
    (attempt_on read_failed
        >> (attempt_on read_failed
            >> (attempt_on read_failed
                >> (attempt_on read_failed >> present (active_map s) limit))))
      s

unfoldable pub write_map : (FileError → ApplyError) → Bytes → Action Live ApplyError (Unit {0})
unfolding on_disk
write_map code content = on_disk code (replace active_map_name content)

abbrev pub no_rollback : FileError → ApplyError
no_rollback e = rollback_failed

-- The rollback after a validation that failed.
unfoldable pub restore_map : Bytes → Action Live ApplyError (Unit {0})
unfolding write_map
restore_map previous = write_map no_rollback previous >> fail validation_failed

-- rollbackReload, after a reload that failed.
unfoldable pub rollback_reload : Bytes → Action Live ApplyError (Unit {0})
unfolding write_map execute reload
rollback_reload previous =
    write_map no_rollback previous
    >> (execute rollback_failed >> (reload rollback_failed >> fail reload_failed))

-- A step whose failure runs a rollback.
unfoldable pub or_else :
    {A : Type 0} → Result ApplyError A → Action Live ApplyError A → Action Live ApplyError A
or_else (ok a) rollback s = (ok a, s)
or_else (err e) rollback s = rollback s

unfoldable pub reload_map : Bytes → Action Live ApplyError (Unit {0})
unfolding reload rollback_reload or_else
reload_map previous s =
    let (r, t) = reload reload_failed s in or_else r (rollback_reload previous) t

-- What follows `nginx -t`.
unfoldable pub validated : Result ApplyError Bytes → Bytes → Action Live ApplyError (Unit {0})
unfolding restore_map reload_map
validated (ok output) previous = reload_map previous
validated (err e) previous = restore_map previous

-- From the validation on, with the map written.
unfoldable pub activate : Bytes → Action Live ApplyError (Unit {0})
unfolding execute validated
activate previous s = let (r, t) = execute validation_failed s in validated r previous t

-- ApplyActiveMap for the rendered map.
unfoldable pub apply_active_map : Bytes → Bytes → Action Live ApplyError (Unit {0})
unfolding execute valid_preflight attempt_on read_managed_file write_map activate
apply_active_map site desired = do
  output ← execute preflight_failed
  fail_if (not (valid_preflight output site)) invalid_preflight
  attempt_on root_failed
  previous ← read_managed_file (2 ^ 20)
  write_map replace_failed desired
  activate previous
