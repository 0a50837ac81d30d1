-- ===== src/Examples/Files.antt =====
-- The replacement of a file, and of the active map, at concrete inputs.
use crawlledger.AtomicFile.{replace, write_new}
use crawlledger.AtomicFile.Existing.{write_new-existing}
use crawlledger.AtomicFile.Calls.{Disk}
use crawlledger.AtomicFile.Outcome.{Replaced}
use crawlledger.AtomicFile.Replacement.{replace-Replaced}
use crawlledger.Protect.Mutate.{Live, apply_active_map}
use crawlledger.Protect.Mutate.Settled.{Settled, apply_active_map-Settled}
use crawlledger.Base.{
  ◌≡◌, refl, true, false, some, [], ◌∷◌, bytes, bytes_eq, has_prefix, lookup, nat_key, bytes_key,
}

-- The last answer but two is that of the rename; the directory is not synced.
abbrev disk : Disk
disk = record {
  files = (bytes "crawlledger-active.map", bytes "old") ∷ (bytes "other", bytes "x") ∷ [];
  suffixes = bytes "00" ∷ bytes "01" ∷ [];
  answers = true ∷ true ∷ true ∷ true ∷ true ∷ true ∷ true ∷ true ∷ true ∷ true ∷ false ∷ [];
}

abbrev live : Live
live = record {
  disk = record disk { answers = [] };
  serving = some (bytes "old");
  commands =
      (
        true,
        bytes
            "# CrawlLedger protect http v1 site=s # CrawlLedger protect server v1 site=s # CrawlLedger active map v1 site=s",
      )
      ∷ (false, [])
      ∷ [];
}

target_other : has_prefix (bytes "crawlledger-active.map") (bytes ".crawlledger-") ≡ false
unfolding has_prefix
target_other = refl

name_other : has_prefix (bytes "other") (bytes ".crawlledger-") ≡ false
unfolding has_prefix
name_other = refl

file_there : lookup (bytes "other") disk.files ≡ some (bytes "x")
unfolding lookup bytes_eq
file_there = refl

replace-Replaced_example :
    Replaced
      (bytes "crawlledger-active.map")
      (bytes "new")
      disk
      (replace (bytes "crawlledger-active.map") (bytes "new") disk)
replace-Replaced_example =
    replace-Replaced (bytes "crawlledger-active.map") (bytes "new") target_other disk

apply_active_map-Settled_example :
    Settled (bytes "new") live (apply_active_map (bytes "s") (bytes "new") live)
apply_active_map-Settled_example = apply_active_map-Settled (bytes "s") (bytes "new") live

write_new-existing_example :
    lookup (bytes "other") (write_new (bytes "other") (bytes "new") disk).1.files ≡ some (bytes "x")
write_new-existing_example =
    write_new-existing (bytes "other") (bytes "x") (bytes "other") (bytes "new") disk name_other
      file_there
