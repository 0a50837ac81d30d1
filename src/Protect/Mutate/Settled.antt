-- ===== src/Protect/Mutate/Settled.antt =====
-- protect/mutate.go: the active map and what Nginx serves after every outcome of ApplyActiveMap.
use crawlledger.AtomicFile.{FileError, replace}
use crawlledger.AtomicFile.Calls.{Action, fail, after, ◌>>=◌, ◌>>◌, fail_if}
use crawlledger.AtomicFile.Early.{published}
use crawlledger.AtomicFile.Replacement.{replace-Replaced}
use crawlledger.Protect.Mutate.{
  ApplyError, preflight_failed, invalid_preflight, root_failed, read_failed, replace_failed,
  validation_failed, reload_failed, rollback_failed, Live, active_map_name, active_map, coded,
  write_map, no_rollback, restore_map, rollback_reload, command_result, execute, reload, serve,
  or_else, reload_map, activate, on_disk, read_managed_file, attempt_on, valid_preflight,
  apply_active_map, validated,
}
use crawlledger.Base.{
  ◌^◌, ◌≡◌, refl, sym, ap, ◌∙◌, ◌⊎◌, inl, inr, Bool, true, false, not, some, List, [], ◌∷◌,
  if◌then◌else◌, Bool-cases, Result, ok, err, drop, Bytes, has_prefix, lookup, nat_key, bytes_key,
}
use crawlledger.Protect.Mutate.Steps.{
  Same, by_command, by_reload, by_attempt, Same-trans, read_managed_file-active,
}

-- What is there before and after a call with the given result.
abbrev pub Settled : Bytes → Live → Result ApplyError (Unit {0}) × Live → Type 0
Settled desired s (ok done, t) = (active_map t ≡ some desired) × (t.serving ≡ some desired)
Settled desired s (err (replace_failed e), t) =
    (active_map t ≡ (if published {A = Unit {0}} (err e) then some desired else active_map s))
    × (t.serving ≡ s.serving)
Settled desired s (err rollback_failed, t) =
    ((active_map t ≡ some desired) ⊎ (active_map t ≡ active_map s)) × (t.serving ≡ s.serving)
Settled desired s (err reload_failed, t) =
    (active_map t ≡ active_map s) × (t.serving ≡ active_map s)
Settled desired s (err preflight_failed, t) =
    (active_map t ≡ active_map s) × (t.serving ≡ s.serving)
Settled desired s (err invalid_preflight, t) =
    (active_map t ≡ active_map s) × (t.serving ≡ s.serving)
Settled desired s (err root_failed, t) = (active_map t ≡ active_map s) × (t.serving ≡ s.serving)
Settled desired s (err read_failed, t) = (active_map t ≡ active_map s) × (t.serving ≡ s.serving)
Settled desired s (err validation_failed, t) =
    (active_map t ≡ active_map s) × (t.serving ≡ s.serving)

-- Between the replacement of the map and its activation.
record Written (desired previous : Bytes) (s t : Live) : Type 0 where
  pub old : active_map s ≡ some previous
  pub new : active_map t ≡ some desired
  pub served : t.serving ≡ s.serving

-- The map after a replacement, by its result.
replaced_map :
    (content : Bytes) (s : Live) (r : Result FileError (Unit {0}))
    → (replace active_map_name content s.disk).0 ≡ r
    → lookup active_map_name (replace active_map_name content s.disk).1.files
      ≡ (if published r then some content else active_map s)
unfolding has_prefix
replaced_map content s r e =
    let own = (replace-Replaced active_map_name content refl s.disk).own in rw e at own

module _ (desired previous : Bytes) (s t : Live) (w : Written desired previous s t) where
  restored_or_not :
      (e : FileError)
      → (replace active_map_name previous t.disk).0 ≡ err e
      → (lookup active_map_name (replace active_map_name previous t.disk).1.files ≡ some desired)
        ⊎ (lookup active_map_name (replace active_map_name previous t.disk).1.files ≡ active_map s)
  restored_or_not e h =
      let own = replaced_map previous t (err e) h in
      let old = w.old in
      let new = w.new in
      elim (Bool-cases (published {A = Unit {0}} (err e))) [
        | inl late ↦ inr (rw late at own ∙ sym old)
        | inr early ↦ inl (rw early at own ∙ new)
      ]

  restore_map-Settled : Settled desired s (restore_map previous t)
  unfolding restore_map write_map on_disk coded
  restore_map-Settled = split (replace active_map_name previous t.disk).0 refl
    where
      split :
          (r : Result FileError (Unit {0}))
          → (replace active_map_name previous t.disk).0 ≡ r
          → Settled desired s (
              after
                (coded no_rollback r)
                (λ ignored. fail validation_failed)
                (record t { disk = (replace active_map_name previous t.disk).1 }))
      split (ok done) e = (replaced_map previous t (ok done) e ∙ sym w.old, w.served)
      split (err failure) e = (restored_or_not failure e, w.served)

  rollback_reload-Settled : Settled desired s (rollback_reload previous t)
  unfolding rollback_reload write_map on_disk coded
  rollback_reload-Settled = split (replace active_map_name previous t.disk).0 refl
    where
      split :
          (r : Result FileError (Unit {0}))
          → (replace active_map_name previous t.disk).0 ≡ r
          → Settled desired s (
              after
                (coded no_rollback r)
                (λ ignored.
                  execute rollback_failed >> (reload rollback_failed >> fail reload_failed))
                (record t { disk = (replace active_map_name previous t.disk).1 }))
      split (ok done) e =
          let back = replaced_map previous t (ok done) e ∙ sym w.old in
          by_command (Settled desired s) rollback_failed
            (λ output. reload rollback_failed >> fail reload_failed) _ (inr back, w.served)
            (λ output.
              by_reload (Settled desired s) rollback_failed (fail reload_failed) _
                (inr back, w.served) (back, back))
      split (err failure) e = (restored_or_not failure e, w.served)

reload_map-Settled :
    (desired previous : Bytes) (s t : Live)
    → Written desired previous s t
    → Settled desired s (reload_map previous t)
unfolding reload_map execute reload serve or_else command_result
reload_map-Settled desired previous s t w = split t.commands
  where
    split :
        (commands : List (Bool × Bytes))
        → Settled desired s (
            or_else
              (after
                (command_result commands reload_failed)
                (λ ignored. serve)
                (record t { commands = drop 1 t.commands })).0
              (rollback_reload previous)
              (after
                (command_result commands reload_failed)
                (λ ignored. serve)
                (record t { commands = drop 1 t.commands })).1)
    split [] = (w.new, w.new)
    split ((true, output) ∷ rest) = (w.new, w.new)
    split ((false, output) ∷ rest) =
        rollback_reload-Settled desired previous s (record t { commands = drop 1 t.commands })
          (record { old = w.old; new = w.new; served = w.served })

activate-Settled :
    (desired previous : Bytes) (s t : Live)
    → Written desired previous s t
    → Settled desired s (activate previous t)
unfolding activate validated execute command_result
activate-Settled desired previous s t w = split t.commands
  where
    after_command : Written desired previous s (record t { commands = drop 1 t.commands })
    after_command = record { old = w.old; new = w.new; served = w.served }

    split :
        (commands : List (Bool × Bytes))
        → Settled desired s (
            validated
              (command_result commands validation_failed)
              previous
              (record t { commands = drop 1 t.commands }))
    split [] = reload_map-Settled desired previous s _ after_command
    split ((true, output) ∷ rest) = reload_map-Settled desired previous s _ after_command
    split ((false, output) ∷ rest) = restore_map-Settled desired previous s _ after_command

write_map-Settled :
    (desired previous : Bytes) (s t : Live)
    → Same s t
    → active_map t ≡ some previous
    → Settled desired s ((write_map replace_failed desired >> activate previous) t)
unfolding write_map on_disk coded
write_map-Settled desired previous s t m e = split (replace active_map_name desired t.disk).0 refl
  where
    split :
        (r : Result FileError (Unit {0}))
        → (replace active_map_name desired t.disk).0 ≡ r
        → Settled desired s (
            after
              (coded replace_failed r)
              (λ ignored. activate previous)
              (record t { disk = (replace active_map_name desired t.disk).1 }))
    split (ok done) h = activate-Settled desired previous s _ (record {
      old = ap (lookup active_map_name) (sym m.files) ∙ e;
      new = replaced_map desired t (ok done) h;
      served = m.served;
    })
    split (err failure) h =
        let same = ap (lookup active_map_name) m.files in
        (
          replaced_map desired t (err failure) h
              ∙ ap (λ old. if published {A = Unit {0}} (err failure) then some desired else old)
                  same,
          m.served,
        )

-- However the calls and the commands answer: if ApplyActiveMap succeeds, the rendered map is on the
-- disk and Nginx serves it; after an error of the replacement the disk has the rendered map if only the
-- sync of the directory failed; after a rollback that failed it has the rendered map or the old one;
-- after a failed reload the old map is on the disk and served; and after every other error the disk
-- and what Nginx serves are as before.
pub apply_active_map-Settled :
    (site desired : Bytes) (s : Live) → Settled desired s (apply_active_map site desired s)
unfolding apply_active_map
apply_active_map-Settled site desired s =
    by_command (Settled desired s) preflight_failed
      (λ output. fail_if (not (valid_preflight output site)) invalid_preflight >> opened) s
      (refl, refl) (λ output. checked output (valid_preflight output site))
  where
    written : Bytes → Action Live ApplyError (Unit {0})
    written previous = write_map replace_failed desired >> activate previous

    opened : Action Live ApplyError (Unit {0})
    opened = attempt_on root_failed >> (read_managed_file (2 ^ 20) >>= written)

    unchanged : Live
    unchanged = record s { commands = drop 1 s.commands }

    kept : (u : Live) → Same unchanged u → Same s u
    kept u k = record { files = k.files; served = k.served }

    checked :
        (output : Bytes) (b : Bool)
        → Settled desired s ((fail_if (not b) invalid_preflight >> opened) unchanged)
    checked output false = (refl, refl)
    checked output true =
        by_attempt (Settled desired s) root_failed (read_managed_file (2 ^ 20) >>= written)
          unchanged (λ u k. (ap (lookup active_map_name) k.files, k.served))
          (λ u k.
            read_managed_file-active (Settled desired s) (2 ^ 20) written u
              (λ v l.
                let m = kept v (Same-trans unchanged u v k l) in
                (ap (lookup active_map_name) m.files, m.served))
              (λ v content l e.
                write_map-Settled desired content s v (kept v (Same-trans unchanged u v k l)) e))
