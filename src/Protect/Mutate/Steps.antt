-- ===== src/Protect/Mutate/Steps.antt =====
-- protect/mutate.go: the outcomes of a single step.
use crawlledger.AtomicFile.Calls.{Action, after, ◌>>=◌, ◌>>◌, attempt}
use crawlledger.AtomicFile.Calls.{next_answer}
use crawlledger.AtomicFile.Untouched.{next_answer_keeps}
use crawlledger.Protect.Mutate.{
  ApplyError, read_failed, Live, active_map_name, active_map, command_result, execute, reload,
  serve, read_managed_file, present, attempt_on,
}
use crawlledger.Base.{
  ℕ, ◌≡◌, refl, ap, ◌∙◌, inl, inr, Bool, true, false, Option, none, some, List, [], ◌∷◌, ltb,
  if◌then◌else◌, Bool-cases, Result, ok, err, length, drop, Bytes, lookup, nat_key, bytes_key,
}

module _ {A : Type 0} (P : Result ApplyError A × Live → Type 0) where
  -- A command fails with its error, or what follows it runs behind it.
  pub by_command :
      (e : ApplyError) (f : Bytes → Action Live ApplyError A) (t : Live)
      → P (err e, record t { commands = drop 1 t.commands })
      → ((output : Bytes) → P (f output (record t { commands = drop 1 t.commands })))
      → P ((execute e >>= f) t)
  unfolding execute command_result
  by_command e f t failed fine = split t.commands
    where
      split :
          (commands : List (Bool × Bytes))
          → P (after (command_result commands e) f (record t { commands = drop 1 t.commands }))
      split [] = fine []
      split ((true, output) ∷ rest) = fine output
      split ((false, output) ∷ rest) = failed

  pub by_reload :
      (e : ApplyError) (f : Action Live ApplyError A) (t : Live)
      → P (err e, record t { commands = drop 1 t.commands })
      → P (f (record t { commands = drop 1 t.commands; serving = active_map t }))
      → P ((reload e >> f) t)
  unfolding execute reload serve command_result
  by_reload e f t failed fine = split t.commands
    where
      split :
          (commands : List (Bool × Bytes))
          → P (
              after
                (after
                  (command_result commands e)
                  (λ ignored. serve)
                  (record t { commands = drop 1 t.commands })).0
                (λ ignored. f)
                (after
                  (command_result commands e)
                  (λ ignored. serve)
                  (record t { commands = drop 1 t.commands })).1)
      split [] = fine
      split ((true, output) ∷ rest) = fine
      split ((false, output) ∷ rest) = failed

-- A step that leaves the files and what is served alone, and the base of the outcome with them.
pub record Same (s t : Live) : Type 0 where
  pub files : t.disk.files ≡ s.disk.files
  pub served : t.serving ≡ s.serving

pub by_attempt :
    {A : Type 0} (P : Result ApplyError A × Live → Type 0) (e : ApplyError)
    (f : Action Live ApplyError A) (t : Live)
    → ((u : Live) → Same t u → P (err e, u))
    → ((u : Live) → Same t u → P (f u))
    → P ((attempt_on e >> f) t)
unfolding attempt_on attempt
by_attempt P e f t failed fine = split (next_answer t.disk).0
  where
    answered : Live
    answered = record t { disk = (next_answer t.disk).1 }

    same : Same t answered
    same = record { files = next_answer_keeps t.disk; served = refl }

    split : (b : Bool) → P (after (if b then ok tt else err e) (λ ignored. f) answered)
    split true = fine answered same
    split false = failed answered same

pub Same-trans : (s t u : Live) → Same s t → Same t u → Same s u
Same-trans s t u a b = record { files = b.files ∙ a.files; served = b.served ∙ a.served }

-- The map is read as it is.
pub read_managed_file-active :
    {A : Type 0} (P : Result ApplyError A × Live → Type 0) (limit : ℕ)
    (f : Bytes → Action Live ApplyError A) (t : Live)
    → ((u : Live) → Same t u → P (err read_failed, u))
    → ((u : Live) (content : Bytes) → Same t u → active_map u ≡ some content → P (f content u))
    → P ((read_managed_file limit >>= f) t)
unfolding read_managed_file present
read_managed_file-active {A = A} P limit f t failed fine =
    by_attempt Q read_failed
      (attempt_on read_failed >> (attempt_on read_failed >> (attempt_on read_failed >> seen))) t
      failed
      (λ a i.
        by_attempt Q read_failed (attempt_on read_failed >> (attempt_on read_failed >> seen)) a
          (λ u k. failed u (Same-trans t a u i k))
          (λ b j.
            by_attempt Q read_failed (attempt_on read_failed >> seen) b
              (λ u k. failed u (Same-trans t b u (Same-trans t a b i j) k))
              (λ c k.
                let at_c = Same-trans t b c (Same-trans t a b i j) k in
                by_attempt Q read_failed seen c (λ u l. failed u (Same-trans t c u at_c l))
                  (λ d l. at_end d (Same-trans t c d at_c l) (active_map t) refl))))
  where
    Q : Result ApplyError Bytes × Live → Type 0
    Q (r, u) = P (after r f u)

    seen : Action Live ApplyError Bytes
    seen = present (active_map t) limit

    at_end : (u : Live) → Same t u → (o : Option Bytes) → active_map t ≡ o → Q (present o limit u)
    at_end u same none e = failed u same
    at_end u same (some content) e = elim (Bool-cases (ltb limit (length content))) [
      | inl large ↦ rw large (failed u same)
      | inr small ↦ rw small (fine u content same (ap (lookup active_map_name) same.files ∙ e))
    ]
