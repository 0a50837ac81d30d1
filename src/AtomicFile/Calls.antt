-- ===== src/AtomicFile/Calls.antt =====
-- The system calls of internal/atomicfile. A directory is a map from names to contents; whether each
-- call succeeds is an arbitrary sequence of answers, and the random names are another one. A call
-- past the end of the answers succeeds, and past the end of the names there is no randomness left.
use crawlledger.Base.{
  Bool, true, false, not, none, some, List, [], ◌∷◌, if◌then◌else◌, Result, ok, err, Bytes,
  bytes_eq, Assoc, lookup, insert, keep_keys, nat_key, bytes_key,
}

pub record Disk : Type 0 where
  pub files : Assoc Bytes Bytes
  pub suffixes : List Bytes
  pub answers : List Bool

-- What is written stays written after an error.
abbrev pub Action : Type 0 → Type 0 → Type 0 → Type 0
Action S E A = S → Result E A × S

module _ {S E A : Type 0} where
  abbrev pub pure : A → Action S E A
  pure a s = (ok a, s)

  abbrev pub fail : E → Action S E A
  fail e s = (err e, s)

-- What follows a call, by how it ended.
abbrev pub after : {S E A B : Type 0} → Result E A → (A → Action S E B) → Action S E B
after (ok a) f s = f a s
after (err e) f s = fail e s

infixl 5 ◌>>=◌ ◌>>◌
abbrev pub ◌>>=◌ : {S E A B : Type 0} → Action S E A → (A → Action S E B) → Action S E B
◌>>=◌ m f s = after (m s).0 f (m s).1

abbrev pub ◌>>◌ : {S E A B : Type 0} → Action S E A → Action S E B → Action S E B
m >> k = m >>= λ ignored. k

abbrev pub fail_if : {S E : Type 0} → Bool → E → Action S E (Unit {0})
fail_if test e s = (if test then err e else ok tt, s)

-- Whether the next call succeeds.
abbrev pub next_answer : Disk → Bool × Disk
next_answer d = elim d.answers [ [] ↦ (true, d) | a ∷ rest ↦ (a, record d { answers = rest }) ]

module _ {E : Type 0} where
  -- A call that changes no file and whose failure is an error.
  unfoldable pub attempt : E → Action Disk E (Unit {0})
  attempt e d = let (fine, d') = next_answer d in (if fine then ok tt else err e, d')

  unfoldable pub write_file : Bytes → Bytes → Action Disk E (Unit {0})
  write_file name content d = (ok tt, record d { files = insert name content d.files })

  unfoldable pub remove_file : Bytes → Action Disk E (Unit {0})
  remove_file name d =
      (ok tt, record d { files = keep_keys (λ other. not (bytes_eq other name)) d.files })

  -- root.Remove, whose error the caller ignores.
  unfoldable pub try_remove : Bytes → Action Disk E (Unit {0})
  unfolding remove_file
  try_remove name d =
      let (fine, d') = next_answer d in if fine then remove_file name d' else (ok tt, d')

abbrev pub exists : Disk → Bytes → Bool
exists d name = elim (lookup name d.files) [ none ↦ false | some content ↦ true ]
