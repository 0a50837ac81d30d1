-- ===== src/Domain/Text.antt =====
-- internal/domain/event.go, the tests on texts, and the digests and site names of package protect.
-- A loop over the runes of a string is a loop over its bytes where every rune above ASCII, or
-- byte that is no rune, is refused.
use crawlledger.Base.{
  ℕ, ◌+◌, ◌-◌, ◌*◌, Bool, true, false, not, ◌&&◌, ◌||◌, Option, none, some, List, [], ◌∷◌, ◌++◌,
  map, ltb, leb, ◌==◌, if◌then◌else◌, length, all, any, Bytes, bytes, bytes_eq, has_prefix,
  contains,
}

abbrev pub within : ℕ → ℕ → ℕ → Bool
within lo hi c = leb lo c && leb c hi

-- The state of the UTF-8 decoder: the bytes that the rune still needs, the range of the next one,
-- and the bits read.
pub record Partial : Type 0 where
  pub need : ℕ
  pub lo : ℕ
  pub hi : ℕ
  pub bits : ℕ

abbrev start : Partial
start = record { need = 0; lo = 0; hi = 0; bits = 0 }

abbrev lead : ℕ → ℕ → ℕ → ℕ → Option (Partial × List ℕ)
lead need lo hi bits = some (record { need = need; lo = lo; hi = hi; bits = bits }, [])

-- One byte: the next state and the runes that it completes; `none` if the text is no UTF-8.
utf8_step : Partial → ℕ → Option (Partial × List ℕ)
utf8_step p b =
    if p.need == 0
    then if ltb b 0x80
      then some (start, b ∷ [])
      else if within 0xC2 0xDF b
      then lead 1 0x80 0xBF (b - 0xC0)
      else if b == 0xE0
      then lead 2 0xA0 0xBF 0
      else if b == 0xED
      then lead 2 0x80 0x9F 0xD
      else if within 0xE1 0xEF b
      then lead 2 0x80 0xBF (b - 0xE0)
      else if b == 0xF0
      then lead 3 0x90 0xBF 0
      else if within 0xF1 0xF3 b
      then lead 3 0x80 0xBF (b - 0xF0)
      else if b == 0xF4
      then lead 3 0x80 0x8F 4
      else none
    else if not (within p.lo p.hi b)
    then none
    else let value = p.bits * 64 + (b - 0x80) in
      if p.need == 1 then some (start, value ∷ []) else lead (p.need - 1) 0x80 0xBF value

append_runes : List ℕ → Option (List ℕ) → Option (List ℕ)
append_runes rs none = none
append_runes rs (some more) = some (rs ++ more)

-- The runes of a string, or `none` if utf8.ValidString fails.
decode : Partial → Bytes → Option (List ℕ)
unfolding utf8_step append_runes
decode p [] = if p.need == 0 then some [] else none
decode p (b ∷ bs) = elim (utf8_step p b) [
  | none ↦ none
  | some (q, rs) ↦ append_runes rs (decode q bs)
]

is_text_rune : ℕ → Bool
is_text_rune r = not (ltb r 0x20 || r == 0x7f)

all_runes : (ℕ → Bool) → Option (List ℕ) → Bool
all_runes p none = false
all_runes p (some rs) = all p rs

-- utf8.ValidString
any_runes : Option (List ℕ) → Bool
any_runes none = false
any_runes (some rs) = true

unfoldable pub valid_utf8 : Bytes → Bool
unfolding decode any_runes
valid_utf8 value = any_runes (decode start value)

unfoldable pub valid_text : Bytes → ℕ → ℕ → Bool
unfolding decode all_runes is_text_rune
valid_text value lo hi =
    leb lo (length value) && leb (length value) hi && all_runes is_text_rune (decode start value)

is_actionable_rune : ℕ → Bool
is_actionable_rune r = not (
    ltb 0x7e r
    || r == b'\\'
    || r == b'%'
    || r == b'?'
    || r == b'#'
    || r == b'*'
    || r == b'{'
    || r == b'}'
    || r == b' ')

unfoldable pub valid_actionable : Bytes → Bool
unfolding valid_text is_actionable_rune
valid_actionable value =
    valid_text value 1 256
    && has_prefix value (bytes "/")
    && all_runes is_actionable_rune (decode start value)
    && not (contains value (bytes "//"))
    && not (contains value (bytes ".."))

-- The characters of a method; the flag is `i > 0`.
method_char : Bool → ℕ → Bool
method_char later c =
    within b'A' b'Z' c || (later && (within b'0' b'9' c || c == b'_' || c == b'-'))

method_chars : Bool → Bytes → Bool
unfolding method_char
method_chars later [] = true
method_chars later (c ∷ cs) = method_char later c && method_chars true cs

unfoldable pub valid_method : Bytes → Bool
unfolding method_chars
valid_method value = leb 1 (length value) && leb (length value) 16 && method_chars false value

-- strings.ToLower on ASCII. Any other text is refused by the test for hexadecimal digits.
to_lower : ℕ → ℕ
to_lower c = if within b'A' b'Z' c then c + 32 else c

is_hex_digit : ℕ → Bool
is_hex_digit c = within b'0' b'9' c || within b'a' b'f' c || within b'A' b'F' c

-- A text of the given even length is its own lower case, and hex.DecodeString accepts it.
unfoldable pub lower_hex : Bytes → ℕ → Bool
unfolding to_lower is_hex_digit
lower_hex value n =
    length value == n && bytes_eq (map to_lower value) value && all is_hex_digit value

unfoldable pub lower_digest : Bytes → Bool
unfolding lower_hex
lower_digest value = lower_hex value 64

site_char : ℕ → Bool
site_char c = within b'a' b'z' c || within b'0' b'9' c || c == b'-'

-- The pattern ^[a-z][a-z0-9-]{0,31}$
unfoldable pub site_matches : Bytes → Bool
unfolding site_char
site_matches [] = false
site_matches (c ∷ cs) = within b'a' b'z' c && all site_char cs && leb (length cs) 31

unfoldable pub valid_probe_id : Bytes → Bool
valid_probe_id value = any (bytes_eq value) (
    bytes "env-file-scan"
    ∷ bytes "git-metadata-scan"
    ∷ bytes "log4shell-probe"
    ∷ bytes "path-traversal-scan"
    ∷ bytes "phpmyadmin-scan"
    ∷ bytes "shell-probe"
    ∷ bytes "wp-login-scan"
    ∷ [])
