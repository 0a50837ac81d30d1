-- ===== src/Aggregate/Sketch/Codec.antt =====
-- `MarshalBinary` and `UnmarshalBinary`: version, count and big-endian values.
use crawlledger.Aggregate.Sketch.{Sketch, kmv_k, IsAscending, IsSketch}
use crawlledger.Base.{
  ℕ, zero, suc, ◌+◌, ◌*◌, ◌/◌, ◌%◌, ◌^◌, ◌≤◌, ◌<◌, ◌≡◌, refl, ap, inl, inr, Bool, false, not, ◌||◌,
  Option, none, some, List, [], ◌∷◌, ◌++◌, arith, ltb, leb, ◌==◌, if◌then◌else◌, Bool-cases, length,
  All, Bytes,
}

-- binary.BigEndian.PutUint64 and PutUint16
put_u64 : ℕ → Bytes
put_u64 v =
    (v / 2 ^ 56 % 256)
    ∷ (v / 2 ^ 48 % 256)
    ∷ (v / 2 ^ 40 % 256)
    ∷ (v / 2 ^ 32 % 256)
    ∷ (v / 2 ^ 24 % 256)
    ∷ (v / 2 ^ 16 % 256)
    ∷ (v / 2 ^ 8 % 256)
    ∷ (v % 256)
    ∷ []

get_u64 : (a b c d e f g h : ℕ) → ℕ
get_u64 a b c d e f g h =
    a * 2 ^ 56 + b * 2 ^ 48 + c * 2 ^ 40 + d * 2 ^ 32 + e * 2 ^ 24 + f * 2 ^ 16 + g * 2 ^ 8 + h

put_values : List ℕ → Bytes
unfolding put_u64
put_values [] = []
put_values (v ∷ vs) = put_u64 v ++ put_values vs

unfoldable pub marshal : Sketch → Bytes
unfolding put_values
marshal s = 1 ∷ (length s.values / 2 ^ 8 % 256) ∷ (length s.values % 256) ∷ put_values s.values

-- index > 0 && values[index-1] >= values[index]
unordered : Option ℕ → ℕ → Bool
unordered none v = false
unordered (some previous) v = leb v previous

cons_some : ℕ → Option (List ℕ) → Option (List ℕ)
cons_some v none = none
cons_some v (some vs) = some (v ∷ vs)

-- The loop over `count` values. The last clause is a slice out of range, which the test of the
-- length before the loop excludes.
read_values : ℕ → Option ℕ → Bytes → Option (List ℕ)
unfolding get_u64 unordered cons_some
read_values zero previous bs = some []
read_values (suc n) previous (a ∷ b ∷ c ∷ d ∷ e ∷ f ∷ g ∷ h ∷ rest) =
    let v = get_u64 a b c d e f g h in
    let others = read_values n (some v) rest in
    if unordered previous v then none else cons_some v others
read_values (suc n) previous _ = none

unmarshal_body : Option (List ℕ) → Option Sketch
unmarshal_body none = none
unmarshal_body (some vs) = some (record { values = vs })

unfoldable pub unmarshal : Bytes → Option Sketch
unfolding read_values unmarshal_body
unmarshal (version ∷ hi ∷ lo ∷ body) =
    let count = hi * 2 ^ 8 + lo in
    if not (version == 1)
    then none
    else if ltb kmv_k count || not (length body == count * 8)
    then none
    else unmarshal_body (read_values count none body)
unmarshal _ = none

get_u64-put_u64 :
    (v : ℕ)
    → v < 2 ^ 64
    → get_u64
        (v / 2 ^ 56 % 256)
        (v / 2 ^ 48 % 256)
        (v / 2 ^ 40 % 256)
        (v / 2 ^ 32 % 256)
        (v / 2 ^ 24 % 256)
        (v / 2 ^ 16 % 256)
        (v / 2 ^ 8 % 256)
        (v % 256)
      ≡ v
unfolding get_u64
get_u64-put_u64 v h = omega arith

length-put_values : (vs : List ℕ) → length (put_values vs) ≡ length vs * 8
unfolding put_values
length-put_values [] = refl
length-put_values (v ∷ vs) = omega (arith, length-put_values vs)

abbrev Follows : Option ℕ → List ℕ → Type 0
Follows none vs = Unit
Follows (some p) vs = All (λ y. p < y) vs

Follows-head : (p : Option ℕ) (v : ℕ) (vs : List ℕ) → Follows p (v ∷ vs) → unordered p v ≡ false
unfolding unordered
Follows-head none v vs h = refl
Follows-head (some p) v vs h = ground arith

read_values-put_values :
    (vs : List ℕ) (p : Option ℕ)
    → All (λ v. v < 2 ^ 64) vs
    → IsAscending vs
    → Follows p vs
    → read_values (length vs) p (put_values vs) ≡ some vs
unfolding read_values put_values
read_values-put_values [] p r h k = refl
read_values-put_values (v ∷ vs) p r h k =
    rw
      (get_u64-put_u64 v r.0, Follows-head p v vs k, read_values-put_values vs (some v) r.1 h.1 h.0)

-- Reading back the bytes of a sketch of at most 64 ascending 64-bit hashes gives the sketch.
pub unmarshal-marshal :
    (s : Sketch) → IsSketch s → All (λ v. v < 2 ^ 64) s.values → unmarshal (marshal s) ≡ some s
unfolding marshal unmarshal
unmarshal-marshal s h r =
    let bound = h.bounded in
    let count : length s.values / 2 ^ 8 % 256 * 2 ^ 8 + length s.values % 256 ≡ length s.values =
      omega arith in
    let body = read_values-put_values s.values none r h.ascending tt in
    rw count (ground (arith, body, length-put_values s.values))

cons_some-eq :
    (v : ℕ) (o : Option (List ℕ)) (vs : List ℕ)
    → cons_some v o ≡ some vs
    → (ws : List ℕ) × (o ≡ some ws) × (vs ≡ v ∷ ws)
unfolding cons_some
cons_some-eq v none vs h = cc
cons_some-eq v (some ws) vs h = (ws, refl, ground arith)

Follows-nil : (p : Option ℕ) → Follows p []
Follows-nil none = tt
Follows-nil (some p) = tt

Follows-cons :
    (p : Option ℕ) (v : ℕ) (vs : List ℕ)
    → unordered p v ≡ false
    → All (λ y. v < y) vs
    → Follows p (v ∷ vs)
unfolding unordered
Follows-cons none v vs h a = tt
Follows-cons (some p) v vs h a = (ground arith, above p v vs (ground arith) a)
  where
    above : (b c : ℕ) (l : List ℕ) → b < c → All (λ y. c < y) l → All (λ y. b < y) l
    above b c [] h k = tt
    above b c (x ∷ l) h k = (omega arith, above b c l h k.1)

read_values-IsAscending :
    (n : ℕ) (p : Option ℕ) (bs : Bytes) (vs : List ℕ)
    → read_values n p bs ≡ some vs
    → IsAscending vs × Follows p vs × (length vs ≡ n)
unfolding read_values
read_values-IsAscending zero p bs [] e = (tt, Follows-nil p, refl)
read_values-IsAscending zero p bs (v ∷ vs) e = cc
read_values-IsAscending (suc n) p (a ∷ b ∷ c ∷ d ∷ e ∷ f ∷ g ∷ h ∷ rest) vs eq =
    let v = get_u64 a b c d e f g h in
    elim (Bool-cases (unordered p v)) [
      | inl bad ↦ cc (rw bad at eq)
      | inr good ↦
          let (ws, read, e') = cons_some-eq v (read_values n (some v) rest) vs (rw good at eq) in
          let (asc, above, len) = read_values-IsAscending n (some v) rest ws read in
          rw e' ((above, asc), Follows-cons p v ws good above, ap suc len)
    ]
read_values-IsAscending (suc n) p _ vs e = cc

-- Whatever bytes are accepted, the sketch read is ascending and within its bound.
pub unmarshal-IsSketch : (bs : Bytes) (s : Sketch) → unmarshal bs ≡ some s → IsSketch s
unfolding unmarshal
unmarshal-IsSketch (version ∷ hi ∷ lo ∷ body) s h =
    let (vs, read, e, bound) = accepted (read_values (hi * 2 ^ 8 + lo) none body) refl in
    let (asc, _, len) = read_values-IsAscending (hi * 2 ^ 8 + lo) none body vs read in
    rw (← e) (record { ascending = asc; bounded = omega arith })
  where
    accepted :
        (o : Option (List ℕ))
        → read_values (hi * 2 ^ 8 + lo) none body ≡ o
        → (vs : List ℕ) × (read_values (hi * 2 ^ 8 + lo) none body ≡ some vs)
          × (record { values = vs } ≡ s)
          × (hi * 2 ^ 8 + lo ≤ 64)
    accepted none r = ground arith
    accepted (some vs) r = (vs, r, ground arith, ground arith)
unmarshal-IsSketch _ s h = cc
