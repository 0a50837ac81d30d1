-- ===== src/Examples/Sketches.antt =====
-- The sketch, its codec, the ratio and the limit of rejected records at concrete inputs.
use crawlledger.Domain.Math.{ratio_ppm, ratio_ppm-exact}
use crawlledger.Aggregate.Sketch.{
  Sketch, empty, add_hash, add_hashes, conservative, estimate, IsSketch,
}
use crawlledger.Aggregate.Sketch.Insertion.{add_value, add_hash-take}
use crawlledger.Aggregate.Sketch.Streams.{
  occurs, IsAscendingSetOf, add_hashes-smallest, add_hashes_same_set,
}
use crawlledger.Aggregate.Sketch.Estimate.{conservative_bounds}
use crawlledger.Aggregate.Sketch.Codec.{marshal, unmarshal, unmarshal-marshal, unmarshal-IsSketch}
use crawlledger.App.ParseThreshold.{parse_limit_exceeded, parse_limit_exceeded-exact}
use crawlledger.Base.{
  ℕ, ◌*◌, ◌/◌, ◌≤◌, ◌<◌, min, ◌≡◌, false, some, [], ◌∷◌, arith, leb, take, pos, pos_part,
  mul64_high, nat_key, bytes_key,
}

abbrev three : Sketch
three = record { values = 2 ∷ 5 ∷ 9 ∷ [] }

three-IsSketch : IsSketch three
three-IsSketch = record { ascending = ground arith; bounded = omega arith }

add_hash-take_example : (add_hash 7 three).values ≡ take 64 (add_value 7 three.values)
add_hash-take_example = add_hash-take 7 three three-IsSketch

repeated : (w : ℕ) → occurs w (5 ∷ 2 ∷ 5 ∷ []) ≡ occurs w (2 ∷ 5 ∷ [])
unfolding occurs
repeated w = ground arith

add_hashes_same_set_example : add_hashes (5 ∷ 2 ∷ 5 ∷ []) empty ≡ add_hashes (2 ∷ 5 ∷ []) empty
add_hashes_same_set_example = add_hashes_same_set (5 ∷ 2 ∷ 5 ∷ []) (2 ∷ 5 ∷ []) repeated

conservative_bounds_example : (conservative three 10 ≤ estimate three 10) × (estimate three 10 ≤ 10)
conservative_bounds_example = conservative_bounds three 10 (omega arith)

unmarshal-marshal_example : unmarshal (marshal three) ≡ some three
unmarshal-marshal_example =
    unmarshal-marshal three three-IsSketch (omega arith, (omega arith, (omega arith, tt)))

unmarshal-IsSketch_example : IsSketch three
unmarshal-IsSketch_example = unmarshal-IsSketch (marshal three) three unmarshal-marshal_example

ratio_ppm-exact_example :
    (ratio_ppm (pos 1) (pos 3) ≡ min 1000000 (pos_part (pos 1) * 1000000 / 3))
    × (pos_part (pos 1) < 3 → mul64_high (pos_part (pos 1)) 1000000 < 3)
ratio_ppm-exact_example = ratio_ppm-exact (pos 1) 3 (omega arith)

parse_limit_exceeded-exact_example :
    parse_limit_exceeded 20000 1001 false ≡ leb (20000 * 50001) (1001 * 1000000)
parse_limit_exceeded-exact_example = parse_limit_exceeded-exact 20000 1001 false

add_hashes-smallest_example : IsAscendingSetOf (5 ∷ 2 ∷ 5 ∷ []) (add_hashes (5 ∷ 2 ∷ 5 ∷ []) empty)
add_hashes-smallest_example = add_hashes-smallest (5 ∷ 2 ∷ 5 ∷ [])
