-- ===== src/Vectors.antt =====
-- Embeddings: src/embed/arcface.cpp (l2_normalize, dot512) and the quantiser of
-- src/index/exact_scan.cpp. A vector is the list of its components; `dot512` and `dot512_i8` are the
-- portable branches, the vector units sum in another order.
use hvax.Prelude.{ℕ, List, [], ◌∷◌, map, if◌then◌else◌, replicate, ℤ, pos, ◌+ℤ◌, ◌*ℤ◌}
use hvax.Floats.{Floats}

abbrev pub dim : ℕ
dim = 512

-- Σ a[i] * b[i]: 512 products of at most 127 * 127 fit in 32 bits.
pub dot_loop_i8 : ℤ → List ℤ → List ℤ → ℤ
dot_loop_i8 acc (x ∷ xs) (y ∷ ys) = dot_loop_i8 (acc +ℤ x *ℤ y) xs ys
dot_loop_i8 acc _ _ = acc

pub dot512_i8 : List ℤ → List ℤ → ℤ
dot512_i8 a b = dot_loop_i8 (pos 0) a b

module _ (fl : Floats) where
  open fl use {
    Float, Double, lit, neg, add, mul, div, lt, round, of_int, widen, narrow, dlit, dadd, dmul,
    ddiv, dsqrt, dlt,
  }

  abbrev pub Embedding : Type 0
  Embedding = List Float

  abbrev pub zeros : Embedding
  zeros = replicate dim (lit 0 1)

  -- Σ (double)v[i] * v[i]
  pub norm2 : Double → Embedding → Double
  norm2 acc [] = acc
  norm2 acc (x ∷ xs) = norm2 (dadd acc (dmul (widen x) (widen x))) xs

  pub l2_normalize : Embedding → Embedding
  l2_normalize v =
      let acc = norm2 (dlit 0) v in
      let inv = if dlt (dlit 0) acc then narrow (ddiv (dlit 1) (dsqrt acc)) else lit 1 1 in
      map (λ x. mul x inv) v

  pub dot_loop : Float → Embedding → Embedding → Float
  dot_loop s (x ∷ xs) (y ∷ ys) = dot_loop (add s (mul x y)) xs ys
  dot_loop s _ _ = s

  pub dot512 : Embedding → Embedding → Float
  dot512 a b = dot_loop (lit 0 1) a b

  -- round(x * kI8Scale) clamped to [-127, 127], one component.
  pub quantize : Float → ℤ
  quantize f =
      let x = mul f (lit 480 1) in
      let x' = if lt (lit 127 1) x then lit 127 1 else x in
      round (if lt x' (neg (lit 127 1)) then neg (lit 127 1) else x')

  pub quantize_i8 : Embedding → List ℤ
  quantize_i8 = map quantize

  -- dot / kI8Scale²
  pub i8_dot_to_score : ℤ → Float
  i8_dot_to_score dot = div (of_int dot) (mul (lit 480 1) (lit 480 1))
