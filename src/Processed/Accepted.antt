-- ===== src/Processed/Accepted.antt =====
-- What parse_processed_payload of src/processed.cpp accepts.
use hvax.Prelude.{
  ℕ, suc, ◌+◌, ◌*◌, ◌≤◌, ◌≡◌, refl, ap, subst, arith, Bool, true, false, codes, ◌-◌, Option, none,
  some, List, [], ◌∷◌, ◌++◌, length, length-append, All, if◌then◌else◌, ◌==◌, leb, leb→le, ==_iff,
  some-inj,
}
use hvax.Floats.{Floats}
use hvax.Types.{DetectedFace}
use hvax.Processed.Wire.{
  Json, Items, nil, cons, Fields, JsonLib, ParseError, Checked, good, bad, ◌>>=◌, ◌>>◌, demand,
  guard, member, items_size, as_object, as_array, as_number, bad_landmark, buffalo,
}
use hvax.Gallery.State.{sha_eq}
use hvax.Processed.Shape.{IsFinite, IsWire}
use hvax.Processed.Parse.{
  if_finite, both, float_items, sized_floats, read_float_array, box_of, point_items, score_in_range,
  value_int, value_text, is_int, parse_fields, parse_face, parse_faces, parse_root, checked_faces,
  parsed, parse_processed_payload,
}

-- What is checked, where it is good, has the property `P`.
abbrev Ensures {ℓ} : {A : Type 0} → (A → Type ℓ) → Checked A → Type ℓ
Ensures P (good a) = P a
Ensures P (bad e) = Unit

bind-Ensures :
    {A B : Type 0} (P : A → Type 0) (Q : B → Type 0) (m : Checked A) (f : A → Checked B)
    → Ensures P m
    → ((a : A) → P a → Ensures Q (f a))
    → Ensures Q (m >>= f)
bind-Ensures P Q (good a) f h k = k a h
bind-Ensures P Q (bad e) f h k = tt

any-Ensures :
    {A B : Type 0} (Q : B → Type 0) (m : Checked A) (f : A → Checked B)
    → ((a : A) → Ensures Q (f a))
    → Ensures Q (m >>= f)
any-Ensures Q (good a) f k = k a
any-Ensures Q (bad e) f k = tt

demand-Ensures :
    {A B : Type 0} (Q : B → Type 0) (o : Option A) (e : ParseError) (f : A → Checked B)
    → ((a : A) → o ≡ some a → Ensures Q (f a))
    → Ensures Q (demand o e >>= f)
demand-Ensures Q none e f k = tt
demand-Ensures Q (some a) e f k = k a refl

guard-Ensures :
    {B : Type 0} (Q : B → Type 0) (b : Bool) (e : ParseError) (m : Checked B)
    → (b ≡ true → Ensures Q m)
    → Ensures Q (guard b e >> m)
guard-Ensures Q true e m k = k refl
guard-Ensures Q false e m k = tt

-- The same for an Option.
abbrev Some {ℓ} : {A : Type 0} → (A → Type ℓ) → Option A → Type ℓ
Some P none = Unit
Some P (some a) = P a

some-Some : {A : Type 0} (P : A → Type 0) (o : Option A) (a : A) → Some P o → o ≡ some a → P a
some-Some P none a h e = absurd (cc)
some-Some P (some b) a h e = subst P (some-inj e) h

module _ (fl : Floats) (lib : JsonLib fl.Float) where
  open fl use {Float, finite}

  -- Finite numbers, so many of them.
  abbrev Finite : ℕ → List Float → Type 0
  Finite n xs = All (IsFinite fl lib) xs × (length xs ≡ n)

  if_finite-Some : (o : Option lib.Number) → Some (IsFinite fl lib) (if_finite fl lib o)
  unfolding if_finite
  if_finite-Some none = tt
  if_finite-Some (some x) = go (finite (lib.to_float x)) refl
    where
      go :
          (b : Bool)
          → finite (lib.to_float x) ≡ b
          → Some (IsFinite fl lib) (if b then some (lib.to_float x) else none)
      go true e = e
      go false e = tt

  both-Some :
      (o : Option Float) (rest : Option (List Float)) (n : ℕ)
      → Some (IsFinite fl lib) o
      → Some (Finite n) rest
      → Some (Finite (suc n)) (both fl lib o rest)
  unfolding both
  both-Some none rest n h k = tt
  both-Some (some x) none n h k = tt
  both-Some (some x) (some xs) n h k = ((h, k.0), ap suc k.1)

  float_items-Some : (js : Items lib.Number) → Some (Finite (items_size js)) (float_items fl lib js)
  unfolding float_items items_size
  float_items-Some nil = (tt, refl)
  float_items-Some (cons j js) =
      both-Some _ _ (items_size js) (if_finite-Some (as_number (some j))) (float_items-Some js)

  sized_floats-Some :
      (o : Option (Items lib.Number)) (n : ℕ) → Some (Finite n) (sized_floats fl lib o n)
  unfolding sized_floats
  sized_floats-Some none n = tt
  sized_floats-Some (some js) n = go (items_size js == n) refl
    where
      go :
          (b : Bool)
          → (items_size js == n) ≡ b
          → Some (Finite n) (if b then float_items fl lib js else none)
      go true e =
          subst (λ m. Some (Finite m) (float_items fl lib js)) ((==_iff (items_size js) n).0 e)
            (float_items-Some js)
      go false e = tt

  read_float_array_lem :
      (j : Option (Json lib.Number)) (n : ℕ) (xs : List Float)
      → read_float_array fl lib j n ≡ some xs
      → Finite n xs
  unfolding read_float_array
  read_float_array_lem j n xs e =
      some-Some (Finite n) (sized_floats fl lib (as_array j) n) xs
        (sized_floats-Some (as_array j) n) e

  append-Finite :
      (m n : ℕ) (xs ys : List Float) → Finite m xs → Finite n ys → Finite (m + n) (xs ++ ys)
  append-Finite m n [] ys h k = (k.0, omega (arith, h.1, k.1))
  append-Finite m n (x ∷ xs) ys h k =
      let rest = append-Finite (m - 1) n xs ys (h.0.1, omega (arith, h.1)) k in
      ((h.0.0, rest.0), omega (arith, rest.1, h.1))

  point_items-Ensures :
      (js : Items lib.Number) → Ensures (Finite (2 * items_size js)) (point_items fl lib js)
  unfolding point_items items_size
  point_items-Ensures nil = (tt, refl)
  point_items-Ensures (cons j js) =
      demand-Ensures _ (read_float_array fl lib (some j) 2) bad_landmark _ (λ xy e.
        bind-Ensures (Finite (2 * items_size js)) _ (point_items fl lib js) _
          (point_items-Ensures js)
          (λ rest k.
            subst (λ n. Finite n (xy ++ rest)) (omega arith)
              (append-Finite 2 (2 * items_size js) xy rest (read_float_array_lem (some j) 2 xy e)
                k)))

  box_of-Finite :
      (xs : List Float)
      → Finite 4 xs
      → let b = box_of fl lib xs in
        IsFinite fl lib b.x1 × IsFinite fl lib b.y1 × IsFinite fl lib b.x2 × IsFinite fl lib b.y2
  unfolding box_of
  box_of-Finite (a ∷ b ∷ c ∷ d ∷ _) h = (h.0.0, h.0.1.0, h.0.1.1.0, h.0.1.1.1.0)
  box_of-Finite (a ∷ b ∷ c ∷ []) h = ground (arith, h.1)
  box_of-Finite (a ∷ b ∷ []) h = ground (arith, h.1)
  box_of-Finite (a ∷ []) h = ground (arith, h.1)
  box_of-Finite [] h = ground (arith, h.1)

  parse_fields-IsWire :
      (value : Fields lib.Number) → Ensures (IsWire fl lib) (parse_fields fl lib value)
  unfolding parse_fields
  parse_fields-IsWire value =
      demand-Ensures _ (read_float_array fl lib (member (codes "bbox") value) 4) _ _ (λ bbox eb.
        demand-Ensures _ (as_number (member (codes "det_score") value)) _ _ (λ score es.
          guard-Ensures _ (score_in_range fl lib (lib.to_float score)) _ _ (λ inside.
            demand-Ensures _ (as_array (member (codes "landmarks") value)) _ _ (λ points ep.
              guard-Ensures _ (items_size points == 5) _ _ (λ five.
                bind-Ensures (Finite (2 * items_size points)) _ (point_items fl lib points) _
                  (point_items-Ensures points)
                  (λ kps k.
                    demand-Ensures _
                      (read_float_array fl lib (member (codes "embedding") value) 512) _ _
                      (λ embedding ee.
                        let components = read_float_array_lem _ 512 embedding ee in
                        record {
                          box = box_of-Finite bbox (read_float_array_lem _ 4 bbox eb);
                          score = inside;
                          points = omega (arith, k.1, (==_iff (items_size points) 5).0 five);
                          finite_points = k.0;
                          components = components.1;
                          finite_components = components.0;
                        })))))))

  parse_face-IsWire : (j : Json lib.Number) → Ensures (IsWire fl lib) (parse_face fl lib j)
  unfolding parse_face
  parse_face-IsWire j = demand-Ensures _ (as_object j) _ _ (λ fields e. parse_fields-IsWire fields)

  All-snoc :
      {A : Type 0} (P : A → Type 0) (xs : List A) (x : A) → All P xs → P x → All P (xs ++ (x ∷ []))
  All-snoc P [] x h k = (k, tt)
  All-snoc P (y ∷ ys) x h k = (h.0, All-snoc P ys x h.1 k)

  -- All faces that are put out are as the wire carries them, and at most `n`.
  abbrev WireUpTo : ℕ → List (DetectedFace Float) × Option ParseError → Type 0
  WireUpTo n (faces, error) = All (IsWire fl lib) faces × (length faces ≤ n)

  parse_faces-WireUpTo :
      (done : List (DetectedFace Float)) (js : Items lib.Number) (n : ℕ)
      → All (IsWire fl lib) done
      → length done + items_size js ≤ n
      → WireUpTo n (parse_faces fl lib done js)
  unfolding parse_faces items_size
  parse_faces-WireUpTo done nil n h k = (h, omega (arith, k))
  parse_faces-WireUpTo done (cons j js) n h k =
      go (parse_face fl lib j) (parse_face-IsWire j) (λ f w.
        parse_faces-WireUpTo (done ++ (f ∷ [])) js n (All-snoc (IsWire fl lib) done f h w)
          (omega (arith, length-append {0} done (f ∷ []), k)))
    where
      go :
          (m : Checked (DetectedFace Float))
          → Ensures (IsWire fl lib) m
          → ((f : DetectedFace Float)
              → IsWire fl lib f
              → WireUpTo n (parse_faces fl lib (done ++ (f ∷ [])) js))
          → WireUpTo n (elim m [
            | good f ↦ parse_faces fl lib (done ++ (f ∷ [])) js
            | bad e ↦ (done, some e)
          ])
      go (good f) w rest = rest f w
      go (bad e) w rest = (h, omega (arith, k))

  parse_root-Ensures :
      (j : Json lib.Number) → Ensures (λ js. items_size js ≤ 1024) (parse_root fl lib j)
  unfolding parse_root
  parse_root-Ensures j = demand-Ensures _ (as_object j) _ _ (λ root e.
      any-Ensures _ (value_int fl lib root (codes "version")) _ (λ version.
        guard-Ensures _ (is_int version 1) _ _ (λ one.
          any-Ensures _ (value_int fl lib root (codes "embedding_dim")) _ (λ dim.
            guard-Ensures _ (is_int dim 512) _ _ (λ wide.
              any-Ensures _ (value_text fl lib root (codes "model")) _ (λ model.
                guard-Ensures _ (sha_eq model buffalo) _ _ (λ known.
                  demand-Ensures _ (as_array (member (codes "faces") root)) _ _ (λ faces ef.
                    guard-Ensures _ (leb (items_size faces) 1024) _ _
                      (λ few. leb→le _ _ few)))))))))

  checked_faces-WireUpTo :
      (m : Checked (Items lib.Number))
      → Ensures (λ js. items_size js ≤ 1024) m
      → WireUpTo 1024 (checked_faces fl lib m)
  unfolding checked_faces
  checked_faces-WireUpTo (bad e) h = (tt, omega arith)
  checked_faces-WireUpTo (good js) h = parse_faces-WireUpTo [] js 1024 tt (omega (arith, h))

  parsed-WireUpTo : (o : Option (Json lib.Number)) → WireUpTo 1024 (parsed fl lib o)
  unfolding parsed
  parsed-WireUpTo none = (tt, omega arith)
  parsed-WireUpTo (some j) = checked_faces-WireUpTo (parse_root fl lib j) (parse_root-Ensures j)

  -- Whatever the payload is, and with or without an error, the faces that parse_processed_payload
  -- puts out are at most 1024, and each has a score between 0 and 1, five points, 512 components and
  -- finite numbers only.
  pub parse_processed_payload-WireUpTo :
      (payload : List ℕ)
      → All (IsWire fl lib) (parse_processed_payload fl lib payload).0
        × (length (parse_processed_payload fl lib payload).0 ≤ 1024)
  unfolding parse_processed_payload
  parse_processed_payload-WireUpTo payload = parsed-WireUpTo (lib.parse payload)
