-- ===== src/Processed/Tests.antt =====
-- A payload of one face, and a face that reaches over the edge of its image.
use hvax.Prelude.{ℕ, ◌≤◌, refl, none, some, List, [], ◌∷◌, length, replicate, All, pos, Option, ℤ}
use hvax.Types.{DetectedFace}
use hvax.Examples.{hundredths}
use hvax.Processed.Wire.{Json, number, text, JsonLib}
use hvax.Processed.Shape.{IsWire}
use hvax.Processed.Parse.{parse_processed_payload, processed_payload_json}
use hvax.Processed.Accepted.{parse_processed_payload-WireUpTo}

abbrev plain_int : Json ℕ → Option ℤ
plain_int (number n) = some (pos n)
plain_int _ = none

abbrev plain_text : Json ℕ → Option (List ℕ)
plain_text (text t) = some t
plain_text _ = none

-- A library that reads nothing.
abbrev mute : JsonLib ℕ
mute = record {
  Number = ℕ;
  to_float = λ x. x;
  of_float = λ x. x;
  of_int = λ n. n;
  get_int = plain_int;
  get_text = plain_text;
  parse = λ t. none;
  to_float_of_float = λ x. refl;
  get_int_number = λ n. refl;
  get_text_text = λ t. refl;
}

abbrev wide_face : DetectedFace ℕ
wide_face = record {
  box = record { x1 = 0; y1 = 0; x2 = 900; y2 = 500 };
  det_score = 90;
  kps = replicate 10 50;
  embedding = replicate 512 50;
}

-- One that reads every text as the payload of that face.
abbrev one_payload : JsonLib ℕ
one_payload = record mute {
  parse = λ t. some (processed_payload_json hundredths mute (wide_face ∷ []));
}

parse_processed_payload-WireUpTo_example :
    All (IsWire hundredths one_payload) (parse_processed_payload hundredths one_payload []).0
    × (length (parse_processed_payload hundredths one_payload []).0 ≤ 1024)
parse_processed_payload-WireUpTo_example =
    parse_processed_payload-WireUpTo hundredths one_payload []
