-- ===== src/Processed/Wire.antt =====
-- JSON values as src/processed.cpp reads them, the library's part as a parameter, and the results.
use hvax.Prelude.{
  ℕ, suc, ◌≡◌, Bool, true, false, Option, none, some, List, [], ◌∷◌, codes, if◌then◌else◌, ℤ, pos,
}
use hvax.Gallery.State.{sha_eq}

-- nlohmann::json, over the numbers of the library.
mutual
  pub data Json (N : Type 0) : Type 0 where
    null : Json N
    boolean : Bool → Json N
    number : N → Json N
    text : List ℕ → Json N
    array : Items N → Json N
    object : Fields N → Json N

  pub data Items (N : Type 0) : Type 0 where
    nil : Items N
    cons : Json N → Items N → Items N

  pub data Fields (N : Type 0) : Type 0 where
    end : Fields N
    field : List ℕ → Json N → Fields N → Fields N

-- What the code asks of the library.
pub record JsonLib (F : Type 0) : Type 1 where
  pub Number : Type 0
  -- get<float> of a number, and a number made of a float or an integer.
  pub to_float : Number → F
  pub of_float : F → Number
  pub of_int : ℕ → Number
  -- get<int> and get<std::string>; `none` is an exception.
  pub get_int : Json Number → Option ℤ
  pub get_text : Json Number → Option (List ℕ)
  -- json::parse
  pub parse : List ℕ → Option (Json Number)
  pub to_float_of_float : (x : F) → to_float (of_float x) ≡ x
  pub get_int_number : (n : ℕ) → get_int (number (of_int n)) ≡ some (pos n)
  pub get_text_text : (t : List ℕ) → get_text (text t) ≡ some t

pub data ParseError : Type 0 where
  bad_version bad_dim bad_model : ParseError
  faces_not_array too_many_faces face_not_object bad_bbox : ParseError
  score_not_number score_out_of_range : ParseError
  not_five_landmarks bad_landmark bad_embedding : ParseError
  -- "invalid processed payload: " and the exception's text.
  threw : ParseError

pub data Checked (A : Type 0) : Type 0 where
  good : A → Checked A
  bad : ParseError → Checked A

infixl 5 ◌>>=◌ ◌>>◌
abbrev pub ◌>>=◌ : {A B : Type 0} → Checked A → (A → Checked B) → Checked B
good a >>= f = f a
bad e >>= f = bad e

abbrev pub ◌>>◌ : {B : Type 0} → Checked (Unit {0}) → Checked B → Checked B
m >> k = m >>= λ _. k

-- `if (!b) { error = e; return false; }`
abbrev pub guard : Bool → ParseError → Checked (Unit {0})
guard true e = good tt
guard false e = bad e

abbrev pub demand : {A : Type 0} → Option A → ParseError → Checked A
demand none e = bad e
demand (some a) e = good a

abbrev pub max_processed_faces : ℕ
max_processed_faces = 1024

abbrev pub buffalo : List ℕ
buffalo = codes "insightface-buffalo_l"

module _ {N : Type 0} where
  unfoldable pub member : List ℕ → Fields N → Option (Json N)
  member key end = none
  member key (field k v fs) = if sha_eq k key then some v else member key fs

  unfoldable pub items_size : Items N → ℕ
  items_size nil = 0
  items_size (cons j js) = suc (items_size js)

  unfoldable pub as_object : Json N → Option (Fields N)
  as_object (object fs) = some fs
  as_object _ = none

  unfoldable pub as_array : Option (Json N) → Option (Items N)
  as_array (some (array js)) = some js
  as_array _ = none

  unfoldable pub as_number : Option (Json N) → Option N
  as_number (some (number x)) = some x
  as_number _ = none

  unfoldable pub items_of : (List (Json N)) → Items N
  items_of [] = nil
  items_of (j ∷ js) = cons j (items_of js)
