-- ===== src/Json.antt =====
-- JSON data as the server reads and builds it (`serde_json::Value`, its accessors and `json!`).
-- A number that is no `i64` is kept by its text; printing and parsing are parameters (Server/Env).
use nymstr.Prelude.{Bool, String, List, [], ◌∷◌, Option, none, some, ◌==◌, if◌then◌else◌, string_eq}
use nymstr.Prelude.Int.{ℤ}

mutual
  pub data Value : Type 0 where
    null : Value
    bool : Bool → Value
    int : ℤ → Value
    real : String → Value
    str : String → Value
    arr : Values → Value
    obj : Fields → Value

  pub data Values : Type 0 where
    nil : Values
    cons : Value → Values → Values

  pub data Fields : Type 0 where
    end : Fields
    field : String → Value → Fields → Fields

-- `json!({ … })`.
abbrev fields : List (String × Value) → Fields
fields [] = end
fields ((k, v) ∷ l) = field k v (fields l)

abbrev pub object : List (String × Value) → Value
object l = obj (fields l)

abbrev values : List Value → Values
values [] = nil
values (v ∷ l) = cons v (values l)

-- A JSON array of a vector.
abbrev pub array : List Value → Value
array l = arr (values l)

get_field : String → Fields → Option Value
get_field k end = none
get_field k (field j v l) = if j == k then some v else get_field k l

-- `Value::get`, which finds nothing in what is no object.
unfoldable pub get : String → Value → Option Value
unfolding get_field
get k (obj l) = get_field k l
get k null = none
get k (bool b) = none
get k (int z) = none
get k (real t) = none
get k (str t) = none
get k (arr l) = none

unfoldable pub as_str : Value → Option String
as_str (str t) = some t
as_str null = none
as_str (bool b) = none
as_str (int z) = none
as_str (real t) = none
as_str (arr l) = none
as_str (obj l) = none

unfoldable pub as_i64 : Value → Option ℤ
as_i64 (int z) = some z
as_i64 null = none
as_i64 (bool b) = none
as_i64 (real t) = none
as_i64 (str t) = none
as_i64 (arr l) = none
as_i64 (obj l) = none

unfoldable pub as_bool : Value → Option Bool
as_bool (bool b) = some b
as_bool null = none
as_bool (int z) = none
as_bool (real t) = none
as_bool (str t) = none
as_bool (arr l) = none
as_bool (obj l) = none

elements : Values → List Value
elements nil = []
elements (cons v l) = v ∷ elements l

unfoldable pub as_array : Value → Option (List Value)
unfolding elements
as_array (arr l) = some (elements l)
as_array null = none
as_array (bool b) = none
as_array (int z) = none
as_array (real t) = none
as_array (str t) = none
as_array (obj l) = none

-- `v.get(k).and_then(Value::as_str)` and its like.
unfoldable pub get_str : String → Value → Option String
unfolding get as_str
get_str k v = elim (get k v) [ none ↦ none | some w ↦ as_str w ]

unfoldable pub get_i64 : String → Value → Option ℤ
unfolding get as_i64
get_i64 k v = elim (get k v) [ none ↦ none | some w ↦ as_i64 w ]

unfoldable pub get_bool : String → Value → Option Bool
unfolding get as_bool
get_bool k v = elim (get k v) [ none ↦ none | some w ↦ as_bool w ]

unfoldable pub get_array : String → Value → Option (List Value)
unfolding get as_array
get_array k v = elim (get k v) [ none ↦ none | some w ↦ as_array w ]

-- `arr.iter().filter_map(as_str)`.
unfoldable pub texts : List Value → List String
unfolding as_str
texts [] = []
texts (v ∷ l) = let rest = texts l in elim (as_str v) [ none ↦ rest | some t ↦ t ∷ rest ]
