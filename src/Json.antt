-- ===== src/Json.antt =====
-- What the program uses of nlohmann::json and of `double`, as an interface.
--
-- `get k j` is `j[k]` where `j.contains(k)`, and `none` where not, also if j is no object.
use multi_player_game.Common.{
  ℕ, ◌≡◌, String, Bool, true, List, Option, some, ◌==◌, string_eq, if◌then◌else◌,
}
use multi_player_game.Common.Int.{ℤ}
use multi_player_game.Common.Dict.{lookup}

pub record JsonApi : Type 1 where
  pub Json : Type 0
  pub Double : Type 0
  -- `none`: json::parse throws.
  pub parse : List ℕ → Option Json
  pub dump : Json → List ℕ
  pub object : List (String × Json) → Json
  pub array : List Json → Json
  pub string : String → Json
  pub integer : ℤ → Json
  pub boolean : Bool → Json
  pub double : Double → Json
  pub get : String → Json → Option Json
  pub is_object : Json → Bool
  -- `j[k] = v` on an object.
  pub set : String → Json → Json → Json
  -- The value, if `is_string` or `is_number_integer` holds.
  pub as_string : Json → Option String
  pub as_integer : Json → Option ℤ
  -- A duration in nanoseconds as a number of seconds; and `sum / count * 1000.0` of such.
  pub seconds : ℕ → Double
  pub average_ms : ℕ → ℕ → Double
  pub zero_ms : Double
  pub get-object :
      (k : String) (fields : List (String × Json)) → get k (object fields) ≡ lookup k fields
  pub is_object-object : (fields : List (String × Json)) → is_object (object fields) ≡ true
  pub is_object-set : (k : String) (v j : Json) → is_object j ≡ true → is_object (set k v j) ≡ true
  pub get-set :
      (k l : String) (v j : Json)
      → is_object j ≡ true
      → get k (set l v j) ≡ (if l == k then some v else get k j)
  pub as_string-string : (s : String) → as_string (string s) ≡ some s
  pub as_integer-integer : (z : ℤ) → as_integer (integer z) ≡ some z
