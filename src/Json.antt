-- ===== src/Json.antt =====
-- JSON values, as `JSON.parse` returns them. Numbers are natural numbers: the program reads no others.
use thelab_ms.Base.{
  ℕ, String, Bool, Option, none, some, List, [], ◌∷◌, ◌==◌, string_eq, if◌then◌else◌,
}

mutual
  pub data Json : Type 0 where
    null : Json
    bool : Bool → Json
    num : ℕ → Json
    str : String → Json
    arr : Items → Json
    obj : Fields → Json

  pub data Items : Type 0 where
    nil : Items
    cons : Json → Items → Items

  pub data Fields : Type 0 where
    end : Fields
    field : String → Json → Fields → Fields

-- object.name; `none` is `undefined`.
unfoldable pub get_field : String → Fields → Option Json
get_field name end = none
get_field name (field key value rest) =
    let later = get_field name rest in if key == name then some value else later

unfoldable pub prop : String → Json → Option Json
prop name (obj fields) = get_field name fields
prop name _ = none

-- typeof value === 'string'
unfoldable pub as_string : Option Json → Option String
as_string (some (str s)) = some s
as_string _ = none

unfoldable pub as_num : Option Json → Option ℕ
as_num (some (num n)) = some n
as_num _ = none

abbrev pub items : Items → List Json
items nil = []
items (cons x xs) = x ∷ items xs

-- isRecord
unfoldable pub is_record : Json → Bool
is_record (obj fields) = Bool.true
is_record _ = Bool.false

-- Whether a value is truthy: null, false, 0 and '' are not.
unfoldable pub truthy : Option Json → Bool
truthy none = Bool.false
truthy (some null) = Bool.false
truthy (some (bool b)) = b
truthy (some (num ℕ.zero)) = Bool.false
truthy (some (num (ℕ.suc n))) = Bool.true
truthy (some (str s)) = if s == "" then Bool.false else Bool.true
truthy (some _) = Bool.true
