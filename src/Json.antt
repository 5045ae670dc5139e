-- ===== src/Json.antt =====
-- JSON values as the services receive them in JSONB columns and request bodies
-- (the `unknown` and `Record<string, unknown>` types of the TypeScript sources).
use ai_digital_office_os.Prelude.{
  ℕ, String, Bool, List, [], ◌∷◌, Option, none, some, ◌==◌, if◌then◌else◌,
}

mutual
  pub data Json : Type 0 where
    null : Json
    bool : Bool → Json
    num : ℕ → Json
    str : String → Json
    arr : Items → Json
    obj : Fields → Json

  pub data Items : Type 0 where
    nil : Items
    cons : Json → Items → Items

  pub data Fields : Type 0 where
    end : Fields
    field : String → Json → Fields → Fields

-- the elements of an array
abbrev pub to_list : Items → List Json
to_list nil = []
to_list (cons x xs) = x ∷ to_list xs

-- an array of the given elements
abbrev pub of_list : List Json → Items
of_list [] = nil
of_list (x ∷ xs) = cons x (of_list xs)

-- `value["key"]`: `none` is undefined
abbrev pub get : String → Fields → Option Json
get key end = none
get key (field k v rest) = if k == key then some v else get key rest

-- `Array.isArray(v) ? v : []`
abbrev pub array_or_empty : Json → List Json
array_or_empty (arr xs) = to_list xs
array_or_empty _ = []
