-- ===== src/Sdk/Json.antt =====
-- `serde_json::Value`, as far as the `json!` blocks of node/src/chain_spec build it, and a lookup.
use ink_node.Base.{ℕ, String, Option, none, some, str_eq, if◌then◌else◌, List, [], ◌∷◌}

mutual
  pub data Json : Type 0 where
    null : Json
    num : ℕ → Json
    str : String → Json
    arr : Items → Json
    obj : Fields → Json

  pub data Items : Type 0 where
    nil : Items
    cons : Json → Items → Items

  pub data Fields : Type 0 where
    end : Fields
    field : String → Json → Fields → Fields

-- An array of the values of a list, as `collect::<Vec<_>>()` in a `json!` block gives it.
abbrev pub items : {A : Type 0} → (A → Json) → List A → Items
items f [] = nil
items f (x ∷ xs) = cons (f x) (items f xs)

-- A tuple.
abbrev pub pair : Json → Json → Json
pair a b = arr (cons a (cons b nil))

abbrev pub triple : Json → Json → Json → Json
triple a b c = arr (cons a (cons b (cons c nil)))

-- `Option`'s serialization.
abbrev pub nullable : Option Json → Json
nullable none = null
nullable (some j) = j

abbrev pub find : String → Fields → Option Json
find k end = none
find k (field j v fs) = if str_eq j k then some v else find k fs
