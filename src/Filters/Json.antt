-- ===== src/Filters/Json.antt =====
-- The values that core/vectors/filters.py works on: JSON payloads and JSON filters.
-- A dict is its items in insertion order. `N` is the type of Python's numbers.
use text.Mathlib.Text.{◌==◌ as str_eq}
use py_runner.Prelude.{String, Bool, List, [], ◌∷◌, if◌then◌else◌}

mutual
  pub data Json (N : Type 0) : Type 0 where
    null : Json N
    bool : Bool → Json N
    num : N → Json N
    str : String → Json N
    arr : Items N → Json N
    obj : Fields N → Json N

  pub data Items (N : Type 0) : Type 0 where
    nil : Items N
    cons : Json N → Items N → Items N

  pub data Fields (N : Type 0) : Type 0 where
    end : Fields N
    field : String → Json N → Fields N → Fields N

module _ {N : Type 0} where
  -- `payload.get(key)`: a missing key and a null are both `None`.
  abbrev pub get : Fields N → String → Json N
  get end key = null
  get (field k v rest) key = if str_eq k key then v else get rest key

  abbrev pub to_list : Items N → List (Json N)
  to_list nil = []
  to_list (cons x xs) = x ∷ to_list xs

  -- `actual if isinstance(actual, list) else [actual]`
  abbrev pub elements : Json N → List (Json N)
  elements (arr items) = to_list items
  elements null = null ∷ []
  elements (bool b) = bool b ∷ []
  elements (num n) = num n ∷ []
  elements (str s) = str s ∷ []
  elements (obj fs) = obj fs ∷ []

  -- `_ops`: the items of a dict condition; a bare value is `$eq`.
  abbrev pub ops : Json N → Fields N
  ops (obj fs) = fs
  ops null = field "$eq" null end
  ops (bool b) = field "$eq" (bool b) end
  ops (num n) = field "$eq" (num n) end
  ops (str s) = field "$eq" (str s) end
  ops (arr xs) = field "$eq" (arr xs) end
