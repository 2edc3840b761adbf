-- ===== src/Json.antt =====
-- The values of Python's json module. A decimal is the text that Python prints for it, an object a dict
-- in its order.
use piso_chain.Base.{◌==◌, Bool, true, false, List, [], ◌∷◌, Text, text_eq, if◌then◌else◌}
use piso_chain.Int.{ℤ, pos, negsuc}
use piso_chain.Text.{codes}

mutual
  pub data Json : Type 0 where
    null : Json
    boolean : Bool → Json
    integer : ℤ → Json
    decimal text : Text → Json
    array : Items → Json
    object : Members → Json

  pub data Items : Type 0 where
    no_items : Items
    item : Json → Items → Items

  pub data Members : Type 0 where
    no_members : Members
    member : Text → Json → Members → Members

-- `d.get(key, default)`
unfoldable pub get_member : Json → Text → Members → Json
get_member default key no_members = default
get_member default key (member name value pairs) =
    let rest = get_member default key pairs in if text_eq name key then value else rest

-- `bool(value)`
unfoldable pub is_true : Json → Bool
is_true null = false
is_true (boolean b) = b
is_true (integer (pos n)) = if n == 0 then false else true
is_true (integer (negsuc n)) = true
is_true (decimal t) =
    if text_eq t (codes "0.0") then false else if text_eq t (codes "-0.0") then false else true
is_true (text []) = false
is_true (text (c ∷ t)) = true
is_true (array no_items) = false
is_true (array (item value items)) = true
is_true (object no_members) = false
is_true (object (member name value pairs)) = true

-- `type(value).__name__`
abbrev pub type_name : Json → Text
type_name null = codes "NoneType"
type_name (boolean b) = codes "bool"
type_name (integer n) = codes "int"
type_name (decimal t) = codes "float"
type_name (text t) = codes "str"
type_name (array items) = codes "list"
type_name (object pairs) = codes "dict"

abbrev pub of_texts : List Text → Items
of_texts [] = no_items
of_texts (t ∷ texts) = item (text t) (of_texts texts)

-- an object with texts for values
abbrev pub fields : List (Text × Text) → Members
fields [] = no_members
fields ((name, value) ∷ rest) = member name (text value) (fields rest)

-- the object before further members
abbrev pub followed : List (Text × Text) → Members → Members
followed [] pairs = pairs
followed ((name, value) ∷ rest) pairs = member name (text value) (followed rest pairs)
