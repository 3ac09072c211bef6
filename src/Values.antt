-- ===== src/Values.antt =====
-- The dynamic values of the workflow's state: Python dictionaries that hold texts, truth values,
-- numbers, instants, lists and dictionaries. Numbers are only carried along.
use networkops_ai_agent.Base.{
  ℕ, Bool, String, if◌then◌else◌, ◌==◌, false, ◌||◌, ◌≡◌, refl, arith, eq_iff, nat_beq, suc, true,
  not, ◌&&◌, nat_eq, string_eq,
}

-- An instant in microseconds, with or without a time zone.
pub data Datetime : Type 0 where
  aware naive : ℕ → Datetime

mutual
  pub data Value : Type 0 where
    null : Value
    bool : Bool → Value
    str : String → Value
    number : ℕ → Value
    datetime : Datetime → Value
    list : Items → Value
    dict : Fields → Value

  pub data Items : Type 0 where
    nil : Items
    cons : Value → Items → Items

  pub data Fields : Type 0 where
    end : Fields
    field : String → Value → Fields → Fields

-- `d.get(key)`: None where the key is missing.
unfoldable pub get_field : Fields → String → Value
get_field end key = null
get_field (field k v fields) key = let rest = get_field fields key in if k == key then v else rest

-- `key in d`
unfoldable pub has_field : Fields → String → Bool
has_field end key = false
has_field (field k v fields) key = k == key || has_field fields key

-- `d[key] = value`
unfoldable pub put_field : Fields → String → Value → Fields
put_field end key value = field key value end
put_field (field k v fields) key value =
    let rest = put_field fields key value in
    if k == key then field k value fields else field k v rest

pub get_field-put_field :
    (fields : Fields) (k : String) (v : Value) (j : String)
    → get_field (put_field fields k v) j ≡ (if k == j then v else get_field fields j)
unfolding get_field put_field
get_field-put_field end k v j = refl
get_field-put_field (field i w fields) k v j =
    ground (arith, eq_iff k j, eq_iff i k, eq_iff i j, get_field-put_field fields k v j)

abbrev pub datetime_eq : Datetime → Datetime → Bool
datetime_eq (aware a) (aware b) = nat_beq a b
datetime_eq (naive a) (naive b) = nat_beq a b
datetime_eq _ _ = false

count_fields : Fields → ℕ
count_fields end = 0
count_fields (field k v fields) = suc (count_fields fields)

-- Python's `==`: dictionaries are equal whatever the order of their keys.
unfoldable mutual
  unfolding count_fields get_field has_field

  pub value_eq : Value → Value → Bool
  value_eq null null = true
  value_eq (bool a) (bool b) = if a then b else not b
  value_eq (bool a) (number n) = if a then nat_beq n 1 else nat_beq n 0
  value_eq (number n) (bool a) = if a then nat_beq n 1 else nat_beq n 0
  value_eq (str a) (str b) = a == b
  value_eq (number a) (number b) = nat_beq a b
  value_eq (datetime a) (datetime b) = datetime_eq a b
  value_eq (list a) (list b) = items_eq a b
  value_eq (dict a) (dict b) = nat_beq (count_fields a) (count_fields b) && fields_within a b
  value_eq _ _ = false

  pub items_eq : Items → Items → Bool
  items_eq nil nil = true
  items_eq (cons x xs) (cons y ys) = value_eq x y && items_eq xs ys
  items_eq _ _ = false

  pub fields_within : Fields → Fields → Bool
  fields_within end b = true
  fields_within (field k v a) b = has_field b k && value_eq v (get_field b k) && fields_within a b
