-- ===== src/Json.antt =====
-- JSON values and `JSON.stringify` without indentation. Numbers are natural: the tool schemas, which
-- are all that is printed, hold no others, and stored job payloads are read only for their strings.
use Prim.Native.Nat.{ℕ, ◌/◌, ◌%◌, ◌+◌}
use psychic_octo_invention.Prelude.{
  String, Bool, true, false, [], ◌∷◌, ◌++◌, Text, codes, show, ltb, eqb, if◌then◌else◌, ◌≡◌, refl,
  ◌||◌, ◌==◌, not, Option, none, some,
}

mutual
  pub data Json : Type 0 where
    null : Json
    bool : Bool → Json
    num : ℕ → Json
    str : String → Json
    arr : Items → Json
    obj : Fields → Json

  pub data Items : Type 0 where
    nil : Items
    cons : Json → Items → Items

  pub data Fields : Type 0 where
    end : Fields
    field : String → Json → Fields → Fields

-- `record[key]` of an object, where the first field of a key counts.
abbrev pub get_field : String → Fields → Option Json
get_field key end = none
get_field key (field k v fs) = if k == key then some v else get_field key fs

-- `record[key]` of a value that may be no object.
abbrev pub get_member : String → Json → Option Json
get_member key (obj fs) = get_field key fs
get_member key _ = none

abbrev pub as_string : Option Json → Option String
as_string (some (str s)) = some s
as_string _ = none

-- A value as a condition.
abbrev pub is_truthy : Json → Bool
is_truthy null = false
is_truthy (bool b) = b
is_truthy (num n) = not (eqb n 0)
is_truthy (str s) = not (s == "")
is_truthy (arr xs) = true
is_truthy (obj fs) = true

hex_digit : ℕ → ℕ
hex_digit n = if ltb n 10 then n + 48 else n + 87

-- The escapes of a JSON string; a native string holds no lone surrogate.
escape : ℕ → Text
escape c =
    if eqb c 34 || eqb c 92
    then 92 ∷ c ∷ []
    else if eqb c 8
    then codes "\\b"
    else if eqb c 9
    then codes "\\t"
    else if eqb c 10
    then codes "\\n"
    else if eqb c 12
    then codes "\\f"
    else if eqb c 13
    then codes "\\r"
    else if ltb c 32
    then codes "\\u00" ++ (hex_digit (c / 16) ∷ hex_digit (c % 16) ∷ [])
    else c ∷ []

escape_all : Text → Text
escape_all [] = []
escape_all (c ∷ s) = escape c ++ escape_all s

quote : String → Text
quote s = 34 ∷ (escape_all (codes s) ++ (34 ∷ []))

mutual
  print : Json → Text
  print null = codes "null"
  print (bool true) = codes "true"
  print (bool false) = codes "false"
  print (num n) = codes (show n)
  print (str s) = quote s
  print (arr xs) = 91 ∷ print_items xs
  print (obj fs) = 123 ∷ print_fields fs

  print_items : Items → Text
  print_items nil = 93 ∷ []
  print_items (cons x xs) = print x ++ print_more xs

  print_more : Items → Text
  print_more nil = 93 ∷ []
  print_more (cons x xs) = 44 ∷ (print x ++ print_more xs)

  print_fields : Fields → Text
  print_fields end = 125 ∷ []
  print_fields (field k v fs) = quote k ++ (58 ∷ (print v ++ print_next fs))

  print_next : Fields → Text
  print_next end = 125 ∷ []
  print_next (field k v fs) = 44 ∷ (quote k ++ (58 ∷ (print v ++ print_next fs)))

-- `JSON.stringify(value)`
unfoldable pub stringify : Json → Text
unfolding print print_items print_more print_fields print_next quote escape_all escape hex_digit
    show
stringify v = print v

stringify_test :
    stringify (obj (field "a" (arr (cons (num 12) (cons (str "x\"y") nil))) (field "b" null end)))
    ≡ codes "{\"a\":[12,\"x\\\"y\"],\"b\":null}"
unfolding stringify
stringify_test = refl
