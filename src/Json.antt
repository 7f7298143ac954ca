-- ===== src/Json.antt =====
-- The part of Qt's JSON classes that the program uses: QJsonValue, QJsonArray, and QJsonObject,
-- which keeps its fields in the order of their keys. Numbers are integers.
use zarya.Prelude.{
  ◌≡◌, refl, ap, Bool, true, false, List, [], ◌∷◌, map, Text, text_eq, text_eq_iff, ℤ, pos, negsuc,
  ltb, leb, ◌==◌, if◌then◌else◌, is_empty, arith,
}

-- `undefined` is what a missing key gives.
mutual
  pub data Json : Type 0 where
    undefined null : Json
    bool : Bool → Json
    num : ℤ → Json
    str : Text → Json
    arr : Items → Json
    obj : Fields → Json

  pub data Items : Type 0 where
    nil : Items
    cons : Json → Items → Items

  pub data Fields : Type 0 where
    end : Fields
    field : Text → Json → Fields → Fields

unfoldable pub text_lt : Text → Text → Bool
text_lt s [] = false
text_lt [] (d ∷ t) = true
text_lt (c ∷ s) (d ∷ t) = let rest = text_lt s t in if c == d then rest else ltb c d

-- QJsonObject::value.
unfoldable pub value : Fields → Text → Json
unfolding text_eq
value end key = undefined
value (field k v f) key = let rest = value f key in if text_eq k key then v else rest

-- QJsonObject::insert.
unfoldable pub insert : Text → Json → Fields → Fields
unfolding text_eq text_lt
insert key v end = field key v end
insert key v (field k w f) =
    let rest = insert key v f in
    if text_eq k key
    then field key v f
    else if text_lt key k
    then field key v (field k w f)
    else field k w rest

-- QJsonObject::isEmpty.
abbrev pub is_empty_object : Fields → Bool
is_empty_object end = true
is_empty_object (field k v f) = false

-- QJsonValue::toString, with the default that it gives for any other kind of value.
abbrev pub to_string_or : Json → Text → Text
to_string_or (str s) default = s
to_string_or _ default = default

abbrev pub to_string : Json → Text
to_string v = to_string_or v []

-- The numbers of 32 bits.
abbrev pub is_int : ℤ → Bool
is_int (pos n) = leb n 2147483647
is_int (negsuc n) = leb n 2147483647

-- QJsonValue::toInt.
abbrev pub to_int_or : Json → ℤ → ℤ
to_int_or (num n) default = if is_int n then n else default
to_int_or _ default = default

-- QJsonValue::toDouble, on integers.
abbrev pub to_number : Json → ℤ
to_number (num n) = n
to_number _ = pos 0

-- What was read as a number of 32 bits, or is the default, is read back.
pub to_int_or_idem :
    (v : Json) (default : ℤ) → to_int_or (num (to_int_or v default)) default ≡ to_int_or v default
to_int_or_idem (num n) default = ground arith
to_int_or_idem undefined default = ground arith
to_int_or_idem null default = ground arith
to_int_or_idem (bool b) default = ground arith
to_int_or_idem (str s) default = ground arith
to_int_or_idem (arr vs) default = ground arith
to_int_or_idem (obj f) default = ground arith

abbrev pub to_bool_or : Json → Bool → Bool
to_bool_or (bool b) default = b
to_bool_or _ default = default

abbrev pub to_object : Json → Fields
to_object (obj f) = f
to_object _ = end

abbrev pub is_null : Json → Bool
is_null null = true
is_null _ = false

abbrev pub items : Items → List Json
items nil = []
items (cons v vs) = v ∷ items vs

abbrev pub of_list : List Json → Items
of_list [] = nil
of_list (v ∷ vs) = cons v (of_list vs)

-- QJsonValue::toArray.
abbrev pub to_array : Json → List Json
to_array (arr vs) = items vs
to_array _ = []

pub items-of_list : (vs : List Json) → items (of_list vs) ≡ vs
items-of_list [] = refl
items-of_list (v ∷ vs) = rw (items-of_list vs)

-- An array of texts is read as the texts.
pub texts_read : (tags : List Text) → map to_string (to_array (arr (of_list (map str tags)))) ≡ tags
texts_read [] = refl
texts_read (t ∷ tags) = ap (λ rest. t ∷ rest) (texts_read tags)

-- Reading a key after a write gives the new value at that key, and at any other the old one.
pub value-insert :
    (key j : Text) (v : Json) (f : Fields)
    → value (insert key v f) j ≡ (if text_eq key j then v else value f j)
unfolding value insert
value-insert key j v end = refl
value-insert key j v (field k w f) =
    ground (arith, text_eq_iff k key, text_eq_iff key j, text_eq_iff k j, value-insert key j v f)

pub is_empty_object-insert :
    (key : Text) (v : Json) (f : Fields) → is_empty_object (insert key v f) ≡ false
unfolding insert
is_empty_object-insert key v end = refl
is_empty_object-insert key v (field k w f) = ground arith

-- `object.insert` behind a test that the text is not empty.
unfoldable pub insert_text : Text → Text → Fields → Fields
unfolding insert
insert_text key text f = if is_empty text then f else insert key (str text) f
