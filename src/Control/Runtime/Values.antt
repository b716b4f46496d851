-- ===== src/Control/Runtime/Values.antt =====
-- Payloads of events (runtime-client.ts): a `google.protobuf.Struct` and the object that the client
-- makes of it.
use wind_solar_ess_agent.Base.{◌≡◌, refl, ap, String}
use wind_solar_ess_agent.Js.Text.{codes}
use wind_solar_ess_agent.Js.Json.{
  Json, Fields, Items, null, bool, num, str, arr, obj, nil, cons, end, field, get,
}
use wind_solar_ess_agent.Control.Runtime.{
  protobuf_value, protobuf_items, protobuf_fields, struct_to_object,
}

-- A `Value` with one of its fields set, as the loader presents it: the field, and the name of the
-- field that is set.
abbrev kind_of : String → Json → Json
kind_of name value = obj (field name value (field "kind" (str (codes name)) end))

-- The protobuf value for a JSON value, and the `Struct` for the fields of an object.
abbrev mutual
  pub to_value : Json → Json
  to_value null = kind_of "nullValue" (str (codes "NULL_VALUE"))
  to_value (bool b) = kind_of "boolValue" (bool b)
  to_value (num n) = kind_of "numberValue" (num n)
  to_value (str s) = kind_of "stringValue" (str s)
  to_value (arr xs) = kind_of "listValue" (obj (field "values" (arr (to_items xs)) end))
  to_value (obj fs) = kind_of "structValue" (obj (field "fields" (obj (to_fields fs)) end))

  pub to_items : Items → Items
  to_items nil = nil
  to_items (cons v xs) = cons (to_value v) (to_items xs)

  pub to_fields : Fields → Fields
  to_fields end = end
  to_fields (field k v fs) = field k (to_value v) (to_fields fs)

abbrev pub to_struct : Fields → Json
to_struct fs = obj (field "fields" (obj (to_fields fs)) end)

mutual
  unfolding protobuf_value get

  protobuf_value-to_value : (v : Json) → protobuf_value (to_value v) ≡ v
  protobuf_value-to_value null = refl
  protobuf_value-to_value (bool b) = refl
  protobuf_value-to_value (num n) = refl
  protobuf_value-to_value (str s) = refl
  protobuf_value-to_value (arr xs) = ap arr (protobuf_items-to_items xs)
  protobuf_value-to_value (obj fs) = ap obj (protobuf_fields-to_fields fs)

  protobuf_items-to_items : (xs : Items) → protobuf_items (to_items xs) ≡ xs
  protobuf_items-to_items nil = refl
  protobuf_items-to_items (cons v xs) =
      λ i. cons (protobuf_value-to_value v i) (protobuf_items-to_items xs i)

  protobuf_fields-to_fields : (fs : Fields) → protobuf_fields (to_fields fs) ≡ fs
  protobuf_fields-to_fields end = refl
  protobuf_fields-to_fields (field k v fs) =
      λ i. field k (protobuf_value-to_value v i) (protobuf_fields-to_fields fs i)

-- The client makes of the `Struct` of an object this object again, however deep it is: texts,
-- numbers, Booleans, `null`, lists and objects keep their values, keys and order.
pub struct_to_object-to_struct : (fs : Fields) → struct_to_object (to_struct fs) ≡ obj fs
unfolding struct_to_object get
struct_to_object-to_struct fs = ap obj (protobuf_fields-to_fields fs)
