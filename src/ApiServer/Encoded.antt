-- ===== src/ApiServer/Encoded.antt =====
-- The outbounds that BuildClientConfig gives, as the values that template.go looks at.
use singbox_operator.Base.{ℤ, pos, negsuc, suc, String, join, decimal, [], ◌∷◌, map, StringMap}
use singbox_operator.Engine.Types.{
  Scalar, Value, Entry, text, number, integer, flag, scalar, object, accounts, texts,
}
use singbox_operator.ApiServer.Json.{Json, json_array, json_object}

abbrev number_text : ℤ → String
number_text (pos n) = decimal n
number_text (negsuc n) = join "-" (decimal (suc n))

abbrev json_of_scalar : Scalar → Json
json_of_scalar (text s) = Json.text s
json_of_scalar (number n) = Json.number (decimal n)
json_of_scalar (integer z) = Json.number (number_text z)
json_of_scalar (flag b) = Json.boolean b

abbrev texts_of : StringMap String → StringMap Json
texts_of [] = []
texts_of ((k, v) ∷ m) = (k, Json.text v) ∷ texts_of m

abbrev scalars_of : StringMap Scalar → StringMap Json
scalars_of [] = []
scalars_of ((k, v) ∷ m) = (k, json_of_scalar v) ∷ scalars_of m

abbrev json_of_value : Value → Json
json_of_value (scalar s) = json_of_scalar s
json_of_value (object m) = json_object (scalars_of m)
json_of_value (accounts xs) = json_array (map (λ a. json_object (texts_of a)) xs)
json_of_value (texts ts) = json_array (map Json.text ts)

abbrev pub values_of : Entry → StringMap Json
values_of [] = []
values_of ((k, v) ∷ m) = (k, json_of_value v) ∷ values_of m

abbrev pub json_of_entry : Entry → Json
json_of_entry e = json_object (values_of e)
