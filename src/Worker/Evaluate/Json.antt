-- ===== src/Worker/Evaluate/Json.antt =====
-- `json_values_equivalent` of apps/jit-worker/src/jobs.rs.
use jitforge.Base.{
  ℕ, suc, String, Bool, true, false, not, ◌&&◌, Option, none, some, ◌==◌, str_eq, if◌then◌else◌,
}
use jitforge.Text.Format.{decimal}
use jitforge.Protocol.{
  Value, null, boolean, unsigned, number, string, array, object, Items, nil, cons, Fields, end,
  field,
}
use jitforge.Worker.Evaluate.Numbers.{normalized_json_number, same_number}

unfoldable pub count_items : Items → ℕ
count_items nil = 0
count_items (cons v vs) = suc (count_items vs)

unfoldable pub count_fields : Fields → ℕ
count_fields end = 0
count_fields (field k v fs) = suc (count_fields fs)

-- `expected.get(key)`
unfoldable pub get_field : String → Fields → Option Value
get_field k end = none
get_field k (field j v fs) = if str_eq k j then some v else get_field k fs

abbrev pub is_some : Option Value → Bool
is_some none = false
is_some (some v) = true

abbrev pub or_null : Option Value → Value
or_null none = null
or_null (some v) = v

abbrev pub same_numbers : String → String → Bool
same_numbers m n = same_number (normalized_json_number m) (normalized_json_number n)

unfoldable mutual
  unfolding count_items count_fields decimal same_number normalized_json_number get_field

  pub json_values_equivalent : Value → Value → Bool
  json_values_equivalent (unsigned m) (unsigned n) = same_numbers (decimal m) (decimal n)
  json_values_equivalent (unsigned m) (number n) = same_numbers (decimal m) n
  json_values_equivalent (number m) (unsigned n) = same_numbers m (decimal n)
  json_values_equivalent (number m) (number n) = same_numbers m n
  json_values_equivalent (array a) (array e) = count_items a == count_items e && all_items a e
  json_values_equivalent (object a) (object e) = count_fields a == count_fields e && all_fields a e
  json_values_equivalent null null = true
  json_values_equivalent (boolean a) (boolean e) = if a then e else not e
  json_values_equivalent (string a) (string e) = str_eq a e
  json_values_equivalent _ _ = false

  -- The items in pairs.
  pub all_items : Items → Items → Bool
  all_items (cons a as') (cons e es) = json_values_equivalent a e && all_items as' es
  all_items _ _ = true

  pub all_fields : Fields → Fields → Bool
  all_fields end es = true
  all_fields (field k a as') es =
      is_some (get_field k es)
      && json_values_equivalent a (or_null (get_field k es))
      && all_fields as' es
