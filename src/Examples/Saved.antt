-- ===== src/Examples/Saved.antt =====
-- Reconfiguring an entry at the small server: what is entered, and what is saved.
use ha_truenas_ng.Base.{
  ◌≡◌, refl, arith, String, true, false, Option, none, some, List, [], ◌∷◌, All, string_eq,
  if◌then◌else◌,
}
use ha_truenas_ng.Base.Int.{pos}
use ha_truenas_ng.Result.Holds.{Holds}
use ha_truenas_ng.Value.{Value, int, bool, str, Fields, end, field}
use ha_truenas_ng.Value.Access.{find, put, get_or}
use ha_truenas_ng.Value.Puts.{find-put}
use ha_truenas_ng.ConfigFlow.Forms.{
  FieldType, is_instance, Field, reconfigure, schema_of_step, user_schema, submit_step,
}
use ha_truenas_ng.ConfigFlow.Forms.Entry.{
  entered_or, Accepted, is_field_of, is_dict, Validates, IsMerge, IsEntry,
}
use ha_truenas_ng.ConfigFlow.Forms.Typed.{IsTyped, submit_step-IsTyped}
use ha_truenas_ng.Examples.{python, server}
use mathlib.Core.Path.{subst}

-- A validator that goes through the fields of a schema.
abbrev checked : FieldType → Option Value → Option Value
checked t none = none
checked t (some w) = if is_instance t w then some w else none

abbrev with_field : String → Option Value → Option Fields → Option Fields
with_field key (some w) (some rest) = some (field key w rest)
with_field key _ _ = none

unfoldable check_fields : List Field → Fields → Option Fields
check_fields [] input = some end
check_fields (row ∷ rows) input =
    with_field row.key (checked row.of_type (entered_or (find row.key input) row.default))
      (check_fields rows input)

checked_lem :
    (t : FieldType) (o : Option Value) (w : Value)
    → checked t o ≡ some w
    → (o ≡ some w) × (is_instance t w ≡ true)
checked_lem t none w h = cc
checked_lem t (some v) w h = ground arith

field_kept :
    (key : String) (w : Option Value) (rest : Option Fields) (out : Fields)
    → with_field key w rest ≡ some out
    → (v : Value) × (fs : Fields) × (w ≡ some v) × (rest ≡ some fs) × (field key v fs ≡ out)
field_kept key (some v) (some fs) out h = (v, fs, refl, refl, ground arith)
field_kept key (some v) none out h = cc
field_kept key none none out h = cc
field_kept key none (some fs) out h = cc

kept_fields :
    (key : String) (w : Value) (rows : List Field) (input out : Fields)
    → is_field_of key rows ≡ false
    → All (Accepted input out) rows
    → All (Accepted input (field key w out)) rows
unfolding is_field_of find
kept_fields key w [] input out h a = tt
kept_fields key w (r ∷ rows) input out h ((v, p, t, q), a) =
    ((v, p, t, ground arith), kept_fields key w rows input out (ground arith) a)

found_first : (key : String) (v : Value) (fs : Fields) → find key (field key v fs) ≡ some v
unfolding find
found_first key v fs = ground arith

fresh_field :
    (row : Field) (rows : List Field)
    → is_dict (row ∷ rows) ≡ true
    → (is_field_of row.key rows ≡ false) × (is_dict rows ≡ true)
unfolding is_dict
fresh_field row rows h = ground arith

promised : Validates check_fields
unfolding check_fields
promised [] input out d h = tt
promised (row ∷ rows) input out d h =
    let (v, fs, a, b, e) = field_kept row.key _ _ out h in
    let (fresh, rest_is_dict) = fresh_field row rows d in
    let (given, typed) = checked_lem row.of_type _ v a in
    subst (λ o. All (Accepted input o) (row ∷ rows)) e
      (
        (v, given, typed, found_first row.key v fs),
        kept_fields row.key v rows input fs fresh (promised rows input fs rest_is_dict b),
      )

-- A merge that puts one update after another.
abbrev merged : Fields → Fields → Fields
merged entry end = entry
merged entry (field key v updates) = put key v (merged entry updates)

merged-IsMerge : IsMerge merged
unfolding find
merged-IsMerge key entry end = refl
merged-IsMerge key entry (field k v updates) =
    ground (arith, find-put key k v (merged entry updates), merged-IsMerge key entry updates)

abbrev entry : Fields
entry = field "host" (str "old") (
    field "port" (int (pos 9443)) (
      field "username" (str "homeassistant")
        (field "api_key" (str "1-abc") (field "verify_ssl" (bool true) end))))

entry-IsEntry : IsEntry entry
unfolding find string_eq is_instance
entry-IsEntry = record {
  host = "old";
  port = int (pos 9443);
  username = "homeassistant";
  api_key = "1-abc";
  verify_ssl = true;
  has_host = refl;
  has_port = refl;
  is_port = refl;
  has_username = refl;
  has_api_key = refl;
  has_verify_ssl = refl;
}

-- A new host and key; the rest is left as the form showed it.
abbrev input : Fields
input = field "host" (str "nas") (field "api_key" (str "2-def") end)

abbrev out : Fields
out = field "host" (str "nas") (
    field "port" (int (pos 9443)) (
      field "username" (str "homeassistant")
        (field "api_key" (str "2-def") (field "verify_ssl" (bool true) end))))

accepted : check_fields (schema_of_step (reconfigure entry none)) input ≡ some out
unfolding check_fields schema_of_step user_schema find get_or is_instance string_eq
accepted = refl

submit_step-IsTyped_example :
    Holds
      (IsTyped python server (λ id. false) "nas-1" (reconfigure entry none) 2)
      (λ _. ⊥)
      (submit_step python server (λ id. false) "nas-1" merged (reconfigure entry none) out 2)
submit_step-IsTyped_example =
    submit_step-IsTyped python server (λ id. false) "nas-1" merged merged-IsMerge check_fields
      promised (reconfigure entry none) entry-IsEntry input out accepted 2
