-- ===== src/ControlPlane/Body.antt =====
-- What the routes of services/control-plane-api/src/routes do with the fields of a request's body. A
-- field that is absent is none.
use ai_digital_office_os.Prelude.{
  String, Bool, true, false, not, Option, none, some, eqb, ◌==◌, if◌then◌else◌,
}
use ai_digital_office_os.Json.{Json}
use ai_digital_office_os.ControlPlane.Idempotency.{IdempotentParams}

abbrev pub text_or_null : Option String → Json
text_or_null none = Json.null
text_or_null (some s) = Json.str s

-- a string that an `if` takes for true
abbrev pub given : Option String → Bool
given none = false
given (some s) = not (s == "")

abbrev pub text_of : Option String → String
text_of none = ""
text_of (some s) = s

abbrev pub post_params : String → String → String → IdempotentParams
post_params tenant_id key path = record {
  tenant_id = tenant_id;
  idempotency_key = key;
  method = "POST";
  path = path;
}

-- `value ?? other`
abbrev pub or_default : Option String → String → String
or_default none other = other
or_default (some s) other = s

abbrev pub json_or : Option Json → Json → Json
json_or none other = other
json_or (some Json.null) other = other
json_or (some value) other = value

-- a value that an `if` takes for true
abbrev pub is_truthy : Json → Bool
is_truthy Json.null = false
is_truthy (Json.bool b) = b
is_truthy (Json.num n) = not (eqb n 0)
is_truthy (Json.str s) = not (s == "")
is_truthy _ = true

-- `value ? JSON.stringify(value) : null`
abbrev pub json_or_null : Option Json → Json
json_or_null none = Json.null
json_or_null (some value) = if is_truthy value then value else Json.null
