-- ===== src/Sms/Payload.antt =====
-- src/sms/schemas.py and gate 1 of src/sms/dependencies.py: the form that Twilio posts, its check,
-- and the public address that Twilio signed.
-- `Twilio.validate` is the validator of Twilio's library, and `urlsplit` Python's.
use vici.Base.{
  ℕ, Bool, ◌&&◌, ◌||◌, not, Option, none, some, List, [], ◌∷◌, ◌++◌, leb, if◌then◌else◌, length,
  keep_if,
}
use vici.Base.Texts.{Text, lit, same, is_blank, or_else}
use vici.Config.{Settings}
use vici.Store.{Result, ok, err, value_error, bad_request, twilio_signature_invalid}

pub record TwilioWebhookPayload : Type 0 where
  pub message_sid : Text
  pub from : Text
  pub body : Text
  pub account_sid : Text
  -- the other fields of the form, which the model allows
  pub extra : List (Text × Text)

-- A part of the posted form.
pub data FormPart : Type 0 where
  str : Text → FormPart
  upload : FormPart

-- A request, as far as the gates read it.
pub record Request : Type 0 where
  pub form : List (Text × FormPart)
  pub path : Text
  pub query : Text
  -- the header `X-Twilio-Signature`
  pub signature : Option Text

-- The code outside src that gate 1 calls.
pub record Twilio : Type 0 where
  pub validate : Text → List (Text × Text) → Text → Bool
  pub urlsplit : Text → Text × Text

infixl 5 ◌>>=◌
abbrev ◌>>=◌ : {A B : Type 0} → Result A → (A → Result B) → Result B
ok a >>= f = f a
err e >>= f = err e

-- `{k: v for k, v in form.items() if isinstance(v, str)}`
unfoldable string_parts : List (Text × FormPart) → List (Text × Text)
string_parts [] = []
string_parts ((k, str v) ∷ form) = (k, v) ∷ string_parts form
string_parts ((k, upload) ∷ form) = string_parts form

abbrev lookup : Text → List (Text × Text) → Option Text
lookup k [] = none
lookup k ((j, v) ∷ form) = if same j k then some v else lookup k form

-- A required field with its bounds, `Field(min_length=lo, max_length=hi)`.
abbrev within : ℕ → ℕ → Text → Result Text
within lo hi v = if leb lo (length v) && leb (length v) hi then ok v else err bad_request

unfoldable field : Text → ℕ → ℕ → List (Text × Text) → Result Text
field k lo hi form = elim (lookup k form) [ none ↦ err bad_request | some v ↦ within lo hi v ]

abbrev is_declared : Text → Bool
is_declared k =
    same k (lit "MessageSid")
    || same k (lit "From")
    || same k (lit "Body")
    || same k (lit "AccountSid")

-- `TwilioWebhookPayload(**form_data)`, with the HTTP error that a ValidationError becomes.
unfoldable parse_payload : List (Text × Text) → Result TwilioWebhookPayload
unfolding field
parse_payload form = do
  message_sid ← field (lit "MessageSid") 1 64 form
  from ← field (lit "From") 1 20 form
  body ← field (lit "Body") 0 1600 form
  account_sid ← field (lit "AccountSid") 1 64 form
  ok (record {
    message_sid = message_sid;
    from = from;
    body = body;
    account_sid = account_sid;
    extra = keep_if (λ kv. not (is_declared kv.0)) form;
  })

-- `payload.model_dump()`
pub model_dump : TwilioWebhookPayload → List (Text × Text)
model_dump p =
    (lit "MessageSid", p.message_sid)
    ∷ (lit "From", p.from)
    ∷ (lit "Body", p.body)
    ∷ (lit "AccountSid", p.account_sid)
    ∷ p.extra

-- `raw_base.rstrip("/")`
unfoldable drop_slashes : Text → Text
drop_slashes [] = []
drop_slashes (c ∷ cs) = elim (drop_slashes cs) [
  | [] ↦ if same (c ∷ []) (lit "/") then [] else c ∷ []
  | d ∷ ds ↦ c ∷ d ∷ ds
]

unfoldable canonical_base_url : Twilio → Text → Result Text
unfolding drop_slashes
canonical_base_url tw raw_base =
    let (scheme, netloc) = tw.urlsplit (drop_slashes raw_base) in
    if is_blank scheme || is_blank netloc
    then err value_error
    else ok (scheme ++ (lit "://" ++ netloc))

unfoldable public_request_url : Twilio → Settings → Request → Result Text
unfolding canonical_base_url
public_request_url tw settings request = do
  base ← canonical_base_url tw settings.webhook_base_url
  ok (base ++ (request.path ++ (if is_blank request.query then [] else lit "?" ++ request.query)))

-- The signature check, on the form that was posted.
unfoldable verify :
    Twilio
    → List (Text × Text)
    → Request
    → TwilioWebhookPayload
    → Text
    → Result TwilioWebhookPayload
verify tw form request payload url =
    if tw.validate url form (or_else request.signature [])
    then ok payload
    else err twilio_signature_invalid

-- What follows the check of the form.
unfoldable authenticate :
    Twilio
    → Settings
    → Request
    → List (Text × Text)
    → TwilioWebhookPayload
    → Result TwilioWebhookPayload
unfolding public_request_url verify
authenticate tw settings request form payload =
    if settings.sms.disable_twilio_signature_validation
    then ok payload
    else (public_request_url tw settings request >>= verify tw form request payload)

unfoldable pub validate_twilio_request : Twilio → Settings → Request → Result TwilioWebhookPayload
unfolding parse_payload string_parts authenticate
validate_twilio_request tw settings request = do
  let form = string_parts request.form
  payload ← parse_payload form
  authenticate tw settings request form payload
