-- ===== src/Sms/Phones.antt =====
-- src/sms/service.py: pseudonyms of phone numbers.
-- `hmac` is Python's HMAC-SHA256 in hexadecimal, keyed with the pepper.
pub mod Secrecy
use vici.Base.{Bool, ◌&&◌, ◌||◌, not, List, [], ◌∷◌, if◌then◌else◌}
use vici.Base.Texts.{Text, lit, same, is_blank}
use vici.Store.{Result, ok, err, value_error}

unfoldable pub hash_phone : (Text → Text) → Text → Result Text
hash_phone hmac e164_number =
    if is_blank e164_number then err value_error else ok (hmac e164_number)

-- `k in _PHONE_FIELDS`
abbrev pub is_phone_field : Text → Bool
is_phone_field k = same k (lit "From") || same k (lit "To")

-- The value that the comprehension gives to `k`: a non-empty number cannot make `hash_phone` raise.
abbrev pub scrub_value : (Text → Text) → Text → Text → Text
scrub_value hmac k v = if is_phone_field k && not (is_blank v) then hmac v else v

unfoldable pub scrub_phone_fields : (Text → Text) → List (Text × Text) → List (Text × Text)
scrub_phone_fields hmac [] = []
scrub_phone_fields hmac ((k, v) ∷ form) = (k, scrub_value hmac k v) ∷ scrub_phone_fields hmac form
