-- ===== src/Sms/Phones/Secrecy.antt =====
-- What a scrubbed form tells of the phone numbers in it.
use vici.Base.{◌≡◌, ◌⊎◌, true, false, List, [], ◌∷◌}
use vici.Base.Texts.{Text, is_blank}
use vici.Sms.Phones.{is_phone_field}

-- Two values of the field `k` that are equal, or that are numbers with one pseudonym.
abbrev IsAlike : (Text → Text) → Text → Text → Text → Type 0
IsAlike hmac k v w =
    (v ≡ w)
    ⊎ ((is_phone_field k ≡ true) × (is_blank v ≡ false) × (is_blank w ≡ false) × (hmac v ≡ hmac w))

-- Forms with the same keys and with values that are alike.
abbrev AreAlike : (Text → Text) → List (Text × Text) → List (Text × Text) → Type 0
AreAlike hmac [] [] = Unit
AreAlike hmac ((k, v) ∷ form) ((l, w) ∷ other) =
    (k ≡ l) × IsAlike hmac k v w × AreAlike hmac form other
AreAlike hmac _ _ = true ≡ false
