-- ===== src/Config/Required.antt =====
-- Which credentials the start-up check names.
use vici.Base.{◌≡◌, refl, ◌⊎◌, inl, inr, ◌↔◌, Bool, true, false, List, [], ◌∷◌, ◌&&◌, arith, ◌∈◌}
use vici.Base.Members.{mem-append}
use vici.Base.Texts.{lit, same, is_blank}
use vici.Config.{Settings, Credential, note_if, validate_required_credentials}

-- Whether a credential is missing, credential by credential.
abbrev pub is_missing : Settings → Credential → Bool
is_missing s Credential.database_url = is_blank s.database_url
is_missing s Credential.twilio_auth_token = is_blank s.sms.auth_token
is_missing s Credential.openai_api_key = is_blank s.extraction.openai_api_key
is_missing s Credential.pinecone_api_key = is_blank s.pinecone.api_key
is_missing s Credential.temporal_address = is_blank s.temporal.address
is_missing s Credential.webhook_base_url = is_blank s.webhook_base_url
is_missing s Credential.env = is_blank s.env
is_missing s Credential.phone_hash_pepper =
    same s.env (lit "production") && is_blank s.sms.phone_hash_pepper

-- One test of the check.
mem-note_if :
    (c : Bool) (name : Credential) (missing : List Credential) (a : Credential)
    → (a ∈ note_if c name missing) ↔ ((a ∈ missing) ⊎ ((a ≡ name) × (c ≡ true)))
mem-note_if true name missing a =
    let m = mem-append a missing (name ∷ []) in
    (
      λ h. elim (m.0 h) [
        | inl k ↦ inl k
        | inr k ↦ elim k [ inl e ↦ inr (e, refl) | inr f ↦ absurd f ]
      ],
      λ h. elim h [ inl k ↦ m.1 (inl k) | inr p ↦ m.1 (inr (inl p.0)) ],
    )
mem-note_if false name missing a = (inl, λ h. elim h [ inl k ↦ k | inr p ↦ cc ])

-- The tests in a row, as a fold over their outcomes and names.
abbrev note_all : List (Bool × Credential) → List Credential → List Credential
note_all [] missing = missing
note_all ((c, name) ∷ tests) missing = note_all tests (note_if c name missing)

abbrev Fails : Credential → List (Bool × Credential) → Type 0
Fails a [] = ⊥
Fails a ((c, name) ∷ tests) = ((a ≡ name) × (c ≡ true)) ⊎ Fails a tests

mem-note_all :
    (tests : List (Bool × Credential)) (missing : List Credential) (a : Credential)
    → (a ∈ note_all tests missing) ↔ ((a ∈ missing) ⊎ Fails a tests)
mem-note_all [] missing a = (inl, λ h. elim h [ inl k ↦ k | inr f ↦ absurd f ])
mem-note_all ((c, name) ∷ tests) missing a =
    let rest = mem-note_all tests (note_if c name missing) a in
    let here = mem-note_if c name missing a in
    (
      λ h. elim (rest.0 h) [
        | inl k ↦ elim (here.0 k) [ inl m ↦ inl m | inr p ↦ inr (inl p) ]
        | inr f ↦ inr (inr f)
      ],
      λ h. elim h [
        | inl m ↦ rest.1 (inl (here.1 (inl m)))
        | inr f ↦ elim f [ inl p ↦ rest.1 (inl (here.1 (inr p))) | inr g ↦ rest.1 (inr g) ]
      ],
    )

abbrev tests_of : Settings → List (Bool × Credential)
tests_of s =
    (is_blank s.database_url, Credential.database_url)
    ∷ (is_blank s.sms.auth_token, Credential.twilio_auth_token)
    ∷ (is_blank s.extraction.openai_api_key, Credential.openai_api_key)
    ∷ (is_blank s.pinecone.api_key, Credential.pinecone_api_key)
    ∷ (is_blank s.temporal.address, Credential.temporal_address)
    ∷ (is_blank s.webhook_base_url, Credential.webhook_base_url)
    ∷ (is_blank s.env, Credential.env)
    ∷ (
      same s.env (lit "production") && is_blank s.sms.phone_hash_pepper,
      Credential.phone_hash_pepper,
    )
    ∷ []

-- What fails for one credential is its own test.
Fails-is_missing : (s : Settings) (a : Credential) → Fails a (tests_of s) ↔ (is_missing s a ≡ true)
Fails-is_missing s Credential.database_url = (ground arith, λ h. inl (refl, h))
Fails-is_missing s Credential.twilio_auth_token = (ground arith, λ h. inr (inl (refl, h)))
Fails-is_missing s Credential.openai_api_key = (ground arith, λ h. inr (inr (inl (refl, h))))
Fails-is_missing s Credential.pinecone_api_key =
    (ground arith, λ h. inr (inr (inr (inl (refl, h)))))
Fails-is_missing s Credential.temporal_address =
    (ground arith, λ h. inr (inr (inr (inr (inl (refl, h))))))
Fails-is_missing s Credential.webhook_base_url =
    (ground arith, λ h. inr (inr (inr (inr (inr (inl (refl, h)))))))
Fails-is_missing s Credential.env =
    (ground arith, λ h. inr (inr (inr (inr (inr (inr (inl (refl, h))))))))
Fails-is_missing s Credential.phone_hash_pepper =
    (ground arith, λ h. inr (inr (inr (inr (inr (inr (inr (inl (refl, h)))))))))

-- The start-up check names exactly the credentials that are missing: the seven that are always
-- required and are empty, and the phone-hash pepper if it is empty in production.
pub mem-validate_required_credentials :
    (s : Settings) (a : Credential)
    → (a ∈ validate_required_credentials s) ↔ (is_missing s a ≡ true)
unfolding validate_required_credentials
mem-validate_required_credentials s a =
    let all = mem-note_all (tests_of s) [] a in
    let own = Fails-is_missing s a in
    (λ m. elim (all.0 m) [ inl none ↦ absurd none | inr f ↦ own.0 f ], λ h. all.1 (inr (own.1 h)))
