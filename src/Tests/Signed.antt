-- ===== src/Tests/Signed.antt =====
-- The tokens of the small relay's authorization server.
use askrelay.Base.{
  Ref, seconds, unix, Bool, true, ◌&&◌, ◌||◌, Option, none, some, ok, err, [], ◌==◌, ◌≡◌, refl,
  Bool-cases, inl, inr, if◌then◌else◌, arith,
}
use askrelay.Envelope.{Envelope}
use askrelay.Store.{Db, RefreshGrant, revoke_device}
use askrelay.Oauth.{
  Jwt, Issuer, AccessClaims, TokenUse, is_access, is_device, access_claims, device_claims, mint,
  mint_device_credential, verify, verify_device_credential, invalid_token, TokenForm, TokenResponse,
  authorization_code, handle_token, Web, AuthzParams, handle_authorize_submit,
}
use askrelay.Oauth.Uses.{SignedOnly, SignedReads, verify-mint}
use askrelay.Hub.{handshake}
use askrelay.Server.{handle_enroll}
use askrelay.Server.Connects.{enrolled_device_connects}
use askrelay.Tests.Data.{ext, at, relay, key}

abbrev pub iss : Issuer
iss = record { priv = []; public = []; audience = 8; ttl = seconds 3600 }

-- An access token of Alice's and a credential of her device are all that this library signs.
abbrev pub alice_access : AccessClaims
alice_access = record {
  subject = 1;
  issuer = 8;
  audience = 8;
  issued_at = 100000000;
  expires_at = 100003600;
  use_claim = askrelay.Oauth.access;
  device_claim = 0;
  client_type = 4;
}

abbrev pub alice_credential : AccessClaims
alice_credential = record {
  subject = 1;
  issuer = 8;
  audience = 8;
  issued_at = 100000000;
  expires_at = 131536000;
  use_claim = askrelay.Oauth.device;
  device_claim = 11;
  client_type = 0;
}

abbrev pub claims_of : Ref → Option AccessClaims
claims_of token =
    if token == 1 then some alice_access else if token == 2 then some alice_credential else none

abbrev same_use : TokenUse → TokenUse → Bool
same_use u v = is_access u && is_access v || is_device u && is_device v

abbrev pub same_claims : AccessClaims → AccessClaims → Bool
same_claims c d =
    c.subject == d.subject
    && c.issuer == d.issuer
    && c.audience == d.audience
    && c.issued_at == d.issued_at
    && c.expires_at == d.expires_at
    && same_use c.use_claim d.use_claim
    && c.device_claim == d.device_claim
    && c.client_type == d.client_type

same_claims-eq : (c d : AccessClaims) → same_claims c d ≡ true → c ≡ d
same_claims-eq c d h = ground arith

-- The library signs the two tokens only, as 1 and 2.
abbrev pub two_jwt : Jwt
two_jwt = record {
  sign = λ priv c.
      if same_claims c alice_access
      then some 1
      else if same_claims c alice_credential
      then some 2
      else none;
  parse = λ public aud by now token. claims_of token;
}

two_jwt-SignedOnly : SignedOnly two_jwt iss
two_jwt-SignedOnly c c' token now s p = elim (Bool-cases (same_claims c alice_access)) [
  | inl e ↦ ground (arith, same_claims-eq c alice_access e)
  | inr f ↦ elim (Bool-cases (same_claims c alice_credential)) [
    | inl e ↦ ground (arith, same_claims-eq c alice_credential e)
    | inr g ↦ absurd (ground arith)
  ]
]

two_jwt-SignedReads : SignedReads two_jwt iss
two_jwt-SignedReads c token now s a b h = elim (Bool-cases (same_claims c alice_access)) [
  | inl e ↦ (alice_access, ground arith)
  | inr f ↦ elim (Bool-cases (same_claims c alice_credential)) [
    | inl e ↦ (alice_credential, ground arith)
    | inr g ↦ absurd (ground arith)
  ]
]

verify-mint_example :
    (verify two_jwt iss 1 (at 10) ≡ ok (1, 4))
    × (verify_device_credential two_jwt iss 2 (at 10) ≡ ok (1, 11))
    × (verify_device_credential two_jwt iss 1 (at 9000) ≡ err invalid_token)
    × (verify two_jwt iss 2 (at 9000) ≡ err invalid_token)
unfolding mint mint_device_credential unix
verify-mint_example =
    verify-mint two_jwt iss 1 4 1 11 1 2 (at 0) (at 10) two_jwt-SignedOnly two_jwt-SignedReads refl
      refl (omega arith) (omega arith) (at 9000)

-- Bob enrols another device.
abbrev bob_credential : AccessClaims
bob_credential = device_claims iss 2 14 (at 1)

abbrev bob_jwt : Jwt
bob_jwt = record {
  sign = λ priv c. if same_claims c bob_credential then some 3 else none;
  parse = λ public aud by now token. if token == 3 then some bob_credential else none;
}

bob_jwt-SignedOnly : SignedOnly bob_jwt iss
bob_jwt-SignedOnly c c' token now s p = elim (Bool-cases (same_claims c bob_credential)) [
  | inl e ↦ ground (arith, same_claims-eq c bob_credential e)
  | inr f ↦ absurd (ground arith)
]

bob_jwt-SignedReads : SignedReads bob_jwt iss
bob_jwt-SignedReads c token now s a b h = elim (Bool-cases (same_claims c bob_credential)) [
  | inl e ↦ (bob_credential, ground arith)
  | inr f ↦ absurd (ground arith)
]

abbrev enrolled_bob : Db Envelope
enrolled_bob =
    (handle_enroll ext bob_jwt iss 8 77 (some (record { pubkey = some (key 13); label = 0 })) 9 14
      (at 1) (at 1) relay).1

enrolled_device_connects_example : handshake bob_jwt iss (some 3) (at 9) enrolled_bob ≡ some (2, 14)
unfolding handle_enroll mint_device_credential unix askrelay.Store.enroll
enrolled_device_connects_example =
    enrolled_device_connects ext bob_jwt iss 8 77 9 14
      (record { pubkey = some (key 13); label = 0 }) (at 1) (at 1) (at 9) relay enrolled_bob
      (record { person_id = 2; device_id = 14; base_url = 8; device_credential = 3 })
      bob_jwt-SignedOnly bob_jwt-SignedReads refl (omega arith)
