-- ===== src/Oauth/Signed.antt =====
-- Access tokens and device credentials: internal/relay/oauth/token.go, device.go and prm.go, and
-- the PKCE check of as.go.
use askrelay.Base.{
  ℕ, ◌+◌, ◌*◌, Ref, no_id, Time, Duration, seconds, unix, Bytes, Bool, true, false, Option, none,
  some, ◌==◌, Result, ok, err, if◌then◌else◌,
}

-- The claim `use`: "access", "device", or any other string.
pub data TokenUse : Type 0 where
  access device : TokenUse
  other_use : Ref → TokenUse

abbrev pub is_access : TokenUse → Bool
is_access access = true
is_access device = false
is_access (other_use n) = false

abbrev pub is_device : TokenUse → Bool
is_device access = false
is_device device = true
is_device (other_use n) = false

-- `AccessClaims`; a `jwt.NumericDate` is in whole seconds.
pub record AccessClaims : Type 0 where
  pub subject : Ref
  pub issuer : Ref
  pub audience : Ref
  pub issued_at : ℕ
  pub expires_at : ℕ
  pub use_claim : TokenUse
  pub device_claim : Ref
  pub client_type : Ref

-- The JWT library with the method EdDSA: `SignedString`, and `ParseWithClaims` for a public key,
-- an audience, an issuer and a time, with an expiry required.
pub record Jwt : Type 0 where
  pub sign : Bytes → AccessClaims → Option Ref
  pub parse : Bytes → Ref → Ref → Time → Ref → Option AccessClaims

pub record Issuer : Type 0 where
  pub priv : Bytes
  pub public : Bytes
  pub audience : Ref
  pub ttl : Duration

-- `ErrInvalidToken`
pub data TokenFault : Type 0 where
  invalid_token : TokenFault

-- `deviceCredTTL`
abbrev pub device_cred_ttl : Duration
device_cred_ttl = seconds (365 * 24 * 3600)

module _ (i : Issuer) where
  -- The claims of `Mint`.
  abbrev pub access_claims : Ref → Ref → Time → AccessClaims
  access_claims person client now = record {
    subject = person;
    issuer = i.audience;
    audience = i.audience;
    issued_at = unix now;
    expires_at = unix (now + i.ttl);
    use_claim = access;
    device_claim = no_id;
    client_type = client;
  }

  -- The claims of `MintDeviceCredential`.
  abbrev pub device_claims : Ref → Ref → Time → AccessClaims
  device_claims person dev now = record {
    subject = person;
    issuer = i.audience;
    audience = i.audience;
    issued_at = unix now;
    expires_at = unix (now + device_cred_ttl);
    use_claim = device;
    device_claim = dev;
    client_type = no_id;
  }

module _ (jwt : Jwt) (i : Issuer) where
  -- `Mint`
  unfoldable pub mint : Ref → Ref → Time → Option Ref
  mint person client now = jwt.sign i.priv (access_claims i person client now)

  -- `MintDeviceCredential`
  unfoldable pub mint_device_credential : Ref → Ref → Time → Option Ref
  mint_device_credential person dev now = jwt.sign i.priv (device_claims i person dev now)

  -- `parse`
  unfoldable pub parse : Ref → Time → Result TokenFault AccessClaims
  parse token now = elim (jwt.parse i.public i.audience i.audience now token) [
    | none ↦ err invalid_token
    | some c ↦ ok c
  ]

  -- The end of `Verify`.
  unfoldable pub claimed_access : Result TokenFault AccessClaims → Result TokenFault (Ref × Ref)
  claimed_access (err e) = err e
  claimed_access (ok c) =
      if is_access c.use_claim then ok (c.subject, c.client_type) else err invalid_token

  -- `Verify`: the person and the client type.
  unfoldable pub verify : Ref → Time → Result TokenFault (Ref × Ref)
  unfolding claimed_access parse
  verify token now = claimed_access (parse token now)

  -- The end of `VerifyDeviceCredential`.
  unfoldable pub claimed_device : Result TokenFault AccessClaims → Result TokenFault (Ref × Ref)
  claimed_device (err e) = err e
  claimed_device (ok c) =
      if is_device c.use_claim then ok (c.subject, c.device_claim) else err invalid_token

  -- `VerifyDeviceCredential`: the person and the device.
  unfoldable pub verify_device_credential : Ref → Time → Result TokenFault (Ref × Ref)
  unfolding claimed_device parse
  verify_device_credential token now = claimed_device (parse token now)

-- `VerifyPKCE`, with SHA-256 and base64url of a string as one function.
abbrev pub verify_pkce : (Ref → Ref) → Ref → Ref → Bool
verify_pkce s256 challenge verifier = s256 verifier == challenge
