-- ===== src/Oauth/Uses.antt =====
-- The two kinds of token that internal/relay/oauth signs with one key do not pass for each other.
use askrelay.Base.{
  ◌+◌, ◌<◌, Ref, Time, seconds, unix, some, ok, err, ◌≡◌, refl, ap, Option-cases, inl, inr, ◌⊎◌,
}
use askrelay.Oauth.Signed.{
  Jwt, Issuer, AccessClaims, invalid_token, access_claims, device_claims, device_cred_ttl, mint,
  mint_device_credential, parse, verify, claimed_access, verify_device_credential, claimed_device,
}

module _ (jwt : Jwt) (i : Issuer) where
  -- A token that was signed with the issuer's key reads as the claims that were signed, if as any.
  abbrev pub SignedOnly : Type 0
  SignedOnly =
      (c c' : AccessClaims) (token : Ref) (now : Time)
      → jwt.sign i.priv c ≡ some token
      → jwt.parse i.public i.audience i.audience now token ≡ some c'
      → c' ≡ c

  -- It does read before its expiry, for its audience and issuer.
  abbrev pub SignedReads : Type 0
  SignedReads =
      (c : AccessClaims) (token : Ref) (now : Time)
      → jwt.sign i.priv c ≡ some token
      → c.audience ≡ i.audience
      → c.issuer ≡ i.audience
      → now < seconds c.expires_at
      → (c' : AccessClaims) × (jwt.parse i.public i.audience i.audience now token ≡ some c')

  parse-signed :
      (c : AccessClaims) (token : Ref) (now : Time)
      → SignedOnly
      → SignedReads
      → jwt.sign i.priv c ≡ some token
      → c.audience ≡ i.audience
      → c.issuer ≡ i.audience
      → now < seconds c.expires_at
      → parse jwt i token now ≡ ok c
  unfolding parse
  parse-signed c token now only reads s a b h =
      let (c', e) = reads c token now s a b h in
      rw (e, parse) (ap (λ x. ok x) (only c c' token now s e))

  -- A device credential is verified as its person and device before its expiry.
  pub verify_device_credential-mint :
      (owner dev credential : Ref) (made now : Time)
      → SignedOnly
      → SignedReads
      → mint_device_credential jwt i owner dev made ≡ some credential
      → now < seconds (unix (made + device_cred_ttl))
      → verify_device_credential jwt i credential now ≡ ok (owner, dev)
  unfolding mint_device_credential verify_device_credential claimed_device
  verify_device_credential-mint owner dev credential made now only reads n k =
      let d =
        parse-signed (device_claims i owner dev made) credential now only reads n refl refl k in
      rw d refl

  parse-wrong_use :
      (c : AccessClaims) (token : Ref) (now : Time)
      → SignedOnly
      → jwt.sign i.priv c ≡ some token
      → (parse jwt i token now ≡ err invalid_token) ⊎ (parse jwt i token now ≡ ok c)
  unfolding parse
  parse-wrong_use c token now only s =
      elim (Option-cases (jwt.parse i.public i.audience i.audience now token)) [
        | inl e ↦ inl (rw (e, parse) refl)
        | inr (c', e) ↦ inr (rw (e, parse) (ap (λ x. ok x) (only c c' token now s e)))
      ]

  -- Before its expiry an access token is verified as the person and client type that it was minted
  -- for, and a device credential as its person and device. No access token is ever taken for a
  -- device credential and no device credential for an access token, whatever the time. The JWT
  -- library reads a token that was signed with the issuer's key as what was signed, if at all, and
  -- does read it before its expiry.
  pub verify-mint :
      (person client owner dev token credential : Ref) (made now : Time)
      → SignedOnly
      → SignedReads
      → mint jwt i person client made ≡ some token
      → mint_device_credential jwt i owner dev made ≡ some credential
      → now < seconds (unix (made + i.ttl))
      → now < seconds (unix (made + device_cred_ttl))
      → (later : Time)
      → (verify jwt i token now ≡ ok (person, client))
        × (verify_device_credential jwt i credential now ≡ ok (owner, dev))
        × (verify_device_credential jwt i token later ≡ err invalid_token)
        × (verify jwt i credential later ≡ err invalid_token)
  unfolding mint mint_device_credential verify verify_device_credential claimed_access
      claimed_device
  verify-mint person client owner dev token credential made now only reads m n h k later =
      let a =
        parse-signed (access_claims i person client made) token now only reads m refl refl h in
      let a' = parse-wrong_use (access_claims i person client made) token later only m in
      let d' = parse-wrong_use (device_claims i owner dev made) credential later only n in
      (
        rw a refl,
        verify_device_credential-mint owner dev credential made now only reads n k,
        elim a' [ inl e ↦ rw e refl | inr e ↦ rw e refl ],
        elim d' [ inl e ↦ rw e refl | inr e ↦ rw e refl ],
      )
