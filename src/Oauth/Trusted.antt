-- ===== src/Oauth/Trusted.antt =====
-- To whom the authorization endpoint of internal/relay/oauth_authorize.go sends a browser, and
-- what it stores for a code.
use askrelay.Base.{
  Ref, no_id, Time, seconds, true, unix, ◌+◌, Bool-cases, false, Option, Option-cases, none, some,
  Result, Result-cases, ok, err, inl, inr, ◌∷◌, ◌≡◌, refl, ◌==◌, arith,
}
use askrelay.Envelope.{External}
use askrelay.Store.{Db, Device, Outcome, StoreError, active_device_by_id, create_auth_code}
use askrelay.Oauth.Signed.{Jwt, Issuer, verify_device_credential}
use askrelay.Oauth.Authorize.{
  Url, Web, client_type_for, login, AuthzParams, AuthzReject, sent_back, missing_uri,
  invalid_client, failed, AuthzReply, redirects, grants_code, code_ttl, reject_authz,
}
use askrelay.Oauth.Spent.{IsActive, active_device_by_id-IsActive}
use askrelay.Oauth.Vetted.{Trusted, Vetted, parse-Vetted}
use askrelay.Oauth.Submit.{
  handle_authorize, code_binding, answer_coded, grant_code, answer_device, answer_credential,
  answer_parsed, handle_authorize_submit,
}

module _ {B : Type 0} (ext : External B) (web : Web) (jwt : Jwt) (i : Issuer) where
  -- A code for the person and the active device of a verified credential, in the one new row, which
  -- has the request's client, redirect URI, challenge and resource, and expires in 60 seconds.
  pub record Granted (v : AuthzParams) (credential : Ref) (opaque : Option Ref) (now : Time)
      (db db' : Db B) (code : Ref) : Type 0 where
    pub person : Ref
    pub dev : Ref
    pub row : Device
    pub url : Url
    pub verified : verify_device_credential jwt i credential now ≡ ok (person, dev)
    pub is_active : active_device_by_id dev db ≡ ok row
    pub unrevoked : IsActive dev row db
    pub fresh : opaque ≡ some code
    pub challenged : (v.code_challenge == no_id) ≡ false
    pub s256 : v.is_s256 ≡ true
    pub parsed : web.parse_url v.redirect_uri ≡ some url
    pub stored : db' ≡ record db {
      codes =
          (record {
            code_hash = ext.sha256 code;
            binding = record {
              client_id = v.client_id;
              redirect_uri = v.redirect_uri;
              code_challenge = v.code_challenge;
              resource = v.resource;
              person_id = person;
              device_id = dev;
              client_type = client_type_for web url.host;
            };
            created_at = unix now;
            expires_at = unix (now + seconds 60);
            consumed_at = none;
          })
          ∷ db.codes;
    }

  -- Where a browser is sent, and what is stored.
  abbrev pub Sound : AuthzParams → Ref → Option Ref → Time → Db B → AuthzReply × Db B → Type 0
  Sound v credential opaque now db (redirects uri e state, db') =
      Trusted web v.client_id v.redirect_uri db
      × (uri ≡ v.redirect_uri)
      × (state ≡ v.state)
      × (db' ≡ db)
  Sound v credential opaque now db (grants_code uri code state, db') =
      Trusted web v.client_id v.redirect_uri db
      × (uri ≡ v.redirect_uri)
      × (state ≡ v.state)
      × Granted v credential opaque now db db' code
  Sound v credential opaque now db (login p again, db') =
      Trusted web v.client_id v.redirect_uri db
      × (p.client_id ≡ v.client_id)
      × (p.redirect_uri ≡ v.redirect_uri)
      × (p.code_challenge ≡ v.code_challenge)
      × (db' ≡ db)
  Sound v credential opaque now db (r, db') = db' ≡ db

  -- Where the form of a request sends a browser; it gives out no code.
  abbrev pub Asked : AuthzParams → Db B → AuthzReply → Type 0
  Asked v db (redirects uri e state) =
      Trusted web v.client_id v.redirect_uri db × (uri ≡ v.redirect_uri) × (state ≡ v.state)
  Asked v db (login p again) =
      Trusted web v.client_id v.redirect_uri db
      × (p.client_id ≡ v.client_id)
      × (p.redirect_uri ≡ v.redirect_uri)
      × (p.code_challenge ≡ v.code_challenge)
  Asked v db (grants_code uri code state) = ⊥
  Asked v db r = Unit

  reject-Asked :
      (v : AuthzParams) (rej : AuthzReject) (db : Db B)
      → Vetted web v db (err rej)
      → Asked v db (reject_authz web rej v.state)
  unfolding reject_authz
  reject-Asked v missing_uri db h = tt
  reject-Asked v invalid_client db h = tt
  reject-Asked v failed db h = tt
  reject-Asked v (sent_back uri e) db h = elim (Bool-cases (uri == no_id)) [
    | inl empty ↦ rw empty tt
    | inr named ↦ elim (Option-cases (web.parse_url uri)) [
      | inl q ↦ rw (named, q) tt
      | inr (u, q) ↦ rw (named, q) (h.0, h.1, refl)
    ]
  ]

  reply-Asked :
      (v : AuthzParams) (db : Db B) (r : Result AuthzReject AuthzParams)
      → Vetted web v db r
      → Asked v db (elim r [ err rej ↦ reject_authz web rej v.state | ok p ↦ login p false ])
  reply-Asked v db (err rej) h = reject-Asked v rej db h
  reply-Asked v db (ok p) h = (h.0, h.1, h.2, h.3)

  authorize-Asked :
      (base : Ref) (v : AuthzParams) (db : Db B)
      → Asked v db (handle_authorize ext web jwt i base v db)
  unfolding handle_authorize
  authorize-Asked base v db = reply-Asked v db _ (parse-Vetted web base v db)

  reject-Sound :
      (v : AuthzParams) (rej : AuthzReject) (credential : Ref) (opaque : Option Ref) (now : Time)
      (db : Db B)
      → Vetted web v db (err rej)
      → Sound v credential opaque now db (reject_authz web rej v.state, db)
  unfolding reject_authz
  reject-Sound v missing_uri credential opaque now db h = refl
  reject-Sound v invalid_client credential opaque now db h = refl
  reject-Sound v failed credential opaque now db h = refl
  reject-Sound v (sent_back uri e) credential opaque now db h = elim (Bool-cases (uri == no_id)) [
    | inl empty ↦ rw empty refl
    | inr named ↦ elim (Option-cases (web.parse_url uri)) [
      | inl q ↦ rw (named, q) refl
      | inr (u, q) ↦ rw (named, q) (h.0, h.1, refl, refl)
    ]
  ]

  coded-Sound :
      (v p : AuthzParams) (credential person dev code : Ref) (d : Device) (now : Time) (db : Db B)
      (o : Outcome B (Unit {0}))
      → Vetted web v db (ok p)
      → verify_device_credential jwt i credential now ≡ ok (person, dev)
      → active_device_by_id dev db ≡ ok d
      → create_auth_code ext code (code_binding p person dev) (now + code_ttl) now db ≡ o
      → Sound v credential (some code) now db (answer_coded ext web jwt i p code o)
  unfolding answer_coded create_auth_code
  coded-Sound v p credential person dev code d now db (err e, db') vetted ver act q = ground arith
  coded-Sound v p credential person dev code d now db (ok _, db')
        (t, c, u, ch, nonempty, s, st, res, (url, f, kind)) ver act q =
      (
        t,
        u,
        st,
        record {
          person = person;
          dev = dev;
          row = d;
          url = url;
          verified = ver;
          is_active = act;
          unrevoked = active_device_by_id-IsActive dev d db act;
          fresh = refl;
          challenged = nonempty;
          s256 = s;
          parsed = f;
          stored = ground arith;
        },
      )

  device-Sound :
      (v p : AuthzParams) (credential person dev : Ref) (opaque : Option Ref) (now : Time)
      (db : Db B) (o : Result StoreError Device)
      → Vetted web v db (ok p)
      → verify_device_credential jwt i credential now ≡ ok (person, dev)
      → active_device_by_id dev db ≡ o
      → Sound v credential opaque now db (answer_device ext web jwt i p person dev opaque now db o)
  unfolding answer_device grant_code
  device-Sound v p credential person dev opaque now db (err e) vetted ver act =
      (vetted.0, vetted.1, vetted.2, vetted.3, refl)
  device-Sound v p credential person dev none now db (ok d) vetted ver act = refl
  device-Sound v p credential person dev (some code) now db (ok d) vetted ver act =
      coded-Sound v p credential person dev code d now db _ vetted ver act refl

  parsed-Sound :
      (v : AuthzParams) (credential : Ref) (opaque : Option Ref) (now : Time) (db : Db B)
      (r : Result AuthzReject AuthzParams)
      → Vetted web v db r
      → Sound v credential opaque now db
          (answer_parsed ext web jwt i v.state credential opaque now db r)
  unfolding answer_parsed answer_credential
  parsed-Sound v credential opaque now db (err rej) vetted =
      reject-Sound v rej credential opaque now db vetted
  parsed-Sound v credential opaque now db (ok p) vetted =
      elim (Result-cases (verify_device_credential jwt i credential now)) [
        | inr (e, q) ↦ rw q (vetted.0, vetted.1, vetted.2, vetted.3, refl)
        | inl ((person, dev), q) ↦
            rw q (device-Sound v p credential person dev opaque now db _ vetted q refl)
      ]

  submit-Sound :
      (base : Ref) (v : AuthzParams) (credential : Ref) (opaque : Option Ref) (now : Time)
      (db : Db B)
      → Sound v credential opaque now db
          (handle_authorize_submit ext web jwt i base (some (v, credential)) opaque now db)
  unfolding handle_authorize_submit
  submit-Sound base v credential opaque now db =
      parsed-Sound v credential opaque now db _ (parse-Vetted web base v db)

  -- The authorization endpoint, on the GET and on the POST of a request, sends a browser to the
  -- request's redirect URI alone, with the request's state, and does so, or shows the login page,
  -- only where that URI is trusted: it has the scheme and host of the client's https URL, or the
  -- client registered it. The GET gives out no code. The POST gives one out only for a verified
  -- credential of an active device and with an S256 challenge; the one new row binds it to that
  -- person and device and to the request's client, redirect URI, challenge and resource, and
  -- expires in 60 seconds. Otherwise nothing is stored.
  pub authorize-Sound :
      (base : Ref) (v : AuthzParams) (credential : Ref) (opaque : Option Ref) (now : Time)
      (db : Db B)
      → Asked v db (handle_authorize ext web jwt i base v db)
        × Sound v credential opaque now db
            (handle_authorize_submit ext web jwt i base (some (v, credential)) opaque now db)
  authorize-Sound base v credential opaque now db =
      (authorize-Asked base v db, submit-Sound base v credential opaque now db)
