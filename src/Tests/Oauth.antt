-- ===== src/Tests/Oauth.antt =====
-- Runs of the authorization server on the small relay.
use askrelay.Base.{unix, codes, true, false, some, [], ◌==◌, ◌≡◌, refl}
use askrelay.Envelope.{Envelope}
use askrelay.Store.{Db, RefreshGrant, revoke_device}
use askrelay.History.{run}
use askrelay.Oauth.{
  Jwt, mint, TokenForm, TokenResponse, authorization_code, handle_token, Web, AuthzParams,
  handle_authorize, handle_authorize_submit,
}
use askrelay.Oauth.Issued.{Claimed, Minted, handle_token-Minted, revoked_device_mints_nothing}
use askrelay.Oauth.Trusted.{Asked, Sound, authorize-Sound}
use askrelay.Tests.Signed.{iss, alice_credential}
use askrelay.Tests.Data.{ext, settings, at, relay}

abbrev any_jwt : Jwt
any_jwt = record {
  sign = λ priv c. some c.subject;
  parse = λ public aud by now token. some alice_credential;
}

abbrev form : TokenForm
form = record {
  grant_type = authorization_code;
  code = 33;
  code_verifier = 7;
  client_id = 5;
  redirect_uri = 6;
  refresh = 0;
}

abbrev tokens : TokenResponse
tokens = record { access_token = 1; expires_in = 3600; refresh_token = 900 }

abbrev redeemed : Db Envelope
redeemed = (handle_token ext any_jwt iss (λ v. v) (some form) (some 900) (at 1) relay).1

handle_token-Minted_example :
    (g : RefreshGrant) × (mid : Db Envelope) × Claimed ext any_jwt iss
      (λ v. v)
      form
      (at 1)
      relay
      g
      mid
    × Minted ext any_jwt iss g (some 900) (at 1) mid redeemed tokens
unfolding handle_token askrelay.Store.auth_code_by_code unix askrelay.Store.consume_auth_code
    askrelay.Store.active_device_by_id mint askrelay.Store.create_refresh_token
handle_token-Minted_example =
    handle_token-Minted ext any_jwt iss (λ v. v) form (some 900) (at 1) relay redeemed tokens refl

abbrev revoked : Db Envelope
revoked = run ext settings [] (revoke_device 12 (at 1) relay).1

abbrev redeemed_later : Db Envelope
redeemed_later = (handle_token ext any_jwt iss (λ v. v) (some form) (some 900) (at 2) revoked).1

revoked_device_mints_nothing_example :
    (g : RefreshGrant) × (mid : Db Envelope) × Claimed ext any_jwt iss
      (λ v. v)
      form
      (at 2)
      revoked
      g
      mid
    × Minted ext any_jwt iss g (some 900) (at 2) mid redeemed_later tokens
    × ((g.device_id == 12) ≡ false)
unfolding handle_token revoke_device askrelay.Store.auth_code_by_code run unix
    askrelay.Store.consume_auth_code askrelay.Store.active_device_by_id mint
    askrelay.Store.create_refresh_token
revoked_device_mints_nothing_example =
    revoked_device_mints_nothing ext any_jwt iss settings 12 (at 1) (at 2) [] (λ v. v) form
      (some 900) relay redeemed_later tokens refl refl

abbrev web : Web
web = record {
  parse_url = λ r. some (record {
    scheme = codes "http";
    is_abs = true;
    host = codes "localhost:3000";
    hostname = codes "localhost";
    fragment = [];
  });
  lower = λ s. s;
}

abbrev request : AuthzParams
request = record {
  is_code = true;
  client_id = 5;
  redirect_uri = 6;
  code_challenge = 7;
  is_s256 = true;
  state = 70;
  resource = 8;
  scope = 0;
  client_type = 0;
}

authorize-Sound_example :
    Asked ext web any_jwt iss request relay (handle_authorize ext web any_jwt iss 8 request relay)
    × Sound ext web any_jwt iss request 2
        (some 901)
        (at 1)
        relay
        (handle_authorize_submit ext web any_jwt iss 8 (some (request, 2)) (some 901) (at 1) relay)
authorize-Sound_example = authorize-Sound ext web any_jwt iss 8 request 2 (some 901) (at 1) relay
