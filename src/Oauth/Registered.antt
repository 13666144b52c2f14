-- ===== src/Oauth/Registered.antt =====
-- A registered client is known to the authorization endpoint: internal/relay/oauth_dcr.go and
-- `resolveClient` of internal/relay/oauth_authorize.go.
use askrelay.Base.{
  Ref, no_id, Time, unix, Bool-cases, true, false, not, Option-cases, none, some, ok, inl, inr,
  List, [], ◌∷◌, ◌≡◌, refl, ◌==◌, ==→eq, ==_refl, if◌then◌else◌, arith,
}
use askrelay.Base.Table.{exists}
use askrelay.Store.{Db, OauthClient, register_client, client_by_id}
use askrelay.Oauth.Authorize.{
  Web, client_type_for, is_cimd, lists_uri, resolve_registered, resolve_parsed, resolve_client,
}
use askrelay.Oauth.Register.{
  ClientMetadata, valid_url, valid_redirect_uri, answer_registered, handle_register,
}

module _ (web : Web) where
  -- No URI of the list is invalid.
  abbrev pub AllValid : List Ref → Type 0
  AllValid uris = exists (λ u. not (valid_redirect_uri web u)) uris ≡ false

  listed-valid :
      (uri : Ref) (uris : List Ref)
      → AllValid uris
      → lists_uri web uri uris ≡ true
      → valid_redirect_uri web uri ≡ true
  listed-valid uri [] all h = absurd (ground arith)
  listed-valid uri (u ∷ us) all h = elim (Bool-cases (u == uri)) [
    | inl e ↦ rw (← ==→eq u uri e) (ground arith)
    | inr e ↦ listed-valid uri us (ground arith) (ground arith)
  ]

  module _ {B : Type 0} where
    registered-row :
        (meta : ClientMetadata) (fresh id : Ref) (now : Time) (db db' : Db B)
        → handle_register web (some meta) fresh now db ≡ (ok id, db')
        → (c : OauthClient) × (client_by_id id db' ≡ ok c)
          × (c.redirect_uris ≡ meta.redirect_uris)
          × AllValid meta.redirect_uris
    unfolding handle_register answer_registered register_client client_by_id
    registered-row meta fresh id now db db' h = (
      record {
        client_id = fresh;
        redirect_uris = meta.redirect_uris;
        client_name = meta.client_name;
        created_at = unix now;
      },
      ground (arith, ==_refl fresh),
      refl,
      ground arith,
    )

    resolved :
        (id uri : Ref) (uris : List Ref) (db : Db B) (c : OauthClient)
        → client_by_id id db ≡ ok c
        → c.redirect_uris ≡ uris
        → AllValid uris
        → is_cimd web (web.parse_url id) ≡ false
        → (t : Ref) × (resolve_client web id uri db
            ≡ ok (if lists_uri web uri uris then some t else none))
    unfolding resolve_client resolve_parsed resolve_registered valid_redirect_uri valid_url
    resolved id uri uris db c found same all dcr = elim (Option-cases (web.parse_url uri)) [
      | inl e ↦ elim (Bool-cases (lists_uri web uri uris)) [
        | inl listed ↦ absurd (ground (arith, listed-valid uri uris all listed))
        | inr other ↦ (no_id, ground arith)
      ]
      | inr (u, e) ↦ elim (Bool-cases (lists_uri web uri uris)) [
        | inl listed ↦
            let valid = listed-valid uri uris all listed in
            (client_type_for web u.host, ground arith)
        | inr other ↦ (no_id, ground arith)
      ]
    ]

    -- Behind a registration that returned no error, every redirect URI that was registered is
    -- valid, and the authorization endpoint takes the new client with exactly the URIs that it
    -- registered. The client's id is no https URL.
    pub registered-resolves :
        (meta : ClientMetadata) (fresh id uri : Ref) (now : Time) (db db' : Db B)
        → handle_register web (some meta) fresh now db ≡ (ok id, db')
        → is_cimd web (web.parse_url id) ≡ false
        → AllValid meta.redirect_uris
          × ((t : Ref) × (resolve_client web id uri db'
                ≡ ok (if lists_uri web uri meta.redirect_uris then some t else none)))
    registered-resolves meta fresh id uri now db db' h dcr =
        let (c, found, same, all) = registered-row meta fresh id now db db' h in
        (all, resolved id uri meta.redirect_uris db' c found same all dcr)
