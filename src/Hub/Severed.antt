-- ===== src/Hub/Severed.antt =====
-- A revoked device at the WebSocket: internal/relay/ws.go behind `RevokeDevice` of
-- internal/relay/store/identity.go.
use askrelay.Base.{
  Ref, Time, Bool, Bool-cases, true, Option, none, some, ok, err, List, [], ◌∷◌, ◌++◌, ◌==◌, ==→eq,
  ◌≡◌, refl, inl, inr, arith,
}
use askrelay.Base.Table.{exists}
use askrelay.Envelope.{External}
use askrelay.Store.{Db, active_device_by_id, revoke_device, not_found}
use askrelay.Oauth.{Jwt, Issuer, verify_device_credential}
use askrelay.History.{Call, Settings, run}
use askrelay.History.Devices.{revoked_for_good}
use askrelay.Hub.Registry.{Entries, get, Hub, conn_of, devices}
use askrelay.Hub.Socket.{Frame, handshake, read_frame, drain_inbox, severed, sever_revoked}

-- An entry of one person is among all.
has-append-left :
    (c : Ref) (xs ys : List Ref)
    → exists (λ x. x == c) xs ≡ true
    → exists (λ x. x == c) (xs ++ ys) ≡ true
has-append-left c [] ys h = absurd (ground arith)
has-append-left c (x ∷ xs) ys h = ground (arith, has-append-left c xs ys)

has-append-right :
    (c : Ref) (xs ys : List Ref)
    → exists (λ x. x == c) ys ≡ true
    → exists (λ x. x == c) (xs ++ ys) ≡ true
has-append-right c [] ys h = h
has-append-right c (x ∷ xs) ys h = ground (arith, has-append-right c xs ys)

module _ {B : Type 0} where
  severed-append :
      (m n : Entries Ref) (db : Db B) → severed (m ++ n) db ≡ severed m db ++ severed n db
  unfolding severed
  severed-append [] n db = refl
  severed-append ((d, c) ∷ m) n db = ground (arith, severed-append m n db)

  severed-has :
      (d c : Ref) (m : Entries Ref) (db : Db B)
      → active_device_by_id d db ≡ err not_found
      → get d m ≡ some c
      → exists (λ x. x == c) (severed m db) ≡ true
  unfolding severed
  severed-has d c [] db gone h = absurd (ground arith)
  severed-has d c ((d', c') ∷ m) db gone h = elim (Bool-cases (d' == d)) [
    | inl e ↦ rw (==→eq d' d e, gone) (ground arith)
    | inr e ↦ ground (arith, severed-has d c m db gone)
  ]

  sever-has :
      (p d c : Ref) (h : Hub) (db : Db B)
      → active_device_by_id d db ≡ err not_found
      → conn_of p d h ≡ some c
      → exists (λ x. x == c) (sever_revoked h db) ≡ true
  unfolding sever_revoked devices
  sever-has p d c [] db gone q = absurd (ground arith)
  sever-has p d c ((p', m) ∷ h) db gone q = elim (Bool-cases (p' == p)) [
    | inl e ↦ rw (severed-append m (devices h) db) (
        has-append-left c (severed m db) (severed (devices h) db)
          (severed-has d c m db gone (ground arith)))
    | inr e ↦ rw (severed-append m (devices h) db) (
        has-append-right c (severed m db) (severed (devices h) db)
          (sever-has p d c h db gone (ground arith)))
  ]

  -- Behind a revocation of a device that returned no error, and whatever calls of the store are
  -- made after it, nothing is written to a socket of the device and a drain closes it; a frame
  -- from the socket closes it and changes nothing; a credential for the device opens no new
  -- socket; and the check for revoked devices closes the connection that the hub has for it.
  pub revoked_device_cut_off :
      (ext : External B) (c : Settings) (jwt : Jwt) (i : Issuer) (d p conn : Ref) (first now : Time)
      (calls : List (Time × Call)) (writes : Ref → Bool) (f : Option Frame) (token : Ref) (h : Hub)
      (db : Db B)
      → (revoke_device d first db).0 ≡ ok tt
      → verify_device_credential jwt i token now ≡ ok (p, d)
      → conn_of p d h ≡ some conn
      → let after = run ext c calls (revoke_device d first db).1 in
        (drain_inbox writes d now after ≡ record { sent = []; closes = true; db = after })
        × (read_frame d f now after ≡ record { closes = true; db = after })
        × (handshake jwt i (some token) now after ≡ none)
        × (exists (λ x. x == conn) (sever_revoked h after) ≡ true)
  unfolding drain_inbox read_frame handshake
  revoked_device_cut_off ext c jwt i d p conn first now calls writes f token h db revoked ver q =
      let gone = revoked_for_good ext c d first calls db revoked in
      (
        ground arith,
        ground arith,
        ground arith,
        sever-has p d conn h (run ext c calls (revoke_device d first db).1) gone q,
      )
