-- ===== src/Tests/Hub.antt =====
-- Daemon sockets of the small relay.
use askrelay.Base.{true, false, none, some, List, [], ◌∷◌, ◌==◌, ◌≡◌, refl, ◌⊎◌, arith}
use askrelay.Base.Table.{exists}
use askrelay.Store.{revoke_device, inbox, active_device_by_id}
use askrelay.History.{run}
use askrelay.Oauth.{Jwt, device_claims, verify_device_credential}
use askrelay.Hub.{Hub, conn_of, ack_frame, handshake, read_frame, drain_inbox, sever_revoked}
use askrelay.Hub.Refine.{adds, removes, HubCall, calls, promised_all, NoEmpty, calls-promised}
use askrelay.Hub.Severed.{revoked_device_cut_off}
use askrelay.Hub.Drained.{Drained, drain_inbox-Drained}
use askrelay.Hub.Wakes.{
  Writer, Step, commits, notifies, Reach, opened, opens, then_step, no_lost_wake,
}
use askrelay.Tests.Data.{ext, settings, at, relay}
use askrelay.Tests.Signed.{iss}

-- A reconnect, and the end of the connection that it superseded.
abbrev reconnects : List HubCall
reconnects = adds 2 12 500 ∷ adds 2 12 501 ∷ removes 2 12 500 ∷ []

calls-promised_example :
    (conn_of 2 12 (calls reconnects []) ≡ promised_all reconnects (λ p d. none) 2 12)
    × NoEmpty (calls reconnects [])
calls-promised_example = calls-promised reconnects 2 12

-- Every token is a credential of Bob's device.
abbrev jwt : Jwt
jwt = record {
  sign = λ priv c. some 1;
  parse = λ public aud by now token. some (device_claims iss 2 12 (at 0));
}

abbrev hub : Hub
hub = (2, (12, 500) ∷ []) ∷ []

revoked_device_cut_off_example :
    let after = run ext settings [] (revoke_device 12 (at 1) relay).1 in
    (drain_inbox (λ id. true) 12 (at 2) after ≡ record { sent = []; closes = true; db = after })
    × (read_frame 12 (some (ack_frame 50)) (at 2) after ≡ record { closes = true; db = after })
    × (handshake jwt iss (some 1) (at 2) after ≡ none)
    × (exists (λ x. x == 500) (sever_revoked hub after) ≡ true)
unfolding revoke_device verify_device_credential
revoked_device_cut_off_example =
    revoked_device_cut_off ext settings jwt iss 12 2 500 (at 1) (at 2) [] (λ id. true)
      (some (ack_frame 50)) 1 hub relay refl refl refl

drain_inbox-Drained_example :
    Drained (λ id. true) (inbox 12 relay) (drain_inbox (λ id. true) 12 (at 2) relay)
    × (inbox 12 (drain_inbox (λ id. true) 12 (at 2) relay).db ≡ inbox 12 relay)
unfolding active_device_by_id
drain_inbox-Drained_example = drain_inbox-Drained (λ id. true) 12 (at 2) relay refl

abbrev notified : Writer
notified = record { wake = true; reads = false; committed = 2; owed = 0; seen = 0 }

notified-Reach : Reach 1 notified
notified-Reach = then_step _ _ (then_step _ _ opens (commits (opened 1))) (
    notifies (record { wake = true; reads = false; committed = 2; owed = 1; seen = 0 })
      (ground arith))

no_lost_wake_example :
    (notified.seen ≡ notified.committed)
    ⊎ ((t : Writer) × (u : Writer) × ((notified ≡ t) ⊎ Step notified t)
        × Step t u
        × (u.seen ≡ notified.committed))
no_lost_wake_example = no_lost_wake 1 notified notified-Reach refl
