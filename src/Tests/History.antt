-- ===== src/Tests/History.antt =====
-- Histories of the small relay.
use askrelay.Base.{
  ℕ, Ref, Time, ◌≡◌, refl, false, ◌⊎◌, inl, inr, ok, err, none, some, List, [], ◌∷◌, arith,
}
use askrelay.Gate.{inbound, outbound, other_direction, pending_review, Release}
use askrelay.Envelope.{Envelope}
use askrelay.Store.{
  Db, replay, not_fresh, ingest_message, refresh_reused, refresh_invalid, consume_refresh_token,
  consume_auth_code, auth_code_by_code, code_invalid, enroll, invite_invalid, revoke_device,
  active_device_by_id, not_found, release_draft, discard_draft, revoke_thread_grant,
  release_reply_via_grant, approve_inbound_via_grant,
}
use askrelay.History.{Call, step, run, sweeps_messages, prunes_tombstones, acks, sets_grant}
use askrelay.History.Replay.{ingest_once}
use askrelay.History.Decisions.{Decides, by_author, decided_once}
use askrelay.History.Invites.{enrolled_once}
use askrelay.History.Codes.{redeemed_once}
use askrelay.History.Tokens.{TokensUnique}
use askrelay.History.Rotation.{rotated_once, reuse_revokes_family}
use askrelay.History.Grants.{revoked_outbound_grant, GrantsUnique, step-GrantsUnique}
use askrelay.History.{releases_draft}
use askrelay.History.Bypass.{Admits, step-Admits}
use askrelay.Tests.Data.{ext, settings, at, relay, envelope, key, bob, binding, token}

-- Calls at later seconds.
abbrev later : List (Time × Call)
later = (at 5, prunes_tombstones) ∷ (at 6, acks 70 12) ∷ (at 700, sweeps_messages) ∷ []

abbrev ask : Db Envelope
ask = (ingest_message ext (envelope 70 1 2 1) 1 settings.fresh (at 2) relay).1

ingest_once_example :
    let r =
      (ingest_message ext
        (envelope 70 1 2 1)
        1
        settings.fresh
        (at 800)
        (run ext settings later ask)).0 in
    (r ≡ err replay) ⊎ (r ≡ err not_fresh)
unfolding ingest_message askrelay.Store.ingest_tx askrelay.Store.ensure_thread
    askrelay.Store.store_message
ingest_once_example =
    ingest_once ext settings (envelope 70 1 2 1) (envelope 70 1 2 1) 1 1 (at 2) (at 800) later relay
      refl (ground arith, (ground arith, (ground arith, ground arith))) refl (ground arith)

abbrev reply : Release Envelope
reply = record { thread = 100; id = 60; payload = envelope 60 2 1 0; via_grant = false }

abbrev released : Db Envelope
released = (release_draft ext 2 60 none (at 3) relay).1

released-Decides : Decides ext 60 (at 3) relay released
unfolding release_draft askrelay.Store.release_draft_tx askrelay.Store.load_draft
    askrelay.Envelope.decode askrelay.Store.release_loaded askrelay.Store.apply_edit
    askrelay.Store.release_approved askrelay.Gate.apply_outbound askrelay.Store.deliver_decided
    askrelay.Store.deliver_in_tx askrelay.Store.ingest_tx askrelay.Store.ensure_thread
    askrelay.Store.store_message
released-Decides = by_author 2 none (1, some reply) refl

decided_once_example :
    ¬ Decides ext 60 (at 800) (run ext settings later released) (run ext settings later released)
decided_once_example =
    decided_once ext settings 60 (at 3) (at 800) later relay released
      (run ext settings later released) released-Decides (tt, (tt, (tt, tt)))

abbrev enrolled : Db Envelope
enrolled = (enroll ext 77 (key 13) 0 (at 1) 9 14 relay).1

enrolled_once_example :
    enroll ext 77 (key 15) 0 (at 800) 10 16 (run ext settings later enrolled)
    ≡ (err invite_invalid, run ext settings later enrolled)
unfolding enroll askrelay.Base.unix
enrolled_once_example =
    enrolled_once ext settings 77 (key 13) (key 15) 0 0 9 14 10 16 (at 1) (at 800) later relay
      (
        bob,
        record {
          id = 14;
          person_id = 2;
          pubkey = key 13;
          label = 0;
          created_at = 100000001;
          revoked_at = none;
        },
      )
      refl (ground arith) (tt, (tt, (tt, tt))) refl

abbrev redeemed : Db Envelope
redeemed = (consume_auth_code ext 33 (at 1) relay).1

redeemed_once_example :
    ((consume_auth_code ext 33 (at 800) (run ext settings later redeemed)).0 ≡ err code_invalid)
    × (auth_code_by_code ext 33 (at 800) (run ext settings later redeemed) ≡ err code_invalid)
unfolding consume_auth_code askrelay.Base.unix
redeemed_once_example =
    redeemed_once ext settings 33 (at 1) (at 800) later relay refl (ground arith)
      (tt, (tt, (tt, tt)))

abbrev rotated : Db Envelope
rotated = (consume_refresh_token ext 44 (at 1) relay).1

rotated_once_example :
    let r = (consume_refresh_token ext 44 (at 800) (run ext settings later rotated)).0 in
    (r ≡ err refresh_reused) ⊎ (r ≡ err refresh_invalid)
unfolding consume_refresh_token askrelay.Base.unix
rotated_once_example =
    rotated_once ext settings 44 (at 1) (at 800) binding later relay refl (ground arith)
      (tt, (tt, (tt, tt)))

abbrev reused : Db Envelope
reused = (consume_refresh_token ext 45 (at 1) relay).1

relay-TokensUnique : TokensUnique relay
relay-TokensUnique hash = ground arith

reuse_revokes_family_example :
    ((consume_refresh_token ext 45 (at 1) relay).0 ≡ err refresh_reused)
    × (let r = (consume_refresh_token ext 44 (at 800) (run ext settings later reused)).0 in
        (r ≡ err refresh_reused) ⊎ (r ≡ err refresh_invalid))
unfolding consume_refresh_token run askrelay.Store.sweep_messages askrelay.Store.ack
    askrelay.Store.prune_tombstones askrelay.Base.unix
reuse_revokes_family_example =
    reuse_revokes_family ext settings 45 44 (at 1) (at 800) (token 45 (some 100000000))
      (token 44 (some 100000001)) later relay relay-TokensUnique refl (tt, (tt, (tt, tt))) refl refl

abbrev without_inbound : Db Envelope
without_inbound = (revoke_thread_grant 100 2 inbound (at 1) relay).1

abbrev without_outbound : Db Envelope
without_outbound = (revoke_thread_grant 100 2 outbound (at 1) relay).1

revoked_outbound_grant_example :
    release_reply_via_grant ext 60 2 (at 800) (run ext settings later without_outbound)
    ≡ (ok (0, none), run ext settings later without_outbound)
unfolding revoke_thread_grant run askrelay.Store.sweep_messages askrelay.Store.ack
    askrelay.Store.prune_tombstones askrelay.Envelope.decode
revoked_outbound_grant_example =
    revoked_outbound_grant ext settings 100 2 60 (at 1) (at 800) later relay
      (record {
        id = 60;
        thread_id = 100;
        author_id = 2;
        envelope = envelope 60 2 1 0;
        state = pending_review;
        via_grant = false;
        created_at = 100000000;
        decided_at = none;
      })
      (envelope 60 2 1 0) refl (tt, (tt, (tt, tt))) refl refl refl

relay-GrantsUnique : GrantsUnique relay
relay-GrantsUnique t p inbound = ground arith
relay-GrantsUnique t p outbound = ground arith
relay-GrantsUnique t p (other_direction n) = ground arith

step-GrantsUnique_example :
    GrantsUnique (step ext settings (at 1) (sets_grant 100 1 outbound 92) relay)
step-GrantsUnique_example =
    step-GrantsUnique ext settings (at 1) (sets_grant 100 1 outbound 92) relay relay-GrantsUnique

step-Admits_example : Admits ext 60 relay (releases_draft 2 60 none)
unfolding step release_draft askrelay.Store.release_draft_tx askrelay.Store.load_draft
    askrelay.Envelope.decode askrelay.Store.release_loaded askrelay.Store.apply_edit
    askrelay.Store.release_approved askrelay.Gate.apply_outbound askrelay.Store.deliver_decided
    askrelay.Store.deliver_in_tx askrelay.Store.ingest_tx askrelay.Store.ensure_thread
    askrelay.Store.store_message
step-Admits_example = step-Admits ext settings (at 3) (releases_draft 2 60 none) 60 relay refl refl
