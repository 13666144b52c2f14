-- ===== src/History/Frame.antt =====
-- Which calls leave which table as it was.
use askrelay.Base.{Time, ◌≡◌, ap, arith}
use askrelay.Envelope.{External}
use askrelay.Store.{
  Db, create_invite, enroll, revoke_device, start_thread, mark_delivered, ack, create_draft,
  transition_inbound, inbound_message_verdict, set_thread_grant, revoke_thread_grant,
  approve_inbound_via_grant, register_client, create_auth_code, consume_auth_code,
  create_refresh_token, consume_refresh_token, sweep_messages, sweep_drafts, prune_tombstones,
  sweep_oauth,
}
use askrelay.History.{
  Call, Settings, step, enrolls, revokes_device, ingests, creates_draft, releases_draft,
  discards_draft, releases_via_grant, sets_grant, revokes_grant, creates_code, consumes_code,
  creates_token, consumes_token, sweeps_drafts, prunes_tombstones, sweeps_oauth,
}
use askrelay.History.Delivery.{
  Delivers, idle, lets_in, releases, ingest_message-Delivers, release_draft-Delivers,
  release_via_grant-Delivers, discard_draft-decides, ingest_message-drafts,
}

-- The calls that write no row of `tombstones`.
abbrev pub NoTombstone : Call → Type 0
NoTombstone (ingests _ _) = ⊥
NoTombstone (releases_draft _ _ _) = ⊥
NoTombstone (releases_via_grant _ _) = ⊥
NoTombstone prunes_tombstones = ⊥
NoTombstone _ = Unit

-- The calls that write no row of `devices`.
abbrev pub NoDevice : Call → Type 0
NoDevice (enrolls _ _ _ _ _) = ⊥
NoDevice (revokes_device _) = ⊥
NoDevice _ = Unit

-- The calls that write no row of `drafts`.
abbrev pub NoDraft : Call → Type 0
NoDraft (creates_draft _ _ _) = ⊥
NoDraft (releases_draft _ _ _) = ⊥
NoDraft (discards_draft _ _) = ⊥
NoDraft (releases_via_grant _ _) = ⊥
NoDraft sweeps_drafts = ⊥
NoDraft _ = Unit

-- The calls that write no row of `grants`.
abbrev pub NoGrant : Call → Type 0
NoGrant (sets_grant _ _ _ _) = ⊥
NoGrant (revokes_grant _ _ _) = ⊥
NoGrant _ = Unit

-- The calls that write no row of `codes`.
abbrev pub NoCode : Call → Type 0
NoCode (creates_code _ _ _) = ⊥
NoCode (consumes_code _) = ⊥
NoCode sweeps_oauth = ⊥
NoCode _ = Unit

-- The calls that write no row of `refresh_tokens`.
abbrev pub NoToken : Call → Type 0
NoToken (creates_token _ _ _) = ⊥
NoToken (consumes_token _) = ⊥
NoToken sweeps_oauth = ⊥
NoToken _ = Unit

Delivers-devices : {B : Type 0} (db db' : Db B) → Delivers db db' → db'.devices ≡ db.devices
Delivers-devices db db' (idle q) = ap (λ d. d.devices) q
Delivers-devices db db' (lets_in _ _ _ _ q) = ap (λ d. d.devices) q
Delivers-devices db db' (releases _ _ _ _ _ _ _ q) = ap (λ d. d.devices) q

Delivers-grants : {B : Type 0} (db db' : Db B) → Delivers db db' → db'.grants ≡ db.grants
Delivers-grants db db' (idle q) = ap (λ d. d.grants) q
Delivers-grants db db' (lets_in _ _ _ _ q) = ap (λ d. d.grants) q
Delivers-grants db db' (releases _ _ _ _ _ _ _ q) = ap (λ d. d.grants) q

Delivers-codes : {B : Type 0} (db db' : Db B) → Delivers db db' → db'.codes ≡ db.codes
Delivers-codes db db' (idle q) = ap (λ d. d.codes) q
Delivers-codes db db' (lets_in _ _ _ _ q) = ap (λ d. d.codes) q
Delivers-codes db db' (releases _ _ _ _ _ _ _ q) = ap (λ d. d.codes) q

Delivers-refresh_tokens :
    {B : Type 0} (db db' : Db B) → Delivers db db' → db'.refresh_tokens ≡ db.refresh_tokens
Delivers-refresh_tokens db db' (idle q) = ap (λ d. d.refresh_tokens) q
Delivers-refresh_tokens db db' (lets_in _ _ _ _ q) = ap (λ d. d.refresh_tokens) q
Delivers-refresh_tokens db db' (releases _ _ _ _ _ _ _ q) = ap (λ d. d.refresh_tokens) q

module _ {B : Type 0} (ext : External B) (c : Settings) where
  pub step-tombstones :
      (now : Time) (call : Call) (db : Db B)
      → NoTombstone call
      → (step ext c now call db).tombstones ≡ db.tombstones
  unfolding step create_invite enroll revoke_device start_thread mark_delivered ack create_draft
      transition_inbound inbound_message_verdict set_thread_grant revoke_thread_grant
      approve_inbound_via_grant register_client create_auth_code consume_auth_code
      create_refresh_token consume_refresh_token sweep_messages sweep_drafts sweep_oauth
  step-tombstones now (ingests _ _) db h = elim h [ ]
  step-tombstones now (releases_draft _ _ _) db h = elim h [ ]
  step-tombstones now (releases_via_grant _ _) db h = elim h [ ]
  step-tombstones now prunes_tombstones db h = elim h [ ]
  step-tombstones now (discards_draft p d) db h =
      ground (arith, discard_draft-decides ext p d now db)
  step-tombstones now _ db h = ground arith

  pub step-devices :
      (now : Time) (call : Call) (db : Db B)
      → NoDevice call
      → (step ext c now call db).devices ≡ db.devices
  unfolding step create_invite start_thread mark_delivered ack create_draft transition_inbound
      inbound_message_verdict set_thread_grant revoke_thread_grant approve_inbound_via_grant
      register_client create_auth_code consume_auth_code create_refresh_token consume_refresh_token
      sweep_messages sweep_drafts prune_tombstones sweep_oauth
  step-devices now (enrolls _ _ _ _ _) db h = elim h [ ]
  step-devices now (revokes_device _) db h = elim h [ ]
  step-devices now (ingests e sender) db h =
      Delivers-devices db _ (ingest_message-Delivers ext e sender c.fresh now db)
  step-devices now (releases_draft p d edited) db h =
      Delivers-devices db _ (release_draft-Delivers ext p d edited now db)
  step-devices now (releases_via_grant d p) db h =
      Delivers-devices db _ (release_via_grant-Delivers ext d p now db)
  step-devices now (discards_draft p d) db h = ground (arith, discard_draft-decides ext p d now db)
  step-devices now _ db h = ground arith

  pub step-drafts :
      (now : Time) (call : Call) (db : Db B)
      → NoDraft call
      → (step ext c now call db).drafts ≡ db.drafts
  unfolding step create_invite enroll revoke_device start_thread mark_delivered ack
      transition_inbound inbound_message_verdict set_thread_grant revoke_thread_grant
      approve_inbound_via_grant register_client create_auth_code consume_auth_code
      create_refresh_token consume_refresh_token sweep_messages prune_tombstones sweep_oauth
  step-drafts now (creates_draft _ _ _) db h = elim h [ ]
  step-drafts now (releases_draft _ _ _) db h = elim h [ ]
  step-drafts now (discards_draft _ _) db h = elim h [ ]
  step-drafts now (releases_via_grant _ _) db h = elim h [ ]
  step-drafts now sweeps_drafts db h = elim h [ ]
  step-drafts now (ingests e sender) db h = ingest_message-drafts ext e sender c.fresh now db
  step-drafts now _ db h = ground arith

  pub step-grants :
      (now : Time) (call : Call) (db : Db B)
      → NoGrant call
      → (step ext c now call db).grants ≡ db.grants
  unfolding step create_invite enroll revoke_device start_thread mark_delivered ack create_draft
      transition_inbound inbound_message_verdict approve_inbound_via_grant register_client
      create_auth_code consume_auth_code create_refresh_token consume_refresh_token sweep_messages
      sweep_drafts prune_tombstones sweep_oauth
  step-grants now (sets_grant _ _ _ _) db h = elim h [ ]
  step-grants now (revokes_grant _ _ _) db h = elim h [ ]
  step-grants now (ingests e sender) db h =
      Delivers-grants db _ (ingest_message-Delivers ext e sender c.fresh now db)
  step-grants now (releases_draft p d edited) db h =
      Delivers-grants db _ (release_draft-Delivers ext p d edited now db)
  step-grants now (releases_via_grant d p) db h =
      Delivers-grants db _ (release_via_grant-Delivers ext d p now db)
  step-grants now (discards_draft p d) db h = ground (arith, discard_draft-decides ext p d now db)
  step-grants now _ db h = ground arith

  pub step-codes :
      (now : Time) (call : Call) (db : Db B)
      → NoCode call
      → (step ext c now call db).codes ≡ db.codes
  unfolding step create_invite enroll revoke_device start_thread mark_delivered ack create_draft
      transition_inbound inbound_message_verdict set_thread_grant revoke_thread_grant
      approve_inbound_via_grant register_client create_refresh_token consume_refresh_token
      sweep_messages sweep_drafts prune_tombstones
  step-codes now (creates_code _ _ _) db h = elim h [ ]
  step-codes now (consumes_code _) db h = elim h [ ]
  step-codes now sweeps_oauth db h = elim h [ ]
  step-codes now (ingests e sender) db h =
      Delivers-codes db _ (ingest_message-Delivers ext e sender c.fresh now db)
  step-codes now (releases_draft p d edited) db h =
      Delivers-codes db _ (release_draft-Delivers ext p d edited now db)
  step-codes now (releases_via_grant d p) db h =
      Delivers-codes db _ (release_via_grant-Delivers ext d p now db)
  step-codes now (discards_draft p d) db h = ground (arith, discard_draft-decides ext p d now db)
  step-codes now _ db h = ground arith

  pub step-refresh_tokens :
      (now : Time) (call : Call) (db : Db B)
      → NoToken call
      → (step ext c now call db).refresh_tokens ≡ db.refresh_tokens
  unfolding step create_invite enroll revoke_device start_thread mark_delivered ack create_draft
      transition_inbound inbound_message_verdict set_thread_grant revoke_thread_grant
      approve_inbound_via_grant register_client create_auth_code consume_auth_code sweep_messages
      sweep_drafts prune_tombstones
  step-refresh_tokens now (creates_token _ _ _) db h = elim h [ ]
  step-refresh_tokens now (consumes_token _) db h = elim h [ ]
  step-refresh_tokens now sweeps_oauth db h = elim h [ ]
  step-refresh_tokens now (ingests e sender) db h =
      Delivers-refresh_tokens db _ (ingest_message-Delivers ext e sender c.fresh now db)
  step-refresh_tokens now (releases_draft p d edited) db h =
      Delivers-refresh_tokens db _ (release_draft-Delivers ext p d edited now db)
  step-refresh_tokens now (releases_via_grant d p) db h =
      Delivers-refresh_tokens db _ (release_via_grant-Delivers ext d p now db)
  step-refresh_tokens now (discards_draft p d) db h =
      ground (arith, discard_draft-decides ext p d now db)
  step-refresh_tokens now _ db h = ground arith
