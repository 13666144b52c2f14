-- ===== src/History.antt =====
-- Histories of the store: the methods of internal/relay/store that write, called one after the
-- other in any order, as `writeTx` makes them run.
pub mod Rows
pub mod Delivery
pub mod Frame
pub mod Replay
pub mod Devices
pub mod Drafts
pub mod Grants
pub mod Codes
pub mod Bypass
pub mod Invites
pub mod Rotation
pub mod Tokens
pub mod Decisions
use askrelay.Base.{ℕ, ◌≤◌, Ref, Time, Duration, Text, Option, List, [], ◌∷◌}
use askrelay.Gate.{Verdict, Direction}
use askrelay.Envelope.{External, Envelope}
use askrelay.Store.{
  Key, AuthCode, RefreshGrant, Db, Freshness, RetentionPolicy, create_invite, enroll, revoke_device,
  start_thread, ingest_message, mark_delivered, ack, create_draft, release_draft, discard_draft,
  release_reply_via_grant, transition_inbound, inbound_message_verdict, set_thread_grant,
  revoke_thread_grant, approve_inbound_via_grant, register_client, create_auth_code,
  consume_auth_code, create_refresh_token, consume_refresh_token, sweep_messages, sweep_drafts,
  prune_tombstones, sweep_oauth,
}

-- A call of a method, with its arguments, the fresh ids among them.
pub data Call : Type 0 where
  creates_invite : Ref → Ref → Duration → Call
  enrolls : Ref → Key → Ref → Ref → Ref → Call
  revokes_device : Ref → Call
  starts_thread : Ref → Ref → Ref → Call
  ingests : Envelope → Ref → Call
  marks_delivered : Ref → Ref → Call
  acks : Ref → Ref → Call
  creates_draft : Ref → Ref → Envelope → Call
  releases_draft : Ref → Ref → Option Text → Call
  discards_draft : Ref → Ref → Call
  releases_via_grant : Ref → Ref → Call
  decides_thread : Ref → Verdict → Call
  decides_message : Ref → Ref → Verdict → Call
  sets_grant : Ref → Ref → Direction → Ref → Call
  revokes_grant : Ref → Ref → Direction → Call
  approves_via_grant : Ref → Ref → Ref → Call
  registers_client : List Ref → Ref → Ref → Call
  creates_code : Ref → AuthCode → Time → Call
  consumes_code : Ref → Call
  creates_token : Ref → RefreshGrant → Time → Call
  consumes_token : Ref → Call
  sweeps_messages sweeps_drafts prunes_tombstones sweeps_oauth : Call

-- The relay's settings, which do not change while it runs.
pub record Settings : Type 0 where
  pub fresh : Freshness
  pub policy : RetentionPolicy

module _ {B : Type 0} (ext : External B) (c : Settings) where
  -- The database after a call at a time.
  unfoldable pub step : Time → Call → Db B → Db B
  step now (creates_invite email token ttl) db = (create_invite ext token email ttl now db).1
  step now (enrolls token key label p d) db = (enroll ext token key label now p d db).1
  step now (revokes_device d) db = (revoke_device d now db).1
  step now (starts_thread i r id) db = (start_thread i r now id db).1
  step now (ingests e sender) db = (ingest_message ext e sender c.fresh now db).1
  step now (marks_delivered m d) db = (mark_delivered m d now db).1
  step now (acks m d) db = (ack m d now db).1
  step now (creates_draft t author e) db = (create_draft ext t author e now db).1
  step now (releases_draft p d edited) db = (release_draft ext p d edited now db).1
  step now (discards_draft p d) db = (discard_draft ext p d now db).1
  step now (releases_via_grant d p) db = (release_reply_via_grant ext d p now db).1
  step now (decides_thread t v) db = (transition_inbound t v now db).1
  step now (decides_message p m v) db = (inbound_message_verdict p m v now db).1
  step now (sets_grant t p dir id) db = (set_thread_grant t p dir now id db).1
  step now (revokes_grant t p dir) db = (revoke_thread_grant t p dir now db).1
  step now (approves_via_grant t p m) db = (approve_inbound_via_grant t p m now db).1
  step now (registers_client uris name id) db = (register_client uris name now id db).1
  step now (creates_code code b expires) db = (create_auth_code ext code b expires now db).1
  step now (consumes_code code) db = (consume_auth_code ext code now db).1
  step now (creates_token token g expires) db = (create_refresh_token ext token g expires now db).1
  step now (consumes_token token) db = (consume_refresh_token ext token now db).1
  step now sweeps_messages db = (sweep_messages c.policy now db).1
  step now sweeps_drafts db = (sweep_drafts c.policy now db).1
  step now prunes_tombstones db = (prune_tombstones c.fresh now db).1
  step now sweeps_oauth db = (sweep_oauth now db).1

  unfoldable pub run : List (Time × Call) → Db B → Db B
  unfolding step
  run [] db = db
  run ((now, call) ∷ calls) db = run calls (step now call db)

-- Every call of a history has the property.
abbrev pub Each : (Time → Call → Type 0) → List (Time × Call) → Type 0
Each P [] = Unit
Each P ((now, call) ∷ calls) = P now call × Each P calls

-- The clock does not run back: the calls come at these times or later.
abbrev pub InOrder : Time → List (Time × Call) → Time → Type 0
InOrder from [] to = from ≤ to
InOrder from ((now, call) ∷ calls) to = (from ≤ now) × InOrder now calls to
