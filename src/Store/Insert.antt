-- ===== src/Store/Insert.antt =====
-- INSERT into each table of internal/relay/store/migrations/*.sql, with the keys, references and
-- CHECKs that the table declares: where one is broken the statement fails and writes nothing.
use askrelay.Base.{Bool, true, false, not, ◌&&◌, ◌||◌, ◌∷◌, ◌==◌, ok, err}
use askrelay.Base.Table.{exists}
use askrelay.Gate.{valid_state, valid_draft_state, is_inbound, is_outbound, same_direction}
use askrelay.Store.Schema.{
  Person, Device, Invite, Thread, MessageRow, Tombstone, Delivery, Draft, GrantRow, OauthClient,
  CodeRow, RefreshRow, Db, Tx, database, has_person, has_device, has_thread, is_null,
}

-- The active grant that a unique index lets there be one of.
abbrev pub is_active_grant : GrantRow → GrantRow → Bool
is_active_grant g r =
    r.thread_id == g.thread_id
    && r.person_id == g.person_id
    && same_direction r.direction g.direction
    && is_null r.revoked_at

module _ {B : Type 0} where
  abbrev pub write_if : Bool → (Db B → Db B) → Tx B (Unit {0})
  write_if true f db = ok (tt, f db)
  write_if false f db = err database

  -- A statement that succeeds where the constraints hold.
  abbrev pub insert_if : (Db B → Bool) → (Db B → Db B) → Tx B (Unit {0})
  insert_if test f db = write_if (test db) f db

  abbrev pub insert_person : Person → Tx B (Unit {0})
  insert_person p =
      insert_if (λ db. not (exists (λ r. r.id == p.id || r.email == p.email) db.persons))
        (λ db. record db { persons = p ∷ db.persons })

  abbrev pub insert_device : Device → Tx B (Unit {0})
  insert_device d =
      insert_if
        (λ db.
          not (exists (λ r. r.id == d.id || r.pubkey.code == d.pubkey.code) db.devices)
          && d.pubkey.size == 32
          && has_person d.person_id db)
        (λ db. record db { devices = d ∷ db.devices })

  abbrev pub insert_invite : Invite → Tx B (Unit {0})
  insert_invite i =
      insert_if (λ db. not (exists (λ r. r.token_hash == i.token_hash) db.invites))
        (λ db. record db { invites = i ∷ db.invites })

  abbrev pub insert_thread : Thread → Tx B (Unit {0})
  insert_thread t =
      insert_if
        (λ db.
          not (has_thread t.id db)
          && has_person t.initiator_id db
          && has_person t.recipient_id db
          && valid_state t.state
          && not (t.initiator_id == t.recipient_id))
        (λ db. record db { threads = t ∷ db.threads })

  abbrev pub insert_message : MessageRow B → Tx B (Unit {0})
  insert_message m =
      insert_if
        (λ db.
          not (exists (λ r. r.id == m.id) db.messages)
          && has_thread m.thread_id db
          && has_person m.sender_id db)
        (λ db. record db { messages = m ∷ db.messages })

  abbrev pub insert_tombstone : Tombstone → Tx B (Unit {0})
  insert_tombstone t =
      insert_if (λ db. not (exists (λ r. r.id == t.id) db.tombstones))
        (λ db. record db { tombstones = t ∷ db.tombstones })

  abbrev pub insert_delivery : Delivery → Tx B (Unit {0})
  insert_delivery d =
      insert_if
        (λ db.
          not
            (exists (λ r. r.message_id == d.message_id && r.device_id == d.device_id) db.deliveries)
          && exists (λ r. r.id == d.message_id) db.messages
          && has_device d.device_id db)
        (λ db. record db { deliveries = d ∷ db.deliveries })

  abbrev pub insert_draft : Draft B → Tx B (Unit {0})
  insert_draft d =
      insert_if
        (λ db.
          not (exists (λ r. r.id == d.id) db.drafts)
          && has_thread d.thread_id db
          && has_person d.author_id db
          && valid_draft_state d.state)
        (λ db. record db { drafts = d ∷ db.drafts })

  abbrev pub insert_grant : GrantRow → Tx B (Unit {0})
  insert_grant g =
      insert_if
        (λ db.
          not (exists (λ r. r.id == g.id) db.grants)
          && not (is_null g.revoked_at && exists (is_active_grant g) db.grants)
          && has_thread g.thread_id db
          && has_person g.person_id db
          && (is_inbound g.direction || is_outbound g.direction))
        (λ db. record db { grants = g ∷ db.grants })

  abbrev pub insert_client : OauthClient → Tx B (Unit {0})
  insert_client c =
      insert_if (λ db. not (exists (λ r. r.client_id == c.client_id) db.clients))
        (λ db. record db { clients = c ∷ db.clients })

  abbrev pub insert_code : CodeRow → Tx B (Unit {0})
  insert_code c =
      insert_if
        (λ db.
          not (exists (λ r. r.code_hash == c.code_hash) db.codes)
          && has_person c.binding.person_id db
          && has_device c.binding.device_id db)
        (λ db. record db { codes = c ∷ db.codes })

  abbrev pub insert_refresh : RefreshRow → Tx B (Unit {0})
  insert_refresh t =
      insert_if
        (λ db.
          not (exists (λ r. r.token_hash == t.token_hash) db.refresh_tokens)
          && has_person t.binding.person_id db
          && has_device t.binding.device_id db)
        (λ db. record db { refresh_tokens = t ∷ db.refresh_tokens })
