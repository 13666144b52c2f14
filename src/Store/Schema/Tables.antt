-- ===== src/Store/Schema/Tables.antt =====
-- The tables of internal/relay/store/migrations/*.sql, a record for a row of each.
-- `B` is the type of byte strings that the JSON encoder writes.
use askrelay.Base.{ℕ, Ref, Bool, Option, List}
use askrelay.Gate.{ThreadState, Direction, DraftState}

-- A byte string that is only compared: the number that stands for it, and its length.
pub record Key : Type 0 where
  pub code : Ref
  pub size : ℕ

pub record Person : Type 0 where
  pub id : Ref
  pub email : Ref
  pub label : Ref
  pub created_at : ℕ

pub record Device : Type 0 where
  pub id : Ref
  pub person_id : Ref
  pub pubkey : Key
  pub label : Ref
  pub created_at : ℕ
  pub revoked_at : Option ℕ

pub record Invite : Type 0 where
  pub token_hash : Ref
  pub email : Ref
  pub created_at : ℕ
  pub expires_at : ℕ
  pub used_at : Option ℕ

pub record Thread : Type 0 where
  pub id : Ref
  pub initiator_id : Ref
  pub recipient_id : Ref
  pub state : ThreadState
  pub created_at : ℕ
  pub updated_at : ℕ

pub record MessageRow (B : Type 0) : Type 0 where
  pub id : Ref
  pub thread_id : Ref
  pub sender_id : Ref
  pub envelope : B
  pub sent_at : ℕ
  pub received_at : ℕ
  pub via_grant : Bool

pub record Tombstone : Type 0 where
  pub id : Ref
  pub sent_at : ℕ

pub record Delivery : Type 0 where
  pub message_id : Ref
  pub device_id : Ref
  pub delivered_at : Option ℕ
  pub acked_at : Option ℕ

pub record Draft (B : Type 0) : Type 0 where
  pub id : Ref
  pub thread_id : Ref
  pub author_id : Ref
  pub envelope : B
  pub state : DraftState
  pub via_grant : Bool
  pub created_at : ℕ
  pub decided_at : Option ℕ

pub record GrantRow : Type 0 where
  pub id : Ref
  pub thread_id : Ref
  pub person_id : Ref
  pub direction : Direction
  pub granted_at : ℕ
  pub revoked_at : Option ℕ

-- The redirect URIs are one JSON text in the table; the row holds the list that it stands for.
pub record OauthClient : Type 0 where
  pub client_id : Ref
  pub redirect_uris : List Ref
  pub client_name : Ref
  pub created_at : ℕ

-- What an authorization code is bound to (`AuthCode`).
pub record AuthCode : Type 0 where
  pub client_id : Ref
  pub redirect_uri : Ref
  pub code_challenge : Ref
  pub resource : Ref
  pub person_id : Ref
  pub device_id : Ref
  pub client_type : Ref

pub record CodeRow : Type 0 where
  pub code_hash : Ref
  pub binding : AuthCode
  pub created_at : ℕ
  pub expires_at : ℕ
  pub consumed_at : Option ℕ

-- What a refresh token is bound to (`RefreshGrant`).
pub record RefreshGrant : Type 0 where
  pub client_id : Ref
  pub person_id : Ref
  pub device_id : Ref
  pub client_type : Ref
  pub resource : Ref

pub record RefreshRow : Type 0 where
  pub token_hash : Ref
  pub binding : RefreshGrant
  pub created_at : ℕ
  pub expires_at : ℕ
  pub consumed_at : Option ℕ

-- The database.
pub record Db (B : Type 0) : Type 0 where
  pub persons : List Person
  pub devices : List Device
  pub invites : List Invite
  pub threads : List Thread
  pub messages : List (MessageRow B)
  pub tombstones : List Tombstone
  pub deliveries : List Delivery
  pub drafts : List (Draft B)
  pub grants : List GrantRow
  pub clients : List OauthClient
  pub codes : List CodeRow
  pub refresh_tokens : List RefreshRow
