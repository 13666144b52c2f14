-- ===== src/Hub/Socket.antt =====
-- One daemon socket: the handshake, the reader, the writer and the check for revoked devices of
-- internal/relay/ws.go.
use askrelay.Base.{
  Ref, no_id, Time, Bytes, codes, length, take, drop, Bool, true, false, not, ◌||◌, Option, none,
  some, List, [], ◌∷◌, ◌==◌, leb, Result, ok, err, is_ok, if◌then◌else◌,
}
use askrelay.Store.{
  Db, Device, MessageRow, StoreError, active_device_by_id, inbox, mark_delivered, ack,
}
use askrelay.Oauth.{Jwt, Issuer, TokenFault, verify_device_credential}
use askrelay.Hub.Registry.{Entries, Hub, devices}

-- `bearerToken` of an Authorization header, with `strings.EqualFold` as an argument.
unfoldable pub bearer_token : (Bytes → Bytes → Bool) → Bytes → Option Bytes
bearer_token equal_fold h =
    if leb (length h) 7 || not (equal_fold (take 7 h) (codes "Bearer "))
    then none
    else some (drop 7 h)

-- A frame of the daemon: an ack of a message, or one of another type.
pub data Frame : Type 0 where
  ack_frame : Ref → Frame
  other_frame : Ref → Frame

-- What one frame did: the socket is closed or read on, and the database after it.
pub record Read (B : Type 0) : Type 0 where
  pub closes : Bool
  pub db : Db B

-- What a drain did: the ids of the messages sent, in order, whether it closed the socket, and the
-- database after it.
pub record Drain (B : Type 0) : Type 0 where
  pub sent : List Ref
  pub closes : Bool
  pub db : Db B

-- The device is the credential's person's own.
abbrev pub owned : Ref → Ref → Result StoreError Device → Option (Ref × Ref)
owned person device (err e) = none
owned person device (ok d) = if d.person_id == person then some (person, device) else none

module _ {B : Type 0} where
  abbrev pub credited : Result TokenFault (Ref × Ref) → Db B → Option (Ref × Ref)
  credited (err e) db = none
  credited (ok (person, device)) db = owned person device (active_device_by_id device db)

  -- `handleWS` as far as the upgrade: the person and the device of the socket, or `none` for the
  -- answer "unauthorized".
  unfoldable pub handshake : Jwt → Issuer → Option Ref → Time → Db B → Option (Ref × Ref)
  handshake jwt i none now db = none
  handshake jwt i (some token) now db = credited (verify_device_credential jwt i token now) db

  -- The switch on the type of a frame; an error of `Ack` is logged.
  abbrev pub handle_frame : Ref → Option Frame → Time → Db B → Db B
  handle_frame device none now db = db
  handle_frame device (some (other_frame t)) now db = db
  handle_frame device (some (ack_frame id)) now db =
      if id == no_id then db else (ack id device now db).1

  -- A round of the read loop for data that came, where `none` is a bad frame.
  unfoldable pub read_frame : Ref → Option Frame → Time → Db B → Read B
  read_frame device f now db =
      if is_ok (active_device_by_id device db)
      then record { closes = false; db = handle_frame device f now db }
      else record { closes = true; db = db }

  -- The loop of `drainInbox`, where `writes` tells which frames the socket takes.
  unfoldable pub drain_items : (Ref → Bool) → Ref → Time → List (MessageRow B) → Db B → Drain B
  drain_items writes device now [] db = record { sent = []; closes = false; db = db }
  drain_items writes device now (m ∷ ms) db =
      let rest = drain_items writes device now ms (mark_delivered m.id device now db).1 in
      if writes m.id
      then record { sent = m.id ∷ rest.sent; closes = rest.closes; db = rest.db }
      else record { sent = []; closes = true; db = db }

  -- `drainInbox`
  unfoldable pub drain_inbox : (Ref → Bool) → Ref → Time → Db B → Drain B
  unfolding drain_items
  drain_inbox writes device now db =
      if is_ok (active_device_by_id device db)
      then drain_items writes device now (inbox device db) db
      else record { sent = []; closes = true; db = db }

  unfoldable pub severed : Entries Ref → Db B → List Ref
  severed [] db = []
  severed ((device, c) ∷ m) db =
      let rest = severed m db in if is_ok (active_device_by_id device db) then rest else c ∷ rest

  -- `severRevoked`: the connections that it closes.
  unfoldable pub sever_revoked : Hub → Db B → List Ref
  unfolding severed devices
  sever_revoked h db = severed (devices h) db
