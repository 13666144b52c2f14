-- ===== src/Tests/Data.antt =====
-- A small relay for the tests: two people, a device each, an invite, a thread and its messages.
use askrelay.Base.{
  ℕ, ◌+◌, Ref, Time, seconds, Bytes, Bool, false, not, Option, none, some, zero, suc, [], ◌∷◌,
  length, ◌==◌,
}
use askrelay.Gate.{input_required, pending_review, inbound, outbound}
use askrelay.Envelope.{External, Envelope, null}
use askrelay.Store.{Db, Key, Person, Device, Thread, GrantRow, RefreshGrant, RefreshRow}
use askrelay.History.{Settings}

-- Bytes of one value.
abbrev pub repeat : ℕ → ℕ → Bytes
repeat zero b = []
repeat (suc n) b = b ∷ repeat n b

abbrev starts_with : ℕ → Bytes → Bool
starts_with b [] = false
starts_with b (c ∷ cs) = b == c

-- Envelopes are stored as they are, and a signature repeats the length of what is signed.
abbrev pub ext : External Envelope
ext = record {
  marshal = λ e. some e;
  unmarshal = λ e. some e;
  parse_json = λ e. some null;
  parse_float = λ s. none;
  is_uuid = λ id. not (id == 0);
  sha256 = λ id. id;
  sign = λ priv m. repeat 64 (length m);
  verify = λ pub_key m s. starts_with (length m) s;
}

abbrev pub settings : Settings
settings = record {
  fresh = record { max_age = seconds 600; max_skew = seconds 60 };
  policy = record { ack_grace = seconds 100; hard_ttl = seconds 1000 };
}

-- The clock of the tests, in seconds.
abbrev pub at : ℕ → Time
at s = seconds (100000000 + s)

abbrev pub alice : Person
alice = record { id = 1; email = 21; label = 0; created_at = 0 }

abbrev pub bob : Person
bob = record { id = 2; email = 22; label = 0; created_at = 0 }

abbrev pub key : ℕ → Key
key code = record { code = code; size = 32 }

abbrev pub device : Ref → Ref → Device
device id person = record {
  id = id;
  person_id = person;
  pubkey = key id;
  label = 0;
  created_at = 0;
  revoked_at = none;
}

-- An envelope of thread 100 with one part.
abbrev pub envelope : Ref → Ref → Ref → ℕ → Envelope
envelope id from to sent = record {
  v = 1;
  id = id;
  thread = 100;
  from = record { person = from; device = 0; agent = 0 };
  to = to;
  state = input_required;
  sent_at = at sent;
  ai_generated = false;
  body = record { role = 0; parts = (record { type = []; text = [] }) ∷ [] };
  sig = [];
}

abbrev pub thread : Thread
thread = record {
  id = 100;
  initiator_id = 1;
  recipient_id = 2;
  state = input_required;
  created_at = 0;
  updated_at = 0;
}

abbrev pub grant : Ref → GrantRow
grant id = record {
  id = id;
  thread_id = 100;
  person_id = 2;
  direction = outbound;
  granted_at = 0;
  revoked_at = none;
}

abbrev pub binding : RefreshGrant
binding = record { client_id = 5; person_id = 1; device_id = 11; client_type = 0; resource = 8 }

abbrev pub token : Ref → Option ℕ → RefreshRow
token hash consumed = record {
  token_hash = hash;
  binding = binding;
  created_at = 0;
  expires_at = 200000000;
  consumed_at = consumed;
}

-- Alice has asked message 50, and Bob's reply 60 waits for his review.
abbrev pub relay : Db Envelope
relay = record {
  persons = alice ∷ bob ∷ [];
  devices = device 11 1 ∷ device 12 2 ∷ [];
  invites =
      (record {
        token_hash = 77;
        email = 22;
        created_at = 0;
        expires_at = 200000000;
        used_at = none;
      })
      ∷ [];
  threads = thread ∷ [];
  messages =
      (record {
        id = 50;
        thread_id = 100;
        sender_id = 1;
        envelope = envelope 50 1 2 0;
        sent_at = 100000000;
        received_at = 100000000;
        via_grant = false;
      })
      ∷ [];
  tombstones = (record { id = 50; sent_at = 100000000 }) ∷ [];
  deliveries =
      (record { message_id = 50; device_id = 12; delivered_at = none; acked_at = none }) ∷ [];
  drafts =
      (record {
        id = 60;
        thread_id = 100;
        author_id = 2;
        envelope = envelope 60 2 1 0;
        state = pending_review;
        via_grant = false;
        created_at = 100000000;
        decided_at = none;
      })
      ∷ [];
  grants = grant 90 ∷ record (grant 91) { direction = inbound } ∷ [];
  clients =
      (record { client_id = 5; redirect_uris = 6 ∷ []; client_name = 0; created_at = 0 }) ∷ [];
  codes =
      (record {
        code_hash = 33;
        binding = record {
          client_id = 5;
          redirect_uri = 6;
          code_challenge = 7;
          resource = 8;
          person_id = 1;
          device_id = 11;
          client_type = 0;
        };
        created_at = 0;
        expires_at = 200000000;
        consumed_at = none;
      })
      ∷ [];
  refresh_tokens = token 45 (some 100000000) ∷ token 44 none ∷ [];
}
