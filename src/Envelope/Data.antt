-- ===== src/Envelope/Data.antt =====
-- The data of internal/envelope/envelope.go, and what the envelope code takes from outside the
-- repository.
use askrelay.Base.{ℕ, Ref, Time, Text, Bytes, Bool, Option, List}
use askrelay.Gate.{ThreadState}

pub record Party : Type 0 where
  pub person : Ref
  pub device : Ref
  pub agent : Ref

pub record Part : Type 0 where
  pub type : Text
  pub text : Text

pub record Message : Type 0 where
  pub role : Ref
  pub parts : List Part

-- `sig` is empty where the Go slice is nil.
pub record Envelope : Type 0 where
  pub v : ℕ
  pub id : Ref
  pub thread : Ref
  pub from : Party
  pub to : Ref
  pub state : ThreadState
  pub sent_at : Time
  pub ai_generated : Bool
  pub body : Message
  pub sig : Bytes

-- The verdicts of the envelope package; `fault` is any other error, such as a serialization fault.
pub data EnvelopeError : Type 0 where
  too_large too_many_parts bad_version bad_signature bad_key fault : EnvelopeError

-- A float64, by the shortest decimal that reads back as it, which is what
-- `strconv.FormatFloat(f, 'e', -1, 64)` prints: the value of `finite neg ds up e` is 0 if `ds` is
-- empty, and else d.ddd times ten to the power e, or to the power -e if `up` is false.
pub data Float64 : Type 0 where
  finite : Bool → List ℕ → Bool → ℕ → Float64
  infinite not_a_number : Float64

-- A decoded JSON document, numbers as their text (`json.Number`).
mutual
  pub data Json : Type 0 where
    null : Json
    bool : Bool → Json
    string : Text → Json
    number : Text → Json
    array : Items → Json
    object : Fields → Json

  pub data Items : Type 0 where
    nil : Items
    cons : Json → Items → Items

  pub data Fields : Type 0 where
    end : Fields
    field : Text → Json → Fields → Fields

-- Code outside the repository: the JSON encoder and decoder of Go, over byte strings `B`, the
-- reading of a number, the UUID parser, SHA-256, and Ed25519.
pub record External (B : Type 0) : Type 0 where
  -- `json.Marshal`
  pub marshal : Envelope → Option B
  -- `dec.Decode` into an Envelope, with nothing after the value
  pub unmarshal : B → Option Envelope
  -- `dec.Decode` into `any` after `UseNumber`, with nothing after the value
  pub parse_json : B → Option Json
  -- `strconv.ParseFloat(s, 64)`
  pub parse_float : Text → Option Float64
  -- `uuid.Parse` returns no error
  pub is_uuid : Ref → Bool
  -- `hashToken`'s SHA-256, in hex
  pub sha256 : Ref → Ref
  -- `ed25519.Sign` and `ed25519.Verify`, over byte strings
  pub sign : Bytes → Bytes → Bytes
  pub verify : Bytes → Bytes → Bytes → Bool
