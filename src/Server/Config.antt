-- ===== src/Server/Config.antt =====
-- The check of the settings: `Validate` of internal/relay/config.go.
use askrelay.Base.{
  ℕ, suc, ◌≤◌, Ref, no_id, Duration, seconds, codes, same_text, Bool, true, false, not, ◌&&◌, ◌||◌,
  Option, none, some, ◌==◌, ltb, ◌≡◌, refl, if◌then◌else◌, arith,
}
use askrelay.Oauth.{Url, Web, is_blank}

-- A `time.Duration`, which may be negative here.
pub data ℤ : Type 0 where
  pos : ℕ → ℤ
  negsuc : ℕ → ℤ

-- `d < n` for a positive `n`.
abbrev pub is_below : ℤ → Duration → Bool
is_below (pos m) n = ltb m n
is_below (negsuc m) n = true

pub record Config : Type 0 where
  pub listen_addr : Ref
  pub db_path : Ref
  pub base_url : Ref
  pub signing_key_path : Ref
  pub invite_ttl : ℤ
  pub ack_grace : ℤ
  pub hard_ttl : ℤ
  pub max_age : ℤ
  pub max_skew : ℤ

-- `time.Hour`
abbrev pub hour : Duration
hour = seconds 3600

pub data ConfigError : Type 0 where
  no_listen_address no_db_path bad_base_url : ConfigError
  short_invite_ttl short_ack_grace short_hard_ttl short_max_age bad_max_skew : ConfigError

-- `(u.Scheme == "http" || u.Scheme == "https") && u.Host != ""`, of a URL that parses.
abbrev pub is_base_url : Option Url → Bool
is_base_url none = false
is_base_url (some u) =
    (same_text u.scheme (codes "http") || same_text u.scheme (codes "https"))
    && not (is_blank u.host)

-- `Validate`: `none` where the settings are good.
unfoldable pub validate : Web → Config → Option ConfigError
validate web c =
    if c.listen_addr == no_id
    then some no_listen_address
    else if c.db_path == no_id
    then some no_db_path
    else if not (is_base_url (web.parse_url c.base_url))
    then some bad_base_url
    else if is_below c.invite_ttl hour
    then some short_invite_ttl
    else if is_below c.ack_grace hour
    then some short_ack_grace
    else if is_below c.hard_ttl hour
    then some short_hard_ttl
    else if is_below c.max_age hour
    then some short_max_age
    else if is_below c.max_skew 1 || not (is_below c.max_skew (suc hour))
    then some bad_max_skew
    else none

-- A duration that lies within these bounds.
abbrev pub Between : ℕ → ℕ → ℤ → Type 0
Between low high d = (n : ℕ) × (d ≡ pos n) × (low ≤ n) × (n ≤ high)

at_least : (d : ℤ) (n : ℕ) → is_below d n ≡ false → (m : ℕ) × (d ≡ pos m) × (n ≤ m)
at_least (pos m) n h = (m, refl, ground arith)
at_least (negsuc m) n h = absurd (ground arith)

-- Settings that pass have a grace, a time to live, an invite's life and a freshness window of an
-- hour at least, and a skew of a nanosecond to an hour.
pub validate-Between :
    (web : Web) (c : Config)
    → validate web c ≡ none
    → ((n : ℕ) × (c.invite_ttl ≡ pos n) × (hour ≤ n))
      × ((n : ℕ) × (c.ack_grace ≡ pos n) × (hour ≤ n))
      × ((n : ℕ) × (c.hard_ttl ≡ pos n) × (hour ≤ n))
      × ((n : ℕ) × (c.max_age ≡ pos n) × (hour ≤ n))
      × Between 1 hour c.max_skew
unfolding validate
validate-Between web c h =
    let (skew, q, low) = at_least c.max_skew 1 (ground arith) in
    (
      at_least c.invite_ttl hour (ground arith),
      at_least c.ack_grace hour (ground arith),
      at_least c.hard_ttl hour (ground arith),
      at_least c.max_age hour (ground arith),
      (skew, q, low, ground arith),
    )
