-- ===== src/Redact/Rules.antt =====
-- internal/redact/redact.go: the rules, applied one after the other.
use askrelay.Base.{
  ℕ, suc, ◌-◌, Bytes, codes, Bool, true, false, Option, none, some, List, [], ◌∷◌, ◌++◌, take, drop,
  ltb, if◌then◌else◌,
}

-- `Kind`, in the order of the rules.
pub data RedactKind : Type 0 where
  gcp_sa_key private_key json_web_token aws_key github_token slack_token env_secret : RedactKind

abbrev pub kind_text : RedactKind → Bytes
kind_text gcp_sa_key = codes "gcp-service-account"
kind_text private_key = codes "private-key"
kind_text json_web_token = codes "jwt"
kind_text aws_key = codes "aws-access-key"
kind_text github_token = codes "github-token"
kind_text slack_token = codes "slack-token"
kind_text env_secret = codes "env-secret"

-- `rules`, by the kind of each.
abbrev pub rules : List RedactKind
rules =
    gcp_sa_key ∷ private_key ∷ json_web_token ∷ aws_key ∷ github_token ∷ slack_token ∷ env_secret
    ∷ []

-- The regular expressions: for a rule the span of its group in each match, in order (`none` where
-- the group took no part), and whether a text is exactly a marker.
pub record Patterns : Type 0 where
  pub matches : RedactKind → Bytes → List (Option (ℕ × ℕ))
  pub is_marker : Bytes → Bool

-- `s[i:j]`
abbrev pub slice : ℕ → ℕ → Bytes → Bytes
slice i j s = take (j - i) (drop i s)

-- The bytes of ⟦ and of ⟧ in UTF-8.
abbrev pub marker_open : Bytes
marker_open = 226 ∷ 159 ∷ 166 ∷ []

abbrev pub marker_close : Bytes
marker_close = 226 ∷ 159 ∷ 167 ∷ []

-- `fmt.Sprintf(markerFmt, ru.kind)`
unfoldable pub marker_of : RedactKind → Bytes
marker_of k = marker_open ++ codes "redacted:" ++ kind_text k ++ marker_close

module _ (pat : Patterns) where
  -- The loop of `apply`, from the end of the last replacement.
  unfoldable pub replace_spans : Bytes → Bytes → ℕ → List (Option (ℕ × ℕ)) → Bytes × ℕ
  replace_spans marker s last [] = (drop last s, 0)
  replace_spans marker s last (none ∷ locs) = replace_spans marker s last locs
  replace_spans marker s last (some (gs, ge) ∷ locs) =
      let skipped = replace_spans marker s last locs in
      let (rest, n) = replace_spans marker s ge locs in
      if pat.is_marker (slice gs ge s)
      then skipped
      else (slice last gs s ++ (marker ++ rest), suc n)

  abbrev pub apply_locs : RedactKind → Bytes → List (Option (ℕ × ℕ)) → Bytes × ℕ
  apply_locs k s [] = (s, 0)
  apply_locs k s (loc ∷ locs) = replace_spans (marker_of k) s 0 (loc ∷ locs)

  -- `apply`
  unfoldable pub apply : RedactKind → Bytes → Bytes × ℕ
  unfolding replace_spans marker_of
  apply k s = apply_locs k s (pat.matches k s)

  -- The loop of `Redact`: the text, and the counts that are not 0, each rule having its own kind.
  unfoldable pub redact_by : List RedactKind → Bytes → Bytes × List (RedactKind × ℕ)
  unfolding apply
  redact_by [] s = (s, [])
  redact_by (k ∷ ks) s =
      let (t, n) = apply k s in
      let (text, counts) = redact_by ks t in (text, if ltb 0 n then (k, n) ∷ counts else counts)

  -- `Redact`
  unfoldable pub redact : Bytes → Bytes × List (RedactKind × ℕ)
  unfolding redact_by
  redact s = redact_by rules s

-- `Redacted`
abbrev pub is_redacted : Bytes × List (RedactKind × ℕ) → Bool
is_redacted (text, []) = false
is_redacted (text, c ∷ counts) = true
