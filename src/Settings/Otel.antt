-- ===== src/Settings/Otel.antt =====
-- agent/crates/tinytop-store/src/otel_settings.rs: the settings of the OpenTelemetry export.
use tinytop.Prelude.{
  ℕ, String, Bool, true, false, not, ◌&&◌, ◌||◌, Option, none, some, List, [], ◌∷◌, ltb, leb, ◌==◌,
  if◌then◌else◌, Result, ok, err, validation, not_one_of, malformed, reserved, too_many, duplicate,
  refuse_if, ◌>>◌, all_of, any_of, length,
}
use tinytop.Prelude.Int.{ℤ, pos}
use tinytop.Prelude.Text.{
  Text, codes, contains, is_lowercase, is_uppercase, is_digit, is_control, is_whitespace,
  strip_prefix, before_first, before_last?, split, text_eq,
}
use tinytop.Retention.Defs.{validate_range}

pub record OtelSettings : Type 0 where
  pub enabled : Bool
  pub endpoint : Text
  pub protocol : Text
  pub interval_sec : ℤ
  pub headers_env_var : Text
  pub service_name : Text
  pub disabled_metrics : List Text
  pub resource_attributes : List (Text × Text)

abbrev pub default_otel : OtelSettings
default_otel = record {
  enabled = false;
  endpoint = codes "http://127.0.0.1:4318/v1/metrics";
  protocol = codes "http/protobuf";
  interval_sec = pos 60;
  headers_env_var = codes "TINYTOP_OTEL_HEADERS";
  service_name = codes "tinytop";
  disabled_metrics = [];
  resource_attributes = [];
}

unfoldable pub validate_one_of : String → Text → List Text → Result (Unit {0})
validate_one_of field value allowed = refuse_if (not (contains allowed value)) (not_one_of field)

-- the part of a URL after the scheme
unfoldable pub after_scheme : Text → Option Text
after_scheme endpoint = elim (strip_prefix (codes "http://") endpoint) [
  | some rest ↦ some rest
  | none ↦ strip_prefix (codes "https://") endpoint
]

unfoldable pub is_nil : Text → Bool
is_nil [] = true
is_nil (c ∷ s) = false

-- the host of an authority: inside brackets, or before the last colon
unfoldable pub valid_host : Text → Bool
unfolding is_nil
valid_host authority = elim (strip_prefix (codes "[") authority) [
  | some ipv6 ↦ any_of (λ c. c == b']') ipv6 && not (is_nil (before_first (λ c. c == b']') ipv6))
  | none ↦ elim (before_last? (λ c. c == b':') authority) [
    | some host ↦ not (is_nil host)
    | none ↦ not (is_nil authority)
  ]
]

unfoldable pub valid_authority : Text → Bool
unfolding valid_host
valid_authority value =
    let authority = before_first (λ c. c == b'/' || c == b'?' || c == b'#') value in
    not (is_nil authority) && not (any_of (λ c. c == b'@') authority) && valid_host authority

unfoldable pub valid_http_endpoint : Text → Bool
unfolding after_scheme valid_authority
valid_http_endpoint endpoint =
    not (any_of (λ c. is_whitespace c || is_control c) endpoint)
    && elim (after_scheme endpoint) [ none ↦ false | some value ↦ valid_authority value ]

unfoldable pub valid_headers_env_var : Text → Bool
valid_headers_env_var [] = false
valid_headers_env_var (first ∷ rest) =
    is_uppercase first && all_of (λ c. is_uppercase c || is_digit c || c == b'_') rest

-- ^[a-z][a-z0-9._]*$ of at most so many characters
unfoldable pub valid_dotted_name : ℕ → Text → Bool
valid_dotted_name most [] = false
valid_dotted_name most (first ∷ rest) =
    is_lowercase first
    && leb (length (first ∷ rest)) most
    && all_of (λ c. is_lowercase c || is_digit c || c == b'.' || c == b'_') rest

unfoldable pub valid_resource_attribute_key : Text → Bool
unfolding valid_dotted_name
valid_resource_attribute_key key = valid_dotted_name 64 key

unfoldable pub valid_disabled_metric_name : Text → Bool
unfolding valid_dotted_name
valid_disabled_metric_name name = valid_dotted_name 128 name

-- `SECRET_SHAPED_KEY_WORDS`
abbrev pub secret_shaped_key_words : List Text
secret_shaped_key_words =
    codes "secret"
    ∷ codes "token"
    ∷ codes "password"
    ∷ codes "passwd"
    ∷ codes "apikey"
    ∷ codes "api_key"
    ∷ codes "authorization"
    ∷ codes "bearer"
    ∷ codes "credential"
    ∷ []

unfoldable pub secret_shaped_resource_attribute_key : Text → Bool
secret_shaped_resource_attribute_key key =
    any_of
      (λ segment.
        contains secret_shaped_key_words segment
        || any_of (contains secret_shaped_key_words) (split (λ c. c == b'_') segment))
      (split (λ c. c == b'.') key)

-- the loop over the disabled metrics; `seen` holds those before
unfoldable pub validate_metrics : List Text → List Text → Result (Unit {0})
validate_metrics seen [] = ok tt
validate_metrics seen (name ∷ names) =
    let rest = validate_metrics (name ∷ seen) names in
    if not (valid_disabled_metric_name name)
    then err (validation (malformed "otel.disabledMetrics"))
    else if contains seen name
    then err (validation (duplicate "otel.disabledMetrics"))
    else rest

-- an attribute that is refused for its form
unfoldable pub malformed_attribute : Text × Text → Bool
malformed_attribute (key, value) =
    not (valid_resource_attribute_key key) || ltb 256 (length value) || any_of is_control value

unfoldable pub malformed_service_name : Text → Bool
malformed_service_name name =
    not (leb 1 (length name) && leb (length name) 128) || any_of is_control name

module _ (self : OtelSettings) where
  unfoldable pub validate_otel_export : Result (Unit {0})
  unfolding validate_one_of validate_range
  validate_otel_export = do
    validate_one_of "otel.protocol" self.protocol (codes "http/protobuf" ∷ [])
    refuse_if (not (valid_http_endpoint self.endpoint)) (malformed "otel.endpoint")
    validate_range "otel.intervalSec" self.interval_sec (pos 5) (pos 3600)
    refuse_if (not (valid_headers_env_var self.headers_env_var)) (malformed "otel.headersEnvVar")
    refuse_if
        (text_eq self.headers_env_var (codes "OTEL_EXPORTER_OTLP_HEADERS")
          || text_eq self.headers_env_var (codes "OTEL_EXPORTER_OTLP_METRICS_HEADERS"))
        (reserved "otel.headersEnvVar")

  unfoldable pub validate_otel_names : Result (Unit {0})
  validate_otel_names = do
    refuse_if (malformed_service_name self.service_name) (malformed "otel.serviceName")
    refuse_if (ltb 64 (length self.disabled_metrics)) (too_many "otel.disabledMetrics")
    validate_metrics [] self.disabled_metrics
    refuse_if
        (ltb 32 (length self.resource_attributes)
          || any_of malformed_attribute self.resource_attributes)
        (malformed "otel.resourceAttributes")
    refuse_if (any_of (λ a. secret_shaped_resource_attribute_key a.0) self.resource_attributes)
        (reserved "otel.resourceAttributes")

  -- `OtelSettings::validate`, its checks in two groups
  unfoldable pub validate_otel : Result (Unit {0})
  unfolding validate_otel_export validate_otel_names
  validate_otel = do validate_otel_export; validate_otel_names
