-- ===== src/Worker/Rules/Urls.antt =====
-- apps/jit-worker/src/jobs.rs: capabilities for live HTTP requests, and the URLs that they cover.
use jitforge.Base.{
  ℕ, ◌*◌, String, len, Char, code, Bool, true, false, not, ◌&&◌, ◌||◌, Option, none, some, List, [],
  ◌∷◌, leb, ltb, ◌==◌, str_eq, any, all, find?, length, Attempt, done, ◌>>=◌, ◌>>◌, check, ok_or,
  map_err,
}
use jitforge.Text.{is_empty_text, trim, is_ascii_lowercase, is_ascii_digit, all_chars}
use jitforge.Text.Format.{◌+++◌, contains_code, starts_with}
use jitforge.Text.Bytes.{sort_texts, dedup_texts}
use jitforge.Text.Case.{is_ascii_uppercase, to_lower, eq_ignore_case, trim_end_dots}
use jitforge.Protocol.{HttpCapability, get_method, object, end}
use jitforge.Storage.Events.{Codec}
use jitforge.Artifact.{HttpFixture}
use jitforge.Worker.Types.{JobError, ApprovedHttpCapability, HttpProbeRecord}
use jitforge.Worker.Outside.{Texts, Url, RequestHttpCapabilityArgs}
use jitforge.Worker.Errors.{invalid_action}
use jitforge.Worker.Json.{hashed_fields}

-- A letter, a digit, `.`, `_`, `-`, `[` or `]`.
unfoldable pub is_query_key_char : Char → Bool
is_query_key_char c =
    is_ascii_lowercase c
    || is_ascii_uppercase c
    || is_ascii_digit c
    || code c == 46
    || code c == 95
    || code c == 45
    || code c == 91
    || code c == 93

unfoldable pub is_bad_query_key : String → Bool
unfolding is_query_key_char
is_bad_query_key key =
    is_empty_text key || ltb 128 (len key) || not (all_chars is_query_key_char key)

unfoldable pub sorted_keys : List String → List String
sorted_keys keys = dedup_texts (sort_texts keys)

unfoldable pub normalize_http_capability :
    Texts → RequestHttpCapabilityArgs → Attempt JobError HttpCapability
unfolding is_bad_query_key sorted_keys invalid_action to_lower trim_end_dots contains_code
normalize_http_capability texts args = do
  domain ←
      ok_or (texts.parse_domain (trim args.host))
        (invalid_action "HTTP capability host must be a DNS hostname")
  let host : String = to_lower (trim_end_dots domain)
  check (not (is_empty_text host || str_eq host "localhost" || ltb 253 (len host)))
      (invalid_action "HTTP capability host is invalid")
  let prefix : String = trim args.path_prefix
  check
      (starts_with prefix "/"
        && not (contains_code 63 prefix || contains_code 35 prefix)
        && leb (len prefix) 512)
      (invalid_action
        "HTTP capability path_prefix must be an absolute path without query or fragment")
  let keys : List String = sorted_keys args.query_keys
  check (not (ltb 32 (length keys) || any is_bad_query_key keys))
      (invalid_action "HTTP capability query keys are invalid")
  let purpose : String = trim args.purpose
  check (not (is_empty_text purpose || ltb 2048 (len purpose)))
      (invalid_action "HTTP capability purpose must contain 1-2048 bytes")
  done (record {
    scheme = "https";
    host = host;
    port = 443;
    method = get_method;
    path_prefix = prefix;
    query_keys = keys;
    purpose = purpose;
  })

-- The purpose is not part of the hash.
unfoldable pub http_capability_hash : Codec → HttpCapability → String
http_capability_hash codec c =
    "sha256:" +++ codec.sha256_hex (codec.encode (object (hashed_fields c end)))

abbrev pub is_some_number : ℕ → Option ℕ → Bool
is_some_number n none = false
is_some_number n (some m) = m == n

abbrev pub has_text : Option String → Bool
has_text none = false
has_text (some s) = true

-- Credential-free HTTPS on port 443, with no fragment.
unfoldable pub is_plain_https : Url → Bool
is_plain_https url =
    str_eq url.scheme "https"
    && is_some_number 443 url.port_or_known_default
    && is_empty_text url.username
    && not (has_text url.password)
    && not (has_text url.fragment)

abbrev pub text_or_empty : Option String → String
text_or_empty none = ""
text_or_empty (some s) = s

unfoldable pub member : String → List String → Bool
member s [] = false
member s (t ∷ ts) = str_eq s t || member s ts

-- The host, the path and the query keys of the URL are those of the capability.
unfoldable pub covers : Url → HttpCapability → Bool
unfolding eq_ignore_case trim_end_dots member
covers url c =
    eq_ignore_case c.host (trim_end_dots (text_or_empty url.host_str))
    && starts_with url.path c.path_prefix
    && all (λ key. member key c.query_keys) url.query_keys

unfoldable pub approved_capability_for_url :
    Texts → List ApprovedHttpCapability → String → Attempt JobError ApprovedHttpCapability
unfolding is_plain_https covers invalid_action
approved_capability_for_url texts approved raw_url = do
  url ← map_err (λ e. invalid_action ("invalid probe URL: " +++ e)) (texts.parse_url raw_url)
  check (is_plain_https url) (invalid_action "probe URL must be credential-free HTTPS on port 443")
  ok_or (find? (λ a. covers url a.capability) approved)
      (invalid_action "probe URL is not covered by an approved HTTP capability")

unfoldable pub fixture_exceeds : HttpFixture → Bool
fixture_exceeds f =
    ltb 4096 (len f.request_url)
    || ltb 4096 (len f.response_url)
    || not (leb 100 f.status && leb f.status 599)
    || is_empty_text f.content_type
    || ltb 256 (len f.content_type)
    || ltb (64 * 1024) (len f.body)

-- The requests are unique, and both URLs of each fixture are covered.
unfoldable pub check_fixtures :
    Texts → List ApprovedHttpCapability → List String → List HttpFixture → Attempt JobError Unit
unfolding approved_capability_for_url member invalid_action
check_fixtures texts approved seen [] = done tt
check_fixtures texts approved seen (f ∷ fs) = do
  check (not (member f.request_url seen))
      (invalid_action "HTTP test fixture requests must be unique")
  request ← approved_capability_for_url texts approved f.request_url
  response ← approved_capability_for_url texts approved f.response_url
  check_fixtures texts approved (f.request_url ∷ seen) fs

unfoldable pub validate_http_fixtures :
    Texts → List HttpFixture → List ApprovedHttpCapability → Attempt JobError Unit
unfolding check_fixtures fixture_exceeds invalid_action
validate_http_fixtures texts fixtures approved = do
  check
      (not (
        ltb 8 (length fixtures)
        || ltb (96 * 1024) (texts.fixture_bytes fixtures)
        || any fixture_exceeds fixtures))
      (invalid_action "HTTP test fixtures exceed protocol limits")
  check_fixtures texts approved [] fixtures

unfoldable pub probe_records_to_fixtures : List HttpProbeRecord → List HttpFixture
probe_records_to_fixtures [] = []
probe_records_to_fixtures (r ∷ rs) =
    record {
      request_url = r.request_url;
      response_url = r.final_url;
      status = r.status;
      content_type = r.content_type;
      body = r.body;
    }
    ∷ probe_records_to_fixtures rs
