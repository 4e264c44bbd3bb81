-- ===== src/Web/Requests.antt =====
-- The requests of apps/jit-worker/src/web_access.rs to public hosts: `validate_public_url`,
-- `capability_allows`, `read_bounded` and the redirects of `public_get`. `Net` holds the proxy that is set,
-- if one is, and what the resolver, the HTTP client and the url crate answer. The model notes each request.
pub mod Safety
use Prim.Native.Nat.{zero, suc}
use jitforge.Base.{
  ℕ, ◌+◌, String, len, Bool, true, false, not, ◌&&◌, ◌||◌, Option, none, some, List, [], ◌∷◌, ◌++◌,
  length, any, all, leb, ltb, ◌==◌, str_eq, is_some, if◌then◌else◌, Attempt, done, failed, ◌>>=◌,
  ◌>>◌, check, ok_or, map_err,
}
use jitforge.Text.{trim}
use jitforge.Text.Format.{starts_with}
use jitforge.Text.Case.{eq_ignore_case, trim_end_dots}
use jitforge.Protocol.{HttpCapability}
use jitforge.Worker.Outside.{Url, ProbedResponse}
use jitforge.Worker.Rules.Urls.{is_plain_https, is_some_number, text_or_empty, member}
use jitforge.Web.Addresses.{IpAddr, v4, v6, is_public_ip}

-- The errors of other crates stand by their texts.
pub data WebAccessError : Type 0 where
  invalid_config invalid_request unsafe_url upstream http url_error io : String → WebAccessError
  response_too_large redirect_limit : WebAccessError

pub record Response : Type 0 where
  pub status : ℕ
  pub location : Option String
  pub content_type : Option String
  pub content_length : Option ℕ
  pub chunks : List (Attempt String (List ℕ))  -- in their order; an error ends them

-- What a request is for: its URL, the address that its client is pinned to, and its client's proxy. With
-- a proxy the connection goes to the proxy, which looks the host up itself.
pub record Request : Type 0 where
  pub url : Url
  pub pinned : IpAddr
  pub proxy : Option String

-- `public_proxy`, `lookup_host`, sending a request, `Url::parse`, `Url::join` and `str::parse::<IpAddr>`.
pub record Net : Type 0 where
  pub public_proxy : Option String
  pub lookup_host : String → ℕ → ℕ → Attempt String (List IpAddr)
  pub send : Request → ℕ → Attempt String Response
  pub parse : String → Attempt String Url
  pub join : Url → String → Attempt String String
  pub is_ip : String → Bool
  pub first_part : String → String  -- what `split(';')` has first

abbrev pub max_redirects : ℕ
max_redirects = 3

unfoldable pub validate_public_url : Net → String → Attempt WebAccessError Url
unfolding is_plain_https eq_ignore_case
validate_public_url net raw = do
  check (leb (len raw) 4096) (unsafe_url "URL is too long")
  url ← map_err (λ e. url_error e) (net.parse raw)
  check (is_plain_https url) (unsafe_url "only credential-free HTTPS URLs on port 443 are allowed")
  host ← ok_or url.host_str (unsafe_url "URL has no host")
  check (not (eq_ignore_case host "localhost" || net.is_ip host))
      (unsafe_url "IP literals and localhost are not allowed")
  done url

abbrev pub host_is : String → Option String → Bool
host_is host none = false
host_is host (some h) = eq_ignore_case host (trim_end_dots h)

unfoldable pub capability_allows : HttpCapability → Url → Bool
unfolding eq_ignore_case trim_end_dots member
capability_allows c url =
    str_eq url.scheme c.scheme
    && host_is c.host url.host_str
    && is_some_number c.port url.port_or_known_default
    && starts_with url.path c.path_prefix
    && all (λ key. member key c.query_keys) url.query_keys

abbrev pub allowed : Option HttpCapability → Url → Bool
allowed none url = true
allowed (some c) url = capability_allows c url

unfoldable pub read_chunks :
    ℕ → List ℕ → List (Attempt String (List ℕ)) → Attempt WebAccessError (List ℕ)
read_chunks limit body [] = done body
read_chunks limit body (failed e ∷ chunks) = failed (http e)
read_chunks limit body (done chunk ∷ chunks) =
    let rest = read_chunks limit (body ++ chunk) chunks in
    if ltb limit (length body + length chunk) then failed response_too_large else rest

abbrev pub exceeds : ℕ → Option ℕ → Bool
exceeds limit none = false
exceeds limit (some n) = ltb limit n

unfoldable pub read_bounded : Response → ℕ → Attempt WebAccessError (List ℕ)
unfolding read_chunks
read_bounded response limit = do
  check (not (exceeds limit response.content_length)) response_too_large
  read_chunks limit [] response.chunks

abbrev pub port_or_443 : Option ℕ → ℕ
port_or_443 none = 443
port_or_443 (some n) = n

unfoldable pub first_or_fail : List IpAddr → Attempt WebAccessError IpAddr
unfolding is_public_ip any
first_or_fail [] = failed (unsafe_url "hostname resolved to a non-public address")
first_or_fail (a ∷ as') =
    if any (λ b. not (is_public_ip b)) (a ∷ as')
    then failed (unsafe_url "hostname resolved to a non-public address")
    else done a

-- The address that the client is pinned to, if the URL may be asked for at all.
unfoldable pub pin_address : Net → Option HttpCapability → Url → ℕ → Attempt WebAccessError IpAddr
unfolding first_or_fail
pin_address net capability url n = do
  check (allowed capability url) (unsafe_url "URL is outside the approved HTTP capability")
  host ← ok_or url.host_str (unsafe_url "URL has no host")
  addresses ← map_err (λ e. io e) (net.lookup_host host (port_or_443 url.port_or_known_default) n)
  first_or_fail addresses

unfoldable pub answer : Net → ℕ → Url → Response → Attempt WebAccessError ProbedResponse
unfolding read_bounded
answer net limit url response = read_bounded response limit >>= λ body. done (record {
  url = url.text;
  status = response.status;
  content_type = elim response.content_type [
    | none ↦ "application/octet-stream"
    | some s ↦ trim (net.first_part s)
  ];
  body = body;
})

-- The URL that a redirect leads to.
unfoldable pub redirected : Net → Url → Response → Attempt WebAccessError Url
unfolding validate_public_url
redirected net url response = do
  location ← ok_or response.location (unsafe_url "redirect omitted Location")
  joined ← map_err (λ e. url_error e) (net.join url location)
  validate_public_url net joined

abbrev pub is_redirection : ℕ → Bool
is_redirection status = leb 300 status && ltb status 400

-- What has been sent so far, and the answer.
abbrev pub Sent : Type 0
Sent = List Request

-- The client's builder, with its proxy if one is set.
unfoldable pub request_to : Net → Url → IpAddr → Request
request_to net url a = record { url = url; pinned = a; proxy = net.public_proxy }

-- The next step, or the end.
pub data Step : Type 0 where
  ends : Attempt WebAccessError ProbedResponse → Step
  goes_to : Url → Step

abbrev pub step_to : Attempt WebAccessError Url → Step
step_to (done url) = goes_to url
step_to (failed e) = ends (failed e)

-- `last` says that no redirect is left.
unfoldable pub next_step : Net → ℕ → Bool → Url → Attempt String Response → Step
unfolding answer redirected
next_step net limit last url (failed e) = ends (failed (http e))
next_step net limit last url (done response) =
    if is_redirection response.status
    then if last then ends (failed redirect_limit) else step_to (redirected net url response)
    else ends (answer net limit url response)

abbrev pub Outcome : Type 0
Outcome = Attempt WebAccessError ProbedResponse × Sent

abbrev pub continue_with : Sent → (Url → Sent → Outcome) → Step → Outcome
continue_with sent k (ends r) = (r, sent)
continue_with sent k (goes_to url) = k url sent

abbrev pub send_to :
    Net → ℕ → Bool → Url → Sent → (Url → Sent → Outcome) → Attempt WebAccessError IpAddr → Outcome
send_to net limit last url sent k (failed e) = (failed e, sent)
send_to net limit last url sent k (done a) =
    continue_with (sent ++ request_to net url a ∷ []) k
      (next_step net limit last url (net.send (request_to net url a) (length sent)))

-- One round of the loop; `k` is the next one.
unfoldable pub visit :
    Net → Option HttpCapability → ℕ → Bool → Url → Sent → (Url → Sent → Outcome) → Outcome
unfolding pin_address next_step request_to
visit net capability limit last url sent k =
    send_to net limit last url sent k (pin_address net capability url (length sent))

-- The requests from a URL on, with at most `left` redirects.
unfoldable pub follow : Net → Option HttpCapability → ℕ → ℕ → Url → Sent → Outcome
unfolding visit
follow net capability limit zero url sent =
    visit net capability limit true url sent (λ u s. (failed redirect_limit, s))
follow net capability limit (suc left) url sent =
    visit net capability limit false url sent (λ u s. follow net capability limit left u s)

abbrev pub from_url : Net → ℕ → Option HttpCapability → Attempt WebAccessError Url → Outcome
from_url net limit capability (failed e) = (failed e, [])
from_url net limit capability (done url) = follow net capability limit max_redirects url []

unfoldable pub public_get : Net → String → ℕ → Option HttpCapability → Outcome
unfolding validate_public_url follow
public_get net raw_url limit capability =
    from_url net limit capability (validate_public_url net raw_url)
