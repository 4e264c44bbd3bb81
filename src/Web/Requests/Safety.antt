-- ===== src/Web/Requests/Safety.antt =====
-- Where the requests of `public_get` of apps/jit-worker/src/web_access.rs go.
use Prim.Native.Nat.{zero}
use jitforge.Base.{
  ℕ, ◌+◌, suc, ◌≤◌, ◌<◌, String, Bool, true, false, not, ◌||◌, Option, List, [], ◌∷◌, ◌++◌, length,
  any, In, inl, ok_or-done, some, len, leb, bind-done, check-done, done_injective, ◌≡◌, refl, subst,
  ap, arith, All, Attempt, done, failed, check, ok_or, map_err, if◌then◌else◌,
}
use jitforge.Protocol.{HttpCapability}
use jitforge.Worker.Outside.{Url, ProbedResponse}
use jitforge.Worker.Rules.Urls.{is_plain_https}
use jitforge.Text.Case.{eq_ignore_case}
use jitforge.Web.Addresses.{IpAddr, is_public_ip}
use jitforge.Web.Requests.{
  port_or_443, Net, Request, request_to, WebAccessError, Response, Sent, Outcome, Step, ends,
  goes_to, step_to, allowed, validate_public_url, first_or_fail, pin_address, redirected, next_step,
  continue_with, send_to, is_redirection, answer, redirect_limit, unsafe_url, url_error, visit,
  follow, from_url, public_get, max_redirects,
}

-- An answer of the resolver for the URL's host has the address, and public addresses alone.
abbrev pub Resolved : Net → Url → IpAddr → Type 0
Resolved net url a =
    (host : String) × (n : ℕ) × (addresses : List IpAddr) × (url.host_str ≡ some host)
    × (net.lookup_host host (port_or_443 url.port_or_known_default) n ≡ done addresses)
    × In a addresses
    × (any (λ b. not (is_public_ip b)) addresses ≡ false)

-- A request that may be sent.
pub record Safe (net : Net) (capability : Option HttpCapability) (request : Request) : Type 0 where
  pub plain : is_plain_https request.url ≡ true
  pub covered : allowed capability request.url ≡ true
  pub public : is_public_ip request.pinned ≡ true
  pub resolved : Resolved net request.url request.pinned
  pub proxied : request.proxy ≡ net.public_proxy

first_or_fail-public :
    (as' : List IpAddr) (a : IpAddr) → first_or_fail as' ≡ done a → is_public_ip a ≡ true
unfolding first_or_fail any
first_or_fail-public [] a e = cc
first_or_fail-public (b ∷ bs) a e = ground arith

first_or_fail-first :
    (as' : List IpAddr) (a : IpAddr)
    → first_or_fail as' ≡ done a
    → In a as' × (any (λ b. not (is_public_ip b)) as' ≡ false)
unfolding first_or_fail
first_or_fail-first [] a e = cc
first_or_fail-first (b ∷ bs) a e = go (any (λ c. not (is_public_ip c)) (b ∷ bs)) refl e
  where
    go :
        (x : Bool)
        → any (λ c. not (is_public_ip c)) (b ∷ bs) ≡ x
        → (if x then failed (unsafe_url "hostname resolved to a non-public address") else done b)
          ≡ done a
        → In a (b ∷ bs) × (any (λ c. not (is_public_ip c)) (b ∷ bs) ≡ false)
    go true q h = cc
    go false q h = (inl (done_injective b a h), q)

map_err-done :
    {E F A : Type 0} (f : E → F) (r : Attempt E A) (a : A) → map_err f r ≡ done a → r ≡ done a
map_err-done f (done b) a h = cc
map_err-done f (failed e) a h = cc

pin_address_lem :
    (net : Net) (capability : Option HttpCapability) (url : Url) (n : ℕ) (a : IpAddr)
    → pin_address net capability url n ≡ done a
    → (allowed capability url ≡ true) × (is_public_ip a ≡ true) × Resolved net url a
unfolding pin_address
pin_address_lem net capability url n a e =
    let (u, within, e1) = bind-done (check (allowed capability url) _) _ a e in
    let (host, named, e2) = bind-done (ok_or url.host_str _) _ a e1 in
    let (addresses, found, e3) = bind-done (map_err _ (net.lookup_host host _ n)) _ a e2 in
    (
      check-done _ _ within,
      first_or_fail-public addresses a e3,
      (
        host,
        n,
        addresses,
        ok_or-done url.host_str _ host named,
        map_err-done _ (net.lookup_host host _ n) addresses found,
        (first_or_fail-first addresses a e3).0,
        (first_or_fail-first addresses a e3).1,
      ),
    )

validate_public_url_lem :
    (net : Net) (raw : String) (url : Url)
    → validate_public_url net raw ≡ done url
    → is_plain_https url ≡ true
unfolding validate_public_url
validate_public_url_lem net raw url e =
    let (u, _, e1) =
      bind-done (check (leb (len raw) 4096) (unsafe_url "URL is too long")) _ url e in
    let (parsed, _, e2) = bind-done (map_err (λ e. url_error e) (net.parse raw)) _ url e1 in
    let (v, plain, e3) =
      bind-done
        (check (is_plain_https parsed)
          (unsafe_url "only credential-free HTTPS URLs on port 443 are allowed"))
        _ url e2 in
    let (host, _, e4) = bind-done (ok_or parsed.host_str (unsafe_url "URL has no host")) _ url e3 in
    let (w, _, e5) =
      bind-done
        (check (not (eq_ignore_case host "localhost" || net.is_ip host))
          (unsafe_url "IP literals and localhost are not allowed"))
        _ url e4 in
    subst (λ s. is_plain_https s ≡ true) (done_injective parsed url e5)
      (check-done (is_plain_https parsed) _ plain)

All-snoc : (P : Request → Type 0) (rs : Sent) (r : Request) → All P rs → P r → All P (rs ++ r ∷ [])
All-snoc P [] r h k = (k, tt)
All-snoc P (x ∷ xs) r (h, hs) k = (h, All-snoc P xs r hs k)

length-snoc : (rs : Sent) (r : Request) → length (rs ++ r ∷ []) ≡ suc (length rs)
length-snoc [] r = refl
length-snoc (x ∷ xs) r = ap suc (length-snoc xs r)

step_to_lem : (r : Attempt WebAccessError Url) (u : Url) → step_to r ≡ goes_to u → r ≡ done u
step_to_lem (done v) u h = cc
step_to_lem (failed e) u h = cc

redirected-plain :
    (net : Net) (url u : Url) (r : Response)
    → redirected net url r ≡ done u
    → is_plain_https u ≡ true
unfolding redirected
redirected-plain net url u r h =
    let (location, _, h1) =
      bind-done (ok_or r.location (unsafe_url "redirect omitted Location")) _ u h in
    let (joined, _, h2) = bind-done (map_err (λ e. url_error e) (net.join url location)) _ u h1 in
    validate_public_url_lem net joined u h2

-- The URL of the next step is one that the code accepts.
next_step-plain :
    (net : Net) (limit : ℕ) (last : Bool) (url u : Url) (r : Attempt String Response)
    → next_step net limit last url r ≡ goes_to u
    → is_plain_https u ≡ true
unfolding next_step
next_step-plain net limit last url u (failed e) h = cc
next_step-plain net limit last url u (done r) h =
    go (is_redirection r.status) last (answer net limit url r) h
  where
    go :
        (b l : Bool) (x : Attempt WebAccessError ProbedResponse)
        → (if b
            then if l then ends (failed redirect_limit) else step_to (redirected net url r)
            else ends x)
          ≡ goes_to u
        → is_plain_https u ≡ true
    go true true x h = cc
    go true false x h = redirected-plain net url u r (step_to_lem (redirected net url r) u h)
    go false l x h = cc

-- At most `n` requests were sent, each of them safe.
abbrev Within : Net → Option HttpCapability → ℕ → Sent → Type 0
Within net capability n sent = All (Safe net capability) sent × (length sent ≤ n)

module _ (net : Net) (capability : Option HttpCapability) (limit : ℕ) where
  visit-Within :
      (last : Bool) (url : Url) (sent : Sent) (k : Url → Sent → Outcome) (m n : ℕ)
      → m < n
      → is_plain_https url ≡ true
      → Within net capability m sent
      → ((u : Url) (s : Sent)
          → is_plain_https u ≡ true
          → Within net capability (suc m) s
          → Within net capability n (k u s).1)
      → Within net capability n (visit net capability limit last url sent k).1
  unfolding visit request_to
  visit-Within last url sent k m n lt plain (safe, few) next =
      go (pin_address net capability url (length sent)) refl
    where
      then_go :
          (a : IpAddr)
          → Within net capability (suc m) (sent ++ request_to net url a ∷ [])
          → (t : Step)
          → next_step net limit last url (net.send (request_to net url a) (length sent)) ≡ t
          → Within net capability n (continue_with (sent ++ request_to net url a ∷ []) k t).1
      then_go a (safe', few') (ends r) q = (safe', omega arith)
      then_go a w (goes_to u) q =
          next u (sent ++ request_to net url a ∷ [])
            (next_step-plain net limit last url u (net.send (request_to net url a) (length sent)) q)
            w

      go :
          (r : Attempt WebAccessError IpAddr)
          → pin_address net capability url (length sent) ≡ r
          → Within net capability n (send_to net limit last url sent k r).1
      go (failed e) q = (safe, omega arith)
      go (done a) q =
          let (covered, public, resolved) = pin_address_lem net capability url (length sent) a q in
          then_go a
            (
              All-snoc (Safe net capability) sent (request_to net url a) safe (record {
                plain = plain;
                covered = covered;
                public = public;
                resolved = resolved;
                proxied = refl;
              }),
              rw (length-snoc sent (request_to net url a)) (omega arith),
            )
            (next_step net limit last url (net.send (request_to net url a) (length sent))) refl

  follow-Within :
      (left : ℕ) (url : Url) (sent : Sent) (m n : ℕ)
      → m + suc left ≤ n
      → is_plain_https url ≡ true
      → Within net capability m sent
      → Within net capability n (follow net capability limit left url sent).1
  unfolding follow
  follow-Within zero url sent m n le plain h =
      visit-Within true url sent (λ u s. (failed redirect_limit, s)) m n (omega arith) plain h
        (λ u s p (safe, few). (safe, omega arith))
  follow-Within (suc left) url sent m n le plain h =
      visit-Within false url sent (λ u s. follow net capability limit left u s) m n (omega arith)
        plain h (λ u s p w. follow-Within left u s (suc m) n (omega arith) p w)

-- `public_get` sends at most 4 requests, however the servers redirect it. Each has a URL that is credential-free
-- HTTPS on port 443 and that the capability, if one is given, allows. Its client is pinned to an address that
-- the resolver gave for the host of the URL, among public addresses alone, and has the proxy that is set, or
-- none if none is set. With no proxy the request goes to that address; with one it goes to the proxy, and
-- nothing is said of the address to which the proxy connects.
pub public_get-Safe :
    (net : Net) (raw_url : String) (limit : ℕ) (capability : Option HttpCapability)
    → All (Safe net capability) (public_get net raw_url limit capability).1
      × (length (public_get net raw_url limit capability).1 ≤ suc max_redirects)
unfolding public_get
public_get-Safe net raw_url limit capability = go (validate_public_url net raw_url) refl
  where
    go :
        (r : Attempt WebAccessError Url)
        → validate_public_url net raw_url ≡ r
        → Within net capability (suc max_redirects) (from_url net limit capability r).1
    go (failed e) q = (tt, omega arith)
    go (done url) q =
        follow-Within net capability limit max_redirects url [] 0 (suc max_redirects) (omega arith)
          (validate_public_url_lem net raw_url url q) (tt, omega arith)
