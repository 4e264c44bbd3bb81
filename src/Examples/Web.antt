-- ===== src/Examples/Web.antt =====
-- The web at concrete inputs: a host that redirects once to itself.
use jitforge.Base.{
  ℕ, suc, ◌≤◌, true, false, not, none, some, List, [], ◌∷◌, length, any, ◌≡◌, refl, arith, All,
  done, ◌==◌, if◌then◌else◌,
}
use jitforge.Text.{all_chars}
use jitforge.Protocol.{HttpCapability, get_method}
use jitforge.Examples.Worker.{any_url}
use jitforge.Web.Addresses.{v4, is_public_ip}
use jitforge.Web.Addresses.Blocks.{
  number_of, in_range, reserved_blocks, is_public_ip-reserved_blocks,
}
use jitforge.Web.Pages.{is_plain, strip_html, strip_html-plain}
use jitforge.Web.Requests.{Net, Response, read_bounded, public_get, max_redirects}
use jitforge.Web.Requests.Safety.{Safe, public_get-Safe}
use jitforge.Web.Documents.{read_bounded-bounded}

abbrev page : Response
page = record {
  status = 200;
  location = none;
  content_type = some "text/plain";
  content_length = some 2;
  chunks = done (104 ∷ 105 ∷ []) ∷ [];
}

abbrev moved : Response
moved = record page { status = 302; location = some "/next" }

abbrev net : Net
net = record {
  public_proxy = none;
  lookup_host = λ host port n. done (v4 1 1 1 1 ∷ []);
  send = λ request n. done (if n == 0 then moved else page);
  parse = λ s. done any_url;
  join = λ url s. done "https://example.com/next";
  is_ip = λ s. false;
  first_part = λ s. s;
}

abbrev root : HttpCapability
root = record {
  scheme = "https";
  host = "example.com";
  port = 443;
  method = get_method;
  path_prefix = "/";
  query_keys = [];
  purpose = "names";
}

public_get-Safe_example :
    All (Safe net (some root)) (public_get net "https://example.com/" 100 (some root)).1
    × (length (public_get net "https://example.com/" 100 (some root)).1 ≤ suc max_redirects)
public_get-Safe_example = public_get-Safe net "https://example.com/" 100 (some root)

abbrev greeting : List ℕ
greeting = 104 ∷ 105 ∷ []

read_bounded-bounded_example : length greeting ≤ 2
unfolding read_bounded
read_bounded-bounded_example = read_bounded-bounded page 2 greeting refl

is_public_ip-reserved_blocks_example :
    is_public_ip (v4 198 18 0 1) ≡ not (any (in_range (number_of 198 18 0 1)) reserved_blocks)
is_public_ip-reserved_blocks_example =
    is_public_ip-reserved_blocks 198 18 0 1 (omega arith) (omega arith) (omega arith) (omega arith)

strip_html-plain_example : all_chars is_plain (strip_html "<h1>Hello</h1><p>world</p>") ≡ true
strip_html-plain_example = strip_html-plain "<h1>Hello</h1><p>world</p>"
