-- ===== src/Web/Documents.antt =====
-- `fetch_document` and `probe` of apps/jit-worker/src/web_access.rs.
use jitforge.Base.{
  ℕ, ◌+◌, ◌*◌, ◌≤◌, String, Bool, true, false, not, ◌&&◌, none, some, List, [], ◌∷◌, ◌++◌, length,
  leb, ltb, ◌≡◌, refl, subst, arith, if◌then◌else◌, Attempt, done, failed, ◌>>=◌, ◌>>◌, check,
  bind-done, done_injective,
}
use jitforge.Text.Format.{◌+++◌, decimal, contains_text}
use jitforge.Text.Truncate.{truncate}
use jitforge.Protocol.{HttpCapability}
use jitforge.Worker.Outside.{ProbedResponse}
use jitforge.Web.Pages.{strip_html}
use jitforge.Web.Requests.{
  Net, Response, WebAccessError, upstream, response_too_large, exceeds, read_chunks, read_bounded,
  Sent, Outcome, public_get,
}

abbrev pub document_response_limit : ℕ
document_response_limit = 1024 * 1024

abbrev pub probe_response_limit : ℕ
probe_response_limit = 1024 * 1024

pub record FetchedDocument : Type 0 where
  pub url : String
  pub content_type : String
  pub text : String

-- The text of a successful answer. `lossy` decodes UTF-8 with replacements.
unfoldable pub document_of :
    (List ℕ → String) → ProbedResponse → Attempt WebAccessError FetchedDocument
unfolding contains_text strip_html truncate decimal
document_of lossy r = do
  check (leb 200 r.status && ltb r.status 300)
      (upstream ("document returned HTTP " +++ decimal r.status))
  done (record {
    url = r.url;
    content_type = r.content_type;
    text =
        truncate
          (if contains_text r.content_type "html" then strip_html (lossy r.body) else lossy r.body)
          (64 * 1024);
  })

unfoldable pub fetch_document :
    Net → (List ℕ → String) → String → Attempt WebAccessError FetchedDocument × Sent
unfolding public_get document_of
fetch_document net lossy url =
    let got : Outcome = public_get net url document_response_limit none in
    (got.0 >>= document_of lossy, got.1)

unfoldable pub probe : Net → String → HttpCapability → Outcome
unfolding public_get
probe net url capability = public_get net url probe_response_limit (some capability)

length-append : (xs ys : List ℕ) → length (xs ++ ys) ≡ length xs + length ys
length-append [] ys = omega arith
length-append (x ∷ xs) ys = rw (length-append xs ys) (omega arith)

read_chunks-bounded :
    (limit : ℕ) (body : List ℕ) (chunks : List (Attempt String (List ℕ))) (read : List ℕ)
    → length body ≤ limit
    → read_chunks limit body chunks ≡ done read
    → length read ≤ limit
unfolding read_chunks
read_chunks-bounded limit body [] read h e =
    subst (λ b. length b ≤ limit) (done_injective body read e) h
read_chunks-bounded limit body (failed x ∷ chunks) read h e = cc
read_chunks-bounded limit body (done chunk ∷ chunks) read h e =
    go (ltb limit (length body + length chunk)) refl
      (read_chunks-bounded limit (body ++ chunk) chunks read) e
  where
    go :
        (b : Bool)
        → ltb limit (length body + length chunk) ≡ b
        → (length (body ++ chunk) ≤ limit
            → read_chunks limit (body ++ chunk) chunks ≡ done read
            → length read ≤ limit)
        → (if b then failed response_too_large else read_chunks limit (body ++ chunk) chunks)
          ≡ done read
        → length read ≤ limit
    go true q rest e = cc
    go false q rest e = rest (rw (length-append body chunk) (ground arith)) e

-- Whatever a server sends, a response that is read is no longer than the limit.
pub read_bounded-bounded :
    (r : Response) (limit : ℕ) (body : List ℕ)
    → read_bounded r limit ≡ done body
    → length body ≤ limit
unfolding read_bounded
read_bounded-bounded r limit body e =
    let (u, _, e1) =
      bind-done (check (not (exceeds limit r.content_length)) response_too_large) _ body e in
    read_chunks-bounded limit [] r.chunks body (omega arith) e1
