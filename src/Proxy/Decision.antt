-- ===== src/Proxy/Decision.antt =====
-- src/proxy/handler.rs: what the proxy does with a CONNECT request, and which upstream it picks for
-- a request inside an intercepted connection.
use hakimi_hub.Prelude.{
  ltb, leb, ◌==◌, if◌then◌else◌, ltb→lt, lt→ltb, leb→le, le→leb, ==_iff, ==_refl, Bool-cases,
  Option-cases, &&-elim, &&-intro, ||-elim, is_some, present, length, get_elem?, take, drop,
  is_empty, any, all, select, All, length-append, take-append-drop, length-take, length-drop,
  take-length_append, drop-length_append, All-append, ℕ, zero, suc, ◌+◌, ◌-◌, ◌*◌, ◌/◌, ◌%◌, ◌^◌,
  ◌≤◌, ◌<◌, ◌≡◌, refl, sym, ap, ◌∙◌, ◌≢◌, ◌↔◌, ◌⊎◌, inl, inr, Bool, true, false, not, ◌&&◌, ◌||◌,
  Option, none, some, List, [], ◌∷◌, ◌++◌, map, arith,
}
use hakimi_hub.Prelude.Str.{Text, codes}
use hakimi_hub.Prelude.Str
use mathlib.Core.Option
use mathlib.Core.List
use hakimi_hub.Config.Intercept.{InterceptAction}
use hakimi_hub.Rules.{DomainRules, DomainAction, classify}
use hakimi_hub.Intercepts.Matcher.{InterceptMatcher, match_domain}
use hakimi_hub.Proxy.Request.{parse_connect_target}
use hakimi_hub.Proxy.Rewrite.{rewrite_request_for_mirror}
use hakimi_hub.Proxy.Response.{build_redirect_response, contains_header_end}
pub mod Connect
pub mod Upstream

-- The fields of `HandlerContext` that decide.
pub record HandlerContext : Type 0 where
  pub mitm_enabled : Bool
  pub domain_rules : DomainRules
  pub intercept_matcher : InterceptMatcher
  pub sni_spoof_enabled : Bool

pub data ProxyAction : Type 0 where
  http_forward : Text → ℕ → ProxyAction
  https_tunnel : Text → ℕ → Bool → ProxyAction
  mitm_intercept : Text → ℕ → ProxyAction

pub data UpstreamDecision : Type 0 where
  redirect : Text → UpstreamDecision
  proxy_mirror : Text → Text → UpstreamDecision
  sni_spoof : Text → Text → UpstreamDecision
  direct : UpstreamDecision
  abort : UpstreamDecision

-- How a CONNECT request ends: nothing is written, or a reply goes to the client, and the
-- connection is closed or goes on with an action.
pub data ConnectOutcome : Type 0 where
  dropped : ConnectOutcome
  closed : Text → ConnectOutcome
  goes_on : Text → ProxyAction → ConnectOutcome

abbrev pub established : Text
established = codes "HTTP/1.1 200 Connection Established\r\n\r\n"

abbrev pub forbidden : Text
forbidden = codes "HTTP/1.1 403 Forbidden\r\n\r\n"

abbrev pub bad_request : Text
bad_request = codes "HTTP/1.1 400 Bad Request\r\n\r\n"

-- The reads of the request, each a chunk and an empty one the end of the stream: the loop stops
-- at the end of the head, and gives up on a request of more than 8192 bytes without one.
unfoldable pub read_request : Text → List Text → Option Text
unfolding contains_header_end
read_request buf [] = none
read_request buf (chunk ∷ chunks) =
    let buf' = buf ++ chunk in
    let rest = read_request buf' chunks in
    if is_empty chunk
    then none
    else if contains_header_end buf'
    then some buf'
    else if ltb 8192 (length buf')
    then none
    else rest

abbrev pub is_abort : Option InterceptAction → Bool
is_abort (some (InterceptAction.abort b)) = true
is_abort _ = false

abbrev action_outcome : Bool → DomainAction → Text → ℕ → ConnectOutcome
action_outcome true DomainAction.proxy host port =
    ConnectOutcome.goes_on established (ProxyAction.mitm_intercept host port)
action_outcome false DomainAction.proxy host port =
    ConnectOutcome.goes_on established (ProxyAction.https_tunnel host port true)
action_outcome mitm DomainAction.direct host port =
    ConnectOutcome.goes_on established (ProxyAction.https_tunnel host port false)
action_outcome mitm DomainAction.block host port = ConnectOutcome.closed forbidden

-- The decision for a target that was understood.
unfoldable pub decide : HandlerContext → Text → ℕ → ConnectOutcome
unfolding classify match_domain
decide ctx host port =
    if is_abort (match_domain ctx.intercept_matcher host (codes "/"))
    then ConnectOutcome.closed established
    else action_outcome ctx.mitm_enabled (classify ctx.domain_rules host) host port

-- `lines().next().unwrap_or("")`
abbrev pub first_or_empty : List Text → Text
first_or_empty [] = []
first_or_empty (l ∷ ls) = l

unfoldable pub handle_connect : HandlerContext → List Text → ConnectOutcome
unfolding read_request decide parse_connect_target Str.lines
handle_connect ctx chunks = elim (read_request [] chunks) [
  | none ↦ ConnectOutcome.dropped
  | some buf ↦ elim (parse_connect_target (first_or_empty (Str.lines buf))) [
    | some target ↦ decide ctx target.0 target.1
    | none ↦ ConnectOutcome.closed bad_request
  ]
]

-- A rule's host with a star in it stands for the host that was asked for.
unfoldable pub resolve_real_host : Text → Text → Text
unfolding Str.contains
resolve_real_host rule_host actual_host =
    if Str.contains rule_host (codes "*") then actual_host else rule_host

abbrev upstream_of : Bool → Text → Text → Text → Option InterceptAction → UpstreamDecision
unfolding resolve_real_host rewrite_request_for_mirror build_redirect_response Str.replace
upstream_of spoof host path request none = UpstreamDecision.direct
upstream_of spoof host path request (some (InterceptAction.sni_spoof sni real_host)) =
    if spoof
    then UpstreamDecision.sni_spoof (resolve_real_host real_host host) sni
    else UpstreamDecision.direct
upstream_of spoof host path request (some (InterceptAction.proxy mirror)) =
    UpstreamDecision.proxy_mirror mirror (rewrite_request_for_mirror request mirror host)
upstream_of spoof host path request (some (InterceptAction.redirect target)) =
    UpstreamDecision.redirect (build_redirect_response (Str.replace target (codes "{path}") path))
upstream_of spoof host path request (some (InterceptAction.abort b)) = UpstreamDecision.abort

unfoldable pub resolve_upstream : Text → Text → HandlerContext → Text → UpstreamDecision
unfolding upstream_of match_domain
resolve_upstream host path ctx pending_request =
    upstream_of ctx.sni_spoof_enabled host path pending_request
      (match_domain ctx.intercept_matcher host path)
