-- ===== src/Proxy/Decision/Upstream.antt =====
-- The upstream of an intercepted request.
use hakimi_hub.Prelude.{
  Bool-cases, All, ◌≡◌, refl, ap, ◌∙◌, ◌⊎◌, inl, inr, Bool, true, false, Option, none, some, List,
  ◌∷◌, ◌++◌, map, arith,
}
use hakimi_hub.Prelude.Str.{Text, codes}
use hakimi_hub.Prelude.Str
use hakimi_hub.Config.Intercept.{InterceptAction}
use hakimi_hub.Config.Defaults.{common_defaults}
use hakimi_hub.Intercepts.Matcher.{match_domain, new}
use hakimi_hub.Intercepts.Pattern.Regex.{IsSegment}
use hakimi_hub.Intercepts.Defaults.{release_path, match_domain-release_download}
use hakimi_hub.Prelude.Str.Words.{IsWord}
use hakimi_hub.Prelude.Str.Lines.{blank}
use hakimi_hub.Proxy.Rewrite.{rewrite_request_for_mirror}
use hakimi_hub.Prelude.Str.Utf8.{IsAscii}
use hakimi_hub.Proxy.Rewrite.Fields.{Field, field_line, IsField}
use hakimi_hub.Proxy.Rewrite.Origin.{first_line}
use hakimi_hub.Proxy.Rewrite.Mirror.{mirror_field, rewrite_request_for_mirror-message}
use hakimi_hub.Proxy.Decision.{
  HandlerContext, UpstreamDecision, resolve_upstream, resolve_real_host,
}

resolve_real_host-no_star :
    (rule_host host : Text)
    → Str.contains host (codes "*") ≡ false
    → Str.contains (resolve_real_host rule_host host) (codes "*") ≡ false
unfolding resolve_real_host
resolve_real_host-no_star rule_host host h = ground (arith, h)

InterceptAction-cases :
    (a : Option InterceptAction)
    → (a ≡ none)
      ⊎ (((mirror : Text) × (a ≡ some (InterceptAction.proxy mirror)))
          ⊎ (((sni : Text) × (real : Text) × (a ≡ some (InterceptAction.sni_spoof sni real)))
              ⊎ (((target : Text) × (a ≡ some (InterceptAction.redirect target)))
                  ⊎ ((b : Bool) × (a ≡ some (InterceptAction.abort b))))))
InterceptAction-cases none = inl refl
InterceptAction-cases (some (InterceptAction.proxy m)) = inr (inl (m, refl))
InterceptAction-cases (some (InterceptAction.sni_spoof s r)) = inr (inr (inl (s, r, refl)))
InterceptAction-cases (some (InterceptAction.redirect t)) = inr (inr (inr (inl (t, refl))))
InterceptAction-cases (some (InterceptAction.abort b)) = inr (inr (inr (inr (b, refl))))

-- The host that a spoofed connection is made to is never a pattern: it has no star in it where
-- the host that was asked for has none, and spoofing has to be enabled.
pub resolve_upstream-real_host :
    (host path request real sni : Text) (ctx : HandlerContext)
    → Str.contains host (codes "*") ≡ false
    → resolve_upstream host path ctx request ≡ UpstreamDecision.sni_spoof real sni
    → (Str.contains real (codes "*") ≡ false) × (ctx.sni_spoof_enabled ≡ true)
unfolding resolve_upstream
resolve_upstream-real_host host path request real sni ctx h e =
    elim (InterceptAction-cases (match_domain ctx.intercept_matcher host path)) [
      | inl a ↦ absurd (ground (arith, a, e))
      | inr (inl (m, a)) ↦ absurd (ground (arith, a, e))
      | inr (inr (inl (s, r, a))) ↦ elim (Bool-cases ctx.sni_spoof_enabled) [
        | inl b ↦
            let f : resolve_real_host r host ≡ real = ground (arith, a, b, e) in
            (rw (← f) (resolve_real_host-no_star r host h), b)
        | inr b ↦ absurd (ground (arith, a, b, e))
      ]
      | inr (inr (inr (inl (t, a)))) ↦ absurd (ground (arith, a, e))
      | inr (inr (inr (inr (b, a)))) ↦ absurd (ground (arith, a, e))
    ]

resolve_upstream-proxy :
    (host path request mirror : Text) (ctx : HandlerContext)
    → match_domain ctx.intercept_matcher host path ≡ some (InterceptAction.proxy mirror)
    → resolve_upstream host path ctx request
      ≡ UpstreamDecision.proxy_mirror mirror (rewrite_request_for_mirror request mirror host)
unfolding resolve_upstream
resolve_upstream-proxy host path request mirror ctx e = rw e refl

-- With the built-in rules a request to github.com for a file of a release, with an owner and a
-- repository that are segments of a path, a head of ASCII characters, well-formed header fields and
-- any body, goes to the mirror as a request for the whole original URL: with the same method and
-- version, the mirror named in each field with the name `host` in any case, every other field as
-- it was, and the same body.
pub resolve_upstream-release_download :
    (ctx : HandlerContext) (owner repository file method version : Text) (fields : List Field)
    (body : Text)
    → ctx.intercept_matcher ≡ new common_defaults.rules
    → IsSegment owner
    → IsSegment repository
    → IsWord method
    → IsWord (release_path owner repository file)
    → IsWord version
    → IsAscii (first_line method (release_path owner repository file) version)
    → All IsField fields
    → resolve_upstream (codes "github.com") (release_path owner repository file) ctx (
        Str.join_lines
          (first_line method (release_path owner repository file) version ∷ map field_line fields)
        ++ (blank ++ body))
      ≡ UpstreamDecision.proxy_mirror (codes "v4.gh-proxy.org") (
          Str.join_lines (
            first_line method
              (codes "/https://github.com" ++ release_path owner repository file)
              version
            ∷ map (mirror_field (codes "v4.gh-proxy.org")) fields)
          ++ (blank ++ body))
resolve_upstream-release_download ctx owner repository file method version fields body hc ho hr hm
      hp hv ha hf =
    let path = release_path owner repository file in
    let request =
      Str.join_lines (first_line method path version ∷ map field_line fields) ++ (blank ++ body) in
    let e : match_domain ctx.intercept_matcher (codes "github.com") path
        ≡ some (InterceptAction.proxy (codes "v4.gh-proxy.org")) =
      rw hc (match_domain-release_download owner repository file ho hr) in
    resolve_upstream-proxy (codes "github.com") path request (codes "v4.gh-proxy.org") ctx e
    ∙ ap (UpstreamDecision.proxy_mirror (codes "v4.gh-proxy.org")) (
        rewrite_request_for_mirror-message method _ version (codes "v4.gh-proxy.org")
          (codes "github.com") fields body hm hp hv ha hf)
