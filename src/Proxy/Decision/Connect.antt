-- ===== src/Proxy/Decision/Connect.antt =====
-- CONNECT requests: which are understood, and which hosts are intercepted, tunnelled or refused.
use hakimi_hub.Prelude.{
  ltb, if◌then◌else◌, Bool-cases, is_some, length, is_empty, All, length-append, ℕ, ◌≤◌, ◌≡◌, refl,
  sym, ap, ◌∙◌, ◌≢◌, ◌↔◌, ◌⊎◌, inl, inr, true, false, some, List, [], ◌∷◌, ◌++◌, arith,
}
use hakimi_hub.Prelude.Str.{Text, codes}
use hakimi_hub.Prelude.Str
use hakimi_hub.Rules.{DomainAction, classify}
use hakimi_hub.Rules.Classify.{CoveredBy, classify_iff}
use hakimi_hub.Intercepts.Matcher.{match_domain}
use hakimi_hub.Prelude.Str.Words.{IsWord}
use hakimi_hub.Prelude.Str.Lines.{IsLine, blank, find-join_lines, lines-head}
use hakimi_hub.Proxy.Request.{parse_connect_target}
use hakimi_hub.Proxy.Request.Target.{authority-IsWord, parse_connect_target-request}
use hakimi_hub.Proxy.Response.{contains_header_end}
use hakimi_hub.Proxy.Rewrite.Origin.{first_line, first_line-IsLine}
use hakimi_hub.Proxy.Decision.{
  HandlerContext, ProxyAction, ConnectOutcome, read_request, decide, handle_connect, is_abort,
  established, forbidden,
}
use mathlib.Core.List.{append_assoc}

DomainAction-cases :
    (a : DomainAction)
    → (a ≡ DomainAction.block) ⊎ ((a ≡ DomainAction.proxy) ⊎ (a ≡ DomainAction.direct))
DomainAction-cases DomainAction.block = inl refl
DomainAction-cases DomainAction.proxy = inr (inl refl)
DomainAction-cases DomainAction.direct = inr (inr refl)

classified-outcome :
    (ctx : HandlerContext) (host : Text) (port : ℕ)
    → is_abort (match_domain ctx.intercept_matcher host (codes "/")) ≡ false
    → (classify ctx.domain_rules host ≡ DomainAction.block
        → decide ctx host port ≡ ConnectOutcome.closed forbidden)
      × (classify ctx.domain_rules host ≡ DomainAction.proxy
          → decide ctx host port
            ≡ ConnectOutcome.goes_on established (
                if ctx.mitm_enabled
                then ProxyAction.mitm_intercept host port
                else ProxyAction.https_tunnel host port true))
      × (classify ctx.domain_rules host ≡ DomainAction.direct
          → decide ctx host port
            ≡ ConnectOutcome.goes_on established (ProxyAction.https_tunnel host port false))
unfolding decide
classified-outcome ctx host port h = (
  (λ e. ground (arith, h, e)),
  (λ e. elim (Bool-cases ctx.mitm_enabled) [
    | inl m ↦ ground (arith, h, e, m)
    | inr m ↦ ground (arith, h, e, m)
  ]),
  (λ e. elim (Bool-cases ctx.mitm_enabled) [
    | inl m ↦ ground (arith, h, e, m)
    | inr m ↦ ground (arith, h, e, m)
  ]),
)

-- What goes with a proxied host.
abbrev pub proxied : HandlerContext → Text → ℕ → ConnectOutcome
proxied ctx host port = ConnectOutcome.goes_on established (
    if ctx.mitm_enabled
    then ProxyAction.mitm_intercept host port
    else ProxyAction.https_tunnel host port true)

abbrev pub tunnelled : Text → ℕ → ConnectOutcome
tunnelled host port = ConnectOutcome.goes_on established (ProxyAction.https_tunnel host port false)

proxied-ne-tunnelled :
    (ctx : HandlerContext) (host : Text) (port : ℕ) → proxied ctx host port ≢ tunnelled host port
proxied-ne-tunnelled ctx host port e = elim (Bool-cases ctx.mitm_enabled) [
  | inl m ↦ absurd (ground (arith, e, m))
  | inr m ↦ absurd (ground (arith, e, m))
]

-- A host for which no `Abort` rule stands is answered by its rules alone: refused with 403
-- exactly where a block pattern covers it, intercepted (or, without interception, tunnelled to an
-- address from DoH) exactly where a proxy pattern and no block pattern does, and tunnelled as it
-- is exactly where none of them does.
pub decide-rules :
    (ctx : HandlerContext) (host : Text) (port : ℕ)
    → is_abort (match_domain ctx.intercept_matcher host (codes "/")) ≡ false
    → (CoveredBy ctx.domain_rules.block (Str.to_lowercase host)
        ↔ (decide ctx host port ≡ ConnectOutcome.closed forbidden))
      × ((CoveredBy ctx.domain_rules.proxy (Str.to_lowercase host)
            × ¬ CoveredBy ctx.domain_rules.block (Str.to_lowercase host))
          ↔ (decide ctx host port ≡ proxied ctx host port))
      × (((¬ CoveredBy ctx.domain_rules.proxy (Str.to_lowercase host))
            × ¬ CoveredBy ctx.domain_rules.block (Str.to_lowercase host))
          ↔ (decide ctx host port ≡ tunnelled host port))
decide-rules ctx host port h =
    let c = classify_iff ctx.domain_rules host in
    let o = classified-outcome ctx host port h in
    elim (DomainAction-cases (classify ctx.domain_rules host)) [
      | inl e ↦ (
        ((λ b. o.0 e), λ r. c.0.0 e),
        ((λ b. absurd (b.1 (c.0.0 e))), λ r. absurd (cc (o.0 e, r))),
        ((λ b. absurd (b.1 (c.0.0 e))), λ r. absurd (cc (o.0 e, r))),
      )
      | inr (inl e) ↦ (
        ((λ b. absurd ((c.1.0 e).1 b)), λ r. absurd (cc (o.1 e, r))),
        ((λ b. o.1 e), λ r. c.1.0 e),
        (
          (λ b. absurd (b.0 (c.1.0 e).0)),
          λ r. absurd (proxied-ne-tunnelled ctx host port (sym (o.1 e) ∙ r)),
        ),
      )
      | inr (inr e) ↦ (
        ((λ b. absurd ((c.2.0 e).1 b)), λ r. absurd (cc (o.2 e, r))),
        (
          (λ b. absurd ((c.2.0 e).0 b.0)),
          λ r. absurd (proxied-ne-tunnelled ctx host port (sym r ∙ o.2 e)),
        ),
        ((λ b. o.2 e), λ r. c.2.0 e),
      )
    ]

-- An `Abort` rule goes before every list: the connection is said to be established, and closed.
pub decide-abort :
    (ctx : HandlerContext) (host : Text) (port : ℕ)
    → is_abort (match_domain ctx.intercept_matcher host (codes "/")) ≡ true
    → decide ctx host port ≡ ConnectOutcome.closed established
unfolding decide
decide-abort ctx host port h = rw h refl

read_request-some :
    (buf chunk : Text) (chunks : List Text)
    → is_empty chunk ≡ false
    → contains_header_end (buf ++ chunk) ≡ true
    → read_request buf (chunk ∷ chunks) ≡ some (buf ++ chunk)
unfolding read_request
read_request-some buf chunk chunks h k = ground (arith, h, k)

-- Where no read gives more than 4096 bytes, and no more than 8192 are there to begin with, the
-- reads end with a buffer that has the end of a head in it and at most 12288 bytes.
pub read_request-bounds :
    (buf : Text) (chunks : List Text) (result : Text)
    → All (λ chunk. length chunk ≤ 4096) chunks
    → length buf ≤ 8192
    → read_request buf chunks ≡ some result
    → (contains_header_end result ≡ true) × (length result ≤ 12288)
unfolding read_request
read_request-bounds buf [] result h l e = cc e
read_request-bounds buf (chunk ∷ chunks) result h l e =
    let n : length (buf ++ chunk) ≤ 12288 = omega (arith, length-append buf chunk, h.0, l) in
    elim (Bool-cases (is_empty chunk)) [
      | inl a ↦ absurd (ground (arith, a, e))
      | inr a ↦ elim (Bool-cases (contains_header_end (buf ++ chunk))) [
        | inl b ↦ let f : buf ++ chunk ≡ result = ground (arith, a, b, e) in rw (← f) (b, n)
        | inr b ↦ elim (Bool-cases (ltb 8192 (length (buf ++ chunk)))) [
          | inl d ↦ absurd (ground (arith, a, b, d, e))
          | inr d ↦
              read_request-bounds (buf ++ chunk) chunks result h.1 (ground (arith, d))
                (ground (arith, a, b, d, e))
        ]
      ]
    ]

handle_connect-some :
    (ctx : HandlerContext) (chunks : List Text) (buf l host : Text) (ls : List Text) (port : ℕ)
    → read_request [] chunks ≡ some buf
    → Str.lines buf ≡ l ∷ ls
    → parse_connect_target l ≡ some (host, port)
    → handle_connect ctx chunks ≡ decide ctx host port
unfolding handle_connect
handle_connect-some ctx chunks buf l host ls port e f g = ground (arith, e, f, g)

-- A CONNECT request that comes in one read, for a host without white space and a 16-bit port, with
-- one header or more of one line each, is decided on for the host and the port that it names.
pub handle_connect-request :
    (ctx : HandlerContext) (host version : Text) (port : ℕ) (header : Text)
    (headers chunks : List Text)
    → IsWord host
    → IsWord version
    → port ≤ 65535
    → All IsLine (header ∷ headers)
    → handle_connect ctx (
        (Str.join_lines (
            first_line (codes "CONNECT") (host ++ (codes ":" ++ Str.decimal port)) version
            ∷ header
            ∷ headers)
          ++ (blank ++ []))
        ∷ chunks)
      ≡ decide ctx host port
handle_connect-request ctx host version port header headers chunks hh hv hp hl =
    let target = host ++ (codes ":" ++ Str.decimal port) in
    let l = first_line (codes "CONNECT") target version in
    let wc : IsWord (codes "CONNECT") = (
      (λ z. cc z),
      (unfold Str.is_whitespace in (refl, (refl, (refl, (refl, (refl, (refl, (refl, tt)))))))),
    ) in
    let il =
      first_line-IsLine (codes "CONNECT") target version wc (authority-IsWord host port hh) hv in
    let rest = Str.join_lines (header ∷ headers) ++ (blank ++ []) in
    let buf = Str.join_lines (l ∷ header ∷ headers) ++ (blank ++ []) in
    let shape : buf ≡ l ++ (codes "\r\n" ++ rest) =
      unfold Str.join_lines in
      append_assoc l (codes "\r\n" ++ Str.join_lines (header ∷ headers)) (blank ++ []) in
    let (ls, e) = lines-head l rest il.1 in
    let f : contains_header_end buf ≡ true =
      unfold contains_header_end in ap is_some (find-join_lines l (header ∷ headers) [] (il, hl)) in
    let nonempty : is_empty buf ≡ false = rw shape refl in
    handle_connect-some ctx (buf ∷ chunks) buf l host ls port
      (read_request-some [] buf chunks nonempty f) (ap Str.lines shape ∙ e)
      (parse_connect_target-request host version port hh hp)
