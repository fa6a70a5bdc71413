-- ===== src/Proxy/Request/Target.antt =====
-- The targets of CONNECT and of plain requests, read back from the lines that name them.
use hakimi_hub.Prelude.{◌==◌, All, All-append, ℕ, ◌≤◌, ◌≡◌, refl, false, some, [], ◌∷◌, ◌++◌, arith}
use hakimi_hub.Prelude.Str.{Text, codes}
use hakimi_hub.Prelude.Str
use hakimi_hub.Prelude.Str.Words.{IsWord, split_whitespace-word, rsplit2-append}
use hakimi_hub.Prelude.Str.Print.{IsNumeral, IsNumeral-decimal, parse-decimal}
use hakimi_hub.Proxy.Request.{parse_connect_target, parse_host_port}

numeral-no_colon : (s : Text) → IsNumeral s → All (λ c. (c == b':') ≡ false) s
numeral-no_colon [] h = tt
numeral-no_colon (c ∷ s) h = (ground (arith, h.0), numeral-no_colon s h.1)

pub numeral-no_space : (s : Text) → IsNumeral s → All (λ c. Str.is_whitespace c ≡ false) s
unfolding Str.is_whitespace
numeral-no_space [] h = tt
numeral-no_space (c ∷ s) h = (ground (arith, h.0), numeral-no_space s h.1)

-- `host:port` is read back, the port at its decimal digits and the host whatever colons it has.
pub parse_host_port-decimal :
    (host : Text) (port : ℕ)
    → port ≤ 65535
    → parse_host_port (host ++ (codes ":" ++ Str.decimal port)) ≡ some (host, port)
unfolding parse_host_port
parse_host_port-decimal host port l = ground (
  arith,
  rsplit2-append b':' host (Str.decimal port) (numeral-no_colon _ (IsNumeral-decimal port)),
  parse-decimal 65535 port l,
)

pub authority-IsWord :
    (host : Text) (port : ℕ) → IsWord host → IsWord (host ++ (codes ":" ++ Str.decimal port))
authority-IsWord [] port h = absurd (h.0 refl)
authority-IsWord (c ∷ host) port h = (
  λ e. cc e,
  All-append (λ c. Str.is_whitespace c ≡ false) (c ∷ host) (codes ":" ++ Str.decimal port) h.1
      (
        (unfold Str.is_whitespace in refl),
        numeral-no_space (Str.decimal port) (IsNumeral-decimal port),
      ),
)

nonempty_word : (host : Text) (port : ℕ) → IsWord host → (c : ℕ) × (t : Text) × (host ≡ c ∷ t)
nonempty_word [] port h = absurd (h.0 refl)
nonempty_word (c ∷ t) port h = (c, t, refl)

-- A CONNECT line for a host without white space and a 16-bit port is understood, in any version
-- of the protocol: it gives that host and that port.
pub parse_connect_target-request :
    (host version : Text) (port : ℕ)
    → IsWord host
    → port ≤ 65535
    → parse_connect_target
        (codes "CONNECT" ++ (32 ∷ (host ++ (codes ":" ++ Str.decimal port)) ++ (32 ∷ version)))
      ≡ some (host, port)
unfolding parse_connect_target Str.text_eq
parse_connect_target-request host version port h l =
    let target = host ++ (codes ":" ++ Str.decimal port) in
    let (c, t, e) = nonempty_word host port h in
    let w1 = split_whitespace-word (codes "CONNECT") (target ++ (32 ∷ version)) (
      λ z. cc z,
      (unfold Str.is_whitespace in (refl, (refl, (refl, (refl, (refl, (refl, (refl, tt)))))))),
    ) in
    let w2 = split_whitespace-word target version (authority-IsWord host port h) in
    ground (arith, w1, w2, parse_host_port-decimal host port l, e)
