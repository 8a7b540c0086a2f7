-- ===== src/Auth/Access.antt =====
-- Who passes the middleware of internal/auth/certificates.go.
use libvirt_volume_provision.Base.{
  Option, ℕ, zero, suc, List, [], ◌∷◌, ◌++◌, ◌≡◌, ◌≢◌, ◌⊎◌, ◌↔◌, inl, inr, refl, ap, sym, ◌∙◌, true,
  false, some, none, length, take, drop, ltb, ◌<◌, arith, Bool-cases,
}
use libvirt_volume_provision.Text.{Text, text_eq}
use libvirt_volume_provision.Text.Laws.{text_eq_refl, eq_of_text_eq}
use libvirt_volume_provision.Auth.{
  Validator, Credentials, is_token, is_bearer, bearer, validate_api_token, has_certificate,
  middleware,
}

abbrev pub IsListed : Text → List Text → Type 0
IsListed token ts = (before after : List Text) × (ts ≡ before ++ token ∷ after)

is_token-IsListed : (token : Text) (ts : List Text) → is_token token ts ≡ true → IsListed token ts
unfolding is_token
is_token-IsListed token [] h = ground arith
is_token-IsListed token (t ∷ ts) h = elim (Bool-cases (text_eq t token)) [
  | inl e ↦ ([], ts, ap (λ x. x ∷ ts) (eq_of_text_eq t token e))
  | inr n ↦
      let (before, after, e) = is_token-IsListed token ts (ground arith) in
      (t ∷ before, after, ap (λ x. t ∷ x) e)
]

is_token_listed :
    (token : Text) (before after : List Text) → is_token token (before ++ token ∷ after) ≡ true
unfolding is_token
is_token_listed token [] after = ground (arith, text_eq_refl token)
is_token_listed token (t ∷ before) after = ground (arith, is_token_listed token before after)

take-drop : (n : ℕ) (s : Text) → take n s ++ drop n s ≡ s
take-drop zero s = refl
take-drop (suc n) [] = refl
take-drop (suc n) (c ∷ s) = ap (λ x. c ∷ x) (take-drop n s)

-- The token that a request presents: the rest of an Authorization header `Bearer ...`, or else the
-- X-API-Token header.
pub data Presents (c : Credentials) : Text → Type 0 where
  by_bearer : (b : ℕ) (t : Text) → c.authorization ≡ bearer ++ b ∷ t → Presents c (b ∷ t)
  by_header :
      (b : ℕ) (t : Text)
      → ((b' : ℕ) (t' : Text) → c.authorization ≢ bearer ++ b' ∷ t')
      → c.x_api_token ≡ b ∷ t
      → Presents c (b ∷ t)

-- A request with a token of the validator.
abbrev pub HasToken : Validator → Credentials → Type 0
HasToken v c = (t : Text) × Presents c t × IsListed t v.api_tokens

-- A request is admitted for a token of the validator, or for a peer certificate of the connection that
-- the middleware looks for in its context.
abbrev pub Admits : Validator → Credentials → Type 0
Admits v c = HasToken v c ⊎ ((n : ℕ) × (c.peer_certificates ≡ some (suc n)))

is_bearer-bearer : (b : ℕ) (t : Text) → is_bearer (bearer ++ b ∷ t) ≡ true
unfolding is_bearer
is_bearer-bearer b t = rw (long, text_eq_refl bearer) refl
  where
    long : ltb 7 (length (bearer ++ b ∷ t)) ≡ true
    long = ground arith

bearer-is_bearer :
    (s : Text)
    → is_bearer s ≡ true
    → (b : ℕ) × (t : Text) × (drop 7 s ≡ b ∷ t) × (s ≡ bearer ++ b ∷ t)
unfolding is_bearer
bearer-is_bearer s h = rest (drop 7 s) refl
  where
    starts : take 7 s ≡ bearer
    starts = eq_of_text_eq (take 7 s) bearer (ground arith)

    long : 7 < length s
    long = ground arith

    glued : (r : Text) → drop 7 s ≡ r → s ≡ bearer ++ r
    glued r e = sym (take-drop 7 s) ∙ (ap (λ x. x ++ drop 7 s) starts ∙ ap (λ x. bearer ++ x) e)

    rest :
        (r : Text)
        → drop 7 s ≡ r
        → (b : ℕ) × (t : Text) × (drop 7 s ≡ b ∷ t) × (s ≡ bearer ++ b ∷ t)
    rest [] e = absurd (ground (arith, glued [] e))
    rest (b ∷ t) e = (b, t, e, glued (b ∷ t) e)

validate-Presents :
    (v : Validator) (c : Credentials)
    → validate_api_token v c ≡ true
    → (t : Text) × Presents c t × IsListed t v.api_tokens
unfolding validate_api_token text_eq
validate-Presents v c h = elim (Bool-cases (is_bearer c.authorization)) [
  | inl e ↦
      let (b, t, ed, es) = bearer-is_bearer c.authorization e in
      (b ∷ t, by_bearer b t es, is_token-IsListed (b ∷ t) v.api_tokens (ground (arith, ed)))
  | inr e ↦ by_x_api_token c.x_api_token refl e
]
  where
    by_x_api_token :
        (x : Text)
        → c.x_api_token ≡ x
        → is_bearer c.authorization ≡ false
        → (t : Text) × Presents c t × IsListed t v.api_tokens
    by_x_api_token [] ex e = absurd (ground (arith, ex))
    by_x_api_token (b ∷ t) ex e = (
      b ∷ t,
      by_header b t (λ b' t' e'. ground (arith, is_bearer-bearer b' t', e')) ex,
      is_token-IsListed (b ∷ t) v.api_tokens (ground (arith, ex)),
    )

Presents-validate :
    (v : Validator) (c : Credentials) (t : Text)
    → Presents c t
    → IsListed t v.api_tokens
    → validate_api_token v c ≡ true
unfolding validate_api_token text_eq
Presents-validate v c _ (by_bearer b t e) (before, after, l) =
    rw (e, is_bearer-bearer b t, l) (is_token_listed (b ∷ t) before after)
Presents-validate v c _ (by_header b t ne e) (before, after, l) =
    rw (not_bearer (Bool-cases (is_bearer c.authorization)), e, l)
      (is_token_listed (b ∷ t) before after)
  where
    not_bearer :
        (is_bearer c.authorization ≡ true) ⊎ (is_bearer c.authorization ≡ false)
        → is_bearer c.authorization ≡ false
    not_bearer (inl y) =
        let (b', t', ed, es) = bearer-is_bearer c.authorization y in absurd (ne b' t' es)
    not_bearer (inr n) = n

-- The middleware lets a request through exactly if the token it presents is one of the validator's, or
-- if its context holds, under the key "tls-conn", a connection with a peer certificate.
pub middleware_iff : (v : Validator) (c : Credentials) → (middleware v c ≡ none) ↔ Admits v c
unfolding middleware
middleware_iff v c = (admitted (Bool-cases (validate_api_token v c)), let_through)
  where
    admitted :
        (validate_api_token v c ≡ true) ⊎ (validate_api_token v c ≡ false)
        → middleware v c ≡ none
        → Admits v c
    admitted (inl e) h = inl (validate-Presents v c e)
    admitted (inr e) h = certified c.peer_certificates refl (ground arith)
      where
        certified :
            (o : Option ℕ)
            → c.peer_certificates ≡ o
            → has_certificate c.peer_certificates ≡ true
            → Admits v c
        certified none eo h' = ground arith
        certified (some zero) eo h' = ground arith
        certified (some (suc n)) eo h' = inr (n, eo)

    let_through : Admits v c → middleware v c ≡ none
    let_through (inl (t, p, l)) = ground (arith, Presents-validate v c t p l)
    let_through (inr (n, e)) = ground (arith, e)

-- When a request's context holds no connection under the key "tls-conn", as with every request of this
-- program, which stores none, the middleware lets the request through exactly if the token that it
-- presents is one of the validator's, whatever client certificate it came with; a bearer token, if
-- there is one, counts before the X-API-Token header.
pub middleware_token_iff :
    (v : Validator) (c : Credentials)
    → c.peer_certificates ≡ none
    → (middleware v c ≡ none) ↔ HasToken v c
middleware_token_iff v c h =
    (λ e. by_way ((middleware_iff v c).0 e), λ t. (middleware_iff v c).1 (inl t))
  where
    by_way : Admits v c → HasToken v c
    by_way (inl t) = t
    by_way (inr (n, e)) = absurd (cc)
