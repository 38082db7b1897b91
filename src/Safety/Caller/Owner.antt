-- ===== src/Safety/Caller/Owner.antt =====
-- The owner text keeps callers apart: no two identities, and no two sessions, share one.
use Prim.Native.Char.{Char, code, nul}
use Prim.Native.String.{◌++◌}
use text.Mathlib.TextLemmas.{
  nil-append, cons-append, cons-ne-nil, head-eq_of_cons-eq, tail-eq_of_cons-eq,
}
use aura_tracker_gcp.Prelude.{
  String, Bool, true, false, ◌||◌, ◌≡◌, refl, ap, ap₂, sym, ◌∙◌, ◌==◌, string_eq, nat_eq, arith,
  ◌⊎◌, inl, inr,
}
use aura_tracker_gcp.Safety.Caller.{
  Principal, Context, principal_from_context, session_id, actor, identity_key, mutation_owner,
  or_actor,
}

unfoldable pub has_nul : String → Bool
has_nul String.[] = false
has_nul (String.◌∷◌ c s) = code c == 0 || has_nul s

has_nul-after_sep : (a s : String) → has_nul (a ++ ("\0" ++ s)) ≡ true
unfolding has_nul
has_nul-after_sep String.[] s = rw (nil-append, cons-append nul String.[] s) refl
has_nul-after_sep (String.◌∷◌ c a) s = rw cons-append (ground (arith, has_nul-after_sep a s))

sep-append : (s : String) → "\0" ++ s ≡ String.◌∷◌ nul s
sep-append s = cons-append nul String.[] s ∙ ap (String.◌∷◌ nul) (nil-append s)

no_earlier_separator :
    (c : Char) (b s t : String)
    → has_nul s ≡ false
    → "" ++ ("\0" ++ s) ≡ String.◌∷◌ c b ++ ("\0" ++ t)
    → ⊥
no_earlier_separator c b s t h e =
    let e' : String.◌∷◌ nul s ≡ String.◌∷◌ c (b ++ ("\0" ++ t)) =
      sym (nil-append ("\0" ++ s) ∙ sep-append s) ∙ e ∙ cons-append c b ("\0" ++ t) in
    cc (h, has_nul-after_sep b t, ap has_nul (tail-eq_of_cons-eq e'))

last_separator :
    (a b s t : String)
    → has_nul s ≡ false
    → has_nul t ≡ false
    → a ++ ("\0" ++ s) ≡ b ++ ("\0" ++ t)
    → (a ≡ b) × (s ≡ t)
last_separator String.[] String.[] s t hs ht e =
    (refl, tail-eq_of_cons-eq (rw (nil-append, nil-append, sep-append s, sep-append t) at e))
last_separator String.[] (String.◌∷◌ c b) s t hs ht e = absurd (no_earlier_separator c b s t hs e)
last_separator (String.◌∷◌ c a) String.[] s t hs ht e =
    absurd (no_earlier_separator c a t s ht (sym e))
last_separator (String.◌∷◌ c a) (String.◌∷◌ d b) s t hs ht e =
    let e' : String.◌∷◌ c (a ++ ("\0" ++ s)) ≡ String.◌∷◌ d (b ++ ("\0" ++ t)) =
      sym (cons-append c a ("\0" ++ s)) ∙ e ∙ cons-append d b ("\0" ++ t) in
    let (ab, st) = last_separator a b s t hs ht (tail-eq_of_cons-eq e') in
    (ap₂ String.◌∷◌ (head-eq_of_cons-eq e') ab, st)

-- What the identity provider and the session manager are relied on for: no text holds a NUL.
pub record IsClean (ctx : Context) : Type 0 where
  pub issuer : has_nul (principal_from_context ctx).issuer ≡ false
  pub subject : has_nul (principal_from_context ctx).subject ≡ false
  pub email : has_nul (principal_from_context ctx).email ≡ false
  pub session : has_nul (session_id ctx) ≡ false

-- Both have the same issuer and subject, or neither has both of those and the audit names agree.
abbrev pub SameIdentity : Principal → Principal → Type 0
SameIdentity p q =
    ((p.issuer ≡ q.issuer) × (p.subject ≡ q.subject))
    ⊎ ((identity_key p ≡ "") × (identity_key q ≡ "") × (actor p ≡ actor q))

actor_clean :
    (p : Principal)
    → has_nul p.subject ≡ false
    → has_nul p.email ≡ false
    → has_nul (actor p) ≡ false
unfolding actor
actor_clean p s e = ground arith

key_cases :
    (p : Principal)
    → (identity_key p ≡ "")
      ⊎ ((identity_key p ≡ p.issuer ++ ("\0" ++ p.subject)) × (has_nul (identity_key p) ≡ true))
unfolding identity_key
key_cases p = ground (arith, has_nul-after_sep p.issuer p.subject)

no_key : (p : Principal) (k : String) → k ≡ "" → or_actor p k ≡ actor p
no_key p k e = ground (arith, string_eq.equals_iff k "")

with_key : (p : Principal) (k : String) → has_nul k ≡ true → or_actor p k ≡ k
unfolding has_nul
with_key p String.[] n = cc
with_key p (String.◌∷◌ c k) n =
    ground (arith, string_eq.equals_iff (String.◌∷◌ c k) "", cons-ne-nil c k)

same_identity :
    (p q : Principal)
    → has_nul p.subject ≡ false
    → has_nul p.email ≡ false
    → has_nul q.subject ≡ false
    → has_nul q.email ≡ false
    → or_actor p (identity_key p) ≡ or_actor q (identity_key q)
    → SameIdentity p q
same_identity p q ps pe qs qe h =
    let kp = identity_key p in
    let kq = identity_key q in
    elim (key_cases p) [
      | inl a ↦ elim (key_cases q) [
        | inl b ↦ inr (a, b, cc (no_key p kp a, no_key q kq b))
        | inr (b, n) ↦ absurd (cc (no_key p kp a, with_key q kq n, actor_clean p ps pe))
      ]
      | inr (a, m) ↦ elim (key_cases q) [
        | inl b ↦ absurd (cc (no_key q kq b, with_key p kp m, actor_clean q qs qe))
        | inr (b, n) ↦ inl (
            last_separator p.issuer q.issuer p.subject q.subject ps qs
              (cc (with_key p kp m, with_key q kq n)))
      ]
    ]

-- Two callers whose texts hold no NUL own each other's plans only if they are one: equal owners
-- have equal sessions, and the same issuer and subject or, without those, the same audit name.
pub mutation_owner_separates :
    (a b : Context)
    → IsClean a
    → IsClean b
    → mutation_owner a ≡ mutation_owner b
    → (session_id a ≡ session_id b)
      × SameIdentity (principal_from_context a) (principal_from_context b)
unfolding mutation_owner
mutation_owner_separates a b ca cb h =
    let p = principal_from_context a in
    let q = principal_from_context b in
    let (owners, sessions) =
      last_separator (or_actor p (identity_key p)) (or_actor q (identity_key q)) (session_id a)
        (session_id b) ca.session cb.session h in
    (sessions, same_identity p q ca.subject ca.email cb.subject cb.email owners)
