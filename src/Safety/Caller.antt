-- ===== src/Safety/Caller.antt =====
-- internal/requestmeta/context.go and `mutationOwner` of internal/safety/decorator.go: who calls.
-- A context value that was never set is `none`; the accessors then give Go's zero value.
pub mod Owner
use Prim.Native.String.{◌++◌}
use aura_tracker_gcp.Prelude.{String, ◌||◌, Option, none, some, ◌==◌, string_eq, if◌then◌else◌}

pub record Principal : Type 0 where
  pub subject : String
  pub email : String
  pub audience : String
  pub issuer : String

abbrev pub no_principal : Principal
no_principal = record { subject = ""; email = ""; audience = ""; issuer = "" }

pub record Context : Type 0 where
  pub principal : Option Principal
  pub session : Option String

abbrev or_zero {ℓ} : {A : Type ℓ} → A → Option A → A
or_zero zero_value none = zero_value
or_zero zero_value (some a) = a

unfoldable pub principal_from_context : Context → Principal
principal_from_context ctx = or_zero no_principal ctx.principal

unfoldable pub session_id : Context → String
session_id ctx = or_zero "" ctx.session

unfoldable pub actor : Principal → String
actor p = if p.email == "" then p.subject else p.email

unfoldable pub identity_key : Principal → String
identity_key p = if p.issuer == "" || p.subject == "" then "" else p.issuer ++ ("\0" ++ p.subject)

abbrev or_actor : Principal → String → String
or_actor p key = if key == "" then actor p else key

unfoldable pub mutation_owner : Context → String
mutation_owner ctx =
    let p = principal_from_context ctx in or_actor p (identity_key p) ++ ("\0" ++ session_id ctx)
