-- ===== src/Auth/Rbac.antt =====
-- rbac.go: `Allowed`, `Authenticate` and `Empty`.
use dts.Common.{
  String, Bool, true, false, ◌||◌, ◌=s=◌, if◌then◌else◌, List, [], ◌∷◌, Option, none, some,
}
use text.Mathlib.Text.{starts_with, find?}

-- `Role`; any other text is `unknown`.
pub data Role : Type 0 where
  admin dba operator viewer unknown : Role

abbrev pub is_admin : Role → Bool
is_admin admin = true
is_admin _ = false

-- `role == RoleAdmin || role == RoleDBA`
abbrev pub is_privileged : Role → Bool
is_privileged admin = true
is_privileged dba = true
is_privileged _ = false

-- `strings.Contains`
abbrev pub contains : String → String → Bool
contains s part = elim (find? s part) [ none ↦ false | some i ↦ true ]

-- What an operator may call besides GET.
unfoldable pub operator_allowed : String → Bool
operator_allowed path =
    if starts_with path "/api/v1/datasources"
    then false
    else (if contains path "/cutover" || contains path "/rollback"
        then false
        else (if starts_with path "/api/v1/alerts/"
            then true
            else starts_with path "/api/v1/migrations"))

-- The end of `Allowed`: no path of its own rule, and another method than GET.
unfoldable pub may_change : Role → String → Bool
unfolding operator_allowed
may_change admin path = true
may_change dba path = true
may_change operator path = operator_allowed path
may_change viewer path = false
may_change unknown path = false

-- `Allowed`
unfoldable pub allowed : Role → String → String → Bool
unfolding may_change
allowed role method path =
    if starts_with path "/api/v1/users"
    then is_admin role
    else (if path =s= "/api/v1/validation-report/key-transition"
          || path =s= "/api/v1/validation-report/key-revocation"
        then is_admin role
        else (if contains path "/cdc/dlq"
            then is_privileged role
            else (if contains path "/schema-objects/apply"
                then is_privileged role
                else (if is_admin role
                    then true
                    else (if method =s= "GET" then true else may_change role path)))))

-- `TokenSet`: the tokens of each role.
pub record TokenSet : Type 0 where
  pub tokens : Role → List String

-- The inner loop of `Authenticate`; the comparison in constant time is equality.
unfoldable pub has_token : String → List String → Bool
has_token token [] = false
has_token token (t ∷ ts) = if token =s= t then true else has_token token ts

-- The outer loop.
unfoldable pub find_role : TokenSet → String → List Role → Option Role
unfolding has_token
find_role set token [] = none
find_role set token (role ∷ roles) =
    if has_token token (set.tokens role) then some role else find_role set token roles

abbrev pub roles : List Role
roles = admin ∷ dba ∷ operator ∷ viewer ∷ []

-- `Authenticate` of a set that is not nil.
unfoldable pub authenticate : TokenSet → String → Option Role
unfolding find_role
authenticate set token = if token =s= "" then none else find_role set token roles
