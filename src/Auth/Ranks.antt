-- ===== src/Auth/Ranks.antt =====
-- A higher role may call what a lower one may, and a token stands for its highest role.
use dts.Common.{
  ℕ, String, Bool, true, false, ◌≡◌, ◌≤◌, ◌<◌, refl, ◌||◌, ◌=s=◌, if◌then◌else◌, some, Bool-cases,
  inl, inr, arith,
}
use text.Mathlib.Text.{starts_with}
use dts.Auth.Rbac.{
  Role, admin, dba, operator, viewer, unknown, TokenSet, is_admin, is_privileged, contains,
  operator_allowed, may_change, allowed, has_token, find_role, roles, authenticate,
}

-- The order of the roles.
abbrev pub rank : Role → ℕ
rank admin = 4
rank dba = 3
rank operator = 2
rank viewer = 1
rank unknown = 0

admin-rank : (r s : Role) → rank r ≤ rank s → is_admin r ≡ true → is_admin s ≡ true
admin-rank r s h k = ground (arith, h, k)

privileged-rank : (r s : Role) → rank r ≤ rank s → is_privileged r ≡ true → is_privileged s ≡ true
privileged-rank r s h k = ground (arith, h, k)

may_change-rank :
    (r s : Role) (path : String)
    → rank r ≤ rank s
    → may_change r path ≡ true
    → may_change s path ≡ true
unfolding may_change
may_change-rank r s path h k = ground (arith, h, k)

-- The end of `Allowed`, from `role == RoleAdmin` on.
abbrev rest_of : Role → String → String → Bool
rest_of role method path =
    if is_admin role then true else (if method =s= "GET" then true else may_change role path)

rest-rank :
    (r s : Role) (method path : String)
    → rank r ≤ rank s
    → rest_of r method path ≡ true
    → rest_of s method path ≡ true
rest-rank r s method path h k = elim (Bool-cases (is_admin s)) [
  | inl e ↦ rw e refl
  | inr e ↦ elim (Bool-cases (is_admin r)) [
    | inl f ↦ ground (arith, e, admin-rank r s h f)
    | inr f ↦ elim (Bool-cases (method =s= "GET")) [
      | inl g ↦ rw e (rw g refl)
      | inr g ↦ rw e (rw g (may_change-rank r s path h (rw g at (rw f at k))))
    ]
  ]
]

if-implies :
    (b x y x' y' : Bool)
    → (x ≡ true → x' ≡ true)
    → (y ≡ true → y' ≡ true)
    → (if b then x else y) ≡ true
    → (if b then x' else y') ≡ true
if-implies true x y x' y' hx hy = hx
if-implies false x y x' y' hx hy = hy

if-true :
    {P : Type 0} (b x y : Bool)
    → (if b then x else y) ≡ true
    → (b ≡ true → x ≡ true → P)
    → (b ≡ false → y ≡ true → P)
    → P
if-true true x y h hit miss = hit refl h
if-true false x y h hit miss = miss refl h

privileged-ge : (role : Role) → is_privileged role ≡ true → 3 ≤ rank role
privileged-ge role h = ground (arith, h)

admin-ge : (role : Role) → is_admin role ≡ true → 3 ≤ rank role
admin-ge role h = ground (arith, h)

-- What a role may call, every higher role may call too: ADMIN, DBA, OPERATOR, VIEWER, unknown.
pub allowed-rank :
    (r s : Role) (method path : String)
    → rank r ≤ rank s
    → allowed r method path ≡ true
    → allowed s method path ≡ true
unfolding allowed
allowed-rank r s method path h =
    if-implies (starts_with path "/api/v1/users") _ _ _ _ (admin-rank r s h) (
      if-implies
        (path =s= "/api/v1/validation-report/key-transition"
          || path =s= "/api/v1/validation-report/key-revocation")
        _ _ _ _ (admin-rank r s h)
        (if-implies (contains path "/cdc/dlq") _ _ _ _ (privileged-rank r s h) (
          if-implies (contains path "/schema-objects/apply") _ _ _ _ (privileged-rank r s h)
            (rest-rank r s method path h))))

-- Dead letters and the application of schema objects are for ADMIN and DBA only, whatever the method.
pub allowed-privileged :
    (role : Role) (method path : String)
    → (contains path "/cdc/dlq" || contains path "/schema-objects/apply") ≡ true
    → allowed role method path ≡ true
    → 3 ≤ rank role
unfolding allowed
allowed-privileged role method path h k =
    if-true (starts_with path "/api/v1/users") _ _ k (λ _ e. admin-ge role e)
      (λ _ k1.
        if-true
          (path =s= "/api/v1/validation-report/key-transition"
            || path =s= "/api/v1/validation-report/key-revocation")
          _ _ k1 (λ _ e. admin-ge role e)
          (λ _ k2.
            if-true (contains path "/cdc/dlq") _ _ k2 (λ _ e. privileged-ge role e)
              (λ no_dlq k3.
                if-true (contains path "/schema-objects/apply") _ _ k3 (λ _ e. privileged-ge role e)
                  (λ no_apply _. absurd (ground (arith, h, no_dlq, no_apply))))))

operator-changes :
    (path : String)
    → operator_allowed path ≡ true
    → (contains path "/cutover"
        || contains path "/rollback"
        || starts_with path "/api/v1/datasources")
      ≡ false
unfolding operator_allowed
operator-changes path h =
    if-true (starts_with path "/api/v1/datasources") _ _ h (λ _ e. cc e)
      (λ no_source k.
        if-true (contains path "/cutover" || contains path "/rollback") _ _ k (λ _ e. cc e)
          (λ no_switch _. elim (Bool-cases (contains path "/cutover")) [
            | inl e ↦ cc (rw e at no_switch)
            | inr e ↦ rw e (rw (rw e at no_switch) no_source)
          ]))

-- An operator's call of another method than GET is never one of a cutover, a rollback or a data source.
pub allowed-operator :
    (method path : String)
    → (method =s= "GET") ≡ false
    → allowed operator method path ≡ true
    → (contains path "/cutover"
        || contains path "/rollback"
        || starts_with path "/api/v1/datasources")
      ≡ false
unfolding allowed may_change operator_allowed
allowed-operator method path h k =
    if-true (starts_with path "/api/v1/users") _ _ k (λ _ e. cc e)
      (λ _ k1.
        if-true
          (path =s= "/api/v1/validation-report/key-transition"
            || path =s= "/api/v1/validation-report/key-revocation")
          _ _ k1 (λ _ e. cc e)
          (λ _ k2.
            if-true (contains path "/cdc/dlq") _ _ k2 (λ _ e. cc e)
              (λ _ k3.
                if-true (contains path "/schema-objects/apply") _ _ k3 (λ _ e. cc e)
                  (λ _ k4. operator-changes path (rw h at k4)))))

first-highest :
    (set : TokenSet) (token : String) (higher : Role) {role : Role}
    → find_role set token roles ≡ some role
    → rank role < rank higher
    → (has_token token (set.tokens role) ≡ true) × (has_token token (set.tokens higher) ≡ false)
unfolding find_role
first-highest set token higher {role} h k = ground (arith, h, k)

-- The token stands for a role that lists it, and no higher role does.
pub authenticate_highest :
    (set : TokenSet) (token : String) (higher : Role) {role : Role}
    → authenticate set token ≡ some role
    → rank role < rank higher
    → (has_token token (set.tokens role) ≡ true) × (has_token token (set.tokens higher) ≡ false)
unfolding authenticate find_role
authenticate_highest set token higher {role} h k = elim (Bool-cases (token =s= "")) [
  | inl e ↦ cc (rw (authenticate, e) at h)
  | inr e ↦ first-highest set token higher (rw (authenticate, e) at h) k
]
