-- ===== src/Auth/Tests.antt =====
-- The theorems on roles at concrete paths and tokens.
use dts.Common.{String, true, ◌≡◌, refl, List, [], ◌∷◌, some, arith}
use dts.Auth.Rbac.{
  Role, dba, operator, viewer, TokenSet, operator_allowed, may_change, allowed, has_token,
  find_role, authenticate,
}
use dts.Auth.Ranks.{allowed-rank}

operator_starts : allowed operator "POST" "/api/v1/migrations/t/start" ≡ true
unfolding allowed may_change operator_allowed
operator_starts = refl

allowed-rank_example : allowed dba "POST" "/api/v1/migrations/t/start" ≡ true
allowed-rank_example =
    allowed-rank operator dba "POST" "/api/v1/migrations/t/start" (omega arith) operator_starts

dba_replays : allowed dba "POST" "/api/v1/migrations/t/cdc/dlq/d" ≡ true
unfolding allowed
dba_replays = refl

abbrev tokens_of : Role → List String
tokens_of operator = "x" ∷ "y" ∷ []
tokens_of viewer = "y" ∷ []
tokens_of _ = []

abbrev set : TokenSet
set = record { tokens = tokens_of }

known : authenticate set "y" ≡ some operator
unfolding authenticate find_role has_token
known = refl
