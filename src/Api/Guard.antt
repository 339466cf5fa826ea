-- ===== src/Api/Guard.antt =====
-- src/common/guards/jwt-auth-guard.ts, src/module/auth/strategy/jwt.strategy.ts and
-- src/common/decorators/current-user.decorator.ts: who sends a request.
use lexi_ledger_backend.Base.{ℕ, String, Option, none, some}
use lexi_ledger_backend.Schema.{Role}
use lexi_ledger_backend.Platform.{Action, pure, throw, ◌>>=◌, unauthorized, Env, JwtPayload, now}

-- `CurrentUserPayload`
pub record CurrentUserPayload : Type 0 where
  pub user_id : ℕ
  pub role : Role

-- `JwtStrategy.validate`
abbrev pub validate : JwtPayload → CurrentUserPayload
validate payload = record { user_id = payload.sub; role = payload.role }

-- The guard's answer to what the strategy has found.
abbrev pub admit : Option JwtPayload → Action CurrentUserPayload
admit none = throw (unauthorized "Unauthorized")
admit (some payload) = pure (validate payload)

module _ (env : Env) where
  -- `JwtAuthGuard`, on the token that passport takes from the header `Authorization`.
  unfoldable pub jwt_auth_guard : Option String → Action CurrentUserPayload
  jwt_auth_guard none = throw (unauthorized "Unauthorized")
  jwt_auth_guard (some token) = do t ← now env; admit (env.jwt_verify t token)
