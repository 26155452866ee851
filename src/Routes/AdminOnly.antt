-- ===== src/Routes/AdminOnly.antt =====
-- What changes anything is for the scope admin.
use nexcore_x_ui.Prelude.{
  ℕ, ◌≡◌, ◌⊎◌, refl, sym, ◌∙◌, String, Bool, true, false, ◌||◌, List, [], ◌∷◌, str_eq, eq_iff,
  one_of, all, all_of_mem, Memᴰ, arith,
}
use nexcore_x_ui.Table.{Table}
use nexcore_x_ui.Table.Schemas.{api_tokens_schema, settings_schema}
use nexcore_x_ui.Settings.{Env}
use nexcore_x_ui.Auth.{Request, extract_token, Identity, admitted, Gate}
use nexcore_x_ui.Auth.Admitted.{ByRow, ByLegacy, require_scope-authorized}
use nexcore_x_ui.Routes.{Method, get, Route, routes, gate}

abbrev pub is_read : Method → Bool
is_read get = true
is_read _ = false

abbrev is_admin_only : List String → Bool
is_admin_only [] = false
is_admin_only (scope ∷ []) = str_eq scope "admin"
is_admin_only (scope ∷ other ∷ more) = false

reads_or_admin : all (λ (r : Route). is_read r.method || is_admin_only r.allowed) routes ≡ true
reads_or_admin = refl

admin_of :
    (allowed : List String) (scope : String)
    → is_admin_only allowed ≡ true
    → one_of allowed scope ≡ true
    → scope ≡ "admin"
admin_of [] scope h k = cc
admin_of (a ∷ []) scope h k = sym ((eq_iff a scope).0 (ground arith)) ∙ (eq_iff a "admin").0 h
admin_of (a ∷ b ∷ more) scope h k = cc

module _ (tokens : Table api_tokens_schema) (hash : String → String)
    (settings : Table settings_schema) (env : Env) where
  -- On a route of /api/v1 that is no GET, the gate admits only the scope admin: the holder of a row of the
  -- token table that is neither revoked nor expired and has that scope, or of the old single token.
  pub gate-admin :
      (r : Route) (req : Request) (now : ℕ) (s : Gate tokens hash settings env) {i : Identity}
      → Memᴰ r routes
      → is_read r.method ≡ false
      → (gate tokens hash settings env r req now s).0 ≡ admitted i
      → (i.scope ≡ "admin")
        × (ByRow tokens hash settings env (extract_token req) now (tokens.rows s.table) i
            ⊎ ByLegacy tokens hash settings env (extract_token req) s.store i)
  unfolding gate
  gate-admin r req now s {i} listed writes h =
      let (fits, opened) =
        require_scope-authorized tokens hash settings env r.allowed req now s h in
      let checked =
        all_of_mem (λ (q : Route). is_read q.method || is_admin_only q.allowed) routes
          reads_or_admin listed in
      (admin_of r.allowed i.scope (ground arith) fits, opened)
