-- ===== src/Routes.antt =====
-- web/controller/api/v1.go, the route table of /api/v1: every route of the three groups with the scopes that
-- its group allows. GET /health stands outside of them and needs no token. A handler is its name.
pub mod AdminOnly
use nexcore_x_ui.Prelude.{ℕ, String, Bool, true, false, List, [], ◌∷◌}
use nexcore_x_ui.Table.{Table}
use nexcore_x_ui.Table.Schemas.{api_tokens_schema, settings_schema}
use nexcore_x_ui.Settings.{Env}
use nexcore_x_ui.Auth.{Request, Outcome, Gate, require_scope, auth_middleware}

pub data Method : Type 0 where
  get post put patch delete : Method

pub record Route : Type 0 where
  pub method : Method
  pub path : String
  pub handler : String
  pub allowed : List String

abbrev sub : List String
sub = "admin" ∷ "readonly" ∷ "subscription" ∷ []

abbrev ro : List String
ro = "admin" ∷ "readonly" ∷ []

abbrev admin : List String
admin = "admin" ∷ []

abbrev route : List String → Method → String → String → Route
route allowed method path handler = record {
  method = method;
  path = path;
  handler = handler;
  allowed = allowed;
}

abbrev pub routes : List Route
routes =
    route sub get "/inbounds/:id/links" "inboundLinks"
    ∷ route sub get "/subscription" "subscriptionAll"
    ∷ route sub get "/inbounds/:id/subscription" "subscriptionOne"
    ∷ route ro get "/server/status" "serverStatus"
    ∷ route ro get "/xray/status" "xrayStatus"
    ∷ route ro get "/xray/config" "xrayEffectiveConfig"
    ∷ route ro get "/xray/logs" "xrayLogs"
    ∷ route ro get "/xray/template" "xrayTemplateGet"
    ∷ route ro get "/inbounds" "listInbounds"
    ∷ route ro get "/inbounds/:id" "getInbound"
    ∷ route ro get "/inbounds/:id/clients" "listClients"
    ∷ route ro get "/outbounds" "listOutbounds"
    ∷ route ro get "/outbounds/:id" "getOutbound"
    ∷ route ro get "/block-rules/:id" "getBlockRule"
    ∷ route ro get "/traffic" "dbTraffic"
    ∷ route ro get "/traffic/live" "liveTraffic"
    ∷ route ro get "/online-ips" "listOnlineIps"
    ∷ route ro get "/online-ips-by-email" "listOnlineIpsByEmail"
    ∷ route ro get "/online-ips/:tag" "listOnlineIpsByTag"
    ∷ route ro get "/block-rules" "listBlockRules"
    ∷ route ro get "/block-rules/presets" "listBlockRulePresets"
    ∷ route ro get "/system/listening-ports" "listeningPorts"
    ∷ route ro get "/system/check-port" "checkPort"
    ∷ route ro get "/system/update-check" "updateCheck"
    ∷ route ro get "/system/update-progress" "updateProgress"
    ∷ route ro get "/system/update-releases" "updateReleases"
    ∷ route ro get "/access-logs" "listAccessLogs"
    ∷ route ro get "/certs" "listCerts"
    ∷ route ro get "/settings" "getSettings"
    ∷ route ro get "/tokens" "listTokens"
    ∷ route admin post "/xray/restart" "xrayRestart"
    ∷ route admin put "/xray/template" "xrayTemplatePut"
    ∷ route admin post "/inbounds" "createInbound"
    ∷ route admin put "/inbounds/:id" "updateInbound"
    ∷ route admin patch "/inbounds/:id/enable" "setInboundEnable"
    ∷ route admin delete "/inbounds/:id" "deleteInbound"
    ∷ route admin post "/inbounds/:id/reset-traffic" "resetInboundTraffic"
    ∷ route admin post "/inbounds/bulk" "bulkCreateInbounds"
    ∷ route admin patch "/inbounds/bulk-enable" "bulkSetEnable"
    ∷ route admin post "/inbounds/bulk-delete" "bulkDelete"
    ∷ route admin post "/inbounds/reset-all-traffic" "bulkResetTraffic"
    ∷ route admin post "/inbounds/disable-invalid" "disableInvalidInbounds"
    ∷ route admin post "/outbounds" "createOutbound"
    ∷ route admin put "/outbounds/:id" "updateOutbound"
    ∷ route admin patch "/outbounds/:id/enable" "setOutboundEnable"
    ∷ route admin delete "/outbounds/:id" "deleteOutbound"
    ∷ route admin post "/outbounds/bulk-delete" "bulkDeleteOutbounds"
    ∷ route admin post "/outbounds/:id/test" "testOutbound"
    ∷ route admin patch "/settings" "patchSettings"
    ∷ route admin post "/settings/api-token/rotate" "rotateAPIToken"
    ∷ route admin post "/tokens" "createToken"
    ∷ route admin patch "/tokens/:id" "renameToken"
    ∷ route admin post "/tokens/:id/revoke" "revokeToken"
    ∷ route admin delete "/tokens/:id" "deleteToken"
    ∷ route admin post "/inbounds/:id/clients" "addClient"
    ∷ route admin put "/inbounds/:id/clients/:identifier" "updateClient"
    ∷ route admin delete "/inbounds/:id/clients/:identifier" "deleteClient"
    ∷ route admin get "/inbounds/:id/client-traffics" "listClientTraffics"
    ∷ route admin get "/clients/:email/traffic" "getClientTraffic"
    ∷ route admin post "/clients/:email/reset-traffic" "resetClientTraffic"
    ∷ route admin patch "/clients/:email/limits" "patchClientLimits"
    ∷ route admin patch "/clients/:email/enable" "setClientEnable"
    ∷ route admin post "/clients/disable-expired" "disableExpiredClients"
    ∷ route sub get "/inbounds/:id/links/by-email" "inboundLinksByEmail"
    ∷ route sub get "/inbounds/:id/clients/:email/share" "clientShare"
    ∷ route admin post "/certs" "uploadCert"
    ∷ route admin delete "/certs/:name" "deleteCert"
    ∷ route admin post "/block-rules" "createBlockRule"
    ∷ route admin put "/block-rules/:id" "updateBlockRule"
    ∷ route admin patch "/block-rules/:id/enable" "setBlockRuleEnable"
    ∷ route admin delete "/block-rules/:id" "deleteBlockRule"
    ∷ route admin post "/block-rules/apply-preset" "applyBlockRulePreset"
    ∷ route admin post "/system/restart-panel" "restartPanel"
    ∷ route admin post "/login-tokens" "createMagicToken"
    ∷ route admin delete "/access-logs" "purgeAccessLogs"
    ∷ route admin post "/system/update-apply" "updateApply"
    ∷ []

module _ (tokens : Table api_tokens_schema) (hash : String → String)
    (settings : Table settings_schema) (env : Env) where
  -- The gate in front of a route's handler: AuthMiddleware, then the group's RequireScope. The rate limiter
  -- between them turns requests away and admits none.
  unfoldable pub gate :
      Route → Request → ℕ → Gate tokens hash settings env → Outcome × Gate tokens hash settings env
  unfolding require_scope auth_middleware
  gate r req now s =
      let (o, t) = auth_middleware tokens hash settings env req now s in
      (require_scope r.allowed o, t)
