-- ===== src/Lib.antt =====
-- nexcore-x-ui: a web panel that keeps Xray inbounds and their clients in a SQLite database, bills the
-- clients by Xray's statistics and writes Xray's config. The model covers the services that hold this
-- logic; paths are from the repository's root.
--
-- Exec.antt: the errors of web/service and calls that read and write a state; a transaction puts the
-- state back when it ends in an error.
-- Json.antt: JSON values as encoding/json hands them out.
-- Model.antt: the rows of database/model/model.go and what xray/inbound.go and xray/traffic.go hold.
-- Table.antt: gorm over SQLite, a parameter of every service: the statements with the documented
-- effect of one that succeeds. Table/Memory.antt is a table that meets these laws; Table/Schemas.antt
-- has the keys, the unique indexes and the column defaults. Panel.antt: a statement as a call.
-- Clients.antt: web/service/client_traffic.go (EnsureRow, AddTrafficByEmail, DisableExpired, ..). The
-- order in which Go visits the map of deltas is an argument.
-- Inbounds.antt: web/service/inbound.go (AddInbound, UpdateInbound, SetEnableMany, ..) and the
-- candidate config of web/service/xray_dryrun.go. The interfaces of the host and the verdict of
-- `xray -test` on a list of inbounds are parameters. AddInbound and UpdateInbound call EnsureRow
-- of Clients.antt for the clients that the settings list.
-- Outbounds.antt: web/service/outbound.go; DeleteMany also unbinds inbounds.
-- BlockRules.antt: web/service/block_rule.go: the rules, the presets and the routing rules made of them.
-- XrayConfig.antt: GetXrayConfig of web/service/xray.go, which composes the inbounds, the disabled clients,
-- the block rules and the outbounds over the template, and xray/config.go.
-- EmbeddedClients.antt: web/service/client.go, the clients inside an inbound's settings; it calls
-- UpdateInbound, EnsureRow and DeleteByEmail.
-- MagicTokens.antt: web/service/magic.go, and ApiTokens.antt: web/service/token.go, each on a table
-- of its own; SHA-256 is the parameter `hash`, random plaintexts are arguments.
-- OnlineIps.antt: web/service/online_ip_service.go, the addresses seen per inbound and per email.
-- OnlineWebhook.antt: web/service/online_webhook.go, which pushes them, with the settings of Settings.antt.
-- Xray.antt: RestartXray, StopXray and the restart flag of web/service/xray.go, Equals of xray/config.go,
-- and the process of xray/process.go (coming up, alive or gone) with Stop, over XrayConfig.antt and
-- OnlineIps.antt. The state keeps the replaced processes beside the current one, since one that was not
-- stopped lives on. What starting the binary and the signals do is a parameter.
-- Settings.antt: web/service/setting.go, the settings table behind a cache; Secrets.antt:
-- util/secret/secret.go, the envelope of a sensitive value, which it writes and opens.
-- Auth.antt: web/controller/api/middleware.go, the gate of the API, over ApiTokens.antt and Settings.antt.
-- Routes.antt: the route table of web/controller/api/v1.go behind that gate.
-- Users.antt: web/service/user.go and util/crypto/password.go, the login of the panel.
-- RateLimit.antt: web/controller/api/ratelimit.go.
-- ApiLog.antt: the queue of web/service/apilog.go, and its Purge.
-- Tests: runs of the services on tables held in memory.
--
-- int64 counters and limits are bit patterns below 2 ^ 64 and their sums wrap (Prelude/Words.antt);
-- ids, ports and seconds are natural numbers. Every loop of the code that is modelled runs over a
-- list, except Purge of the log, which takes fuel; more fuel than there are old rows is enough.
--
-- Not modelled: HTTP (web/web.go, web/controller, but for the gate, the routes' scopes, the rate
-- limiter and the restart task), the files and the output of the Xray process, the operating
-- system, remote services, the migrations, and the text of error messages. Float64 rounding in the
-- rate limiter is not modelled.
pub mod Prelude
pub mod Exec
pub mod Json
pub mod Model
pub mod Routes
pub mod Secrets
pub mod Settings
pub mod Table
pub mod Panel
pub mod Clients
pub mod RateLimit
pub mod ApiLog
pub mod Inbounds
pub mod OnlineIps
pub mod OnlineWebhook
pub mod Outbounds
pub mod MagicTokens
pub mod ApiTokens
pub mod Auth
pub mod BlockRules
pub mod Users
pub mod Xray
pub mod XrayConfig
pub mod EmbeddedClients
mod Tests
