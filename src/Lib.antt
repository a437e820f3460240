-- ===== src/Lib.antt =====
-- NDY HUB, the backend: apps/api of the repository, a NestJS service over a Prisma database.
--
-- Parts, and the files that model them:
--   Access            apps/api/src/common/permissions.ts: roles and what they may do
--   Identity          apps/api/src/common/ndy-id.util.ts: the public NDY ID
--   Admin/RoleChange  apps/api/src/admin/role-change-request.service.ts: role changes by two admins;
--                     it uses Access for the roles and Identity for the id of the promoted user
--   Oauth/AuthCode, Oauth/RefreshToken
--                     apps/api/src/oauth/authorization-code.service.ts and oauth-token.service.ts
--   Trust             apps/api/src/trust/trust.service.ts: tier and score of a user
--   Economy/Ledger, Economy/Reward, Economy/Ecosystem
--                     apps/api/src/ndybits/ndybits.service.ts, reward-engine.service.ts and
--                     apps/api/src/ecosystem-event: an event is forwarded to the reward engine, which
--                     credits the ledger
--   Membership        apps/api/src/membership: plans, and the webhook of the payment provider
--   Signature         apps/api/src/signature/signature.service.ts: signing and attestation
--   Workspace         apps/api/src/workspace/workspace-invite.service.ts: invites to a workspace
--   Workspace/Tenants apps/api/src/workspace/workspace.service.ts and business-workspace.service.ts
--   Actions/Engine, Actions/Registry
--                     apps/api/src/action-engine: requests to run an action, and their approval
--   Actions/Consent   apps/api/src/context-broker/context-broker.service.ts: what AI agents may do for
--                     a user, which the action engine asks; it reads the memberships of Workspace
--   Auth/Account, Auth/Password
--                     apps/api/src/auth/auth.service.ts: accounts, passwords and email codes
--   Auth/LoginRequest the QR login of the same file
--   Auth/Sessions, Auth/Revocation
--                     apps/api/src/auth/session.service.ts, device.service.ts,
--                     security-event.service.ts, and apps/api/src/security/security.service.ts
--   Auth/TwoFactor    apps/api/src/auth/totp.service.ts and sms-2fa.service.ts
--   Auth/DeviceApproval
--                     apps/api/src/auth/device-approval.service.ts
--   Notifications     apps/api/src/notifications/notification.service.ts
--   Common            what the parts share: tables with their laws, request handlers, lists, integers
--
-- Correspondence. A table of the database is the list of its rows, oldest first; `find`, `update`,
-- `count`, `select`, `insert` are the client's calls. A method of a service is a function of the
-- same name in snake case, with the guards in the order of the source. It is a `Handler`: from the
-- store to a result, `ok` or the exception, and the store that it leaves, so what was written before
-- an exception stays. A row that the database would refuse for a unique column is an explicit test.
--
-- Abstractions. Ids, hashes, tokens, emails and texts that are only compared are numbers (`Key`). A
-- time is a number of milliseconds, and a request reads the clock once. Ids and tokens that are
-- drawn are arguments. SHA-256, bcrypt, the authenticator and SMS checks, the JWT library, the
-- Stripe SDK and the services behind the actions are parameters. In a page of the feed the client
-- looks the row of the cursor up in the whole table, and skips what it skips behind the `where`. A
-- handler runs with no other request in between, but for Oauth/AuthCode/Races,
-- Oauth/RefreshToken/Races, Actions/Engine/Races and Auth/LoginRequest/Refinement, where the
-- statements of concurrent requests interleave. Scores are natural numbers; the subtraction of the
-- penalties never meets 0.
--
-- Bounds. `Identity.decimal` runs on fuel equal to the number itself, at least its count of digits; it
-- is `String` on the safe integers, and what `String` makes of a larger number is a parameter.
-- `follow` in Economy/Ecosystem/Feed runs on fuel, and more fuel than there are events is enough. All
-- other functions are structural.
--
-- Not modelled: the web frontend, controllers, guards and DTOs; the transport of mails and texts, and
-- logs; the calls that other services make to notify; passkeys and social login; NDYSPACE, NDYQR, CRYNDY and the
-- other product features.
pub mod Common
pub mod Access
pub mod Identity
pub mod Admin
pub mod Oauth
pub mod Trust
pub mod Economy
pub mod Membership
pub mod Signature
pub mod Workspace
pub mod Actions
pub mod Auth
pub mod Notifications
