-- ===== src/Lib.antt =====
-- TheLab's Cloudflare Worker (site/src): membership, door access, billing, sign-in and the public pages
-- of a makerspace, over a D1 database (site/migrations), Stripe, Discord and the edge proxy on the
-- makerspace's network.
--
-- How the parts interact. A request reaches `fetch` of site/src/index.tsx, which checks where a POST
-- comes from and picks a handler. Handlers read and write `members` and the tables beside it; triggers
-- write history, assignment intervals and the revision of `edge_changes` in the same transaction. After
-- a change of access a handler calls `pushFobs`, which sends the authorized fobs with that revision to
-- the edge proxy. Stripe's webhook starts `syncMember`, which copies the current subscription into the
-- database, pushes, and brings the Discord role in line.
--
-- Which file models which part:
-- Base: equality tests, lists and texts. `length` and the like are over the native numbers.
-- Rows, Sql: `Member`, `MemberEvent` and `discounts` of site/src/lib.ts; SQL's three-valued conditions.
-- Policy: `grantsMembership`, `selectCurrentSubscription`, `memberAccessSQL`, `fobEnabledSQL` of
--   site/src/lib.ts.
-- Database: the tables and triggers of site/migrations as one record, and each SQL statement of site/src
--   that writes as a constructor of `Statement`, with its effect `exec`; Counters and Later follow a member's
--   version counters through any statements. A broken UNIQUE constraint rolls
--   a statement back. Times are milliseconds.
-- Json, App, Clients: JSON values; a request as a computation that may throw; `provider`, `discord`,
--   `stripe`, `stripeList` and `guildUsername` of site/src/lib.ts. App/Requests has the rules for what a
--   computation sends, returns and keeps.
-- Prices: Stripe prices and the price cache of an isolate, of site/src/billing.ts.
-- Html: `render` of site/src/html.ts, and `page` of site/src/page.tsx (Layout).
-- Machines: site/static/machines.js, the printers' page. Credentials and Cards have the checks of what the
--   worker and the edge send, Dashboard the page's variables, its timers and the calls of `refresh` that
--   wait, Replies how such a call goes on, Events its events as a step relation, Markup its elements. `new URL` and the decoding of the
--   token are arguments; a call that waits goes on with any reply or failure, at any time. A timer that is
--   due is taken to fire before a 'pageshow'.
-- Router: `routes` and `fetch` of site/src/index.tsx.
-- Edge: tokens, `pushFobs` and `edgeSyncRequest` of site/src/edge.tsx. Keys has `signingKey` with the
--   cache that an isolate keeps for one environment, `edgeJWKS` and `edgeEventKey`; what Platform calls the event key and the signing
--   of claims are its `event_key_of_secret` and `signed_token`.
-- Billing: `setDiscordRole`, `syncDiscordRole`, `syncMember` and `stripeWebhook` of site/src/billing.ts
--   (Role, Sync), `membershipPrice` and `resolvePricing` (Pricing), `checkoutLink` and `checkout`
--   (Checkout), and `verifyStripe` of site/src/lib.ts (Signature).
-- Session: cookies, `signToken`, `readToken`, `readSession` of site/src/lib.ts.
-- Forms: `readForm`, `getCookie`, `validEmail`, `memberName` and `memberPath` of site/src/lib.ts.
-- Auth: `safeNext`, `login`, `discordIdentity`, `registerMember`, `callback` and `logout` of
--   site/src/auth.ts.
-- Admin: site/src/admin.tsx. Validation has the checks of the forms, Editing the creation, editing and
--   deletion of members, Checkout the saved billing choices, Like and Listing the search, the filters and
--   the pages of the member list, History the events, Views the markup of the
--   pages, Showing what they read, and Routing `adminRequest`, whose answers are redirects and views.
-- Kiosk: `kioskPage`, `kioskClaim`, `bindFob` with its pages, and `machinesData` of site/src/edge.tsx.
-- Scanner: `startKiosk` of site/static/kiosk/app.js, the kiosk's page, as a step relation over its keys,
--   timers and replies. What `api` gives is part of the step; `preventDefault` is left out. Spec is what the
--   page promises, as a small machine of its own, and Refines relates the two.
-- Swipes: `isSwipe` and `swipeWebhook` of site/src/edge.tsx.
-- Waiver: `verifyHuman` and `signWaiver` of site/src/waiver.tsx.
-- Examples: runs at concrete inputs.
--
-- What stands outside is a parameter, the record `Platform` of App: the replies to outgoing requests,
-- as a function of the requests sent before; what other requests commit before each statement of this
-- one; the clock and random values; and the runtime's URL and signing functions. Theorems over a
-- `Platform` hold for all of these. The signatures of tokens and the coding of JSON as base64 are the
-- record `Crypto` of Session; `Works` of Session/Tokens names what a token relies on. `Date.parse`,
-- `toLowerCase`, `Number` of a form's version (`none` where it is no natural number, which no version
-- equals), the HMAC of a webhook and the text of the state cookie are arguments of what calls them.
--
-- Bounds and fuel. The `while` loop of `syncDiscordRole` and the paging loop of `stripeList` take fuel,
-- and stop with the failure `out_of_fuel` where it ends; the source has no such failure. One round of
-- `syncDiscordRole` is enough when no other request touches the member. The batches of `swipeWebhook`
-- take the number of inserts as fuel, which is enough since each batch takes one at least.
--
-- What is not modelled: CHECK constraints (the handlers validate before they write), the text of JSON
-- and of query strings (a reply is the value that it parses to, a query its list of parameters), request
-- headers other than the bearer credential and the idempotency key, logging, and JavaScript numbers that
-- are not natural. The lookups that `syncMember` starts together are made one after the other. Other
-- requests that fill the price cache of the same isolate are not modelled. The pages that handlers return
-- are named by constructors, apart from the admin pages and those that link a fob, which have their
-- HTML. The other browser scripts of site/static, which toggle classes and form controls, the edge proxy
-- (edgeproxy, in Go) and the door controller's firmware (access-controller, in Rust) are not modelled
-- either.
pub mod Base
pub mod Sql
pub mod Rows
pub mod Policy
pub mod Database
pub mod Json
pub mod Prices
pub mod App
pub mod Clients
pub mod Html
pub mod Router
pub mod Edge
pub mod Billing
pub mod Examples
pub mod Session
pub mod Kiosk
pub mod Swipes
pub mod Auth
pub mod Forms
pub mod Waiver
pub mod Admin
pub mod Scanner
pub mod Machines
