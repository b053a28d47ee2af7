-- ===== src/Lib.antt =====
-- SafeDock's web console (internal/web/frontend/src): what the pages compute, keep and send, with the
-- parts of the server in Go (internal/api, internal/auth, internal/db, internal/deployer) that decide
-- what an account may do, what it is shown and what a host is given to run.
--
-- The console is a single page. App.jsx fetches the containers and hands them to the views; each
-- view keeps a small state of its own and sends requests through `fetch`. A component is modelled
-- by a record for its state, a data type for what can happen to it and a `step`; a handler runs up
-- to its `await` in one step, and what stands behind the `await` is run when the answer comes.
--
--   Common          tests on numbers, lists, texts as UTF-16 code units, sorting, decimals
--   PasswordPolicy  lib/passwordPolicy.js and components/PasswordChecklist.jsx: `checkPassword`;
--                   PasswordPolicy/Server: `CheckPassword` of internal/crypto/password.go
--   Trim            `trim` on the fields of the forms
--   Grades          lib/utils.js, and `gradeFromScore` of components/ComplianceView.jsx
--   Fleet           App.jsx: `fetchContainers` (`process`) and the effect on `stats` (`stats_of`);
--                   Fleet/Score: the card of the score in components/ContainerDetailView.jsx
--   Dashboard       components/DashboardView.jsx
--   Report          lib/postureReport.js
--   Compliance      components/ComplianceView.jsx
--   Inventory       components/ContainersView.jsx; Inventory/Csv: its `exportCSV`
--   Cockpit         components/ContainerDetailView.jsx: the table of the vulnerabilities;
--                   Cockpit/Overrides: the overrides, with `handleSaveOverride` of App.jsx and the
--                   decoding in internal/api/handlers.go;
--                   Cockpit/Scans: the scans, the saves and the deletions, with their overlaps
--   Trend           components/ContainerDetailView.jsx: `VulnTrendChart`
--   Charts          components/DashboardView.jsx: `SeverityBar`, `CveChart` and the journal
--   Settings        components/SettingsView.jsx: the global settings;
--                   Settings/Server: /api/config in internal/api/handlers.go and internal/db/db.go;
--                   Settings/Mail: the test of the SMTP server, with internal/api/testemail.go
--   Audit           components/AuditView.jsx
--   ContainerSettings  components/ContainerSettingsView.jsx
--   Users           components/UsersView.jsx: invitations, roles, tags and the table
--   Updates         components/ActionsView.jsx, and `handleTriggerRollout` of App.jsx
--   Scope           components/UsersView.jsx: the editor of scopes, and the page that opens it
--   Backups         components/SettingsView.jsx: the settings of the backups;
--                   Backups/Copies: their list
--   Session         lib/session.js
--   Http            the answers of `fetch` as the forms take them
--   Login           components/LoginView.jsx: the sign-in
--   Limiter         internal/auth/limiter.go, with its calls in internal/auth/auth.go
--   Setup           components/SetupView.jsx: the assistant of the first start
--   Invite          components/InviteView.jsx: the page of a link of invitation
--   Account         components/AccountView.jsx, and `ForcedPasswordChange` of App.jsx
--   Agents          components/AgentsView.jsx, with `handleAddHost` of App.jsx
--   Identity        components/AgentsView.jsx: the SSH key of SafeDock, with internal/api/users.go
--   Provision       the script that opens a host: internal/api/provision.go; Provision/Shell: how a shell
--                   reads one; Provision/Endpoint: the handler between the requests of Agents
--   Tags            the tags of a container: `toggleTag` of components/ContainerDetailView.jsx, with
--                   internal/api/users.go, internal/db/db.go and internal/api/handlers.go
--   Notices         components/NotificationsView.jsx, with internal/db/db.go and internal/api/users.go
--   Visible         what an account sees: internal/api/users.go, internal/api/handlers.go and
--                   internal/db/db.go, with the tables of Tags and what Scope saves
--   Verdict         whether a new image may replace an old one: internal/deployer/lifecycle.go
--   Exceptions      components/ExceptionsView.jsx, with its requests in App.jsx
--   App             App.jsx: addresses, pages and the session;
--                   App/Screens: the gates and the view router; App/Sidebar: components/Sidebar.jsx
--   Header          components/Header.jsx, with the card of components/AccountView.jsx (Account/Card)
--   Feeds           App.jsx: the lists that it fetches, polls and fetches again behind a change;
--                   Feeds/Due: the tables behind the lists and the changes (internal/db/db.go)
--
-- The proofs of a part stand in its child modules, and runs on concrete inputs in its Tests.
--
-- Outside the model and so arbitrary: the answers of the server, the order in which they come, and
-- what the user does. Parameters: `toLowerCase` (Inventory, Cockpit), `toUpperCase` (Exceptions,
-- Header), `JSON.parse` (Session), the local form of a date (Notices), Go's package strings
-- (Settings/Server, Settings/Mail, Provision, Tags, Verdict), its `net.ParseIP` (Provision) and the fingerprint of
-- a key (Identity), and the tables of its package unicode (PasswordPolicy/Server), of which the ASCII
-- part is a hypothesis.
-- Requests on their way are kept in the state, as a list (Common/Flight) or a number, and an answer
-- names the one that it ends; a timer is an event that can come at any time.
-- Texts are lists of code units; numbers are natural or, in Common/Int, signed and exact, as
-- doubles are below 2 ^ 53; `-` on natural numbers stops at 0 where the source clamps or where it is
-- proved exact; percentages are rounded exactly, where the doubles of JavaScript can lose a tie. Loops
-- over arrays are structural recursion. The one use of fuel is `decimal`, which is given one round
-- more than the number: a round divides by ten, so that this is enough.
--
-- Not modelled: the Go server but for the parts named above, the pages that are named nowhere
-- above, styles and layout, icons, dates, the clipboard, the pictures of QR codes, windows and
-- downloads.
pub mod Common
pub mod PasswordPolicy
pub mod Grades
pub mod Fleet
pub mod Dashboard
pub mod Report
pub mod Inventory
pub mod Http
pub mod Login
pub mod App
pub mod Setup
pub mod Invite
pub mod Compliance
pub mod Session
pub mod Backups
pub mod Cockpit
pub mod Trim
pub mod Audit
pub mod Scope
pub mod Account
pub mod Settings
pub mod Updates
pub mod Users
pub mod ContainerSettings
pub mod Agents
pub mod Charts
pub mod Trend
pub mod Exceptions
pub mod Feeds
pub mod Header
pub mod Tags
pub mod Provision
pub mod Limiter
pub mod Notices
pub mod Visible
pub mod Identity
pub mod Verdict
