-- ===== src/Lib.antt =====
-- The dashboard of prefixd (frontend/), the part of the repository that is written in TypeScript.
--
-- The daemon (Rust, src/) decides on mitigations and announces them; the dashboard reads its HTTP
-- interface and its live feed, and lets operators act. Modelled are the parts of the dashboard that
-- keep state or decide something:
--
-- Session      frontend/lib/auth.ts and frontend/hooks/use-auth.tsx: `login`, `logout`,
--              `getCurrentUser`, and the provider as a step function over completed calls.
-- Permissions  frontend/hooks/use-permissions.ts (`use_permissions`) and the gate
--              frontend/components/require-auth.tsx (`require_auth`, `redirects`).
-- Toast        frontend/hooks/use-toast.ts: reducer, removal queue, module state, listeners.
-- Keys         frontend/hooks/use-api.ts: cache keys and polling of the data hooks; in Keys.Requests
--              what they ask the daemon for, and in Keys.Mock the lists of the demonstration mode.
-- Feed         frontend/components/websocket-provider.tsx: connection, retries, and in Feed.Message
--              the handling of messages, which acts on the cache keys of Keys, with the types that
--              src/ws/messages.rs gives them.
-- Csv          frontend/lib/csv.ts: the text of an export, with a reader to compare it with, which ends
--              rows at line feeds alone or at carriage returns as well.
-- Api          frontend/lib/api.ts: `fetchApi` with its cache of requests under way, `doFetch`, and
--              the debounced event of an expired session, as a step relation; in Api.Endpoints the
--              address and the body of every endpoint function, with Api.Query, Api.Params, Api.Bodies
--              and Api.Types for their parts.
-- Shortcuts    frontend/hooks/use-keyboard-shortcuts.ts: the keydown handler, its refs and timeouts,
--              and the effect that listens.
-- Playbook     frontend/components/dashboard/playbook-editor.tsx: `validatePlaybooks`, and in
--              Playbook.Draft the drafts, the changes to a playbook's steps and the editor's state; in
--              Playbook.Yaml frontend/components/dashboard/playbook-yaml-editor.tsx.
-- Config       frontend/app/(dashboard)/config/page.tsx with one of these editors mounted on it: saving,
--              reloading and the change of the view, as a step relation.
-- Inventory    frontend/app/(dashboard)/inventory/page.tsx: the search and the cards.
-- Table        what the tables of the dashboard share, pages and sorting, and in Table.Events
--              frontend/components/dashboard/events-content-live.tsx, in Table.Mitigations
--              frontend/components/dashboard/mitigations-content-live.tsx with its withdrawals in
--              Table.Withdrawal, in Table.Audit
--              frontend/components/dashboard/audit-log-content-live.tsx; Table.Choices has the
--              choices of their filters and Table.Export their exports. Table.Events.Panel has the
--              selected event and Table.Events.Details its panel,
--              frontend/components/dashboard/event-detail-panel.tsx.
-- Login        frontend/app/login/page.tsx: an attempt to sign in, and leaving the page.
-- Admin        frontend/app/(dashboard)/admin/page.tsx: the page's state with its calls under way, as a
--              step relation, and in Admin.Uptime `formatUptime`.
-- Alerting     frontend/components/dashboard/alerting-config-panel.tsx: the draft of the destinations,
--              in Alerting.Form the form of one and the buttons, in Alerting.Life the panel as a step
--              relation, in Alerting.Results what becomes of the results of a test.
-- Mitigate     frontend/components/dashboard/mitigate-now-dialog.tsx: `isValidIPv4`, `parsePorts`, the
--              form and its submission.
-- Proxy        frontend/app/api/prefixd/[...path]/route.ts: the requests handed to the daemon.
-- History      frontend/app/(dashboard)/ip-history/page.tsx: the search and the time line.
-- Detail       frontend/app/(dashboard)/mitigations/[id]/page.tsx: the page of one mitigation;
--              in Detail.Rule its rule, its time line and its links.
-- Palette      frontend/components/dashboard/command-palette.tsx, and what
--              frontend/app/(dashboard)/mitigations/page.tsx and
--              frontend/app/(dashboard)/events/page.tsx read from their addresses; in Palette.Links
--              the links to events.
-- Layout       frontend/components/dashboard/dashboard-layout.tsx: the frame and its storage.
-- Severity     frontend/components/dashboard/severity-badge.tsx: `deriveSeverity`; in Severity.Badges
--              the tones of the badges beside it, in Severity.Gauges the bars of confidence-bar.tsx and
--              quota-gauge.tsx.
-- Rates        `formatBps` and its like, which several components of the dashboard have.
-- Activity     frontend/components/dashboard/activity-feed-live.tsx: the feed of recent activity.
-- Overview     frontend/app/(dashboard)/page.tsx and
--              frontend/components/dashboard/bgp-session-status.tsx: their numbers and labels.
-- Shell        the parts around the pages: sidebar, top bar, user menu, error boundary and the label
--              of the connection; in Shell.Retry when frontend/components/swr-provider.tsx asks again.
-- Charts       frontend/components/dashboard/vector-breakdown-chart.tsx and
--              frontend/components/dashboard/mitigation-activity-chart.tsx: their data.
-- Remaining    frontend/components/dashboard/active-mitigations-mini.tsx: which mitigations it lists
--              and how long they last.
--
-- Session gives Permissions the operator, and Login meets both; Feed.Message and Keys meet in the
-- cache. Admin, Alerting, Mitigate, Detail and Table.Withdrawal send the requests of Api.Endpoints,
-- which Proxy hands on. Palette and Layout do what Shortcuts tells them,
-- and Shell leads where Palette does. Config mounts the editors of Playbook and sends what they save.
-- Base holds what they share: JavaScript's strings as lists of UTF-16 code units (Base.Text), decimal
-- notation (Base.Decimal), what `fetch` gives back (Base.Http), tests and lists.
--
-- Conventions. A file models the source file that its first comment names; functions and fields keep
-- their names in lower case with underscores. Callbacks and promises are events: a run is a list or a
-- relation of events in any order. `null` and `undefined` are `none`. Time is a number of
-- milliseconds that the caller gives. `fetch`, the browser's sockets and timers, and React's rendering
-- enter as events or arguments. Fuel is used by `to_decimal` alone: n + 1 rounds for n, and
-- `value_from-to_decimal` shows that they are enough. A finite number of JavaScript is a fraction
-- with a sign (Base.Numbers), which holds every double; `createId` is a function of the number of
-- the call.
--
-- Not modelled: the markup and styling of the components and the formats of dates, which are
-- the browser's; the generated widgets of frontend/components/ui; the mock data; the backend.
pub mod Base
pub mod Session
pub mod Permissions
pub mod Toast
pub mod Keys
pub mod Feed
pub mod Csv
pub mod Api
pub mod Shortcuts
pub mod Playbook
pub mod Table
pub mod Admin
pub mod Alerting
pub mod Mitigate
pub mod Proxy
pub mod History
pub mod Login
pub mod Palette
pub mod Detail
pub mod Layout
pub mod Severity
pub mod Charts
pub mod Remaining
pub mod Config
pub mod Inventory
pub mod Activity
pub mod Overview
pub mod Shell
pub mod Rates
