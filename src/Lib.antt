-- ===== src/Lib.antt =====
-- A verification library for spliit-mcp, an MCP server that manages shared expenses of Spliit groups
-- on behalf of logged-in users.
--
-- The program. internal/store keeps three tables (users, groups, sessions). The tools of internal/mcp
-- find the caller's row of a group there, ask the Spliit instance of that row through
-- internal/spliit, build a form from the caller's words and the instance's replies, and send it. The
-- web API of internal/handlers edits the same tables.
--
-- Files.
--   Prelude: names of the libraries, tests on native numbers, lists, integers.
--   Text: strings.TrimSpace, EqualFold, Contains (Text.antt); the interface of the decimal library
--     and ToAmount (Text/Decimals); dates of the layout time.DateOnly (Text/Calendar); what the program
--     uses of net/url (Text/Url, with the escapes in Text/Escapes).
--   Store: internal/store/store.go and internal/db/migrations. Rows and errors (Store/Rows),
--     requireAffected, wrapWriteErr and the database engine (Store/Sql), and the operations on users
--     (Store/Users), groups (Store/Groups) and sessions (Store/Sessions). The other files there are
--     proofs: a user's settings keep the groups (Store/Settings), well-formed tables (Store/Consistent, Store/Steps), the caller's scope (Store/Scope,
--     Store/Isolation), the default group (Store/Defaults, Store/Clearing), logins (Store/Logins) and
--     failed writes (Store/Failures).
--   Spliit: the payloads of Spliit's API, the searches for participants and the URL helpers of
--     internal/spliit/client.go (Spliit/Links).
--   Tools: internal/mcp. The errors of a tool (Tools/Outcome), the world of a tool call
--     (Tools/World), buildGroupForm (Tools/GroupForm), buildExpenseForm with the defaults of an update
--     (Tools/ExpenseForm), the calls of internal/spliit/client.go (Tools/Clients), the resolution of
--     the caller and the group (Tools/Resolve), likelyDuplicates (Tools/Duplicates), and
--     createExpense, updateExpense and deleteExpense (Tools/Expenses), listExpenses (Tools/Listing), and
--     the tools that change a group (Tools/Groups), those that make or join one (Tools/NewGroups), and
--     the read-only tools (Tools/Reading). Tools/Sends says which calls a step sends, Tools/Keeps which
--     steps keep the rows of a user's groups.
--   Oidc: internal/oidc/oidc.go. The verification of access tokens and its cache, and the claims of a
--     login. A token's claims are those that the OIDC library reads, by the signature or by
--     introspection.
--   Web: internal/handlers. What a handler answers and when it stops (Web/Reply), the session guard,
--     the login and the logout of auth.go (Web/Session), and of api.go the user's settings (Web/Me),
--     the form of a new group (Web/NewGroup) and the groups (Web/Groups); the routes behind the guard
--     (Web/Routes). GetConfig and ProtectedResourceMetadata of server.go (Web/Published).
--     Web/Reply/Keeps says which handlers keep a user's groups.
--   Config: internal/config/config.go, from the values that viper gives.
--   Migrations: internal/db/db.go. The dialect and target of a URL, the reading of the migration files'
--     names, and Migrate with a fault at every statement.
--   Tests: runs on concrete data.
--
-- How the code is rendered. A table is a list of rows in the order in which the engine scans. A
-- statement takes the driver's fault as an argument: with a fault, or where it violates a constraint,
-- it changes nothing and reports the driver's text. The clock and fresh IDs are arguments too. An
-- error is a value; its text is a constructor with what the text quotes. An instant counts
-- nanoseconds from the start of the year 0, and a moment before that is out of range. A text is a
-- sequence of code points, so bytes that are not UTF-8 are left out.
--
-- Interfaces. `Engine` stands for SQLite or PostgreSQL, `Decimals` for the decimal library and the
-- amount type, `fold` for Unicode's simple case folding, `Api` for the Spliit instances, `Provider`
-- for the OIDC library and the hash of a token, `Values` for what viper reads, `script` for what the text
-- of a migration does to the tables, and `lower` for strings.ToLower.
--
-- Fuel. `split_year` takes a year off in each round, so a count of days is enough rounds;
-- `split_month` takes a month off, and a year has 12; `long_digits` divides by ten.
-- `pages_from`, `list_pages` and `attempts` run over the source's own bounds of ten.
--
-- Not modelled: the texts of the tools' summaries and of duplicateError, get_server_info, the
-- registration of the tools with the MCP library, the discovery of the provider and the state cookie of
-- internal/oidc, the part of a login that the OIDC library does, the serving of files, the loggers, the
-- cache of clients, the opening of a connection, and the wiring of cmd/spliit-mcp. These are I/O, calls of
-- libraries, or wording.
pub mod Prelude
pub mod Text
pub mod Store
pub mod Spliit
pub mod Tools
pub mod Oidc
pub mod Config
pub mod Migrations
pub mod Web
pub mod Tests
