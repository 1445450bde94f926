-- ===== src/Lib.antt =====
-- A verification library for AnyAuth, a local single sign-on hub with agent authorization (Go).
--
-- The program's parts and the files that model them:
--
-- - internal/authz: the authorization model. Authz/Model.antt has identities, resources, permissions
--   and requests, Authz/Grants.antt the grants and when one may be derived from another,
--   Authz/GrantSet.antt the checks of a set of grants and the walks up a chain of grants,
--   Authz/Evaluate.antt the evaluator, Authz/Service.antt the Authorizer over its interfaces.
-- - internal/authzstore: the file store behind it. AuthzStore/Types.antt has its types,
--   AuthzStore/Normalize.antt the normal form of a file, AuthzStore/Validate.antt the validators,
--   AuthzStore/Store.antt loading, saving and the operations. Each operation holds the mutex from its
--   start to its end, so it is a function of the disk; an operation `x` of the model decides in
--   `plan_x` what to save and to return, and saves it with `commit`.
-- - internal/agentregistry, internal/clientregistry and internal/policy keep a file each, with the
--   same code for loading, saving, adding and removing: Registry/Store.antt has it once, over a record
--   `Kind` of what differs, and Registry/Ids.antt, Registry/Loading.antt and Registry/Changes.antt what
--   follows from the laws of such a record. AgentRegistry/Agents.antt, ClientRegistry/Clients.antt and
--   Policy/Store.antt fill it in.
-- - internal/policy also decides on requests by method, path, agent and scope. Policy/Rules.antt has
--   the rules and their normal form, Policy/Evaluate.antt the decision, Policy/Matching.antt and
--   Policy/Slashes.antt when a rule applies, Policy/Normal.antt what is relied on of strings.ToUpper and strings.ToLower.
-- - internal/delegation: Delegation/Records.antt has the stored delegations, with loading, saving and
--   revoking, Delegation/Creation.antt Create, and Delegation/Tokens.antt the claims and ValidateToken,
--   which also reads the agents of AgentRegistry/Agents.antt. What Create makes is in
--   Delegation/Timely.antt and Delegation/Created.antt, what it leaves in the file in Delegation/Kept.antt.
-- - internal/auditlog: AuditLog/Events.antt has the events and the validator, AuditLog/Log.antt Append
--   and Load over the lines of the log.
-- - internal/userstore: UserStore/Derive.antt has pbkdf2, UserStore/Profiles.antt the profile of the user
--   with loading, saving, setting and verifying the PIN.
-- - internal/localdev: the local server. LocalDev/State.antt has its state, LocalDev/Http.antt forms,
--   cookies and responses, LocalDev/Startup.antt what Start builds. The provider of OpenID Connect is in
--   LocalDev/Provider.antt (authorize, login) and LocalDev/Tokens.antt (token, userinfo); a handler is a
--   function of the store, and LocalDev/Codes.antt has the steps of handlers that run at the same time, a
--   step for each time that the mutex is held; LocalDev/Serving.antt has the handlers as such steps. LocalDev/Relying.antt is what the clients of the provider
--   share, LocalDev/Demo.antt the demo apps, LocalDev/Protect.antt the login of the protected proxy, and
--   LocalDev/Proxy.antt and LocalDev/Proxying.antt the proxy, which asks internal/delegation and
--   internal/policy and writes to internal/auditlog. LocalDev/Replies.antt, LocalDev/Requests.antt,
--   LocalDev/Deciding.antt and LocalDev/Evaluation.antt are the endpoints for agents of authorization.go,
--   over the files of internal/agentregistry, internal/authzstore and internal/auditlog.
--
-- Parameters. jose.SignJWT (`sign`), jose.VerifyRS256JWT (`verify`), jose.PKCES256 (`pkce`), the SHA-256 of a text in hexadecimal (`digest`),
-- strings.ToUpper and strings.ToLower (`to_upper`, `to_lower`), url.Parse (`parse`), the length of an
-- encoded event (`size`), HMAC, base64 and the bytes of a text (`Library`), what jose.RandomURLToken,
-- rand.Read and GenerateSecret return, the current time (`clock`) and the sources of internal/authz.
--
-- Conventions. A Go text is a native String, which stands for valid UTF-8; `<` on texts is by code
-- points, which is the order of the bytes. A time.Time is the number of nanoseconds since Go's zero
-- time, so IsZero is a test for 0 and UTC changes nothing; instants before the year 1 are left out.
-- A function that returns only an error is an Option, none for nil; one that returns a value and an
-- error is a Result, whose third case stands for a function that does not return. Errors are data
-- types with a constructor for each message. A map is the list of its entries. sort.Slice and
-- sort.Strings are a stable insertion sort, which is one of the orders that sort.Slice may leave entries
-- in that it does not tell apart. The numbers of claims are integers within the range of int64.
--
-- Fuel. The walks up a chain of grants take one round more than there are grants; they end within
-- it for every set of grants, cyclic ones included, since the search for a cycle visits a grant once.
--
-- Base.antt passes on the shared helpers: tests and conditionals (Base/Tests.antt), lists
-- (Base/Lists.antt), the functions of the package strings (Base/Text.antt), sorting (Base/Sort.antt),
-- the trimming of lists of texts (Base/Tokens.antt), maps (Base/Maps.antt) and results (Base/Results.antt).
--
-- Not modelled: of internal/localdev the sockets, the discovery and key
-- documents and the markup of pages; internal/jose (cryptography); the command line of cmd/anyauth; and
-- the encoding of files as JSON, which fails for years after 9999.
pub mod Base
pub mod Authz
pub mod AuthzStore
pub mod Registry
pub mod AgentRegistry
pub mod ClientRegistry
pub mod Delegation
pub mod AuditLog
pub mod UserStore
pub mod LocalDev
pub mod Policy
