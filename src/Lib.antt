-- ===== src/Lib.antt =====
-- A verification library for the API server of the Idena blockchain explorer: a Go program that
-- answers HTTP requests from a PostgreSQL database that an indexer fills, and from the indexer itself.
--
-- How the parts work together. app/api takes a request, asks its limiter for a resource, and calls a
-- service. The services (app/api/service.go, app/service) join what the database accessor returns with
-- what the indexer client returns: the mem pool, the network size. The accessor is app/db/cached in
-- front of app/db/postgres: a bounded cache for each method, and behind it SQL scripts that are run
-- page by page. app/monitoring records how long the requests take, and config/dynamic.go follows a
-- file that changes while the server runs.
--
-- Which module models which part:
--   ChangeLog           app/changelog/changelog.go: the parsing of a change log
--     Parser, Automaton parseChangeLog; the same by an automaton without fuel
--     Sections, Main    the section of a version; the main change log
--     Refresh           the loop that downloads it, and what is served meanwhile
--   GoCache             the interface of github.com/patrickmn/go-cache with what its documentation
--                       says, and an instance on association lists
--   Api.Limiter         app/api/req_limiter.go; reqLimiter is ReqLimiter, takeResource is
--                       take_resource, checkReqLimit is check_req_limit
--     Counting          sequences of requests of many clients
--     Sending           what a send or a receive makes of the two channels
--     Queueing          the two channels as a step relation on the requests in flight
--   Api.Server          requests, replies and the readers of parameters in app/api/server.go and
--                       app/api/common.go
--     Handlers          the handlers of app/api/server.go: epochLast is epoch_last, and so on
--     Router, Routes    initRouter: the routes in the order in which they are given to the router
--       Limits          the largest page of each route
--       Variables       the variables of a path and those that a handler reads
--       Overlap         the routes that match one path
--     Dynamic           the refreshing of the dynamic endpoints, and their handler
--       Lookup          the data that the handler finds
--     Filter            requestFilter: the count of the requests in work
--       Balance, Forms  the requests in flight; the lower case of the names of a form
--   Api.Params          ReadPaginatorParams and GetIP of app/api/common.go
--     Reading           what they accept and return
--   Api.Service         IdentityTxs, Upgrades, Pool and MultisigContract of app/api/service.go
--     Pages, Pools      the page of IdentityTxs; the panics of the other two
--     Links             Upgrade and UpgradeVotings of the same file, with the links
--   Cached.Cache        app/db/cached/cache.go
--   Cached.Key          key of app/db/cached/accessor.go, with the printing of fmt
--     Separation        lists of arguments and their keys
--   Cached.Accessor     getCache, getOrLoad, getOrLoadWithConToken, clearCache of the same file
--     Freshness, Steps, Trace  interleavings of reads, stores and clearings
--     Repeat            the same call twice
--   Cached.EpochWatch   monitorEpochChange of the same file
--     Clearing          the rounds that clear the caches
--   Cached.Methods      the methods of the same file, each as the Entry that it passes to getOrLoad or
--                       getOrLoadWithConToken: EpochFlips is epoch_flips, and so on
--     Coherence         calls that meet in one item of a cache
--     Sharing           CirculatingSupply
--   Postgres.Paging     page, parseUintContinuationToken, getResWithContinuationToken and the reading of
--                       rows in app/db/postgres/common.go
--     Script, Walk      one page of a script; a client that follows the tokens
--     Broken            a connection that fails among the rows
--   Postgres.Filter     createContractsFilter of app/db/postgres/contracts.go and the choice of a script
--     Asking, Choice    the lists of states; the filters that it makes of them
--   Postgres.Votings    readOracleVotingContracts of the same file
--     Grouping, Success the items of its rows; the readings that succeed
--   Postgres.Estimates  calculateEstimatedOracleReward of the same file, and the other estimates
--     Fee, Threshold    the fee of the owner; the divisors
--   Postgres.Keyed      the readers whose tokens hold a key of two parts
--     Script, Page      the rows from a key on; the pages of any such reader
--     Amounts           keys of an id with an amount
--     Pools             Pools and PoolDelegators of app/db/postgres/pools.go
--     Epochs            EpochDelegateeRewards of epoch_delegatee.go, EpochDelegateeTotalRewards of epoch.go
--       Pages, Mixing   the pages of the first; the rows of other epochs in those of the second
--     Signed            page2 and parseIntContinuationToken of app/db/postgres/common.go
--   Postgres.Balances   Balances of app/db/postgres/balances.go
--     Pages             the pages of a table, with resources/scripts/api/balances.sql and stakes.sql
--   Postgres.Answers    epochIdentityAnswers of app/db/postgres/epoch_identity.go
--     Trimming          the answers that are left
--   Postgres.States     convertIdentityStates of app/db/postgres/epoch.go
--   Postgres.TokenBalances  AddressToken, AddressTokens and TokenHolders of app/db/postgres
--     Digits            the digits that the balances keep
--   Postgres.Search     Search of app/db/postgres/postgres.go, and what app/api/service.go adds to it
--     Texts             the search of a text that is no number
--   Postgres.IdentityRewards  EpochIdentitiesRewards of app/db/postgres/epoch.go
--     Grouping, Offsets the rows of an identity; its pages
--   Postgres.Queries    the scripts that the methods of app/db/postgres run, and their arguments
--     Network to Rest   the methods, as Cached.Methods has them; Calls is all of them
--     Scripts, Fit      the files of resources/scripts/api; getQuery
--     Uncached          the methods that go past the caches
--   Postgres.Upgrades   Upgrade and UpgradeVotings of app/db/postgres/upgrades.go
--   Postgres.OracleRewards  app/db/postgres/service.go
--     Loading           runs of its calls
--   Postgres.Tokens     the continuation tokens of two parts, in app/db/postgres/common.go, epoch.go and
--                       tokens.go
--     RoundTrip         their printing and parsing
--   Postgres.Rewards    toDelegationReward and the small readers of app/db/postgres/common.go
--     Replacement       the types of rewards that are hidden
--   Config              config/dynamic.go, and the dump link of app/app.go
--     Polling           rounds of the loop that reads the file
--   Monitoring          app/monitoring/performance.go; its type `record` is Entry
--     Timeline, Peak    the starts and finishes in order; determineMaxReqCount
--     Lifecycle         Start, Complete, one report after another
--   Service.NetworkSize app/service/network_size_loader.go
--   Service.Contracts   app/service/contracts_service.go
--     Bounds            the length of its pages
--   Indexer             Get and Post of indexer/client.go, and the forms of method of indexer/api.go
--     Answers           which answers succeed
--   Prelude             the shared tests, lists, texts, strings, decimal numbers, results and maps
--
-- How the code is read. A text is the list of its bytes. A pointer that may be nil is an Option, a
-- pair of a value and an error is a Result, and where Go returns both, a record with both. A uint64
-- keeps its wrap at 2 ^ 64, an int is an integer of Prelude.Int. A time or a duration is a number of
-- one unit. A map is an association list, so that the order of a Go range is one of the orders that
-- Go may take. A lock is the atomicity of the function that holds it: what can be interleaved are the
-- steps between locks, given as explicit sequences of events. A channel of empty structs is the
-- number of its elements and its capacity; a select takes the choice of the timer as an argument.
--
-- Bounds. Two recursions are on fuel. The client that follows tokens (Postgres.Paging.Walk.walk): its
-- theorem asks for more fuel than there are rows, and gives the result. The loop of parseChangeLog
-- (ChangeLog.Parser): it is given one step more than the text has lines, and the theorem that compares
-- it with the automaton shows that this is enough.
--
-- Parameters. What is not in the repository is an argument: the cache of patrickmn (GoCache), the
-- amounts of shopspring/decimal, with the rounding of their division (Division), the comparison of versions (Semver), the matching of gorilla/mux
-- (Mux), the answers of a web server (Web), and the recovery of an address from a key.
--
-- Not modelled: the SQL scripts, except for the number of their parameters and for the selections that
-- the paging relies on (the last lines of resources/scripts/api/identityTxs.sql, and there balances.sql,
-- stakes.sql, pools.sql, poolDelegators.sql, epochDelegateeRewards.sql, epochDelegateeTotalRewards.sql,
-- addressBalanceUpdates.sql and epochIdentitiesRewards.sql); the scanning of columns; the SQL of
-- dynamic endpoints; the generated documentation in
-- docs; the copy of log15 in log; logging, and the goroutines' sleeping.
pub mod Prelude
pub mod GoCache
pub mod Api
pub mod Cached
pub mod Postgres
pub mod Config
pub mod Monitoring
pub mod Service
pub mod Indexer
pub mod ChangeLog
