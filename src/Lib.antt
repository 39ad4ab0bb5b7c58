-- ===== src/Lib.antt =====
-- The virtual waiting room of tiket: the Cloudflare worker edge/waiting-room/src/index.ts, the
-- Next.js middleware edge/middleware.ts, and the pages of the shop, frontend/app/page.tsx and
-- frontend/app/checkout/page.tsx; and the scripts redis/lua/hold.lua, commit.lua and release.lua,
-- by which the booking service holds, sells and frees seats.
--
-- The program. Users join a pool before the sale (`handleJoin`); at the start of the sale, or at
-- the first admission, the pool is shuffled into the active queue (`maybeShufflePool`, from
-- `handleScheduled` and `handleAdmit`); an operator admits batches within a token bucket
-- (`handleAdmit`, `tokenBucketConsume`), and each admitted user gets a signed token
-- (`signQueueToken`); users poll their place (`handleStatus`), which gives a token to a place
-- within the watermark. The middleware lets a request to a checkout route through if it carries
-- such a token. All state is in Redis or, without it, in KV. The pages join the waiting room, keep
-- the token, let the user pick seats, and ask the booking service to hold and to commit them.
--
-- The files, by the code that they model:
--   Base, Base/*        lists, options, tests, texts, and asynchronous code with throws
--   Platform            clock, random numbers, KV, Redis REST, Turnstile: a parameter
--   Env                 `Env`, the constants, `parseInt` of a setting
--   Redis               `RedisClient`
--   Token/Base64        `b64urlEncode`, `b64urlDecodeToBytes`
--   Token/Claims        the claims of a token by name
--   Token/Split         the parts of a token
--   Token/Sign          `signQueueToken`
--   Token/Verify        `verifyQueueToken`
--   Token/Laws          what is relied on of base64, UTF-8, JSON and HMAC; RoundTrip, Accept and
--                       Window beside it hold the proofs
--   RateLimit           `hitRateLimit`; Window beside it holds the proof
--   Bucket/Step         the arithmetic of `tokenBucketConsume`; Bucket/Consume its reads and writes;
--                       Rate, Retry and Spent the proofs
--   Shuffle             `shuffleInPlace`; Shuffle/Perm and Shuffle/Reached the proofs
--   Http                requests, bodies, headers, `corsHeaders`, `json`
--   Room/Guards         `verifyTurnstile`, `getEventMeta`
--   Room/Queue          the array operations of the KV queues
--   Room/Join           `handleJoin`
--   Room/Pool           `maybeShufflePool`
--   Room/Status         `handleStatus`
--   Room/Admit          `handleAdmit`
--   Room/Schedule       `handleScheduled`
--   Room/Router         `fetch`
--   Room/Store          what is relied on of KV; Sorted, Seats, Popped, Moved, Pushed, Joined,
--                       Tickets, Admission, Standing, Overtaken and Reach hold the proofs
--   Room/Sets           what is relied on of Redis' sorted sets; Entered and Apart hold the proofs
--   Room/Lined          the same of a set as a line of members, and of values and pipelines; Served
--                       (an admission), Drawn (the shuffle of the pool) and Told (a status) hold
--                       the proofs
--   Room/Race           two joins that read before either writes; Room/Due the sweep of one event
--   Room/Spec           the abstract join, and the join without Redis against it
--   Room/Thrown         a request that no response answers
--   Middleware/Request  `isApiRequest`, `extractEventId`, `extractToken`
--   Middleware/Enforce  `hmacVerify`, `checkJtiAllowlist`, `middleware`; Claims, Safety and Accepts
--                       hold the proofs
--   Storefront/State    the state of `Home` in frontend/app/page.tsx
--   Storefront/Load     its effects that read the read service
--   Storefront/Picks    `toggleSeat` and the seat buttons; Limit holds the proof
--   Storefront/Booking  `doHold` and `doCommit`, each up to its request and from its answer on
--   Storefront/Countdown  `countdown`; Exact holds the proofs
--   Storefront/Browser  clock, random ids, `localStorage`, `fetch`: a parameter
--   Storefront/Join     `signDevQueueToken`, `joinQueue`; Forged holds the proof
--   Storefront/View     what is computed for display
--   Storefront/Screen   what the page shows of its state; Fresh and Shown hold the proofs
--   Storefront/Session  clicks and answers as a step relation; Life, Lifecycle, Distinct, Held
--                       and Tokenless hold the proofs
--   Checkout/Input      the text of seat ids; Checkout/RoundTrip the proof
--   Checkout/Page       `CheckoutInner` of frontend/app/checkout/page.tsx; Checkout/Sent the proof
--   Stock/Calls         `redis.call` of the scripts in redis/lua: a parameter, and what is relied on
--   Stock/Hold          hold.lua; Granted, Counted and Decided hold the proofs
--   Stock/Commit        commit.lua; Sold, Buyers and Committed hold the proofs
--   Stock/Release       release.lua; Freed and Restored hold the proofs
--   Stock/Once          scripts in any order after a sale; Stock/Lost after the end of a seat's key
--   Tests/*             a world in memory, base64 coders, and the theorems at concrete inputs
--
-- State. A handler is a function `W → Outcome A × W` of the world; a throw keeps what was written
-- before it. The keys of the store are constructors of `Key`, the stored JSON values constructors
-- of `Value`. The statements without Redis take `KvLaws`: a read gives what was last written, a
-- write changes its own key only, a write with a lifetime below 60 seconds throws, as KV documents,
-- and no key ends while a handler runs. RedisLaws say the same of sorted sets: reads change nothing,
-- a write changes one member of one set. LineLaws, RankLaws and PoolLaws give a set's members in the
-- order of their scores. Except in Room/Race, where two joins are interleaved, a handler runs alone,
-- and `Promise.all` runs its calls in their order.
--
-- Numbers. Scores count units of 2⁻⁵³, the step of `Math.random()`, and tokens of a bucket count
-- thousandths; both are exact, so the rounding of floating point is not modelled: nothing is stated
-- of a retry after the delay of a refusal, which doubles can refuse again. `none` is NaN. Settings
-- and claims with a negative number are outside the model. Times of ISO texts are kept as
-- milliseconds. Loops are structural recursion: on the list, on the index of the shuffle, on the
-- number wanted; there is no fuel.
--
-- Claims. The ids in a token's claims are texts or absent; numbers in claims are natural. Tokens are
-- lists of code units, and the middleware's texts are of the Basic Multilingual Plane.
--
-- Exceptions. `importKey` throws on an empty secret, `headers.set` on a text that is no header value
-- (`is_header_value`, a parameter), and a read of a field throws where the parsed value is null or
-- the field is no text. Of a request's body, a batch is a natural number or missing, and the token of
-- Turnstile a text or missing; the other fields may be anything.
--
-- Scripts. Redis runs a script as one step, so a script is a function from world to reply and world;
-- an order of scripts is a series of steps, with ends of keys between them. KEYS[1] is an inventory
-- and the other KEYS are seats. Counters of a hash are integers, and so is what a script reads by
-- `tonumber`; the other fields are texts.
--
-- Pages. A handler is split at each `await`: what it does up to its request, and what it does with
-- the answer, which may come at any time and after any other click. The answers of the read and
-- booking services are records of the fields that the pages read. A step of a session is a click
-- on a button that is enabled, or an answer; a hold or a commit that is under way is the session's
-- `wait`. Seat ids of the checkout page, whose text is cut, are lists of code units.
--
-- Not modelled: the markup of the pages, their fonts and date formats; the hardhat scripts and the
-- load test, which call other programs and have no logic of the queue; the Solidity contracts, the
-- Go services (which carry shorter copies of the Lua scripts), SQL and deployment files, which are
-- other programs. The text of a redirect's URL and the wording of error bodies are constructors.
pub mod Base
pub mod Platform
pub mod Env
pub mod Redis
pub mod Token
pub mod RateLimit
pub mod Bucket
pub mod Shuffle
pub mod Stock
pub mod Http
pub mod Room
pub mod Middleware
pub mod Storefront
pub mod Checkout
pub mod Tests
