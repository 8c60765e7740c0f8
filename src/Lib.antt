-- ===== src/Lib.antt =====
-- gozeroX: a microblog of five go-zero services, and what its core logic is proved to do.
--
-- The parts, and how they work together. app/contentService keeps tweets, app/interactService
-- likes, comments and replies, app/noticeService the notices about them, app/recommendService the
-- feed, app/usercenter users. A handler of interactService writes the Redis cache at once and
-- sends a message to Kafka; a consumer (cmd/mq) writes the row later and moves the counts in the
-- database; another message goes to the consumer of noticeService. Ids come from pkg/idgen.
--
-- The files.
-- - Common: shared names, tests and lists on native numbers, signed integers, int64 wrap-around.
-- - Idgen: pkg/idgen/snowflake.go. `Generator` is the package's state, `init` is Init, `gen_id` is
--   GenID; `pack` the shifts. Bits, Laws, Order and Waiting hold the proofs.
-- - Json: the numbers of a decoded message, and toInt64 and toString of the consumers' helper.go.
-- - Cache: pkg/cache/manager.go as its callers use it. Comments, Replies and Tweets are the hashes of
--   the setters and getters in the two servicecontext.go; Partial is about keys that have expired.
--   Manager is its values, sets and lists of ids as texts, Decimal the texts of int64, Pushed the
--   proof on RPush and LRange.
-- - Content: deletetweetlogic.go and updatetweetstatslogic.go of app/contentService, over the SQL of
--   app/contentService/model and the row cache of go-zero (`CachedConn`); Laws holds the proofs.
--   Batch is batchgettweetslogic.go, over any order in which Go visits maps; Shown is its proofs.
--   Listing is listtweetsuidlogic.go with FindByUid, Tweets createtweetlogic.go and
--   gettweetbysnowtidlogic.go; Complete, Made and Undeleted hold their proofs.
-- - Interact: Effects is what handlers do to the world; Likes, CommentLikes, Create, Reply and Delete
--   are the handlers of app/interactService/cmd/rpc/internal/logic with the consumers of likes;
--   CommentConsumer is cmd/mq/internal/consumer/commentconsumer.go; Shared is what the comment
--   handlers share. AllLikes is getuseralllikeslogic.go over the tables that the consumers of likes
--   write. Ids is the sets of ids in the servicecontext.go, Pushers its pool of Kafka pushers. Laws,
--   Sent, Adds, TopComments, Counts, Counters, One, Moves, Returns and Told below them hold the proofs.
-- - Notice: Tables is the SQL of app/noticeService/model, Consumer is noticeconsumer.go, Handlers is
--   getunreadcountlogic.go and markreadlogic.go, Listing is getnoticeslogic.go. Rows, Invariant,
--   Reach, Counts, Cancel and Read hold the proofs, and Names, Complete and OneCursor those of
--   the pages.
-- - Feed: app/recommendService/cmd/rpc/internal/logic/recommendFeedLogic.go; `recommend_feed` is
--   RecommendFeed, `Queue` the Redis list of a user. Build, Queue, Laws and Failures hold the proofs.
-- - Paging: getcommentslogic.go and getreplieslogic.go; Slice is sort.Slice and the order that
--   sortComments leaves; Walk and Reading are about pages in a row. Query is ORDER BY and a cursor in
--   the SQL of FindByUid, for tweets and notices.
-- - Users: app/usercenter. `User`, the SQL, and with Rows the cache of go-zero in front of it are
--   usermodel.go and usermodel_gen.go; Hashes the hash user:info; Accounts, Info and Brief the
--   handlers; Token is GenerateJwtToken and pkg/jwt/jwtmiddleware.go. Coherent and Refines prove the
--   handlers against a directory of accounts, Brief/InOrder the batch read, Stale what the counts of
--   a profile miss.
-- - Tests: the theorems at concrete inputs.
--
-- How the code is modelled. A handler is a function of its request and of what it is told (ids,
-- clock readings, answers of other services) to its response and the calls it makes, in the order
-- of the source; the calls of a goroutine stand where it is started. The counts of such calls are
-- sums, so they do not depend on how goroutines interleave; Pushers takes the steps of goroutines
-- one by one. Code outside the repository is a parameter: the Redis client (`Redis`, `Sets`,
-- `Client`, `Queue`, with the documented behaviour as laws), `sort.Slice`, Kafka, the database as
-- answers, or as a list of rows where the service's own SQL is modelled, bcrypt (a test of a hash
-- and a password) and the JWT library (`Jwt`). Ids and times are native numbers; ids are positive.
-- Counters are integers that do not wrap, for fewer than 2^63 likes; the limit of the feed wraps
-- as an int64 does.
--
-- What a message carries. The consumers read the integers of a message as float64. `Survives n` says
-- that n comes out unchanged: so do the integers below 2^53, and of the larger ids those with sequence
-- 0, while other ids that GenID makes after 2024-01-25 may be rounded. The theorems on messages have
-- this condition where they need it.
--
-- Bounds and fuel. The wait of GenID for the next millisecond runs on fuel, one round for each
-- reading of the clock; fuel for two rounds more than the readings before the clock passes the
-- last timestamp is enough. FormatInt writes 20 digits at most, and an int64 has 19. Reading pages
-- in a row takes one page more than there are entries.
--
-- Not modelled: the HTTP layers, which copy fields; generated code that no handler calls;
-- configuration and scripts; the expiry of Redis keys, but for what a reader finds after it;
-- logging.
pub mod Common
pub mod Idgen
pub mod Json
pub mod Cache
pub mod Content
pub mod Interact
pub mod Notice
pub mod Feed
pub mod Paging
pub mod Users
mod Tests
