-- ===== src/Tests.antt =====
-- The theorems at concrete inputs.
mod Ids
mod Hashes
mod Likes
mod Sync
mod Sets
mod Texts
mod Kafka
mod Discussion
mod Notices
mod Inbox
mod Feeds
mod Tweets
mod Posts
mod Batches
mod Accounts
mod Pages
