-- ===== src/Interact.antt =====
-- app/interactService: likes, comments and replies, from the RPC handlers to the consumers that
-- write the database.
pub mod Effects
pub mod Likes
pub mod CommentLikes
pub mod Shared
pub mod Create
pub mod Reply
pub mod CommentConsumer
pub mod Delete
pub mod AllLikes
pub mod Ids
pub mod Pushers
