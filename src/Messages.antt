-- ===== src/Messages.antt =====
-- The messages of the firmware: QcHandshakeMessages.hpp, QcFileRequest.hpp, QcStateReads.hpp,
-- QcModelRepoMessage.hpp, QcSetlistPositionMessage.hpp and QcFileMessage.hpp.
pub mod Requests
pub mod Replies
pub mod File
pub mod Sizes
pub mod LastField
pub mod Decode
pub mod Listing
mod Tests
