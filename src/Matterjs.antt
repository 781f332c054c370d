-- ===== src/Matterjs.antt =====
-- internal/adapters/matterjs: requests to the Matter server, and the reports that it sends.
pub mod Wire
pub mod Client
pub mod Replies
pub mod NodeIds
pub mod Controller
pub mod Commands
pub mod Listener
pub mod Stream
