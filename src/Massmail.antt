-- ===== src/Massmail.antt =====
-- The mass mailings of massmail: the queue of a user's mail accounts, the ids of a mailing, and the
-- loop that sends.
pub mod Queue
pub mod MailingOut
pub mod Owners
pub mod Send
pub mod Contacts
pub mod Loop
pub mod Hours
