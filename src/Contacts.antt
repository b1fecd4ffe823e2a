-- ===== src/Contacts.antt =====
-- internal/contacts: the address book, its permissions and the lookup of a sender.
pub mod Permission
pub mod Book
pub mod Store
