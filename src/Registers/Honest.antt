-- ===== src/Registers/Honest.antt =====
-- What a handler of a register announces, the server has accepted.
pub mod Accounts
pub mod Lists
use koranco.Registers.Service.{Service}
