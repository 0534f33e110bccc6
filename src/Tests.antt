-- ===== src/Tests.antt =====
-- The theorems at concrete inputs, and runs of the definitions.
mod Wire
mod Calls
mod Requests
mod Params
mod Life
mod Uris
mod Lexing
mod Naming
mod Generating
mod Server
mod Clients
mod Wiring
mod Dialing
