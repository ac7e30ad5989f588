-- ===== src/Examples.antt =====
-- Concrete runs of the model: a wire format, a peer that keeps a ledger, and the theorems at concrete
-- inputs.
mod Packing
mod Layers
mod Wire
mod Peer
mod Keys
mod Connection
mod Assets
mod Routing
mod Transactions
mod Contracts
mod Numbers
mod Listing
mod Parsing
mod Documented
mod Gate
mod Calls
mod Partial
mod Gateway
mod Delivery
mod Serving
mod Connected
