-- ===== src/Tests.antt =====
-- Runs of the model on concrete inputs, with instances of its parameters.
mod Memory
mod Kept
mod Store
mod Watching
mod Reconciling
mod Managing
mod Tool
mod Developing
mod Contexts
mod Commanding
mod Informing
mod Running
mod Wiring
mod Working
mod Printing
mod Adapting
