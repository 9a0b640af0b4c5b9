-- ===== src/Tests.antt =====
-- The theorems at concrete inputs, over one instance of the numbers and of the JSON library.
mod Codec
mod Library
mod Run
mod Examples
mod Nodes
mod Threads
mod Serving
mod Journey
mod Decimals
