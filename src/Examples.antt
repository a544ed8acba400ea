-- ===== src/Examples.antt =====
-- The library's theorems at concrete inputs, and runs of its definitions.
mod Deciding
mod Recommending
mod Disclosing
mod Ingesting
mod Hinting
mod Screening
mod Preparing
mod Serving
mod Verified
mod Operating
mod Starting
mod Attesting
mod Answering
