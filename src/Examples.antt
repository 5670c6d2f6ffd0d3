-- ===== src/Examples.antt =====
-- Concrete runs: the theorems at an archive, at frames, at budgets, at a table of addresses, at a
-- session, at a ladder of choices and at the ends of messages.
mod Archives
mod Frames
mod Budgets
mod Addresses
mod Sessions
mod Plans
mod Endings
mod Gates
