-- ===== src/Strategies.antt =====
-- The strategy builder (backend/app/strategy/domain.py and builder.py): drafts and their legs.
pub mod Draft
pub mod Builder
pub mod Built
pub mod Editing
pub mod Ready
pub mod Payoff
pub mod Margin
pub mod Book
pub mod Quote
pub mod Plan
pub mod Execute
pub mod Exit
pub mod SquareOff
pub mod Marking
pub mod Frame
pub mod Executed
pub mod Filled
pub mod Checking
pub mod Execution
pub mod Unmargined
pub mod Paying
pub mod LegIds
pub mod Closing
pub mod Finish
pub mod Settled
