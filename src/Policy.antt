-- ===== src/Policy.antt =====
-- The policy language and the store of policies (mom/Policy).
pub mod Code
pub mod Grammar
pub mod Scanner
pub mod Stack
pub mod Machine
pub mod Builtins
pub mod Functions
pub mod Forms
pub mod Dispatch
pub mod Evaluator
pub mod Expressions
pub mod Typing
pub mod Program
pub mod Store
