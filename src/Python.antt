-- ===== src/Python.antt =====
-- The Python runtime as the policy language uses it: dynamic values, the exceptions that evaluation
-- can raise, and the built-in operators on values (mom/Policy/Parser.py calls them directly).
pub mod Value
pub mod Order
pub mod Arith
pub mod Text
pub mod Print
