-- ===== src/ContractFunction.antt =====
-- Calls of smart contracts: the selector of a function (contract_function_selector.go), the bytes
-- of its arguments (contract_function_parameters.go) and the values of its result
-- (contract_function_result.go).
pub mod Buffers
pub mod Selector
pub mod Parameters
pub mod Result
mod Examples
